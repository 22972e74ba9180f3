-- ===== src/Lib.antt =====
-- session.link: the protocol of end-to-end encrypted session links, as its Rust crates implement it.
--
-- An account is a chain of signed events (crates/slink-protocol). Each event carries the whole state
-- after it: the devices that may act for the account, the recovery keys, the epoch of the vault key
-- and the incoming-share key. `verify_history` walks the chain from its first event; everything else
-- (the vault record, device requests, named shares) is checked against the state that it returns.
--
-- Which file models what:
--
-- + Common: numbers, lists, options, results, and text. A Rust `String` is the list of its
--   characters (`Text`), a `Vec<u8>` or `[u8; N]` the list of its bytes (`Bytes`); a length that
--   Rust knows from a type is a hypothesis or a check here.
-- + Protocol/Crypto, Encoding, Errors, Names, Signed: crypto.rs, encoding.rs, the error types of
--   lib.rs and their text, signed.rs and keys.rs. Functions of other packages (base64, ring,
--   x25519-dalek, and serde_json's reader) are the fields of the record `Libs`, a parameter of every
--   definition that calls them.
--   What a theorem needs of them is a hypothesis of Protocol/Laws (`IsBase64`, `IsEd25519`, `IsAes`,
--   `IsX25519`), which Tests/Standard meets with concrete functions.
-- + Protocol/Json, Payload, Write: payload.rs. Write/Encode has the `encode` functions of the types
--   of statements, Write/Scan a reader of string literals to compare with. serde_json's reader
--   hands over a tree in which an object may repeat a key (`Raw`); `once` makes the `Value` of it or
--   refuses it.
-- + Protocol/Decimal: how a number is written in decimal. Its fuel is the number plus one, and each
--   round divides by ten, so that it cannot run out.
-- + Protocol/Wrap, Envelope: wrap.rs, boxes and wrappers of keys, and envelope.rs, documents.
-- + Protocol/Record, Request, Recovery, Named: record.rs, request.rs, recovery.rs and named.rs. What
--   each accepts is stated beside it (Record/Accepted, Named/Claims, Request/Laws, Recovery/Laws).
-- + Format/DateTime, Invariants: datetime.rs of crates/slink-format, and `invariant_errors` of its
--   validate.rs. The loop over the parents of a span has as much fuel as there are spans and one more
--   round; Invariants/Chains and Acyclic prove that this is enough.
-- + Client/Errors, Device: the errors of crates/slink-client/src/identity.rs, and device.rs, what a
--   machine has pinned of an account. Device/Pins states what an accepted `pin` checked.
-- + Client/Changes: the next states that the actions of identity.rs make. What is drawn at random is
--   an argument. Changes/Permitted compares them with `step`.
-- + Client/Actions: `device_name` and the loop of `handle`, of identity.rs. One attempt is an
--   argument, a step on a state of any type.
-- + Client/Origin: origin.rs. The readers of addresses, of the standard library, are a parameter.
-- + Client/Receipt, Vault: vault.rs. Vault/Open reads the contents, and an outbox of named.rs, with
--   serde_json's reader and the one of standard base64 as parameters; Vault/Rules opens its rules.
--   The files of the directories that `merge` reads are an argument, in their order, each with the
--   JSON value that it holds, if any.
-- + Client/Named: the addresses, the recipients and the outbox of named.rs, and `share_id` of
--   publish.rs. Named/Kept opens the rules for an outbox. For recipients, `trim` and then
--   `to_lowercase`, which goes by the tables of Unicode, are one parameter.
-- + Client/Maps, Texts: Rust's `BTreeMap` with text keys, and what the client uses of `str`.
-- + Protocol/History: history.rs. `State`, `Device` and `Operation` are its types; History/Read has
--   `read_state` and `check_keys`, History/Step has `step`, History/Walk has `walk` (the loop's
--   variables are `Progress`, one round is `walk_event`). The children prove: Step/Maps and
--   Step/Permitted what an accepted step does to the devices as a map from ids, Walk/Rounds, Links
--   and Chain how an accepted walk falls into links, and the others the properties below.
-- + Tests: runs at concrete inputs over stand-ins for the libraries (Tests/Toy), and the theorems at
--   inputs that meet their hypotheses.
--
-- Counters are u64 in the source and natural numbers here: a payload's counts are at most 2^53 - 1
-- (`max_safe_integer`), so that `epoch + 1` does not wrap around.
--
-- Not modelled: the rest of crates/slink-format; of crates/slink-client the network calls, the lock
-- file and the files themselves, the JSON of the device, and how the vault and the outbox are written; the
-- command line, the local store, the importers and the server (crates/slink, slink-local,
-- slink-import), whose code is mostly input and output; the Go and TypeScript implementations.
pub mod Client
pub mod Common
pub mod Format
pub mod Protocol
pub mod Tests
