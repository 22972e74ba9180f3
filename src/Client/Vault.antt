-- ===== src/Client/Vault.antt =====
-- crates/slink-client/src/vault.rs: what the account's vault holds, and the rules it is held to.
pub mod Merge
pub mod Rules
pub mod Open
pub mod Inboxes
use session_link.Common.{
  ℕ, ◌+◌, ◌*◌, Bool, true, false, not, ◌&&◌, ◌||◌, Option, none, some, List, [], ◌∷◌, ◌++◌, Text,
  Bytes, codes, all, contains, length, byte_len, ltb, leb, ◌==◌, nat_eq, text_eq, if◌then◌else◌,
  Result, ok, err, ok_or, guard, refuse_if, is_ok, map_err, ◌>>=◌, ◌>>◌,
}
use session_link.Common.Options.{is_some}
use session_link.Protocol.Json.{Value, Items, Fields}
use session_link.Protocol.Payload.{get, fields_of, as_str, as_u64}
use session_link.Protocol.Crypto.{Libs}
use session_link.Protocol.Encoding.{encode, decode_exact}
use session_link.Protocol.Signed.{AgreementKey, agreement_public}
use session_link.Protocol.History.{State}
use session_link.Protocol.Record.{Verified, open_vault}
use session_link.Protocol.Wrap.{split_once}
use session_link.Client.Errors.{Error, from}
use session_link.Client.Maps.{Map, put, find, values}
use session_link.Client.Maps.Collect.{collect}
use session_link.Client.Named
use session_link.Client.Named.{Outbox, share_id, lowercase, digit, text_or_empty}
use session_link.Client.Receipt.{Receipt, read_receipt, receipt_valid}

abbrev pub max_entries : ℕ
max_entries = 10000

abbrev pub max_inboxes : ℕ
max_inboxes = 512

abbrev pub max_plaintext : ℕ
max_plaintext = 4 * 1024 * 1024

-- The vault's contents.
pub record Contents : Type 0 where
  pub version : ℕ
  pub shares : List Receipt
  pub inboxes : Map Text
  pub named : List Outbox

-- `invalid`
abbrev pub invalid : Error
invalid = Error.refused (codes "invalid key vault")

module _ (lib : Libs) where
  -- The loop over the incoming-share keys.
  unfoldable pub check_inbox_keys : Map Text → Result Error (Unit {0})
  check_inbox_keys [] = ok tt
  check_inbox_keys ((public, private) ∷ rest) = do
    bytes ← map_err from (decode_exact lib 32 private)
    guard (agreement_public lib (record { bytes = bytes }) == public)
        (Error.refused (codes "invalid incoming-share key"))
    check_inbox_keys rest

  -- The `match` on the state's incoming-share key.
  unfoldable pub check_inboxes : Contents → Option Text → Result Error (Unit {0})
  check_inboxes self none =
      refuse_if (not (self.version == 1) || not (length self.inboxes == 0))
        (Error.refused (codes "unbound incoming-share keys"))
  check_inboxes self (some inbox) = do
    refuse_if (not (self.version == 2) || ltb max_inboxes (length self.inboxes))
        (Error.refused (codes "update slink to read this key vault"))
    guard (is_some (find inbox self.inboxes))
        (Error.refused (codes "incoming-share key is missing"))
    check_inbox_keys self.inboxes

  -- The rules of `Contents::open` on what was read.
  unfoldable pub check_contents : Contents → Text → State → Result Error (Unit {0})
  check_contents self server state = do
    refuse_if (not (self.version == 1 || self.version == 2) || ltb max_entries (length self.shares))
        invalid
    check_inboxes self state.inbox
    refuse_if (ltb max_entries (length self.named))
        (Error.refused (codes "too many private shares"))
    guard (all (λ item. Named.valid lib item server state.account state.root) self.named)
        (Error.refused (codes "invalid private sharing backup"))
    guard (all (receipt_valid lib server state.account) self.shares)
        (Error.refused (codes "invalid share key in vault"))

  -- `Contents::named_fit`
  unfoldable pub named_fit : Contents → Text → State → Bool
  named_fit self server state =
      leb (length self.named) max_entries
      && (length self.named == 0 || self.version == 2)
      && all (λ item. Named.valid lib item server state.account state.root) self.named

  -- The receipts among the files, each read or not: the loop of `merge`, but for its `insert`.
  unfoldable pub local_receipts : Text → Text → List (Option Value) → List Receipt
  local_receipts server account [] = []
  local_receipts server account (file ∷ files) =
      let rest = local_receipts server account files in
      elim file [
        | none ↦ rest
        | some value ↦ elim (read_receipt value) [
          | none ↦ rest
          | some receipt ↦ if receipt_valid lib server account receipt then receipt ∷ rest else rest
        ]
      ]

  -- `Contents::merge`, given the files of `shares` in their order and the outbox that was read.
  unfoldable pub merge :
      Contents
      → Text
      → Text
      → List (Option Value)
      → Result Error (List Outbox)
      → Result Error Contents
  merge self server account files outbox = do
    let by_url =
        collect Receipt.url (local_receipts server account files)
          (collect Receipt.url self.shares [])
    saved ← outbox
    let named = collect Outbox.sha256 saved (collect Outbox.sha256 self.named [])
    refuse_if (ltb max_entries (length (values by_url))) (Error.refused (codes "key vault is full"))
    ok (record self {
      version = if self.version == 0 then 1 else self.version;
      shares = values by_url;
      named = values named;
    })

  -- `Contents::rotate_inbox`: the contents and the state after it.
  unfoldable pub rotate_inbox : Contents → State → Bytes → Contents × State
  rotate_inbox self state private =
      let public = agreement_public lib (record { bytes = private }) in
      (
        record self { inboxes = put public (encode lib private) self.inboxes; version = 2 },
        record state { inbox = some public },
      )
