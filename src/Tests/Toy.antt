-- ===== src/Tests/Toy.antt =====
-- Stand-ins for the libraries that crates/slink-protocol calls, simple enough to compute with: text
-- is its bytes behind a filler that gives it base64's length, and a signature is the signer's first
-- byte 64 times.
use session_link.Common.{
  ℕ, ◌+◌, ◌-◌, ◌*◌, ◌/◌, true, Option, none, some, List, [], ◌∷◌, ◌++◌, Text, Bytes, codes, length,
  take, replicate, ◌==◌, nat_eq, text_eq, if◌then◌else◌, get_or,
}
use session_link.Protocol.Json.{Number, Raw, RawItems, RawFields}
use session_link.Protocol.Crypto.{Libs}
use session_link.Protocol.Encoding.{encoded_len}
use session_link.Protocol.History.{operation_as_str, Device, State}

abbrev pub toy_encode : Bytes → Text
toy_encode bytes = bytes ++ replicate (encoded_len (length bytes) - length bytes) b'A'

abbrev pub toy_decode : Text → Option Bytes
toy_decode text =
    if toy_encode (take (length text * 3 / 4) text) == text
    then some (take (length text * 3 / 4) text)
    else none

-- A reader that knows the listed payloads.
abbrev pub read_table : List (Bytes × Raw) → Bytes → Option Raw
read_table [] raw = none
read_table ((known, tree) ∷ rest) raw = if known == raw then some tree else read_table rest raw

abbrev pub toy : List (Bytes × Raw) → Libs
toy table = record {
  base64_encode = toy_encode;
  base64_decode = toy_decode;
  sha256 = λ bytes. bytes;
  ed25519_public = λ seed. seed;
  ed25519_sign = λ seed message. replicate 64 (get_or seed 0 0);
  ed25519_verify = λ public message signature. signature == replicate 64 (get_or public 0 0);
  hkdf_sha256 = λ secret info. secret;
  hmac_sha256 = λ key message. key;
  hmac_sha256_verify = λ key message tag. key == tag;
  aes_256_gcm_seal = λ key nonce associated plain. plain ++ replicate 16 0;
  aes_256_gcm_open = λ key nonce associated sealed. some (take (length sealed - 16) sealed);
  x25519_public = λ private. private;
  diffie_hellman = λ private public. replicate 32 (get_or private 0 0 + get_or public 0 0);
  was_contributory = λ shared. true;
  from_slice = read_table table;
}

abbrev pub key_text : ℕ → Text
key_text k = toy_encode (replicate 32 k)

abbrev pub wrapper_text : ℕ → Text
wrapper_text k = key_text k ++ b'.' ∷ toy_encode (replicate 60 k)

abbrev pub raw_text : Text → Text → RawFields → RawFields
raw_text name value rest = RawFields.field name (Raw.string value) rest

abbrev pub raw_count : Text → ℕ → RawFields → RawFields
raw_count name value rest = RawFields.field name (Raw.number (Number.unsigned value)) rest

abbrev raw_device : Device → Raw
raw_device d = Raw.object (
    raw_text (codes "id") d.id (
      raw_text (codes "name") d.name (
        raw_text (codes "sign") d.sign_key
          (raw_text (codes "box") d.box_key (raw_text (codes "wrap") d.wrap RawFields.end)))))

abbrev raw_devices : List Device → RawItems
raw_devices [] = RawItems.nil
raw_devices (d ∷ ds) = RawItems.cons (raw_device d) (raw_devices ds)

abbrev raw_inbox : Option Text → RawFields → RawFields
raw_inbox none rest = rest
raw_inbox (some inbox) rest = raw_text (codes "inbox") inbox rest

-- A state as the reader hands it over.
abbrev pub raw_state : State → Raw
raw_state s = Raw.object (
    raw_inbox s.inbox (
      raw_text (codes "account") s.account (
        raw_count (codes "seq") s.seq (
          raw_text (codes "prev") s.prev (
            raw_text (codes "kind") (operation_as_str s.kind) (
              raw_text (codes "signer") s.signer (
                raw_text (codes "root") s.root (
                  raw_text (codes "recovery") s.recovery (
                    raw_text (codes "recovery_box") s.recovery_box (
                      raw_text (codes "recovery_wrap") s.recovery_wrap (
                        raw_count (codes "epoch") s.epoch (
                          RawFields.field (codes "devices") (Raw.array (raw_devices s.devices))
                            RawFields.end))))))))))))
