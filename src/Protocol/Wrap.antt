-- ===== src/Protocol/Wrap.antt =====
-- crates/slink-protocol/src/wrap.rs: boxes (bytes under AES-256-GCM with a context) and wrappers (a
-- key in a box that one X25519 key opens). The fixed arrays of the source are lists; the theorems
-- state their lengths.
pub mod Laws
use session_link.Common.{
  ℕ, ◌+◌, Option, none, some, [], ◌∷◌, ◌++◌, Text, Bytes, codes, as_bytes, take, drop, length,
  Result, ok, ok_or, map_err, guard, ◌>>=◌, ◌>>◌, leb, ◌==◌, nat_eq, if◌then◌else◌, to_option,
}
use session_link.Protocol.Errors.{Error}
use session_link.Protocol.Crypto.{Libs, x25519}
use session_link.Protocol.Encoding.{encode, decode, decode_exact}
use session_link.Protocol.Signed.{AgreementKey, agreement_public}

-- A nonce and a tag.
abbrev pub min_sealed : ℕ
min_sealed = 12 + 16

-- `split_once(separator)`
unfoldable pub split_once : ℕ → Text → Option (Text × Text)
split_once separator [] = none
split_once separator (c ∷ rest) =
    if c == separator
    then some ([], rest)
    else elim (split_once separator rest) [ none ↦ none | some (a, b) ↦ some (c ∷ a, b) ]

-- What the two halves of a wrapper are sealed under and bound to.
unfoldable pub info : Text → Text → Text → Text
info context ephemeral recipient =
    codes "slink/wrap/v1/" ++ (context ++ (b'/' ∷ (ephemeral ++ (b'/' ∷ recipient))))

module _ (lib : Libs) where
  -- `plain` in a box under `key`.
  unfoldable pub seal : Bytes → Bytes → Text → Bytes → Text
  seal key plain context nonce =
      encode lib (nonce ++ lib.aes_256_gcm_seal key nonce (as_bytes context) plain)

  -- What is in a box, if `key` and `context` are the ones it was sealed with.
  unfoldable pub unseal : Bytes → Text → Text → Result Error Bytes
  unseal key sealed context = do
    raw ← decode lib sealed
    guard (leb min_sealed (length raw)) Error.unseal
    ok_or Error.unseal (lib.aes_256_gcm_open key (take 12 raw) (as_bytes context) (drop 12 raw))

  -- `key` wrapped to the X25519 public key `recipient`.
  unfoldable pub wrap : Text → Bytes → Text → AgreementKey → Bytes → Result Error Text
  wrap recipient key context ephemeral nonce = do
    public ← decode_exact lib 32 recipient
    secret ← ok_or Error.agreement_key (x25519 lib ephemeral.bytes public)
    let bound = info context (agreement_public lib ephemeral) recipient
    let derived = lib.hkdf_sha256 secret (as_bytes bound)
    let sealed = seal derived key bound nonce
    ok (agreement_public lib ephemeral ++ (b'.' ∷ sealed))

  -- The two halves of a wrapper, if it has a wrapper's shape.
  unfoldable pub split : Text → Option (Text × Bytes × Text)
  split wrapper = elim (split_once b'.' wrapper) [
    | none ↦ none
    | some (ephemeral, sealed) ↦ to_option (do
      public ← decode_exact lib 32 ephemeral
      boxed ← decode_exact lib 60 sealed
      ok (ephemeral, public, sealed))
  ]

  -- The key inside a wrapper made for `private` in this context.
  unfoldable pub unwrap : AgreementKey → Text → Text → Result Error Bytes
  unwrap private wrapper context = do
    parts ← ok_or Error.wrapper (split wrapper)
    secret ← ok_or Error.unwrap (x25519 lib private.bytes parts.1)
    let bound = info context parts.0 (agreement_public lib private)
    let derived = lib.hkdf_sha256 secret (as_bytes bound)
    key ← map_err (λ _. Error.unwrap) (unseal derived parts.2 bound)
    guard (length key == 32) Error.unwrap
    ok key
