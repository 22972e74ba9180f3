-- ===== src/Protocol/Signed.antt =====
-- crates/slink-protocol/src/signed.rs: a payload and an Ed25519 signature over `slink/<kind>/v1`, a
-- zero byte, and the payload's bytes. keys.rs: the public keys and a device's id.
pub mod Laws
use session_link.Common.{
  ◌||◌, Text, Bytes, ◌++◌, codes, as_bytes, byte_len, length, Result, ok, err, ◌>>=◌, ◌>>◌, guard,
  refuse_if, ltb, if◌then◌else◌,
}
use session_link.Protocol.Errors.{Kind, kind_as_str, payload_limit, Error}
use session_link.Protocol.Crypto.{Libs, small_order}
use session_link.Protocol.Encoding.{encode, decode, decode_exact, digest, encoded_len}

-- A payload and its signature, both base64url.
pub record Signed : Type 0 where
  pub payload : Text
  pub signature : Text

-- An Ed25519 key as its seed.
pub record SigningKey : Type 0 where
  pub seed : Bytes

-- An X25519 key.
pub record AgreementKey : Type 0 where
  pub bytes : Bytes

-- What is signed: the kind, then the payload as it travels.
unfoldable pub message : Kind → Bytes → Bytes
unfolding kind_as_str as_bytes
message kind raw = codes "slink/" ++ (as_bytes (kind_as_str kind) ++ (codes "/v1\0" ++ raw))

module _ (lib : Libs) where
  unfoldable pub signing_public : SigningKey → Text
  signing_public key = encode lib (lib.ed25519_public key.seed)

  unfoldable pub agreement_public : AgreementKey → Text
  agreement_public key = encode lib (lib.x25519_public key.bytes)

  -- The name a history gives a device: the hash of its two public keys.
  unfoldable pub device_id : Text → Text → Text
  device_id sign_key box_key = digest lib (as_bytes (sign_key ++ codes "." ++ box_key))

  -- `payload` as a statement of `kind`, signed by `key`.
  unfoldable pub sign : Kind → Bytes → SigningKey → Result Error Signed
  sign kind payload key =
      let limit = payload_limit kind in
      if ltb limit (length payload) || ltb limit (encoded_len (length payload))
      then err Error.too_large
      else ok (record {
        payload = encode lib payload;
        signature = encode lib (lib.ed25519_sign key.seed (message kind payload));
      })

  -- The payload's bytes.
  unfoldable pub read : Signed → Kind → Result Error Bytes
  read self kind =
      if ltb (payload_limit kind) (byte_len self.payload)
      then err Error.too_large
      else decode lib self.payload

  -- The hash that names this statement.
  unfoldable pub hash : Signed → Kind → Result Error Text
  hash self kind = do raw ← read self kind; ok (digest lib raw)

  -- For a payload already read and a key already decoded.
  unfoldable pub verify_bytes : Signed → Kind → Bytes → Bytes → Result Error (Unit {0})
  verify_bytes self kind raw public = do
    refuse_if (small_order public) Error.signing_key
    signature ← decode_exact lib 64 self.signature
    guard (lib.ed25519_verify public (message kind raw) signature) (Error.signature kind)

  -- Whether `public` signed this payload as a statement of `kind`.
  unfoldable pub verify : Signed → Kind → Text → Result Error (Unit {0})
  verify self kind public = do
    raw ← read self kind
    key ← decode_exact lib 32 public
    verify_bytes self kind raw key
