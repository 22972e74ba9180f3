-- ===== src/Protocol/Signed/Laws.antt =====
-- Signing, reading and verifying (crates/slink-protocol/src/signed.rs).
use session_link.Common.{
  ◌≤◌, ◌<◌, false, Bytes, IsBytes, length, ◌≡◌, ok, err, arith, as_bytes, byte_len,
}
use session_link.Protocol.Errors.{Kind, kind_as_str, payload_limit, Error}
use session_link.Protocol.Crypto.{Libs, small_order}
use session_link.Protocol.Encoding.{encode, encoded_len}
use session_link.Protocol.Laws.{IsBase64, IsEd25519, byte_len-encode, decode_exact-encode}
use session_link.Protocol.Signed.{
  Signed, SigningKey, message, signing_public, sign, read, verify, verify_bytes,
}

-- The bytes that are signed tell the kind and the payload: for two kinds, or two payloads, they
-- differ.
pub message_injective :
    (kind kind' : Kind) (raw raw' : Bytes)
    → message kind raw ≡ message kind' raw'
    → (kind ≡ kind') × (raw ≡ raw')
unfolding message kind_as_str as_bytes
message_injective kind kind' raw raw' h = ground arith

module _ (lib : Libs) (b64 : IsBase64 lib) (ed : IsEd25519 lib) where
  -- By the laws of base64 and Ed25519: a payload of bytes that fits its kind's limit as text is signed
  -- with a seed of 32 bytes, its bytes are read back, and the signature verifies under the signer's
  -- public key, if that key is not a point of small order.
  pub sign_lem :
      (kind : Kind) (payload : Bytes) (key : SigningKey)
      → IsBytes payload
      → IsBytes key.seed
      → length key.seed ≡ 32
      → small_order (lib.ed25519_public key.seed) ≡ false
      → encoded_len (length payload) ≤ payload_limit kind
      → (s : Signed) × (sign lib kind payload key ≡ ok s)
        × (read lib s kind ≡ ok payload)
        × (verify lib s kind (signing_public lib key) ≡ ok tt)
  unfolding sign read verify verify_bytes signing_public
  sign_lem kind payload key bytes seed_bytes len order fits =
      let signature = lib.ed25519_sign key.seed (message kind payload) in
      let text_fits : byte_len (encode lib payload) ≤ payload_limit kind =
        omega (arith, byte_len-encode b64 payload) in
      (
        record { payload = encode lib payload; signature = encode lib signature },
        ground arith,
        ground (arith, text_fits, b64.decode_encode payload bytes),
        ground (
          arith,
          text_fits,
          b64.decode_encode payload bytes,
          decode_exact-encode b64 32 (lib.ed25519_public key.seed)
              (ed.public_bytes key.seed seed_bytes) (ed.length_public key.seed len),
          decode_exact-encode b64 64 signature
              (ed.sign_bytes key.seed (message kind payload) seed_bytes)
              (ed.length_sign key.seed (message kind payload) len),
          ed.verify_sign key.seed (message kind payload) len,
        ),
      )

  -- A payload too long for its kind is not signed.
  pub sign_too_large :
      (kind : Kind) (payload : Bytes) (key : SigningKey)
      → payload_limit kind < encoded_len (length payload)
      → sign lib kind payload key ≡ err Error.too_large
  unfolding sign
  sign_too_large kind payload key h = ground arith
