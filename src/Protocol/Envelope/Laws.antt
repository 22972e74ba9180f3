-- ===== src/Protocol/Envelope/Laws.antt =====
-- The envelope's round trip, and when one is read (crates/slink-protocol/src/envelope.rs).
use session_link.Common.{
  zero, suc, ◌+◌, ◌≤◌, ◌++◌, Bytes, IsBytes, length, length-append, take, drop, replicate,
  take-append, drop-append, ◌≡◌, refl, ok, arith, ◌↔◌, ℕ, sym, ap, suc, ◌∙◌, ◌∷◌, length-take,
  length-drop, [],
}
use session_link.Protocol.Crypto.{Libs}
use session_link.Protocol.Encoding.{encode}
use session_link.Protocol.Laws.{IsBase64, IsAes, decode_exact-encode}
use session_link.Protocol.Envelope.{
  max_plaintext, max_envelope, header_size, tag_size, magic, validate, encrypt, decrypt,
}

-- The tests of `validate`.
validate_tests :
    (bytes : Bytes)
    → (validate bytes ≡ ok tt) ↔ (
        (header_size + tag_size ≤ length bytes)
        × (length bytes ≤ max_envelope)
        × (take 8 bytes ≡ magic)
        × (take 4 (drop 8 bytes) ≡ replicate 4 0))
unfolding validate
validate_tests bytes = (λ h. ground arith, λ h. ground arith)

-- An envelope, byte by byte: `SLINKE`, 0, 1, four zero bytes, a nonce of 12 bytes, and at most 25 MiB
-- sealed with a tag of 16 bytes.
pub record IsEnvelope (bytes : Bytes) : Type 0 where
  pub nonce : Bytes
  pub sealed : Bytes
  pub bytes_eq :
      bytes ≡ 0x53 ∷ 0x4c ∷ 0x49 ∷ 0x4e ∷ 0x4b ∷ 0x45 ∷ 0 ∷ 1 ∷ 0 ∷ 0 ∷ 0 ∷ 0 ∷ (nonce ++ sealed)
  pub nonce_length : length nonce ≡ 12
  pub sealed_length : (16 ≤ length sealed) × (length sealed ≤ 26214416)

take-drop : (n : ℕ) (bytes : Bytes) → take n bytes ++ drop n bytes ≡ bytes
take-drop zero bytes = refl
take-drop (suc n) [] = refl
take-drop (suc n) (b ∷ bytes) = ap (λ t. b ∷ t) (take-drop n bytes)

drop_nil : (n : ℕ) → drop {A = ℕ} n [] ≡ []
drop_nil zero = refl
drop_nil (suc n) = refl

drop-drop : (m n : ℕ) (bytes : Bytes) → drop n (drop m bytes) ≡ drop (m + n) bytes
drop-drop zero n bytes = ap (λ k. drop k bytes) (omega arith)
drop-drop (suc m) n [] = drop_nil n ∙ sym (drop_nil (suc m + n))
drop-drop (suc m) n (b ∷ bytes) =
    let e : suc (m + n) ≡ suc m + n = omega arith in
    drop-drop m n bytes ∙ ap (λ k. drop k (b ∷ bytes)) e

validate_sound : (bytes : Bytes) → validate bytes ≡ ok tt → IsEnvelope bytes
validate_sound bytes h =
    let (long, short, header, zeros) = (validate_tests bytes).0 h in
    let rest = drop 12 bytes in
    record {
      nonce = take 12 rest;
      sealed = drop 12 rest;
      bytes_eq =
          sym (take-drop 8 bytes)
          ∙ ap (λ t. t ++ drop 8 bytes) header
          ∙ ap (λ t. magic ++ t)
              (sym (take-drop 4 (drop 8 bytes))
                ∙ ap (λ t. t ++ drop 4 (drop 8 bytes)) zeros
                ∙ ap (λ t. replicate 4 0 ++ t) (drop-drop 8 4 bytes ∙ sym (take-drop 12 rest)));
      nonce_length = omega (arith, length-take 12 rest, length-drop 12 bytes);
      sealed_length = (
        omega (arith, length-drop 12 rest, length-drop 12 bytes),
        omega (arith, length-drop 12 rest, length-drop 12 bytes),
      );
    }

validate_complete : (bytes : Bytes) → IsEnvelope bytes → validate bytes ≡ ok tt
validate_complete bytes is =
    let size = ap length is.bytes_eq in
    let parts = length-append is.nonce is.sealed in
    (validate_tests bytes).1 (
      omega (arith, size, parts, is.nonce_length, is.sealed_length.0),
      omega (arith, size, parts, is.nonce_length, is.sealed_length.1),
      ap (take 8) is.bytes_eq,
      ap (λ b. take 4 (drop 8 b)) is.bytes_eq,
    )

-- Bytes are taken for an envelope exactly when they are `SLINKE`, 0, 1, four zero bytes, a nonce of 12
-- bytes and from 16 to 26,214,416 bytes more.
pub validate_lem : (bytes : Bytes) → (validate bytes ≡ ok tt) ↔ IsEnvelope bytes
validate_lem bytes = (validate_sound bytes, validate_complete bytes)

module _ (lib : Libs) (b64 : IsBase64 lib) (aes : IsAes lib) where
  -- By the laws of base64 and AES-GCM: a document of at most 25 MiB is encrypted under a key of 32 bytes
  -- and a nonce of 12, its envelope is 40 bytes longer than it, and decrypts to it under the key's
  -- spelling.
  pub decrypt-encrypt :
      (plaintext key nonce : Bytes)
      → length plaintext ≤ max_plaintext
      → IsBytes key
      → length key ≡ 32
      → length nonce ≡ 12
      → (envelope : Bytes) × (encrypt lib plaintext key nonce ≡ ok envelope)
        × (length envelope ≡ length plaintext + 40)
        × (decrypt lib envelope (encode lib key) ≡ ok plaintext)
  unfolding encrypt decrypt
  decrypt-encrypt plaintext key nonce fits bytes len nonce_len =
      let header = magic ++ (replicate 4 0 ++ nonce) in
      let sealed = lib.aes_256_gcm_seal key nonce header plaintext in
      let n = aes.length_seal key nonce header plaintext in
      let valid : validate (header ++ sealed) ≡ ok tt = (validate_tests (header ++ sealed)).1 (
        omega (arith, n, length-append nonce sealed),
        omega (arith, n, length-append nonce sealed),
        refl,
        refl,
      ) in
      (
        header ++ sealed,
        ground arith,
        omega (arith, n, length-append nonce sealed),
        ground (
          arith,
          valid,
          decode_exact-encode b64 32 key bytes len,
          take-append 12 nonce sealed nonce_len,
          drop-append 12 nonce sealed nonce_len,
          aes.open_seal key nonce header plaintext,
        ),
      )
