-- ===== src/Protocol/Laws.antt =====
-- What the code of crates/slink-protocol relies on of the libraries that it calls, each as their
-- documentation gives it. Theorems take these records as hypotheses.
use session_link.Common.{
  ℕ, ◌+◌, ◌<◌, Bool, true, ◌||◌, ◌&&◌, some, [], ◌∷◌, Text, Bytes, IsBytes, IsAscii, All,
  as_bytes-IsAscii, byte_len, length, leb, ◌==◌, nat_eq, ◌≡◌, ok, arith, ◌≢◌, ap,
}
use session_link.Protocol.Crypto.{Libs}
use session_link.Protocol.Encoding.{encode, decode_exact, encoded_len, digest}

-- The URL-safe alphabet.
abbrev pub is_url_safe : ℕ → Bool
is_url_safe c =
    (leb b'A' c && leb c b'Z')
    || (leb b'a' c && leb c b'z')
    || (leb b'0' c && leb c b'9')
    || c == b'-'
    || c == b'_'

abbrev pub IsUrlSafe : Text → Type 0
IsUrlSafe = All (λ c. is_url_safe c ≡ true)

-- base64url without padding: bytes are read back from their spelling, what is read has one spelling,
-- and a spelling has its length and alphabet.
pub record IsBase64 (lib : Libs) : Type 0 where
  pub decode_encode : (b : Bytes) → IsBytes b → lib.base64_decode (lib.base64_encode b) ≡ some b
  pub encode_decode :
      (t : Text) (b : Bytes) → lib.base64_decode t ≡ some b → lib.base64_encode b ≡ t
  pub length_encode : (b : Bytes) → length (lib.base64_encode b) ≡ encoded_len (length b)
  pub alphabet : (b : Bytes) → IsUrlSafe (lib.base64_encode b)

-- SHA-256 has 32 bytes, and base64 four characters for each three bytes.
pub record IsDigest (lib : Libs) : Type 0 where
  pub length_encode : (b : Bytes) → length (lib.base64_encode b) ≡ encoded_len (length b)
  pub length_sha256 : (b : Bytes) → length (lib.sha256 b) ≡ 32

-- Ed25519: a signature verifies under its key, and keys and signatures have their lengths.
pub record IsEd25519 (lib : Libs) : Type 0 where
  pub verify_sign :
      (seed message : Bytes)
      → length seed ≡ 32
      → lib.ed25519_verify (lib.ed25519_public seed) message (lib.ed25519_sign seed message) ≡ true
  pub length_public : (seed : Bytes) → length seed ≡ 32 → length (lib.ed25519_public seed) ≡ 32
  pub length_sign :
      (seed message : Bytes) → length seed ≡ 32 → length (lib.ed25519_sign seed message) ≡ 64
  pub public_bytes : (seed : Bytes) → IsBytes seed → IsBytes (lib.ed25519_public seed)
  pub sign_bytes : (seed message : Bytes) → IsBytes seed → IsBytes (lib.ed25519_sign seed message)

-- AES-256-GCM: what is sealed opens under the same key, nonce and associated data, and a sealed text
-- is 16 bytes longer.
pub record IsAes (lib : Libs) : Type 0 where
  pub open_seal :
      (key nonce associated plain : Bytes)
      → lib.aes_256_gcm_open key nonce associated (lib.aes_256_gcm_seal key nonce associated plain)
        ≡ some plain
  pub length_seal :
      (key nonce associated plain : Bytes)
      → length (lib.aes_256_gcm_seal key nonce associated plain) ≡ length plain + 16
  pub seal_bytes :
      (key nonce associated plain : Bytes)
      → IsBytes plain
      → IsBytes (lib.aes_256_gcm_seal key nonce associated plain)

-- X25519: two keys agree on one secret from either side, and a public key has 32 bytes.
pub record IsX25519 (lib : Libs) : Type 0 where
  pub agree :
      (a b : Bytes)
      → lib.diffie_hellman a (lib.x25519_public b) ≡ lib.diffie_hellman b (lib.x25519_public a)
  pub length_public : (a : Bytes) → length a ≡ 32 → length (lib.x25519_public a) ≡ 32
  pub public_bytes : (a : Bytes) → IsBytes a → IsBytes (lib.x25519_public a)

url_safe_lt : (c : ℕ) → is_url_safe c ≡ true → c < 128
url_safe_lt c h = ground arith

pub IsUrlSafe-IsAscii : (t : Text) → IsUrlSafe t → IsAscii t
IsUrlSafe-IsAscii [] h = tt
IsUrlSafe-IsAscii (c ∷ t) (hc, ht) = (url_safe_lt c hc, IsUrlSafe-IsAscii t ht)

-- A text with no full stop in it.
abbrev pub NoDot : Text → Type 0
NoDot = All (λ c. c ≢ b'.')

pub url_safe-NoDot : (t : Text) → IsUrlSafe t → NoDot t
url_safe-NoDot [] h = tt
url_safe-NoDot (c ∷ t) h = (λ e. absurd (ground arith), url_safe-NoDot t h.1)

module _ {lib : Libs} (b64 : IsBase64 lib) where
  pub byte_len-encode : (b : Bytes) → byte_len (encode lib b) ≡ encoded_len (length b)
  unfolding byte_len
  byte_len-encode b =
      rw (as_bytes-IsAscii (lib.base64_encode b) (IsUrlSafe-IsAscii _ (b64.alphabet b)))
        (b64.length_encode b)

  -- A value of the right length is read back from its spelling.
  pub decode_exact-encode :
      (n : ℕ) (b : Bytes) → IsBytes b → length b ≡ n → decode_exact lib n (encode lib b) ≡ ok b
  unfolding decode_exact
  decode_exact-encode n b bytes len = ground (arith, byte_len-encode b, b64.decode_encode b bytes)

  -- What is read has one spelling, and its length.
  pub decode_exact-eq-ok :
      (n : ℕ) (t : Text) (b : Bytes)
      → decode_exact lib n t ≡ ok b
      → (encode lib b ≡ t) × (length b ≡ n)
  unfolding decode_exact
  decode_exact-eq-ok n t b h = ground (arith, b64.encode_decode t b)

pub digest_not_empty : (lib : Libs) → IsDigest lib → (b : Bytes) → digest lib b ≢ []
unfolding digest
digest_not_empty lib law b h =
    omega (arith, ap length h, law.length_encode (lib.sha256 b), law.length_sha256 b)
