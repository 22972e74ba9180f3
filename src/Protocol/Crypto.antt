-- ===== src/Protocol/Crypto.antt =====
-- crates/slink-protocol/src/crypto.rs. The libraries that it calls (ring, x25519-dalek, base64,
-- serde_json's reader) are the fields of `Libs`; what the file itself decides is defined here.
use session_link.Common.{
  ℕ, zero, suc, ◌%◌, Bool, Option, none, some, List, [], ◌∷◌, ◌++◌, Text, Bytes, replicate,
  contains, text_eq, if◌then◌else◌,
}
use session_link.Protocol.Json.{Raw}

-- The functions of other packages, by what they are given and return.
pub record Libs : Type 0 where
  -- base64's URL_SAFE_NO_PAD
  pub base64_encode : Bytes → Text
  pub base64_decode : Text → Option Bytes
  -- ring
  pub sha256 : Bytes → Bytes
  pub ed25519_public : Bytes → Bytes
  pub ed25519_sign : Bytes → Bytes → Bytes
  pub ed25519_verify : Bytes → Bytes → Bytes → Bool
  pub hkdf_sha256 : Bytes → Bytes → Bytes
  pub hmac_sha256 : Bytes → Bytes → Bytes
  pub hmac_sha256_verify : Bytes → Bytes → Bytes → Bool
  pub aes_256_gcm_seal : Bytes → Bytes → Bytes → Bytes → Bytes
  pub aes_256_gcm_open : Bytes → Bytes → Bytes → Bytes → Option Bytes
  -- x25519-dalek: a public key, a shared secret, and whether that is contributory
  pub x25519_public : Bytes → Bytes
  pub diffie_hellman : Bytes → Bytes → Bytes
  pub was_contributory : Bytes → Bool
  -- serde_json's reader: the JSON text as the events that it hands a visitor
  pub from_slice : Bytes → Option Raw

abbrev spelt : ℕ → ℕ → ℕ → Bytes
spelt first middle last = first ∷ replicate 30 middle ++ last ∷ []

-- The points of small order, with the top bit cleared.
abbrev pub small_order_points : List Bytes
small_order_points =
    spelt 0x00 0x00 0x00
    ∷ spelt 0x01 0x00 0x00
    ∷ (0x26 ∷ 0xe8 ∷ 0x95 ∷ 0x8f ∷ 0xc2 ∷ 0xb2 ∷ 0x27 ∷ 0xb0 ∷ 0x45 ∷ 0xc3 ∷ 0xf4 ∷ 0x89 ∷ 0xf2
        ∷ 0xef ∷ 0x98 ∷ 0xf0 ∷ 0xd5 ∷ 0xdf ∷ 0xac ∷ 0x05 ∷ 0xd3 ∷ 0xc6 ∷ 0x33 ∷ 0x39 ∷ 0xb1 ∷ 0x38
        ∷ 0x02 ∷ 0x88 ∷ 0x6d ∷ 0x53 ∷ 0xfc ∷ 0x05 ∷ [])
    ∷ (0xc7 ∷ 0x17 ∷ 0x6a ∷ 0x70 ∷ 0x3d ∷ 0x4d ∷ 0xd8 ∷ 0x4f ∷ 0xba ∷ 0x3c ∷ 0x0b ∷ 0x76 ∷ 0x0d
        ∷ 0x10 ∷ 0x67 ∷ 0x0f ∷ 0x2a ∷ 0x20 ∷ 0x53 ∷ 0xfa ∷ 0x2c ∷ 0x39 ∷ 0xcc ∷ 0xc6 ∷ 0x4e ∷ 0xc7
        ∷ 0xfd ∷ 0x77 ∷ 0x92 ∷ 0xac ∷ 0x03 ∷ 0x7a ∷ [])
    ∷ spelt 0xec 0xff 0x7f
    ∷ spelt 0xed 0xff 0x7f
    ∷ spelt 0xee 0xff 0x7f
    ∷ []

-- `y[31] &= 0x7f` on a byte: the last byte of 32 without its top bit.
abbrev pub mask_at : ℕ → Bytes → Bytes
mask_at i [] = []
mask_at zero (b ∷ bs) = (b % 128) ∷ bs
mask_at (suc i) (b ∷ bs) = b ∷ mask_at i bs

-- Whether a signing key is a point of small order.
unfoldable pub small_order : Bytes → Bool
small_order public = contains (mask_at 31 public) small_order_points

-- What two keys agree on, or nothing when `public` is a point of small order.
unfoldable pub x25519 : Libs → Bytes → Bytes → Option Bytes
x25519 lib private public =
    let shared = lib.diffie_hellman private public in
    if lib.was_contributory shared then some shared else none
