-- ===== src/Tests/Standard.antt =====
-- Stand-ins for base64, ring and x25519-dalek that meet the laws which crates/slink-protocol relies
-- on. They are laws of function, not of secrecy.
use session_link.Common.{
  ℕ, zero, suc, ◌-◌, ◌<◌, [], ◌∷◌, ◌++◌, Bytes, IsBytes, All-append, length, length-append,
  length-replicate, take, take-append, replicate, ◌≡◌, refl, ap, arith, some, get_or,
}
use session_link.Protocol.Crypto.{Libs}
use session_link.Protocol.Laws.{IsBase64, IsEd25519, IsAes, IsX25519}
use session_link.Tests.Base64
use session_link.Tests.Toy.{toy}

abbrev pub standard : Libs
standard = record (toy []) { base64_encode = Base64.encode; base64_decode = Base64.decode }

pub replicate-IsBytes : (n b : ℕ) → b < 256 → IsBytes (replicate n b)
replicate-IsBytes zero b h = tt
replicate-IsBytes (suc n) b h = (h, replicate-IsBytes n b h)

pub standard-IsBase64 : IsBase64 standard
standard-IsBase64 = record {
  decode_encode = Base64.decode-encode;
  encode_decode = Base64.encode-decode;
  length_encode = Base64.length-encode;
  alphabet = Base64.encode_alphabet;
}

head_byte : (seed : Bytes) → IsBytes seed → get_or seed 0 0 < 256
head_byte [] h = omega arith
head_byte (b ∷ seed) h = h.0

pub standard-IsEd25519 : IsEd25519 standard
standard-IsEd25519 = record {
  verify_sign = λ seed message len. ground arith;
  length_public = λ seed len. len;
  length_sign = λ seed message len. length-replicate {A = ℕ} 64 (get_or seed 0 0);
  public_bytes = λ seed bytes. bytes;
  sign_bytes = λ seed message bytes. replicate-IsBytes 64 (get_or seed 0 0) (head_byte seed bytes);
}

aes_open_seal :
    (plain : Bytes) → take (length (plain ++ replicate 16 0) - 16) (plain ++ replicate 16 0) ≡ plain
aes_open_seal plain =
    let n : length (plain ++ replicate 16 0) - 16 ≡ length plain =
      omega (arith, length-append plain (replicate 16 0)) in
    rw n (take-append (length plain) plain (replicate 16 0) refl)

pub standard-IsAes : IsAes standard
standard-IsAes = record {
  open_seal = λ key nonce associated plain. ap some (aes_open_seal plain);
  length_seal = λ key nonce associated plain. length-append plain (replicate 16 0);
  seal_bytes = λ key nonce associated plain bytes.
      All-append _ plain (replicate 16 0) bytes (replicate-IsBytes 16 0 (omega arith));
}

pub standard-IsX25519 : IsX25519 standard
standard-IsX25519 = record {
  agree = λ a b. ap (λ n. replicate 32 n) (omega arith);
  length_public = λ a len. len;
  public_bytes = λ a bytes. bytes;
}
