-- ===== src/Tests/ToyLaws.antt =====
-- The stand-in for base64 has base64's laws.
use session_link.Common.{
  ℕ, ◌-◌, ◌*◌, ◌/◌, some, Text, Bytes, ◌≡◌, refl, sym, ◌∙◌, ap, length, take, replicate,
  length-append, length-replicate, take-append, arith, text_eq,
}
use session_link.Protocol.Encoding.{encoded_len}
use session_link.Tests.Toy.{toy_encode, toy_decode}

pub length-toy_encode : (a : Bytes) → length (toy_encode a) ≡ encoded_len (length a)
length-toy_encode a = omega (
  arith,
  length-append a (replicate (encoded_len (length a) - length a) b'A'),
  length-replicate {A = ℕ} (encoded_len (length a) - length a) b'A',
)

take-toy_encode : (a : Bytes) → take (length (toy_encode a) * 3 / 4) (toy_encode a) ≡ a
take-toy_encode a =
    let n : length (toy_encode a) * 3 / 4 ≡ length a = omega (arith, length-toy_encode a) in
    rw n (take-append (length a) a _ refl)

pub toy_encode-injective : (a b : Bytes) → toy_encode a ≡ toy_encode b → a ≡ b
toy_encode-injective a b h =
    sym (take-toy_encode a) ∙ ap (λ t. take (length t * 3 / 4) t) h ∙ take-toy_encode b

pub toy_decode-toy_encode : (a : Bytes) → toy_decode (toy_encode a) ≡ some a
toy_decode-toy_encode a = ground (arith, take-toy_encode a)

pub toy_encode-toy_decode : (t : Text) (a : Bytes) → toy_decode t ≡ some a → toy_encode a ≡ t
toy_encode-toy_decode t a h = ground arith
