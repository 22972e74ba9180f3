-- ===== src/Tests/Base64.antt =====
-- base64url as a stand-in that meets the laws that crates/slink-protocol/src/encoding.rs relies on:
-- three bytes as four characters, and a text is read only if it is the spelling of what it spells.
use session_link.Common.{
  ℕ, ◌+◌, ◌-◌, ◌*◌, ◌/◌, ◌%◌, ◌<◌, true, Option, none, some, [], ◌∷◌, Text, Bytes, IsBytes, length,
  ltb, ◌==◌, text_eq, if◌then◌else◌, ◌≡◌, refl, ap, arith,
}
use session_link.Protocol.Encoding.{encoded_len}
use session_link.Protocol.Laws.{is_url_safe, IsUrlSafe}

abbrev sextet : ℕ → ℕ
sextet v =
    if ltb v 26
    then b'A' + v
    else if ltb v 52
    then b'a' + (v - 26)
    else if ltb v 62
    then b'0' + (v - 52)
    else if ltb v 63
    then b'-'
    else b'_'

abbrev value : ℕ → ℕ
value c =
    if ltb c b'0'
    then 62
    else if ltb c b'A'
    then c - b'0' + 52
    else if ltb c b'_'
    then c - b'A'
    else if ltb c b'a'
    then 63
    else c - b'a' + 26

abbrev pub encode : Bytes → Text
encode [] = []
encode (a ∷ []) = sextet (a / 4) ∷ sextet (a % 4 * 16) ∷ []
encode (a ∷ b ∷ []) = sextet (a / 4) ∷ sextet (a % 4 * 16 + b / 16) ∷ sextet (b % 16 * 4) ∷ []
encode (a ∷ b ∷ c ∷ rest) =
    sextet (a / 4)
    ∷ sextet (a % 4 * 16 + b / 16)
    ∷ sextet (b % 16 * 4 + c / 64)
    ∷ sextet (c % 64)
    ∷ encode rest

abbrev spelt : Text → Bytes
spelt [] = []
spelt (p ∷ []) = []
spelt (p ∷ q ∷ []) = (value p * 4 + value q / 16) ∷ []
spelt (p ∷ q ∷ r ∷ []) = (value p * 4 + value q / 16) ∷ (value q % 16 * 16 + value r / 4) ∷ []
spelt (p ∷ q ∷ r ∷ s ∷ rest) =
    (value p * 4 + value q / 16)
    ∷ (value q % 16 * 16 + value r / 4)
    ∷ (value r % 4 * 64 + value s)
    ∷ spelt rest

abbrev pub decode : Text → Option Bytes
decode text = if encode (spelt text) == text then some (spelt text) else none

value-sextet : (v : ℕ) → v < 64 → value (sextet v) ≡ v
value-sextet v h = ground arith

sextet_alphabet : (v : ℕ) → is_url_safe (sextet v) ≡ true
sextet_alphabet v = ground arith

pub encode_alphabet : (b : Bytes) → IsUrlSafe (encode b)
encode_alphabet [] = tt
encode_alphabet (a ∷ []) = (sextet_alphabet (a / 4), (sextet_alphabet (a % 4 * 16), tt))
encode_alphabet (a ∷ b ∷ []) = (
  sextet_alphabet (a / 4),
  (sextet_alphabet (a % 4 * 16 + b / 16), (sextet_alphabet (b % 16 * 4), tt)),
)
encode_alphabet (a ∷ b ∷ c ∷ rest) = (
  sextet_alphabet (a / 4),
  (
    sextet_alphabet (a % 4 * 16 + b / 16),
    (sextet_alphabet (b % 16 * 4 + c / 64), (sextet_alphabet (c % 64), encode_alphabet rest)),
  ),
)

pub length-encode : (b : Bytes) → length (encode b) ≡ encoded_len (length b)
length-encode [] = omega arith
length-encode (a ∷ []) = omega arith
length-encode (a ∷ b ∷ []) = omega arith
length-encode (a ∷ b ∷ c ∷ rest) = omega (arith, length-encode rest)

pub spelt-encode : (b : Bytes) → IsBytes b → spelt (encode b) ≡ b
spelt-encode [] h = refl
spelt-encode (a ∷ []) (ha, _) =
    rw (value-sextet (a / 4) (omega arith), value-sextet (a % 4 * 16) (omega arith))
      (ap (λ x. x ∷ []) (omega arith))
spelt-encode (a ∷ b ∷ []) (ha, (hb, _)) =
    rw
      (
        value-sextet (a / 4) (omega arith),
        value-sextet (a % 4 * 16 + b / 16) (omega arith),
        value-sextet (b % 16 * 4) (omega arith),
      )
      (ground arith)
spelt-encode (a ∷ b ∷ c ∷ rest) (ha, (hb, (hc, h))) =
    rw
      (
        value-sextet (a / 4) (omega arith),
        value-sextet (a % 4 * 16 + b / 16) (omega arith),
        value-sextet (b % 16 * 4 + c / 64) (omega arith),
        value-sextet (c % 64) (omega arith),
        spelt-encode rest h,
      )
      (ground arith)

canonical :
    (read : Text → Bytes) (write : Bytes → Text) (t : Text) (b : Bytes)
    → (if write (read t) == t then some (read t) else none) ≡ some b
    → write b ≡ t
canonical read write t b h = ground arith

pub decode-encode : (b : Bytes) → IsBytes b → decode (encode b) ≡ some b
decode-encode b h = rw (spelt-encode b h) (ground arith)

pub encode-decode : (t : Text) (b : Bytes) → decode t ≡ some b → encode b ≡ t
encode-decode t b h = canonical spelt encode t b h
