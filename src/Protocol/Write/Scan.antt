-- ===== src/Protocol/Write/Scan.antt =====
-- A reader of JSON string literals, written from RFC 8259 and not from the code, and what it makes of
-- the literals that crates/slink-protocol/src/payload.rs writes.
use mathlib.Core.Path.{subst}
use mathlib.Core.List.{append_assoc}
use session_link.Common.{
  leb, ◌&&◌, Bool-cases, inl, inr, sym, ◌≢◌, ◌||◌, ◌∙◌, ℕ, zero, suc, ◌+◌, ◌-◌, ◌*◌, ◌/◌, ◌%◌, ◌<◌,
  Bool, true, false, Option, none, some, [], ◌∷◌, ◌++◌, Text, ltb, ◌==◌, nat_eq, if◌then◌else◌, ◌≡◌,
  refl, arith, ap, ℕ_discrete,
}
use session_link.Protocol.Write.{hex_digit, unicode_escape, write_char, write_chars, write_text}

-- Where in a literal the reader is: between characters, behind a backslash, or before that many
-- hexadecimal digits and one more.
pub data Mode : Type 0 where
  between escaped : Mode
  hex : ℕ → ℕ → Mode

-- What stands behind a backslash, but for `u`.
abbrev short : ℕ → Option ℕ
short c =
    if c == 0x22
    then some 0x22
    else if c == 0x5c
    then some 0x5c
    else if c == b'/'
    then some b'/'
    else if c == b'b'
    then some 0x08
    else if c == b'f'
    then some 0x0c
    else if c == b'n'
    then some 0x0a
    else if c == b'r'
    then some 0x0d
    else if c == b't'
    then some 0x09
    else none

-- A hexadecimal digit of either case, and nothing else.
abbrev pub hex_value : ℕ → Option ℕ
hex_value c =
    if leb b'0' c && leb c b'9'
    then some (c - b'0')
    else if leb b'a' c && leb c b'f'
    then some (c - b'a' + 10)
    else if leb b'A' c && leb c b'F'
    then some (c - b'A' + 10)
    else none

abbrev with_char : ℕ → Option (Text × Text) → Option (Text × Text)
with_char c none = none
with_char c (some (text, rest)) = some (c ∷ text, rest)

-- The text of a literal whose opening quote was read, and what follows its closing quote.
unfoldable pub scan : Mode → Text → Option (Text × Text)
scan mode [] = none
scan between (c ∷ t) = elim (c == 0x22) [
  | true ↦ some ([], t)
  | false ↦ elim (c == 0x5c) [
    | true ↦ scan escaped t
    | false ↦ elim (ltb c 0x20) [ true ↦ none | false ↦ with_char c (scan between t) ]
  ]
]
scan escaped (c ∷ t) = elim (c == b'u') [
  | true ↦ scan (hex 3 0) t
  | false ↦ elim (short c) [ none ↦ none | some d ↦ with_char d (scan between t) ]
]
scan (hex zero v) (c ∷ t) = elim (hex_value c) [
  | none ↦ none
  | some d ↦ with_char (v * 16 + d) (scan between t)
]
scan (hex (suc n) v) (c ∷ t) = elim (hex_value c) [
  | none ↦ none
  | some d ↦ scan (hex n (v * 16 + d)) t
]

-- A literal with its quotes.
unfoldable pub scan_literal : Text → Option (Text × Text)
scan_literal [] = none
scan_literal (c ∷ t) = elim (c == 0x22) [ true ↦ scan between t | false ↦ none ]

hex_value-hex_digit : (d : ℕ) → d < 16 → hex_value (hex_digit d) ≡ some d
hex_value-hex_digit d h = ground arith

horner :
    (p q r s c : ℕ)
    → p * 4096 + q * 256 + r * 16 + s ≡ c
    → (((0 + p) * 16 + q) * 16 + r) * 16 + s ≡ c
horner p q r s c h = omega arith

scan_digit :
    (n v d : ℕ) (t : Text)
    → d < 16
    → scan (hex (suc n) v) (hex_digit d ∷ t) ≡ scan (hex n (v * 16 + d)) t
unfolding scan
scan_digit n v d t h =
    ap
      (λ (o : Option ℕ). elim o as (λ x. Option (Text × Text)) [
        | none ↦ none
        | some e ↦ scan (hex n (v * 16 + e)) t
      ])
      (hex_value-hex_digit d h)

scan_last_digit :
    (v d : ℕ) (t : Text)
    → d < 16
    → scan (hex zero v) (hex_digit d ∷ t) ≡ with_char (v * 16 + d) (scan between t)
unfolding scan
scan_last_digit v d t h =
    ap
      (λ (o : Option ℕ). elim o as (λ x. Option (Text × Text)) [
        | none ↦ none
        | some e ↦ with_char (v * 16 + e) (scan between t)
      ])
      (hex_value-hex_digit d h)

scan_u : (t : Text) → scan between (b'\\' ∷ b'u' ∷ t) ≡ scan (hex 3 0) t
unfolding scan ℕ_discrete
scan_u t = refl

scan-unicode_escape :
    (c : ℕ) (t : Text)
    → c < 65536
    → scan between (unicode_escape c ++ t) ≡ with_char c (scan between t)
unfolding unicode_escape
scan-unicode_escape c t h =
    scan_u _
    ∙ scan_digit 2 0 (c / 4096 % 16) _ (omega arith)
    ∙ scan_digit 1 _ (c / 256 % 16) _ (omega arith)
    ∙ scan_digit 0 _ (c / 16 % 16) _ (omega arith)
    ∙ scan_last_digit _ (c % 16) t (omega arith)
    ∙ ap (λ v. with_char v (scan between t)) (horner _ _ _ _ c (omega arith))

abbrev as_unicode : ℕ → Bool
as_unicode c = c == b'<' || c == b'>' || c == b'&' || c == 0x2028 || c == 0x2029 || ltb c 0x20

-- The characters that have an escape of their own.
abbrev NoShort : ℕ → Type 0
NoShort c = (c ≢ 0x22) × (c ≢ 0x5c) × (c ≢ 0x08) × (c ≢ 0x0c) × (c ≢ 0x0a) × (c ≢ 0x0d) × (c ≢ 0x09)

write_char-eq-unicode_escape :
    (c : ℕ) → NoShort c → as_unicode c ≡ true → write_char c ≡ unicode_escape c
unfolding write_char
write_char-eq-unicode_escape c (n1, n2, n3, n4, n5, n6, n7) h = ground arith

write_char-eq_self : (c : ℕ) → NoShort c → as_unicode c ≡ false → write_char c ≡ c ∷ []
unfolding write_char
write_char-eq_self c (n1, n2, n3, n4, n5, n6, n7) h = ground arith

as_unicode_lt : (c : ℕ) → as_unicode c ≡ true → c < 65536
as_unicode_lt c h = ground arith

abbrev IsScanned : ℕ → Type 0
IsScanned c = (t : Text) → scan between (write_char c ++ t) ≡ with_char c (scan between t)

scan_short : (k c : ℕ) → IsScanned k → c ≡ k → IsScanned c
scan_short k c h p = subst IsScanned (sym p) h

scan_long : (c : ℕ) → NoShort c → IsScanned c
scan_long c n t = elim (Bool-cases (as_unicode c)) [
  | inl u ↦ rw (write_char-eq-unicode_escape c n u) (scan-unicode_escape c t (as_unicode_lt c u))
  | inr u ↦ rw (write_char-eq_self c n u) (scan_self c t n u)
]
  where
    scan_self :
        (c : ℕ) (t : Text)
        → NoShort c
        → as_unicode c ≡ false
        → scan between (c ∷ t) ≡ with_char c (scan between t)
    scan_self c t (n1, n2, n3, n4, n5, n6, n7) u = unfold scan in ground arith

scan-write_char : (c : ℕ) → IsScanned c
unfolding write_char scan ℕ_discrete
scan-write_char c = elim (nat_eq.discrete c 0x22) [
  | yes p ↦ scan_short 0x22 c (λ t. refl) p
  | no n1 ↦ elim (nat_eq.discrete c 0x5c) [
    | yes p ↦ scan_short 0x5c c (λ t. refl) p
    | no n2 ↦ elim (nat_eq.discrete c 0x08) [
      | yes p ↦ scan_short 0x08 c (λ t. refl) p
      | no n3 ↦ elim (nat_eq.discrete c 0x0c) [
        | yes p ↦ scan_short 0x0c c (λ t. refl) p
        | no n4 ↦ elim (nat_eq.discrete c 0x0a) [
          | yes p ↦ scan_short 0x0a c (λ t. refl) p
          | no n5 ↦ elim (nat_eq.discrete c 0x0d) [
            | yes p ↦ scan_short 0x0d c (λ t. refl) p
            | no n6 ↦ elim (nat_eq.discrete c 0x09) [
              | yes p ↦ scan_short 0x09 c (λ t. refl) p
              | no n7 ↦ scan_long c (n1, n2, n3, n4, n5, n6, n7)
            ]
          ]
        ]
      ]
    ]
  ]
]

scan_end : (rest : Text) → scan between (0x22 ∷ rest) ≡ some ([], rest)
unfolding scan ℕ_discrete
scan_end rest = refl

scan-write_chars :
    (text rest : Text) → scan between (write_chars text ++ (0x22 ∷ rest)) ≡ some (text, rest)
unfolding write_chars
scan-write_chars [] rest = scan_end rest
scan-write_chars (c ∷ text) rest =
    ap (λ u. scan between u) (append_assoc (write_char c) (write_chars text) (0x22 ∷ rest))
    ∙ scan-write_char c (write_chars text ++ (0x22 ∷ rest))
    ∙ ap (λ u. with_char c u) (scan-write_chars text rest)

-- What `write_text` writes is one JSON string literal that spells the text: a reader of such literals
-- that finds it at the beginning of what it reads has the text and what follows.
pub scan_literal-write_text :
    (text rest : Text) → scan_literal (write_text text ++ rest) ≡ some (text, rest)
unfolding scan_literal write_text ℕ_discrete
scan_literal-write_text text rest =
    ap (λ u. scan between u) (append_assoc (write_chars text) (0x22 ∷ []) rest)
    ∙ scan-write_chars text rest
