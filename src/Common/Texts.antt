-- ===== src/Common/Texts.antt =====
-- Rust's `String` as its characters and `Vec<u8>` as its bytes. `len` of a text and `as_bytes` go
-- by its UTF-8 form.
use Prim.Native.Nat.{ℕ, ◌+◌, ◌/◌, ◌%◌, ◌<◌}
use Prim.Native.Char.{code}
use Prim.Native.String.{String}
use mathlib.Core.Path.{◌≡◌, refl}
use mathlib.Core.List.{List, [], ◌∷◌, ◌++◌}
use native.Mathlib.Omega.{arith}
use native.Mathlib.Decide.{ℕ_discrete}
use session_link.Common.Tests.{Eq, ltb, if◌then◌else◌}
use session_link.Common.Lists.{length, All}

abbrev pub Text : Type 0
Text = List ℕ

abbrev pub Bytes : Type 0
Bytes = List ℕ

abbrev pub IsBytes : Bytes → Type 0
IsBytes = All (λ b. b < 256)

-- A literal's characters.
abbrev pub codes : String → Text
codes String.[] = []
codes (String.◌∷◌ c s) = code c ∷ codes s

cons_discrete : {x y : ℕ} {s t : Text} → Dec (x ≡ y) → Dec (s ≡ t) → Dec (x ∷ s ≡ y ∷ t)
cons_discrete (yes p) (yes q) = yes (cc)
cons_discrete (no p) q = no (λ h. p (cc))
cons_discrete (yes p) (no q) = no (λ h. q (cc))

unfoldable pub Text-discrete : Discrete Text
unfolding cons_discrete ℕ_discrete
Text-discrete [] [] = yes refl
Text-discrete [] (y ∷ t) = no (cc)
Text-discrete (x ∷ s) [] = no (cc)
Text-discrete (x ∷ s) (y ∷ t) = cons_discrete (ℕ_discrete x y) (Text-discrete s t)

instance abbrev pub text_eq : Eq Text
text_eq = record { discrete = Text-discrete }

-- The UTF-8 form of one character.
unfoldable pub utf8_char : ℕ → Bytes
utf8_char c =
    if ltb c 0x80
    then c ∷ []
    else if ltb c 0x800
    then (0xc0 + c / 64) ∷ (0x80 + c % 64) ∷ []
    else if ltb c 0x1_0000
    then (0xe0 + c / 4096) ∷ (0x80 + c / 64 % 64) ∷ (0x80 + c % 64) ∷ []
    else (0xf0 + c / 262144) ∷ (0x80 + c / 4096 % 64) ∷ (0x80 + c / 64 % 64) ∷ (0x80 + c % 64) ∷ []

-- `as_bytes` and `into_bytes`
unfoldable pub as_bytes : Text → Bytes
unfolding utf8_char
as_bytes [] = []
as_bytes (c ∷ t) = utf8_char c ++ as_bytes t

-- `len`, in bytes of UTF-8
unfoldable pub byte_len : Text → ℕ
unfolding as_bytes
byte_len t = length (as_bytes t)

abbrev pub IsAscii : Text → Type 0
IsAscii = All (λ c. c < 128)

pub as_bytes-IsAscii : (t : Text) → IsAscii t → as_bytes t ≡ t
unfolding as_bytes
as_bytes-IsAscii [] h = refl
as_bytes-IsAscii (c ∷ t) h = ground (arith, as_bytes-IsAscii t h.1)
