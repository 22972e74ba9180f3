-- ===== src/Client/Texts.antt =====
-- What the source uses of Rust's `str`: `rsplit_once`, `strip_prefix`, the last byte; and the laws of
-- these and of `split_once`.
use session_link.Common.{
  ℕ, Bool, true, false, Option, some, none, [], ◌∷◌, ◌++◌, Text, ◌≡◌, refl, ◌==◌, nat_eq,
  if◌then◌else◌, arith, all, contains, Option-cases, inl, inr,
}
use session_link.Protocol.Wrap.{split_once}

unfoldable pub rsplit_once : ℕ → Text → Option (Text × Text)
rsplit_once separator [] = none
rsplit_once separator (c ∷ rest) = elim (rsplit_once separator rest) [
  | some (a, b) ↦ some (c ∷ a, b)
  | none ↦ if c == separator then some ([], rest) else none
]

unfoldable pub strip_prefix : Text → Text → Option Text
strip_prefix [] text = some text
strip_prefix (c ∷ prefix) [] = none
strip_prefix (c ∷ prefix) (d ∷ text) =
    let rest = strip_prefix prefix text in if c == d then rest else none

-- `next()` and `last()`, each with `is_some_and`
abbrev pub first_is : (ℕ → Bool) → Text → Bool
first_is p [] = false
first_is p (c ∷ text) = p c

abbrev pub last_is : (ℕ → Bool) → Text → Bool
last_is p [] = false
last_is p (c ∷ []) = p c
last_is p (c ∷ d ∷ text) = last_is p (d ∷ text)

pub split_once-eq-some :
    (c : ℕ) (t a b : Text)
    → split_once c t ≡ some (a, b)
    → (t ≡ a ++ (c ∷ b)) × (contains c a ≡ false)
unfolding split_once
split_once-eq-some c [] a b h = absurd (ground arith)
split_once-eq-some c (d ∷ t) a b h = elim (Option-cases (split_once c t)) [
  | inl none_there ↦ ground arith
  | inr ((a', b'), found) ↦ ground (arith, split_once-eq-some c t a' b' found)
]

pub split_once-found :
    (c : ℕ) (a b : Text) → contains c a ≡ false → split_once c (a ++ (c ∷ b)) ≡ some (a, b)
unfolding split_once
split_once-found c [] b h = ground arith
split_once-found c (d ∷ a) b h = ground (arith, split_once-found c a b)

pub rsplit_once-eq-some :
    (c : ℕ) (t a b : Text) → rsplit_once c t ≡ some (a, b) → (t ≡ a ++ (c ∷ b))
unfolding rsplit_once
rsplit_once-eq-some c [] a b h = absurd (ground arith)
rsplit_once-eq-some c (d ∷ t) a b h = elim (Option-cases (rsplit_once c t)) [
  | inl none_there ↦ ground arith
  | inr ((a', b'), found) ↦ ground (arith, rsplit_once-eq-some c t a' b' found)
]

rsplit_once-none : (c : ℕ) (t : Text) → contains c t ≡ false → rsplit_once c t ≡ none
unfolding rsplit_once
rsplit_once-none c [] h = refl
rsplit_once-none c (d ∷ t) h = ground (arith, rsplit_once-none c t)

pub rsplit_once-found :
    (c : ℕ) (a b : Text) → contains c b ≡ false → rsplit_once c (a ++ (c ∷ b)) ≡ some (a, b)
unfolding rsplit_once
rsplit_once-found c [] b h = ground (arith, rsplit_once-none c b h)
rsplit_once-found c (d ∷ a) b h = ground (arith, rsplit_once-found c a b h)

pub strip_prefix-eq-some : (p t r : Text) → strip_prefix p t ≡ some r → t ≡ p ++ r
unfolding strip_prefix
strip_prefix-eq-some [] t r h = ground arith
strip_prefix-eq-some (c ∷ p) [] r h = absurd (ground arith)
strip_prefix-eq-some (c ∷ p) (d ∷ t) r h = ground (arith, strip_prefix-eq-some p t r)

pub strip_prefix-append : (p r : Text) → strip_prefix p (p ++ r) ≡ some r
unfolding strip_prefix
strip_prefix-append [] r = refl
strip_prefix-append (c ∷ p) r = ground (arith, strip_prefix-append p r)

-- A text of characters that pass has none that does not.
pub contains-all :
    (p : ℕ → Bool) (c : ℕ) (t : Text) → p c ≡ false → all p t ≡ true → contains c t ≡ false
contains-all p c [] n h = refl
contains-all p c (d ∷ t) n h = ground (arith, contains-all p c t n)
