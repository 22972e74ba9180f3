-- ===== src/Client/Maps.antt =====
-- Rust's `BTreeMap` from text, as the list of its entries in the order of their keys.
pub mod Collect
use session_link.Common.{
  ℕ, ◌<◌, Bool, true, false, Option, some, none, List, [], ◌∷◌, Text, ◌≡◌, ◌≢◌, ◌⊎◌, inl, inr, refl,
  sym, ltb, ◌==◌, nat_eq, text_eq, if◌then◌else◌, arith, All,
}
use session_link.Protocol.Payload.{text_lt}

abbrev pub Map {ℓ} : Type ℓ → Type ℓ
Map A = List (Text × A)

-- `BTreeMap::insert`
unfoldable pub put {ℓ} : {A : Type ℓ} → Text → A → Map A → Map A
unfolding text_lt
put key a [] = (key, a) ∷ []
put key a ((k, b) ∷ rest) =
    let more = put key a rest in
    if key == k
    then (key, a) ∷ rest
    else if text_lt key k
    then (key, a) ∷ (k, b) ∷ rest
    else (k, b) ∷ more

-- `BTreeMap::get`
unfoldable pub find {ℓ} : {A : Type ℓ} → Text → Map A → Option A
find key [] = none
find key ((k, a) ∷ rest) = if key == k then some a else find key rest

-- `into_values`
abbrev pub values {ℓ} : {A : Type ℓ} → Map A → List A
values [] = []
values ((k, a) ∷ rest) = a ∷ values rest

-- The keys rise.
abbrev pub IsAbove {ℓ} : {A : Type ℓ} → Text → Map A → Type 0
IsAbove key [] = Unit
IsAbove key ((k, a) ∷ rest) = text_lt key k ≡ true

abbrev pub IsMap {ℓ} : {A : Type ℓ} → Map A → Type 0
IsMap [] = Unit
IsMap ((k, a) ∷ rest) = IsAbove k rest × IsMap rest

-- Each text is before the next.
abbrev pub IsBefore : Text → List Text → Type 0
IsBefore a [] = Unit
IsBefore a (b ∷ rest) = text_lt a b ≡ true

abbrev pub IsRising : List Text → Type 0
IsRising [] = Unit
IsRising (a ∷ rest) = IsBefore a rest × IsRising rest

pub text_lt_irrefl : (s : Text) → text_lt s s ≡ false
unfolding text_lt
text_lt_irrefl [] = refl
text_lt_irrefl (c ∷ s) = ground (arith, text_lt_irrefl s)

pub text_lt_trans : (r s t : Text) → text_lt r s ≡ true → text_lt s t ≡ true → text_lt r t ≡ true
unfolding text_lt
text_lt_trans [] [] t p q = absurd (ground arith)
text_lt_trans [] (d ∷ s) [] p q = absurd (ground arith)
text_lt_trans [] (d ∷ s) (e ∷ t) p q = refl
text_lt_trans (c ∷ r) [] t p q = absurd (ground arith)
text_lt_trans (c ∷ r) (d ∷ s) [] p q = absurd (ground arith)
text_lt_trans (c ∷ r) (d ∷ s) (e ∷ t) p q = ground (arith, text_lt_trans r s t)

pub text_lt_total : (s t : Text) → s ≢ t → text_lt s t ≡ false → text_lt t s ≡ true
unfolding text_lt
text_lt_total [] [] n p = absurd (n refl)
text_lt_total [] (d ∷ t) n p = absurd (ground arith)
text_lt_total (c ∷ s) [] n p = refl
text_lt_total (c ∷ s) (d ∷ t) n p = ground (arith, text_lt_total s t)

module _ {ℓ} {A : Type ℓ} where
  put-IsAbove :
      (low key : Text) (a : A) (m : Map A)
      → text_lt low key ≡ true
      → IsAbove low m
      → IsAbove low (put key a m)
  unfolding put
  put-IsAbove low key a [] p q = p
  put-IsAbove low key a ((k, b) ∷ rest) p q = ground arith

  pub put-IsMap : (key : Text) (a : A) (m : Map A) → IsMap m → IsMap (put key a m)
  unfolding put
  put-IsMap key a [] h = (tt, tt)
  put-IsMap key a ((k, b) ∷ rest) h =
      ground (arith, put-IsMap key a rest h.1, put-IsAbove k key a rest, text_lt_total key k)

  pub find-put : (key : Text) (a : A) (m : Map A) → find key (put key a m) ≡ some a
  unfolding find put
  find-put key a [] = ground arith
  find-put key a ((k, b) ∷ rest) = ground (arith, find-put key a rest)

  pub find-put_other :
      (key other : Text) (a : A) (m : Map A) → other ≢ key → find other (put key a m) ≡ find other m
  unfolding find put
  find-put_other key other a [] n = ground arith
  find-put_other key other a ((k, b) ∷ rest) n = ground (arith, find-put_other key other a rest n)
