-- ===== src/Client/Maps/Collect.antt =====
-- Values put into a map one after another by a key of each, and what the map then lists.
use mathlib.Core.List.{map}
use session_link.Common.{
  Option, some, none, List, [], ◌∷◌, ◌++◌, Text, ◌≡◌, refl, ◌∙◌, ◌==◌, text_eq, if◌then◌else◌,
  arith, All,
}
use session_link.Client.Maps.{Map, put, find, values, IsMap, put-IsMap, IsRising}

module _ {ℓ} {A : Type ℓ} (key : A → Text) where
  -- `insert` of each, by its key.
  abbrev pub collect : List A → Map A → Map A
  collect [] m = m
  collect (a ∷ rest) m = collect rest (put (key a) a m)

  -- The first value with the key, and the last.
  abbrev pub first_with : Text → List A → Option A
  first_with k [] = none
  first_with k (a ∷ rest) = if k == key a then some a else first_with k rest

  abbrev pub last_with : Text → List A → Option A
  last_with k [] = none
  last_with k (a ∷ rest) = elim (last_with k rest) [
    | some b ↦ some b
    | none ↦ if k == key a then some a else none
  ]

  -- Each value stands under its key.
  abbrev pub IsKeyed : Map A → Type 0
  IsKeyed [] = Unit
  IsKeyed ((k, a) ∷ rest) = (k ≡ key a) × IsKeyed rest

  put-IsKeyed : (a : A) (m : Map A) → IsKeyed m → IsKeyed (put (key a) a m)
  unfolding put
  put-IsKeyed a [] h = (refl, tt)
  put-IsKeyed a ((k, b) ∷ rest) h = ground (arith, put-IsKeyed a rest h.1)

  pub collect-IsKeyed : (xs : List A) (m : Map A) → IsKeyed m → IsKeyed (collect xs m)
  collect-IsKeyed [] m h = h
  collect-IsKeyed (a ∷ rest) m h = collect-IsKeyed rest (put (key a) a m) (put-IsKeyed a m h)

  pub collect-IsMap : (xs : List A) (m : Map A) → IsMap m → IsMap (collect xs m)
  collect-IsMap [] m h = h
  collect-IsMap (a ∷ rest) m h = collect-IsMap rest (put (key a) a m) (put-IsMap (key a) a m h)

  find-put_at :
      (k : Text) (a : A) (m : Map A)
      → find k (put (key a) a m) ≡ (if k == key a then some a else find k m)
  unfolding find put
  find-put_at k a [] = refl
  find-put_at k a ((l, b) ∷ rest) = ground (arith, find-put_at k a rest)

  pub find-collect :
      (k : Text) (xs : List A) (m : Map A)
      → find k (collect xs m) ≡ elim (last_with k xs) [ some a ↦ some a | none ↦ find k m ]
  find-collect k [] m = refl
  find-collect k (a ∷ rest) m =
      ground (arith, find-collect k rest (put (key a) a m), find-put_at k a m)

  pub first_with-values : (k : Text) (m : Map A) → IsKeyed m → first_with k (values m) ≡ find k m
  unfolding find
  first_with-values k [] h = refl
  first_with-values k ((l, a) ∷ rest) h = ground (arith, first_with-values k rest h.1)

  values-IsRising : (m : Map A) → IsMap m → IsKeyed m → IsRising (map key (values m))
  values-IsRising [] h e = tt
  values-IsRising ((l, a) ∷ []) h e = (tt, tt)
  values-IsRising ((l, a) ∷ (k, b) ∷ rest) h e =
      ground (arith, values-IsRising ((k, b) ∷ rest) h.1 e.1)

  find_or_none :
      (k : Text) (o : Option A)
      → elim o as (λ x. Option A) [ none ↦ find {A = A} k [] | some a ↦ some a ] ≡ o
  unfolding find
  find_or_none k none = refl
  find_or_none k (some a) = refl

  -- The values of a map that was filled by one list after another, the last one winning.
  pub values-collect :
      (xs : List A)
      → IsRising (map key (values (collect xs [])))
        × ((k : Text) → first_with k (values (collect xs [])) ≡ last_with k xs)
  values-collect xs =
      let keyed = collect-IsKeyed xs [] tt in
      (
        values-IsRising (collect xs []) (collect-IsMap xs [] tt) keyed,
        λ k.
            first_with-values k (collect xs []) keyed
            ∙ find-collect k xs []
            ∙ find_or_none k (last_with k xs),
      )

  pub collect-append :
      (xs ys : List A) (m : Map A) → collect (xs ++ ys) m ≡ collect ys (collect xs m)
  collect-append [] ys m = refl
  collect-append (a ∷ xs) ys m = collect-append xs ys (put (key a) a m)

  module _ {κ} (P : A → Type κ) where
    put-All : (a : A) (m : Map A) → P a → All P (values m) → All P (values (put (key a) a m))
    unfolding put
    put-All a [] p h = (p, tt)
    put-All a ((k, b) ∷ rest) p h = ground (arith, put-All a rest p h.1)

    collect-All :
        (xs : List A) (m : Map A) → All P xs → All P (values m) → All P (values (collect xs m))
    collect-All [] m h g = g
    collect-All (a ∷ rest) m h g = collect-All rest (put (key a) a m) h.1 (put-All a m h.0 g)

    pub values-collect-All : (xs : List A) → All P xs → All P (values (collect xs []))
    values-collect-All xs h = collect-All xs [] h tt
