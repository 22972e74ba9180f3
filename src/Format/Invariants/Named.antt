-- ===== src/Format/Invariants/Named.antt =====
-- The spans of a document by their ids: the first loop of `invariant_errors` of
-- crates/slink-format/src/validate.rs, and the spans that a climb has not seen.
use mathlib.Core.Path.{subst}
use session_link.Common.{
  ◌<◌, All-map, Option-cases, ℕ, suc, ◌≤◌, ◌<◌, true, false, not, Option, none, some, List, [], ◌∷◌,
  Text, ◌≡◌, refl, sym, ap, length, contains, count_if, ◌==◌, text_eq, if◌then◌else◌, ok, arith,
  All, inl, inr,
}
use session_link.Protocol.Json.{Value}
use session_link.Format.Invariants.{span_id, Index, lookup, index}

-- The first span of a list that has this id.
abbrev pub named : List Value → Text → Option Value
named [] name = none
named (span ∷ spans) name = if span_id span == name then some span else named spans name

abbrev pub or_else : Option Value → Option Value → Option Value
or_else none b = b
or_else (some a) b = some a

-- No two spans of the list have one id.
abbrev pub Unique : List Value → Type 0
Unique [] = Unit
Unique (span ∷ spans) = (named spans (span_id span) ≡ none) × Unique spans

pub lookup-index :
    (spans : List Value) (m m' : Index) (name : Text)
    → index spans m ≡ ok m'
    → lookup m' name ≡ or_else (lookup m name) (named spans name)
unfolding index
lookup-index [] m m' name h = ground arith
lookup-index (span ∷ spans) m m' name h = elim (Option-cases (lookup m (span_id span))) [
  | inr (v, p) ↦ absurd (ground arith)
  | inl p ↦ ground (arith, lookup-index spans ((span_id span, span) ∷ m) m' name)
]

-- What the index needs of the spans that are still to come.
abbrev pub Fresh : Index → List Value → Type 0
Fresh m = All (λ span. lookup m (span_id span) ≡ none)

pub index-Unique :
    (spans : List Value) (m m' : Index) → index spans m ≡ ok m' → Unique spans × Fresh m spans
unfolding index
index-Unique [] m m' h = (tt, tt)
index-Unique (span ∷ spans) m m' h = elim (Option-cases (lookup m (span_id span))) [
  | inr (v, p) ↦ absurd (ground arith)
  | inl p ↦
      let (unique, fresh) = index-Unique spans ((span_id span, span) ∷ m) m' (ground arith) in
      ((apart spans fresh, unique), (p, All-map _ _ (λ s. elsewhere s) spans fresh))
]
  where
    apart :
        (rest : List Value)
        → Fresh ((span_id span, span) ∷ m) rest
        → named rest (span_id span) ≡ none
    apart [] f = refl
    apart (s ∷ rest) f = ground (arith, apart rest f.1)

    elsewhere :
        (s : Value)
        → lookup ((span_id span, span) ∷ m) (span_id s) ≡ none
        → lookup m (span_id s) ≡ none
    elsewhere s e = ground arith

pub Unique-index :
    (spans : List Value) (m : Index)
    → Unique spans
    → Fresh m spans
    → (m' : Index) × (index spans m ≡ ok m')
unfolding index
Unique-index [] m u f = (m, refl)
Unique-index (span ∷ spans) m u f =
    let (m', e) = Unique-index spans ((span_id span, span) ∷ m) u.1 (still spans u.0 f.1) in
    (m', ground (arith, f.0))
  where
    still :
        (rest : List Value)
        → named rest (span_id span) ≡ none
        → Fresh m rest
        → Fresh ((span_id span, span) ∷ m) rest
    still [] n g = tt
    still (s ∷ rest) n g = (ground arith, still rest (ground arith) g.1)

-- Each span of a list without repeats is the one that its id names.
pub named_self :
    (spans : List Value) → Unique spans → All (λ s. named spans (span_id s) ≡ some s) spans
named_self [] u = tt
named_self (span ∷ spans) u =
    (ground arith, All-map _ _ (λ s. later s) spans (named_self spans u.1))
  where
    later :
        (s : Value) → named spans (span_id s) ≡ some s → named (span ∷ spans) (span_id s) ≡ some s
    later s e = let n = u.0 in ground arith

pub named-span_id :
    (spans : List Value) (name : Text) (s : Value) → named spans name ≡ some s → span_id s ≡ name
named-span_id [] name s h = absurd (ground arith)
named-span_id (span ∷ spans) name s h = ground (arith, named-span_id spans name s)

-- The spans of a list whose ids are not among those seen.
abbrev pub unseen : List Value → List Text → ℕ
unseen spans seen = count_if (λ s. not (contains (span_id s) seen)) spans

pub unseen_mono :
    (spans : List Value) (i : Text) (seen : List Text) → unseen spans (i ∷ seen) ≤ unseen spans seen
unseen_mono [] i seen = omega arith
unseen_mono (s ∷ spans) i seen = ground (arith, unseen_mono spans i seen)

-- A new id is one span fewer.
pub unseen_falls :
    (spans : List Value) (i : Text) (seen : List Text) (s : Value)
    → named spans i ≡ some s
    → contains i seen ≡ false
    → unseen spans (i ∷ seen) < unseen spans seen
unseen_falls [] i seen s n c = absurd (ground arith)
unseen_falls (t ∷ spans) i seen s n c =
    ground (arith, unseen_mono spans i seen, unseen_falls spans i seen s)

pub unseen_all : (spans : List Value) → unseen spans [] ≡ length spans
unseen_all [] = refl
unseen_all (s ∷ spans) = ap suc (unseen_all spans)

pub All-contains {ℓ} :
    (P : Text → Type ℓ) (xs : List Text) (a : Text) → All P xs → contains a xs ≡ true → P a
All-contains P [] a h c = absurd (ground arith)
All-contains P (x ∷ xs) a h c = elim (text_eq.discrete a x) [
  | yes e ↦ subst P (sym e) h.0
  | no n ↦ All-contains P xs a h.1 (ground arith)
]
