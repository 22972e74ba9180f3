-- ===== src/Format/Invariants/Fuel.antt =====
-- The `while` loop of `invariant_errors` of crates/slink-format/src/validate.rs comes to an end.
use mathlib.Core.Path.{subst}
use session_link.Common.{
  ℕ, zero, suc, ◌+◌, ◌<◌, Bool-cases, Option, Option-cases, some, none, List, [], ◌∷◌, ◌++◌, Text,
  ◌≡◌, ◌≢◌, refl, sym, ◌∙◌, All, All-map, arith, length, contains, text_eq, Result-cases, err, inl,
  inr,
}
use session_link.Protocol.Json.{Value}
use session_link.Format.Invariants.{
  span_id, Index, lookup, Broken, index, parent, climb, climb_all, check_spans,
}
use session_link.Format.Invariants.Named.{
  named, unseen, unseen_all, unseen_falls, lookup-index, index-Unique, named_self,
}
use session_link.Format.Invariants.Chains.{parent_named}

module _ (m : Index) (spans : List Value)
    (finds : (name : Text) → lookup m name ≡ named spans name) where
  climb-fuel :
      (fuel : ℕ) (acyclic seen : List Text) (current : Option Value)
      → ((s : Value) → current ≡ some s → lookup m (span_id s) ≡ some s)
      → unseen spans seen < fuel
      → climb fuel m acyclic seen current ≢ err Broken.out_of_fuel
  unfolding climb
  climb-fuel fuel acyclic seen none l f e = absurd (ground arith)
  climb-fuel zero acyclic seen (some s) l f e = absurd (omega (arith, f))
  climb-fuel (suc fuel) acyclic seen (some s) l f e =
      elim (Bool-cases (contains (span_id s) acyclic)) [
        | inl old ↦ absurd (ground arith)
        | inr fresh ↦ elim (Bool-cases (contains (span_id s) seen)) [
          | inl again ↦ absurd (ground arith)
          | inr new ↦
              let fewer =
                unseen_falls spans (span_id s) seen s (sym (finds (span_id s)) ∙ l s refl) new in
              climb-fuel fuel acyclic (span_id s ∷ seen) (parent m s)
                (λ p q. parent_named m spans finds s p q) (omega (arith, fewer, f)) (ground arith)
        ]
      ]

  climb_all-fuel :
      (fuel : ℕ) (rest : List Value) (acyclic : List Text)
      → All (λ s. lookup m (span_id s) ≡ some s) rest
      → length spans < fuel
      → climb_all fuel m rest acyclic ≢ err Broken.out_of_fuel
  unfolding climb_all
  climb_all-fuel fuel [] acyclic l f e = absurd (ground arith)
  climb_all-fuel fuel (s ∷ rest) acyclic l f e =
      elim (Result-cases (climb fuel m acyclic [] (some s))) [
        | inl (out, p) ↦ climb_all-fuel fuel rest (out ++ acyclic) l.1 f (ground arith)
        | inr (broken, p) ↦
            let listed : (t : Value) → some s ≡ some t → lookup m (span_id t) ≡ some t = λ t q.
              let same : s ≡ t = ground arith in
              subst (λ v. lookup m (span_id v) ≡ some v) same l.0 in
            climb-fuel fuel acyclic [] (some s) listed (omega (arith, unseen_all spans, f))
              (ground arith)
      ]

index-fuel : (spans : List Value) (m : Index) → index spans m ≢ err Broken.out_of_fuel
unfolding index
index-fuel [] m e = absurd (ground arith)
index-fuel (s ∷ spans) m e = elim (Option-cases (lookup m (span_id s))) [
  | inl p ↦ index-fuel spans ((span_id s, s) ∷ m) (ground arith)
  | inr (t, p) ↦ absurd (ground arith)
]

-- The check of the spans ends: as many rounds as there are spans, and one more, are enough for each
-- climb from parent to parent, on every document.
pub check_spans_ends : (spans : List Value) → check_spans spans ≢ err Broken.out_of_fuel
unfolding check_spans
check_spans_ends spans e = elim (Result-cases (index spans [])) [
  | inr (broken, p) ↦ index-fuel spans [] (ground arith)
  | inl (m, p) ↦
      let (unique, fresh) = index-Unique spans [] m p in
      let finds : (name : Text) → lookup m name ≡ named spans name =
        λ name. lookup-index spans [] m name p in
      climb_all-fuel m spans finds (length spans + 1) spans []
        (All-map _ _ (λ s q. finds (span_id s) ∙ q) spans (named_self spans unique)) (omega arith)
        (ground arith)
]
