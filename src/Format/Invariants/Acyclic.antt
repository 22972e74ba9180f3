-- ===== src/Format/Invariants/Acyclic.antt =====
-- When `invariant_errors` of crates/slink-format/src/validate.rs finds nothing.
use mathlib.Core.Path.{fun_ext, subst}
use session_link.Common.{
  ℕ, ◌+◌, Option, Option-cases, some, none, List, [], Text, codes, ◌≡◌, ◌↔◌, refl, sym, ◌∙◌, length,
  ◌==◌, text_eq, if◌then◌else◌, Result-cases, ok, arith, All, All-map, inl, inr,
}
use session_link.Protocol.Json.{Value}
use session_link.Format.Invariants.{
  span_id, text_member, spans_of, Index, lookup, index, parent, check_spans, invariant_errors,
}
use session_link.Format.Invariants.Named.{
  named, Unique, lookup-index, index-Unique, Unique-index, named_self,
}
use session_link.Format.Invariants.Chains.{EndsBy, climb_all_complete, climb_all_sound}

-- The span of a document that a span names as its parent: the first with that id.
abbrev pub parent_in : List Value → Value → Option Value
parent_in spans span = elim (text_member (codes "parent_id") span) [
  | none ↦ none
  | some name ↦ if name == [] then none else named spans name
]

-- Going from parent to parent, from this span, comes to an end.
abbrev pub ChainEnds : List Value → Value → Type 0
ChainEnds spans span = (n : ℕ) × EndsBy (parent_in spans) n span

parent-eq :
    (m : Index) (spans : List Value)
    → ((name : Text) → lookup m name ≡ named spans name)
    → (s : Value) → parent m s ≡ parent_in spans s
unfolding parent
parent-eq m spans finds s = elim (Option-cases (text_member (codes "parent_id") s)) [
  | inl q ↦ ground arith
  | inr (name, q) ↦ ground (arith, finds name)
]

check_spans-eq-ok :
    (spans : List Value) → check_spans spans ≡ ok tt → Unique spans × All (ChainEnds spans) spans
unfolding check_spans
check_spans-eq-ok spans h = elim (Result-cases (index spans [])) [
  | inr (e, p) ↦ absurd (ground arith)
  | inl (m, p) ↦
      let (unique, fresh) = index-Unique spans [] m p in
      let finds : (name : Text) → lookup m name ≡ named spans name =
        λ name. lookup-index spans [] m name p in
      let ends =
        climb_all_sound m spans finds (length spans + 1) spans []
          (All-map _ _ (λ s e. finds (span_id s) ∙ e) spans (named_self spans unique)) tt
          (ground arith) in
      (
        unique,
        subst (λ (step : Value → Option Value). All (λ s. (n : ℕ) × EndsBy step n s) spans)
            (fun_ext (parent-eq m spans finds)) ends,
      )
]

check_spans_complete :
    (spans : List Value) → Unique spans → All (ChainEnds spans) spans → check_spans spans ≡ ok tt
unfolding check_spans
check_spans_complete spans unique ends =
    let (m, p) =
      Unique-index spans [] unique (All-map _ _ (λ s e. refl) spans (named_self spans unique)) in
    let finds : (name : Text) → lookup m name ≡ named spans name =
      λ name. lookup-index spans [] m name p in
    let done =
      climb_all_complete m spans finds (length spans + 1) spans []
        (All-map _ _ (λ s e. finds (span_id s) ∙ e) spans (named_self spans unique))
        (subst (λ (step : Value → Option Value). All (λ s. (n : ℕ) × EndsBy step n s) spans)
          (sym (fun_ext (parent-eq m spans finds))) ends)
        (omega arith) in
    ground arith

by_nothing :
    (document : Value) → check_spans (spans_of document) ≡ ok tt → invariant_errors document ≡ []
unfolding invariant_errors
by_nothing document p = ground (arith, p)

-- A document breaks no invariant exactly when no two of its spans have one id and the chain of parents
-- of each comes to an end.
pub invariant_errors_lem :
    (document : Value)
    → (invariant_errors document ≡ [])
      ↔ (Unique (spans_of document) × All (ChainEnds (spans_of document)) (spans_of document))
unfolding invariant_errors
invariant_errors_lem document = (
  sound,
  λ (unique, ends). by_nothing document (check_spans_complete (spans_of document) unique ends),
)
  where
    sound :
        invariant_errors document ≡ []
        → Unique (spans_of document) × All (ChainEnds (spans_of document)) (spans_of document)
    sound h = elim (Result-cases (check_spans (spans_of document))) [
      | inl (done, p) ↦ check_spans-eq-ok (spans_of document) p
      | inr (e, p) ↦ absurd (ground arith)
    ]
