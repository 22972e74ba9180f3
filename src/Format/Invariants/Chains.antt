-- ===== src/Format/Invariants/Chains.antt =====
-- The chains of parents that crates/slink-format/src/validate.rs climbs, and why its loop ends.
use mathlib.Core.Path.{subst}
use session_link.Common.{
  Result-cases, All-append, codes, ◌<◌, Bool-cases, All-map, Option-cases, ℕ, zero, suc, ◌<◌,
  Option, none, some, List, [], ◌∷◌, ◌++◌, Text, ◌≡◌, refl, sym, ◌∙◌, ap, length, contains, text_eq,
  ok, arith, All, ◌⊎◌, inl, inr,
}
use session_link.Protocol.Json.{Value}
use session_link.Format.Invariants.{text_member, span_id, Index, lookup, parent, climb, climb_all}
use session_link.Format.Invariants.Named.{
  named, named-span_id, unseen, unseen_falls, unseen_all, All-contains,
}

-- The chain of parents that starts at a span ends after so many steps.
abbrev pub EndsBy : (Value → Option Value) → ℕ → Value → Type 0
EndsBy step zero s = step s ≡ none
EndsBy step (suc n) s = (p : Value) × (step s ≡ some p) × EndsBy step n p

module _ (m : Index) where
  abbrev pub EndsIn : ℕ → Value → Type 0
  EndsIn = EndsBy (parent m)

  abbrev pub Ends : Value → Type 0
  Ends s = (n : ℕ) × EndsIn n s

  EndsIn-unique : (n k : ℕ) (s : Value) → EndsIn n s → EndsIn k s → n ≡ k
  EndsIn-unique zero zero s a b = refl
  EndsIn-unique zero (suc k) s a (p, e, b) = absurd (ground arith)
  EndsIn-unique (suc n) zero s (p, e, a) b = absurd (ground arith)
  EndsIn-unique (suc n) (suc k) s (p, e, a) (q, f, b) =
      let same : p ≡ q = ground arith in
      ap suc (EndsIn-unique n k p a (subst (EndsIn k) (sym same) b))

  module _ (spans : List Value) (finds : (name : Text) → lookup m name ≡ named spans name) where
    pub parent_named : (s p : Value) → parent m s ≡ some p → lookup m (span_id p) ≡ some p
    unfolding parent
    parent_named s p h = elim (Option-cases (text_member (codes "parent_id") s)) [
      | inl q ↦ absurd (ground arith)
      | inr (name, q) ↦
          let found : lookup m name ≡ some p = ground arith in
          ap (lookup m) (named-span_id spans name p (sym (finds name) ∙ found)) ∙ found
    ]

    -- What is seen on the way to a span of depth `n` is deeper.
    abbrev Deeper : ℕ → List Text → Type 0
    Deeper n = All (λ i. (t : Value) × (k : ℕ) × (lookup m i ≡ some t) × EndsIn k t × (n < k))

    climb-none : (fuel : ℕ) (acyclic seen : List Text) → climb fuel m acyclic seen none ≡ ok seen
    unfolding climb
    climb-none zero acyclic seen = refl
    climb-none (suc fuel) acyclic seen = refl

    -- That climbs from deep enough spans come to their end.
    abbrev Climbs : ℕ → List Text → Type 0
    Climbs fuel acyclic =
        (n : ℕ) (seen : List Text) (s : Value)
        → lookup m (span_id s) ≡ some s
        → EndsIn n s
        → Deeper n seen
        → unseen spans seen < fuel
        → (out : List Text) × (climb fuel m acyclic seen (some s) ≡ ok out)

    climb-parent :
        (n fuel : ℕ) (acyclic seen : List Text) (s : Value)
        → Climbs fuel acyclic
        → lookup m (span_id s) ≡ some s
        → EndsIn n s
        → Deeper n seen
        → unseen spans (span_id s ∷ seen) < fuel
        → ((parent m s ≡ none) ⊎ ((p : Value) × (parent m s ≡ some p)))
        → (out : List Text) × (climb fuel m acyclic (span_id s ∷ seen) (parent m s) ≡ ok out)
    climb-parent n fuel acyclic seen s up l e d f (inl q) =
        (span_id s ∷ seen, rw q (climb-none fuel acyclic (span_id s ∷ seen)))
    climb-parent zero fuel acyclic seen s up l e d f (inr (p, q)) = absurd (ground arith)
    climb-parent (suc n) fuel acyclic seen s up l chain d f (inr (p, q)) =
        let (p', e, ends) = chain in
        let same : p' ≡ p = ground arith in
        let deeper : Deeper n (span_id s ∷ seen) = (
          (s, suc n, l, chain, omega arith),
          All-map _ _ (λ i (t, k, found, ends_t, lt). (t, k, found, ends_t, omega arith)) seen d,
        ) in
        let (out, done) =
          up n (span_id s ∷ seen) p (parent_named s p q) (subst (EndsIn n) same ends) deeper f in
        (out, rw q done)

    -- A climb along a chain that ends comes to its end.
    climb_complete : (fuel : ℕ) (acyclic : List Text) → Climbs fuel acyclic
    unfolding climb
    climb_complete zero acyclic n seen s l e d f = absurd (omega arith)
    climb_complete (suc fuel) acyclic n seen s l e d f =
        elim (Bool-cases (contains (span_id s) acyclic)) [
          | inl c ↦ (seen, ground arith)
          | inr c ↦ elim (Bool-cases (contains (span_id s) seen)) [
            | inl again ↦
                let (t, k, found, ends, lt) = All-contains _ seen (span_id s) d again in
                let same : t ≡ s = ground arith in
                absurd (omega (arith, EndsIn-unique n k s e (subst (EndsIn k) same ends)))
            | inr new ↦
                let fewer =
                  unseen_falls spans (span_id s) seen s (sym (finds (span_id s)) ∙ l) new in
                let (out, done) =
                  climb-parent n fuel acyclic seen s (climb_complete fuel acyclic) l e d
                    (omega arith) (Option-cases (parent m s)) in
                (out, ground arith)
          ]
        ]

    -- That the chain of the span with this id ends.
    abbrev IdEnds : Text → Type 0
    IdEnds i = (t : Value) → lookup m i ≡ some t → Ends t

    abbrev OptionEnds : Option Value → Type 0
    OptionEnds none = Unit
    OptionEnds (some s) = Ends s

    parent-Ends : (s : Value) → OptionEnds (parent m s) → Ends s
    parent-Ends s h = elim (Option-cases (parent m s)) [
      | inl q ↦ (zero, q)
      | inr (p, q) ↦ let (n, e) = subst OptionEnds q h in (suc n, (p, q, e))
    ]

    -- A climb that comes to an end shows that the chain ends, and those of the ids on it.
    climb_sound :
        (fuel : ℕ) (acyclic seen : List Text) (current : Option Value) (out : List Text)
        → ((s : Value) → current ≡ some s → lookup m (span_id s) ≡ some s)
        → All IdEnds acyclic
        → All (λ i. OptionEnds current → IdEnds i) seen
        → climb fuel m acyclic seen current ≡ ok out
        → OptionEnds current × All IdEnds out
    unfolding climb
    climb_sound fuel acyclic seen none out l a b c =
        (tt, subst (All IdEnds) (ground arith) (All-map _ IdEnds (λ i f. f tt) seen b))
    climb_sound zero acyclic seen (some s) out l a b c = absurd (ground arith)
    climb_sound (suc fuel) acyclic seen (some s) out l a b c =
        elim (Bool-cases (contains (span_id s) acyclic)) [
          | inl old ↦
              let ends : Ends s = All-contains IdEnds acyclic (span_id s) a old s (l s refl) in
              let same : seen ≡ out = ground arith in
              (ends, subst (All IdEnds) same (All-map _ IdEnds (λ i f. f ends) seen b))
          | inr fresh ↦ elim (Bool-cases (contains (span_id s) seen)) [
            | inl again ↦ absurd (ground arith)
            | inr new ↦
                let self : OptionEnds (parent m s) → IdEnds (span_id s) = λ h t found.
                  let same : s ≡ t = ground (arith, l s refl) in
                  subst Ends same (parent-Ends s h) in
                let (h, ids) =
                  climb_sound fuel acyclic (span_id s ∷ seen) (parent m s) out
                    (λ p q. parent_named s p q) a
                    (self, All-map _ _ (λ i f h. f (parent-Ends s h)) seen b) (ground arith) in
                (parent-Ends s h, ids)
          ]
        ]

    pub climb_all_complete :
        (fuel : ℕ) (rest : List Value) (acyclic : List Text)
        → All (λ s. lookup m (span_id s) ≡ some s) rest
        → All Ends rest
        → length spans < fuel
        → climb_all fuel m rest acyclic ≡ ok tt
    unfolding climb_all
    climb_all_complete fuel [] acyclic l e f = refl
    climb_all_complete fuel (s ∷ rest) acyclic l e f =
        let (n, ends) = e.0 in
        let (out, done) =
          climb_complete fuel acyclic n [] s l.0 ends tt (omega (arith, unseen_all spans)) in
        let others = climb_all_complete fuel rest (out ++ acyclic) l.1 e.1 f in ground arith

    pub climb_all_sound :
        (fuel : ℕ) (rest : List Value) (acyclic : List Text)
        → All (λ s. lookup m (span_id s) ≡ some s) rest
        → All IdEnds acyclic
        → climb_all fuel m rest acyclic ≡ ok tt
        → All Ends rest
    unfolding climb_all
    climb_all_sound fuel [] acyclic l a h = tt
    climb_all_sound fuel (s ∷ rest) acyclic l a h =
        elim (Result-cases (climb fuel m acyclic [] (some s))) [
          | inr (e, p) ↦ absurd (ground arith)
          | inl (out, p) ↦
              let (ends, ids) =
                climb_sound fuel acyclic [] (some s) out
                  (λ t q.
                    let same : s ≡ t = ground arith in
                    subst (λ v. lookup m (span_id v) ≡ some v) same l.0)
                  a tt p in
              (
                ends,
                climb_all_sound fuel rest (out ++ acyclic) l.1 (All-append IdEnds out acyclic ids a)
                    (ground arith),
              )
        ]
