-- ===== src/Protocol/History/Counts.antt =====
-- How many devices two lists share, and what `step` (crates/slink-protocol/src/history.rs) does to
-- the number of devices.
use session_link.Common.{
  ℕ, ◌+◌, Bool, true, false, none, List, [], ◌∷◌, ◌≡◌, refl, ◌==◌, nat_eq, text_eq, option_eq,
  length, count_if, ok, arith, inl, inr, Result-cases,
}
use session_link.Common.Options.{is_some}
use session_link.Protocol.History.{
  Operation, operation_eq, init, approve, recover, revoke, sharing, Device, State, find,
}
use session_link.Protocol.History.Step.{count_added, count_removed, rule, step}
use session_link.Protocol.History.Devices.{is_new, count_added-count_if}
use session_link.Protocol.History.Valid.{IsDistinct}

-- The devices of the first list whose ids the second has.
abbrev meet : List Device → List Device → ℕ
meet ds es = count_if (λ d. is_some (find es d.id)) ds

new-add-meet : (es ds : List Device) → count_if (is_new es) ds + meet ds es ≡ length ds
new-add-meet es [] = omega arith
new-add-meet es (d ∷ ds) = ground (arith, new-add-meet es ds)

abbrev one_if : Bool → ℕ
one_if true = 1
one_if false = 0

meet-cons :
    (x : Device) (ds es : List Device)
    → find ds x.id ≡ none
    → IsDistinct es
    → meet es (x ∷ ds) ≡ one_if (is_some (find es x.id)) + meet es ds
unfolding find
meet-cons x ds [] absent distinct = omega arith
meet-cons x ds (e ∷ es) absent (fresh, distinct) = ground (arith, meet-cons x ds es absent distinct)

meet-nil : (es : List Device) → 0 ≡ meet es []
unfolding find
meet-nil [] = refl
meet-nil (e ∷ es) = ground (arith, meet-nil es)

meet_comm : (ds es : List Device) → IsDistinct ds → IsDistinct es → meet ds es ≡ meet es ds
meet_comm [] es distinct distinct' = meet-nil es
meet_comm (d ∷ ds) es (fresh, distinct) distinct' =
    ground (arith, meet_comm ds es distinct distinct', meet-cons d ds es fresh distinct')

-- What an operation adds to the number of devices, and what it takes away.
abbrev pub enrolled : Operation → ℕ
enrolled approve = 1
enrolled recover = 1
enrolled _ = 0

abbrev pub dropped : Operation → ℕ
dropped revoke = 1
dropped _ = 0

rule_counts :
    (kind : Operation) (previous next : State) (added removed : ℕ)
    → rule kind previous next added removed ≡ ok tt
    → (added ≡ enrolled kind)
      × (removed ≡ dropped kind)
      × (next.epoch ≡ previous.epoch + dropped kind)
unfolding rule
rule_counts init previous next added removed h = cc
rule_counts sharing previous next added removed h = ground arith
rule_counts approve previous next added removed h = ground arith
rule_counts recover previous next added removed h = ground arith
rule_counts revoke previous next added removed h = ground arith

-- An accepted step enrolls one device, removes one or keeps their number, and moves the epoch only
-- where it removes one.
pub step_counts :
    (previous next : State)
    → step previous next ≡ ok tt
    → IsDistinct previous.devices
    → IsDistinct next.devices
    → (length next.devices + dropped next.kind ≡ length previous.devices + enrolled next.kind)
      × (next.epoch ≡ previous.epoch + dropped next.kind)
unfolding step count_removed
step_counts previous next h distinct distinct' =
    elim (Result-cases (count_added previous.devices (next.kind == revoke) next.devices 0)) [
      | inr (e, c) ↦ ground arith
      | inl (added, c) ↦
          let counts =
            rule_counts next.kind previous next added (count_removed previous.devices next.devices)
              (rw c at h) in
          (
            omega (
              arith,
              counts.0,
              counts.1,
              count_added-count_if previous.devices (next.kind == revoke) next.devices 0 added c,
              new-add-meet previous.devices next.devices,
              new-add-meet next.devices previous.devices,
              meet_comm previous.devices next.devices distinct distinct',
            ),
            counts.2,
          )
    ]
