-- ===== src/Protocol/History/Step/Permitted.antt =====
-- What an accepted `step` (crates/slink-protocol/src/history.rs) means for each operation.
use session_link.Common.{
  ℕ, ◌+◌, true, false, Option, none, some, Text, ◌≡◌, ◌≢◌, ◌==◌, nat_eq, text_eq, option_eq, any,
  ok, arith, inl, inr, Result-cases, Option-cases,
}
use session_link.Common.Options.{is_none}
use session_link.Protocol.History.{
  Operation, Operation-discrete, operation_eq, init, approve, recover, revoke, sharing, Device,
  State, find,
}
use session_link.Protocol.History.Step.{count_added, count_removed, rotated, kept, rule, step}
use session_link.Protocol.History.Step.Maps.{IsInsert, IsRemoval, same_map, one_enters, one_leaves}
use session_link.Protocol.History.Devices.{find_of_any}

-- The incoming-share key as a revocation leaves it: none stays none, and a key becomes another.
abbrev pub IsRotated : Option Text → Option Text → Type 0
IsRotated none none = Unit
IsRotated (some old) (some new) = old ≢ new
IsRotated _ _ = ⊥

-- The states that an operation may make of the state before, by their fields and device maps.
abbrev pub Permitted : Operation → State → State → Type 0
Permitted init previous next = ⊥
Permitted sharing previous next =
    (previous.inbox ≡ none)
    × ((key : Text) × (next.inbox ≡ some key))
    × ((id : Text) → find next.devices id ≡ find previous.devices id)
    × (next.epoch ≡ previous.epoch)
    × (next.recovery_wrap ≡ previous.recovery_wrap)
Permitted revoke previous next =
    IsRotated previous.inbox next.inbox
    × IsRemoval previous.devices next.devices
    × (next.epoch ≡ previous.epoch + 1)
    × (next.recovery_wrap ≢ previous.recovery_wrap)
    × ((d : Device) × (find next.devices next.signer ≡ some d))
Permitted _ previous next =
    (next.inbox ≡ previous.inbox)
    × IsInsert previous.devices next.devices
    × (next.epoch ≡ previous.epoch)
    × (next.recovery_wrap ≡ previous.recovery_wrap)

rotated-IsRotated : (old new : Option Text) → rotated old new ≡ true → IsRotated old new
unfolding rotated
rotated-IsRotated none none h = tt
rotated-IsRotated none (some b) h = cc
rotated-IsRotated (some a) none h = cc
rotated-IsRotated (some a) (some b) h = ground arith

signer_left :
    (next : State)
    → is_none (find next.devices next.signer) ≡ false
    → (d : Device) × (find next.devices next.signer ≡ some d)
signer_left next h = elim (Option-cases (find next.devices next.signer)) [
  | inl gone ↦ ground arith
  | inr left ↦ left
]

rule-Permitted :
    (kind : Operation) (previous next : State) (added : ℕ)
    → count_added previous.devices (kind == revoke) next.devices 0 ≡ ok added
    → rule kind previous next added (count_removed previous.devices next.devices) ≡ ok tt
    → Permitted kind previous next
unfolding rule Operation-discrete
rule-Permitted init previous next added c h = cc
rule-Permitted sharing previous next added c h =
    let removed : count_removed previous.devices next.devices ≡ 0 = ground arith in
    let fresh : added ≡ 0 = ground arith in
    (
      ground arith,
      ground arith,
      λ id. same_map previous.devices next.devices id (rw fresh at c) removed,
      ground arith,
      ground arith,
    )
rule-Permitted approve previous next added c h =
    let removed : count_removed previous.devices next.devices ≡ 0 = ground arith in
    let one : added ≡ 1 = ground arith in
    (
      ground arith,
      one_enters previous.devices next.devices (rw one at c) removed,
      ground arith,
      ground arith,
    )
rule-Permitted recover previous next added c h =
    let removed : count_removed previous.devices next.devices ≡ 0 = ground arith in
    let one : added ≡ 1 = ground arith in
    (
      ground arith,
      one_enters previous.devices next.devices (rw one at c) removed,
      ground arith,
      ground arith,
    )
rule-Permitted revoke previous next added c h =
    let removed : count_removed previous.devices next.devices ≡ 1 = ground arith in
    let zero_added : added ≡ 0 = ground arith in
    let renewed : any (kept previous.devices) next.devices ≡ false = ground arith in
    (
      rotated-IsRotated previous.inbox next.inbox (ground arith),
      one_leaves previous.devices next.devices (rw zero_added at c) removed
          (λ id d p. find_of_any (kept previous.devices) next.devices id d renewed p),
      ground arith,
      ground arith,
      signer_left next (ground arith),
    )

-- An accepted step makes of the state before a state that its operation permits.
pub step-Permitted :
    (previous next : State) → step previous next ≡ ok tt → Permitted next.kind previous next
unfolding step
step-Permitted previous next h =
    elim (Result-cases (count_added previous.devices (next.kind == revoke) next.devices 0)) [
      | inl (added, c) ↦ rule-Permitted next.kind previous next added c (rw c at h)
      | inr (e, c) ↦ ground arith
    ]
