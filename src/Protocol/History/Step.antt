-- ===== src/Protocol/History/Step.antt =====
-- crates/slink-protocol/src/history.rs: `step`, whether a state is one that its operation may make
-- of the state before.
pub mod Maps
pub mod Permitted
use session_link.Common.{
  ℕ, suc, ◌+◌, Bool, true, false, not, ◌&&◌, ◌||◌, Option, none, some, List, [], ◌∷◌, Text, ◌==◌,
  nat_eq, text_eq, option_eq, any, count_if, if◌then◌else◌, Result, ok, err, refuse_if, ◌>>=◌, ◌>>◌,
}
use session_link.Common.Options.{is_some, is_none}
use session_link.Protocol.Errors.{Refusal}
use session_link.Protocol.History.{
  Operation, operation_eq, init, approve, recover, revoke, sharing, Device, State, find, device,
}

-- A device in both states changed its name or keys, or its wrapper outside a revocation.
unfoldable pub device_changed : Bool → Device → Device → Bool
device_changed revoking d old =
    not (d.name == old.name)
    || not (d.sign_key == old.sign_key)
    || not (d.box_key == old.box_key)
    || (not revoking && not (d.wrap == old.wrap))

-- The loop over the devices of the next state: how many are new to `before`.
unfoldable pub count_added : List Device → Bool → List Device → ℕ → Result Refusal ℕ
unfolding device_changed
count_added before revoking [] added = ok added
count_added before revoking (d ∷ ds) added = elim (find before d.id) [
  | none ↦ count_added before revoking ds (added + 1)
  | some old ↦
      let rest = count_added before revoking ds added in
      if device_changed revoking d old then err Refusal.device_changed else rest
]

-- `previous.devices.iter().filter(|device| next.device(&device.id).is_none()).count()`
unfoldable pub count_removed : List Device → List Device → ℕ
count_removed before after = count_if (λ d. is_none (find after d.id)) before

-- Whether the incoming-share key is as a revocation must leave it.
unfoldable pub rotated : Option Text → Option Text → Bool
rotated none none = true
rotated (some old) (some new) = not (old == new)
rotated _ _ = false

-- A device that kept its wrapper.
unfoldable pub kept : List Device → Device → Bool
kept before d = elim (find before d.id) [ none ↦ false | some old ↦ old.wrap == d.wrap ]

-- The `match next.kind` at the end, for what the loops counted.
unfoldable pub rule : Operation → State → State → ℕ → ℕ → Result Refusal (Unit {0})
unfolding rotated kept
rule init previous next added removed = err Refusal.kind
rule sharing previous next added removed = do
  refuse_if (is_some previous.inbox || is_none next.inbox) Refusal.inbox
  refuse_if
      (not (added == 0)
        || not (removed == 0)
        || not (next.epoch == previous.epoch)
        || not (next.recovery_wrap == previous.recovery_wrap))
      Refusal.operation
rule revoke previous next added removed = do
  refuse_if (not (rotated previous.inbox next.inbox)) Refusal.inbox
  refuse_if (not (added == 0) || not (removed == 1) || not (next.epoch == previous.epoch + 1))
      Refusal.operation
  refuse_if
      (next.recovery_wrap == previous.recovery_wrap || any (kept previous.devices) next.devices)
      Refusal.rotation
  refuse_if (is_none (device next next.signer)) Refusal.signer
rule _ previous next added removed = do
  refuse_if (not (next.inbox == previous.inbox)) Refusal.inbox
  refuse_if
      (not (added == 1)
        || not (removed == 0)
        || not (next.epoch == previous.epoch)
        || not (next.recovery_wrap == previous.recovery_wrap))
      Refusal.operation

unfoldable pub step : State → State → Result Refusal (Unit {0})
step previous next = do
  added ← count_added previous.devices (next.kind == revoke) next.devices 0
  rule next.kind previous next added (count_removed previous.devices next.devices)
