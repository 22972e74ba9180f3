-- ===== src/Protocol/History/Walk/Totals.antt =====
-- What a verified history (crates/slink-protocol/src/history.rs) adds up to: its length, its epoch,
-- its devices, and the keys that no event may change.
use session_link.Common.{
  ap, Option-discrete, ℕ, ◌+◌, ◌≤◌, Option, some, List, ◌∷◌, Text, Bytes, ◌≡◌, refl, ◌∙◌, ◌==◌,
  nat_eq, text_eq, option_eq, length, count_if, ok, arith, to_option, ◌>>=◌, map_err, Option-cases,
  inl, inr,
}
use session_link.Protocol.Errors.{Kind, Refusal}
use session_link.Protocol.Crypto.{Libs}
use session_link.Protocol.Signed.{Signed, read}
use session_link.Protocol.Payload.{parse}
use session_link.Protocol.History.{
  Operation, Operation-discrete, operation_eq, init, approve, recover, revoke, sharing, State,
  max_devices,
}
use session_link.Protocol.History.Read.{read_state}
use session_link.Protocol.History.Valid.{
  IsDistinct, IsChecked, check_keys-IsChecked, state_of-devices,
}
use session_link.Protocol.History.Counts.{enrolled, dropped, step_counts}
use session_link.Protocol.History.Walk.{History, verify_history}
use session_link.Protocol.History.Walk.Chain.{Links, Links-last, nil, cons, verify_history-IsChain}

module _ (lib : Libs) where
  -- The operation that an event's payload names.
  abbrev pub event_kind : Signed → Option Operation
  event_kind event = to_option (do
    raw ← map_err (λ _. Refusal.signed) (read lib event Kind.event)
    state ← read_state lib raw
    ok state.kind)

  -- How many events name the operation.
  abbrev pub events_of : Operation → List Signed → ℕ
  events_of kind = count_if (λ event. event_kind event == some kind)

  abbrev IsSum : History → List Signed → History → Type 0
  IsSum before events last =
      (last.state.account ≡ before.state.account)
      × (last.state.root ≡ before.state.root)
      × (last.state.recovery ≡ before.state.recovery)
      × (last.state.recovery_box ≡ before.state.recovery_box)
      × (last.state.seq ≡ before.state.seq + length events)
      × (last.state.epoch ≡ before.state.epoch + events_of revoke events)
      × (length last.state.devices + events_of revoke events
          ≡ length before.state.devices + events_of approve events + events_of recover events)

  event_kind_of_read :
      (event : Signed) (raw : Bytes) (state : State)
      → read lib event Kind.event ≡ ok raw
      → read_state lib raw ≡ ok state
      → event_kind event ≡ some state.kind
  event_kind_of_read event raw state r s = ground arith

  -- One event more, by the operation that it names.
  add_event :
      (kind : Operation) (e : Signed) (es : List Signed)
      → event_kind e ≡ some kind
      → (events_of revoke (e ∷ es) ≡ dropped kind + events_of revoke es)
        × (events_of approve (e ∷ es) + events_of recover (e ∷ es)
            ≡ enrolled kind + events_of approve es + events_of recover es)
  unfolding Option-discrete Operation-discrete
  add_event init e es h = rw h (omega arith)
  add_event approve e es h = rw h (omega arith)
  add_event recover e es h = rw h (omega arith)
  add_event revoke e es h = rw h (omega arith)
  add_event sharing e es h = rw h (omega arith)

  Links-IsSum :
      {last before : History} {events : List Signed}
      → IsDistinct before.state.devices
      → Links lib last before events
      → IsSum before events last
  Links-IsSum distinct nil = (refl, refl, refl, refl, omega arith, omega arith, omega arith)
  Links-IsSum {before} distinct (cons {event = e} {after = after} {events = es} link links) =
      let distinct' : IsDistinct after.state.devices =
        (check_keys-IsChecked lib after.state link.keys).distinct in
      let (account, root, recovery, box, seq, epoch, devices) = Links-IsSum distinct' links in
      let counts = step_counts before.state after.state link.stepped distinct distinct' in
      let adds =
        add_event after.state.kind e es
          (event_kind_of_read e link.raw after.state link.is_read link.is_state) in
      (
        account ∙ link.account_same,
        root ∙ link.root_same,
        recovery ∙ link.recovery_same,
        box ∙ link.recovery_box_same,
        omega (arith, seq, link.seq_next),
        omega (arith, epoch, counts.1, adds.0),
        omega (arith, devices, counts.0, adds.0, adds.1),
      )

  -- A verified history is of the account that was asked for, its last state's `seq` is the number of
  -- events less one, its epoch is one more than the number of its revocations, and the number of its devices,
  -- with that of its revocations added, is one more than the number of its approvals and recoveries.
  pub history_totals :
      (events : List Signed) (account : Text) (h : History)
      → verify_history lib events account ≡ ok h
      → (h.state.account ≡ account)
        × (h.state.seq + 1 ≡ length events)
        × (h.state.epoch ≡ 1 + events_of revoke events)
        × (length h.state.devices + events_of revoke events
            ≡ 1 + events_of approve events + events_of recover events)
  history_totals events account h v =
      let c = verify_history-IsChain lib events account h v in
      let first = c.is_first in
      let distinct = (check_keys-IsChecked lib c.first.state first.keys).distinct in
      let (acc, root, recovery, box, seq, epoch, devices) = Links-IsSum distinct c.links in
      let adds = add_event init c.event c.rest (
        event_kind_of_read c.event first.raw c.first.state first.is_read first.is_state
        ∙ ap some first.kind_init) in
      rw c.events_eq (
        (
          acc ∙ first.account_same,
          omega (arith, seq, first.seq_zero),
          omega (arith, epoch, first.epoch_one, adds.0),
          omega (arith, devices, first.one_device, adds.0, adds.1),
        ))

  read_state-devices :
      (raw : Bytes) (state : State)
      → read_state lib raw ≡ ok state
      → (1 ≤ length state.devices) × (length state.devices ≤ max_devices)
  unfolding read_state
  read_state-devices raw state h = elim (Option-cases (parse lib raw)) [
    | inl bad ↦ ground arith
    | inr (value, good) ↦ state_of-devices value state (rw good at h)
  ]

  -- Every key in the last state of a verified history is a key and every wrapper has a wrapper's
  -- shape; its devices are from one to `max_devices`, named by the hash of their keys, no two alike.
  pub history_valid :
      (events : List Signed) (account : Text) (h : History)
      → verify_history lib events account ≡ ok h
      → IsChecked lib h.state
        × (1 ≤ length h.state.devices)
        × (length h.state.devices ≤ max_devices)
  history_valid events account h v =
      let c = verify_history-IsChain lib events account h v in
      Links-last lib
        (λ k.
          IsChecked lib k.state
          × (1 ≤ length k.state.devices)
          × (length k.state.devices ≤ max_devices))
        (λ before event after link.
          let (some_devices, few) = read_state-devices link.raw after.state link.is_state in
          (check_keys-IsChecked lib after.state link.keys, some_devices, few))
        (let (some_devices, few) =
            read_state-devices c.is_first.raw c.first.state c.is_first.is_state in
          (check_keys-IsChecked lib c.first.state c.is_first.keys, some_devices, few))
        c.links

  -- The keys that no event changes.
  pub Links-root :
      {last before : History} {events : List Signed}
      → IsDistinct before.state.devices
      → Links lib last before events
      → (last.state.root ≡ before.state.root)
        × (last.state.recovery ≡ before.state.recovery)
        × (last.state.recovery_box ≡ before.state.recovery_box)
  Links-root distinct links = let s = Links-IsSum distinct links in (s.1, s.2, s.3)
