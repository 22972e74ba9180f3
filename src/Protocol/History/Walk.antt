-- ===== src/Protocol/History/Walk.antt =====
-- crates/slink-protocol/src/history.rs: `walk` and `verify_history`.
pub mod Rounds
pub mod Links
pub mod Chain
pub mod Totals
pub mod Prefix
pub mod Binding
pub mod Inboxes
use session_link.Common.{
  ℕ, suc, ◌+◌, Bool, true, false, not, ◌&&◌, ◌||◌, Option, none, some, List, [], ◌∷◌, Text, Bytes,
  codes, ◌==◌, nat_eq, text_eq, option_eq, ltb, length, contains, if◌then◌else◌, Result, ok, err,
  ok_or, map_err, guard, refuse_if, ◌>>=◌, ◌>>◌,
}
use session_link.Protocol.Errors.{Kind, Error, Refusal}
use session_link.Protocol.Crypto.{Libs}
use session_link.Protocol.Encoding.{decode_exact, digest}
use session_link.Protocol.Signed.{Signed, read, verify_bytes}
use session_link.Protocol.History.{
  Operation, operation_eq, init, recover, Device, State, find, device, max_events,
}
use session_link.Protocol.History.Read.{read_state, check_keys}
use session_link.Protocol.History.Step.{step}

-- A verified history: its last state and the hash of its last event.
pub record History : Type 0 where
  pub state : State
  pub head : Text

-- The loop's variables.
pub record Progress : Type 0 where
  pub previous : Option State
  pub head : Text
  pub inboxes : List Text

abbrev pub start : Progress
start = record { previous = none; head = []; inboxes = [] }

unfoldable pub signature_refusal : Error → Refusal
signature_refusal (Error.signature _) = Refusal.signature
signature_refusal Error.signing_key = Refusal.key
signature_refusal _ = Refusal.signed

abbrev pub inbox_before : Option State → Option Text
inbox_before none = none
inbox_before (some previous) = previous.inbox

-- Every incoming-share key is introduced once: the set of them after this event.
unfoldable pub introduce : Option Text → Option Text → List Text → Result Refusal (List Text)
introduce before none inboxes = ok inboxes
introduce before (some inbox) inboxes =
    if some inbox == before
    then ok inboxes
    else if contains inbox inboxes
    then err Refusal.inbox_reuse
    else ok (inbox ∷ inboxes)

module _ (lib : Libs) where
  -- The closure `signed_by`.
  unfoldable pub signed_by : Signed → Bytes → Text → Result Refusal (Unit {0})
  signed_by event raw key = do
    public ← map_err (λ _. Refusal.key) (decode_exact lib 32 key)
    map_err signature_refusal (verify_bytes lib event Kind.event raw public)

  -- The key an event after the first must be signed with.
  unfoldable pub signer_key : State → State → Result Refusal Text
  signer_key previous next = elim (next.kind == recover) [
    | true ↦ if next.signer == codes "root" then ok previous.root else err Refusal.signer
    | false ↦ elim (device previous next.signer) [
      | none ↦ err Refusal.signer
      | some d ↦ ok d.sign_key
    ]
  ]

  -- The `match &previous`: who may make this state, and of which state.
  unfoldable pub follow : Option State → Signed → Bytes → State → Result Refusal (Unit {0})
  follow none event raw next = do
    refuse_if
        (not (next.kind == init)
          || not (next.signer == codes "root")
          || not (next.epoch == 1)
          || not (length next.devices == 1))
        Refusal.initial
    signed_by event raw next.root
  follow (some previous) event raw next = do
    refuse_if
        (not (next.root == previous.root)
          || not (next.recovery == previous.recovery)
          || not (next.recovery_box == previous.recovery_box))
        Refusal.recovery
    key ← signer_key previous next
    signed_by event raw key
    step previous next

  -- One round of the loop.
  unfoldable pub walk_event : Text → ℕ → Progress → Signed → Result Refusal Progress
  walk_event account index p event = do
    raw ← map_err (λ _. Refusal.signed) (read lib event Kind.event)
    next ← read_state lib raw
    guard (next.account == account) Refusal.account
    guard (next.seq == index) Refusal.sequence
    guard (next.prev == p.head) Refusal.previous
    refuse_if (ltb next.epoch 1) Refusal.epoch
    check_keys lib next
    follow p.previous event raw next
    inboxes ← introduce (inbox_before p.previous) next.inbox p.inboxes
    ok (record { previous = some next; head = digest lib raw; inboxes = inboxes })

  unfoldable pub walk_events : Text → ℕ → Progress → List Signed → Result Refusal Progress
  walk_events account index p [] = ok p
  walk_events account index p (event ∷ events) = do
    p' ← walk_event account index p event
    walk_events account (index + 1) p' events

  unfoldable pub walk : List Signed → Text → Result Refusal History
  walk events account = do
    refuse_if (length events == 0 || ltb max_events (length events)) Refusal.length
    p ← walk_events account 0 start events
    state ← ok_or Refusal.length p.previous
    ok (record { state = state; head = p.head })

  -- Verifies `events` as the whole history of `account`, from its first event.
  unfoldable pub verify_history : List Signed → Text → Result Error History
  verify_history events account = map_err Error.history (walk events account)
