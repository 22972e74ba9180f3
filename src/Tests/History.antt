-- ===== src/Tests/History.antt =====
-- Runs of crates/slink-protocol/src/history.rs on a history of three events: the recovery key
-- enrolls a device, that device approves a second, and the first revokes the second.
use session_link.Common.{
  ℕ, Option, none, some, [], ◌∷◌, ◌++◌, Text, Bytes, codes, replicate, ◌≡◌, refl, ok, err, ◌+◌,
}
use session_link.Protocol.Crypto.{Libs}
use session_link.Protocol.Signed.{Signed, read}
use session_link.Protocol.History.{init, approve, revoke, Device, State, recover}
use session_link.Protocol.History.Walk.{History, verify_history}
use session_link.Common.{◌+◌, ◌≤◌, ◌≢◌, length, arith}
use session_link.Protocol.Errors.{Kind, Error, Refusal}
use session_link.Protocol.Encoding.{digest}
use session_link.Protocol.History.Valid.{IsChecked}
use session_link.Protocol.History.Step.Permitted.{Permitted}
use session_link.Protocol.History.Walk.Links.{IsAuthorised}
use session_link.Protocol.History.Walk.Chain.{Links}
use session_link.Protocol.History.Walk.Totals.{events_of, history_totals, history_valid}
use session_link.Protocol.History.Walk.Prefix.{
  verify_history-prefix, history_authority, history_keeps_root,
}
use session_link.Protocol.History.Walk.Binding.{payloads, NoCollision, history_binding}
use session_link.Protocol.History.Walk.Inboxes.{history_retires_inbox}
use session_link.Common.{get_or, ap}
use session_link.Tests.ToyLaws.{toy_encode-injective}
use session_link.Tests.Opened.{opened_history}
use session_link.Tests.Toy.{toy, toy_encode, key_text, wrapper_text, raw_state}

abbrev pub device_of : ℕ → ℕ → Device
device_of k w = record {
  id = toy_encode (key_text k ++ codes "." ++ key_text (k + 1));
  name = codes "Laptop";
  sign_key = key_text k;
  box_key = key_text (k + 1);
  wrap = wrapper_text w;
}

abbrev pub first_state : State
first_state = record {
  account = codes "usr_a";
  seq = 0;
  prev = [];
  kind = init;
  signer = codes "root";
  root = key_text 7;
  recovery = key_text 8;
  recovery_box = toy_encode (replicate 92 9);
  recovery_wrap = wrapper_text 10;
  epoch = 1;
  devices = device_of 20 30 ∷ [];
  inbox = some (key_text 40);
}

abbrev pub second_state : State
second_state = record first_state {
  seq = 1;
  prev = toy_encode (1 ∷ []);
  kind = approve;
  signer = (device_of 20 30).id;
  devices = device_of 20 30 ∷ device_of 50 31 ∷ [];
}

abbrev pub third_state : State
third_state = record first_state {
  seq = 2;
  prev = toy_encode (2 ∷ []);
  kind = revoke;
  signer = (device_of 20 30).id;
  recovery_wrap = wrapper_text 11;
  epoch = 2;
  devices = device_of 20 32 ∷ [];
  inbox = some (key_text 41);
}

abbrev lib : Libs
lib = toy (
    (1 ∷ [], raw_state first_state)
    ∷ (2 ∷ [], raw_state second_state)
    ∷ (3 ∷ [], raw_state third_state)
    ∷ [])

abbrev pub event : ℕ → ℕ → Signed
event payload signer = record {
  payload = toy_encode (payload ∷ []);
  signature = toy_encode (replicate 64 signer);
}

first_verifies :
    verify_history lib (event 1 7 ∷ []) (codes "usr_a")
    ≡ ok (record { state = first_state; head = toy_encode (1 ∷ []) })
unfolding opened_history
first_verifies = refl

abbrev first_history : History
first_history = record { state = first_state; head = toy_encode (1 ∷ []) }

abbrev second_history : History
second_history = record { state = second_state; head = toy_encode (2 ∷ []) }

abbrev third_history : History
third_history = record { state = third_state; head = toy_encode (3 ∷ []) }

second_verifies :
    verify_history lib (event 1 7 ∷ event 2 20 ∷ []) (codes "usr_a") ≡ ok second_history
unfolding opened_history
second_verifies = refl

third_verifies :
    verify_history lib (event 1 7 ∷ event 2 20 ∷ event 3 20 ∷ []) (codes "usr_a") ≡ ok third_history
unfolding opened_history
third_verifies = refl

-- Signed by a device that the history does not hold, for another account, out of order, twice.
refusals :
    (verify_history lib (event 1 7 ∷ event 2 50 ∷ []) (codes "usr_a")
      ≡ err (Error.history Refusal.signature))
    × (verify_history lib (event 1 7 ∷ []) (codes "usr_b") ≡ err (Error.history Refusal.account))
    × (verify_history lib (event 2 20 ∷ []) (codes "usr_a") ≡ err (Error.history Refusal.sequence))
    × (verify_history lib [] (codes "usr_a") ≡ err (Error.history Refusal.length))
unfolding opened_history
refusals = (refl, refl, refl, refl)

history_totals_example :
    (third_state.account ≡ codes "usr_a")
    × (third_state.seq + 1 ≡ 3)
    × (third_state.epoch ≡ 1 + events_of lib revoke (event 1 7 ∷ event 2 20 ∷ event 3 20 ∷ []))
    × (length third_state.devices + events_of lib revoke (event 1 7 ∷ event 2 20 ∷ event 3 20 ∷ [])
        ≡ 1
          + events_of lib approve (event 1 7 ∷ event 2 20 ∷ event 3 20 ∷ [])
          + events_of lib recover (event 1 7 ∷ event 2 20 ∷ event 3 20 ∷ []))
history_totals_example =
    history_totals lib (event 1 7 ∷ event 2 20 ∷ event 3 20 ∷ []) (codes "usr_a") third_history
      third_verifies

history_valid_example :
    IsChecked lib third_state × (1 ≤ length third_state.devices) × (length third_state.devices ≤ 32)
history_valid_example =
    history_valid lib (event 1 7 ∷ event 2 20 ∷ event 3 20 ∷ []) (codes "usr_a") third_history
      third_verifies

verify_history-prefix_example :
    (h : History) × (verify_history lib (event 1 7 ∷ event 2 20 ∷ []) (codes "usr_a") ≡ ok h)
    × Links lib third_history h (event 3 20 ∷ [])
verify_history-prefix_example =
    verify_history-prefix lib (event 1 7 ∷ event 2 20 ∷ []) (event 3 20 ∷ []) (codes "usr_a")
      third_history (omega arith) third_verifies

history_authority_example :
    (h : History) × (verify_history lib (event 1 7 ∷ event 2 20 ∷ []) (codes "usr_a") ≡ ok h)
    × ((raw : Bytes) × (read lib (event 3 20) Kind.event ≡ ok raw)
        × IsAuthorised lib h.state third_state (event 3 20) raw)
    × Permitted revoke h.state third_state
history_authority_example =
    history_authority lib (event 1 7 ∷ event 2 20 ∷ []) (event 3 20) (codes "usr_a") third_history
      (omega arith) third_verifies

history_keeps_root_example :
    (third_state.root ≡ first_state.root)
    × (third_state.recovery ≡ first_state.recovery)
    × (third_state.recovery_box ≡ first_state.recovery_box)
history_keeps_root_example =
    history_keeps_root lib (event 1 7 ∷ []) (event 2 20 ∷ event 3 20 ∷ []) (codes "usr_a")
      first_history third_history first_verifies third_verifies

apart : NoCollision lib (event 1 7 ∷ event 2 20 ∷ []) (event 1 7 ∷ event 2 20 ∷ [])
unfolding digest
apart e f m n a b r s d = toy_encode-injective a b d

abbrev first_char : Option Text → ℕ
first_char none = 0
first_char (some text) = get_or text 0 0

changed : some (key_text 41) ≢ some (key_text 40)
changed e = omega (arith, ap first_char e)

history_binding_example :
    (payloads lib (event 1 7 ∷ event 2 20 ∷ []) ≡ payloads lib (event 1 7 ∷ event 2 20 ∷ []))
    × (second_state ≡ second_state)
history_binding_example =
    history_binding lib (event 1 7 ∷ event 2 20 ∷ []) (event 1 7 ∷ event 2 20 ∷ []) (codes "usr_a")
      (codes "usr_a") second_history second_history apart second_verifies second_verifies refl

history_retires_inbox_example : some (key_text 41) ≢ some (key_text 40)
history_retires_inbox_example =
    history_retires_inbox lib (event 1 7 ∷ []) (event 2 20 ∷ event 3 20 ∷ []) [] (codes "usr_a")
      first_history third_history third_history (key_text 40) first_verifies third_verifies
      third_verifies refl changed
