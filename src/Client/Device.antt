-- ===== src/Client/Device.antt =====
-- crates/slink-client/src/device.rs: this machine as a device of an account, its keys and what it has
-- pinned of the account's identity.
pub mod Pins
pub mod Ahead
use session_link.Common.{
  ℕ, ◌+◌, ◌-◌, ◌^◌, Bool, true, false, not, ◌&&◌, ◌||◌, Option, none, some, List, [], Text, Bytes,
  get_elem?, length, ltb, leb, ◌==◌, text_eq, if◌then◌else◌, Result, ok, err, ok_or, map_err, guard,
  refuse_if, ◌>>=◌, ◌>>◌, codes,
}
use session_link.Common.Int.{ℤ, pos, negsuc}
use session_link.Common.Options.{is_none, is_some}
use session_link.Protocol.Errors.{Kind}
use session_link.Protocol.Crypto.{Libs}
use session_link.Protocol.Signed.{
  Signed, SigningKey, AgreementKey, signing_public, agreement_public, device_id, hash,
}
use session_link.Protocol.History
use session_link.Protocol.History.{State, device}
use session_link.Protocol.Record.{Record, Verified}
use session_link.Protocol.Recovery.{recovery_token_matches}
use session_link.Client.Errors.{Error, from}

-- A write to the record, as identity.rs makes it.
pub record Update : Type 0 where
  pub expected_head : Text
  pub expected_revision : ℕ
  pub event : Option Signed
  pub vault : Signed

-- The device's keys and pins.
pub record Device : Type 0 where
  pub sign : SigningKey
  pub agreement : AgreementKey
  pub root : Text
  pub seq : ℤ
  pub head : Text
  pub revision : ℕ
  pub request : Option Signed
  pub pending_recovery : Text
  pub pending_setup : Option Update

-- `Device::new`
abbrev pub new_device : Bytes → Bytes → Device
new_device seed agreement = record {
  sign = record { seed = seed };
  agreement = record { bytes = agreement };
  root = [];
  seq = negsuc 0;
  head = [];
  revision = 0;
  request = none;
  pending_recovery = [];
  pending_setup = none;
}

-- `usize::try_from(seq).ok()`
abbrev pub seen_of : ℤ → Option ℕ
seen_of (pos n) = some n
seen_of (negsuc n) = none

-- `i64::try_from(seq).unwrap_or(i64::MAX)`
abbrev pub seq_of : ℕ → ℤ
seq_of n = if ltb n (2 ^ 63) then pos n else pos (2 ^ 63 - 1)

-- `events[seq]`
abbrev pub event_at : List Signed → ℕ → Result Error Signed
event_at events seq = ok_or Error.index_out_of_range (get_elem? events seq)

module _ (lib : Libs) where
  -- The device as a history lists it, with no wrapper yet.
  unfoldable pub public : Device → Text → History.Device
  public self name =
      let sign_key = signing_public lib self.sign in
      let box_key = agreement_public lib self.agreement in
      record {
        id = device_id lib sign_key box_key;
        name = name;
        sign_key = sign_key;
        box_key = box_key;
        wrap = [];
      }

  unfoldable pub own_id : Device → Text
  unfolding public
  own_id self = (public self []).id

  -- A setup made here that was never acknowledged, while the account holds an identity that this
  -- device's keys are not in.
  unfoldable pub setup_conflict : Device → State → Bool
  setup_conflict self state =
      is_some self.pending_setup
      && not (self.root == state.root)
      && is_none (device state (own_id self))

  -- Whether the answer is older than what was seen.
  unfoldable pub older : Device → Record → Verified → Bool
  older self record_ verified =
      elim (seen_of self.seq) [ none ↦ false | some seq ↦ leb (length record_.events) seq ]
      || ltb verified.vault.revision self.revision

  -- The event seen last is still the one at its place.
  unfoldable pub same_event : Device → Record → Result Error (Unit {0})
  same_event self record_ = elim (seen_of self.seq) [
    | none ↦ ok tt
    | some seq ↦ elim (self.head == []) [
      | true ↦ ok tt
      | false ↦ do
        event ← event_at record_.events seq
        found ← map_err from (hash lib event Kind.event)
        guard (found == self.head)
            (Error.refused (codes "device history conflicts with this device's saved history"))
    ]
  ]

  -- Checks the record that the service holds against the pins, and moves them on to it.
  unfoldable pub pin : Device → Record → Verified → Result Error Device
  pin self record_ verified = do
    let state = verified.state
    refuse_if (setup_conflict self state) Error.setup_conflict
    refuse_if
        (not (self.pending_recovery == [])
          && not (recovery_token_matches lib self.pending_recovery state.account state.root))
        (Error.refused (codes "server recovery identity does not match the saved recovery key"))
    refuse_if (not (self.root == []) && not (self.root == state.root))
        (Error.refused (codes "server recovery identity changed; refusing replacement"))
    refuse_if (older self record_ verified)
        (Error.refused (codes "server returned an older encrypted vault"))
    same_event self record_
    ok (record self {
      root = state.root;
      seq = seq_of state.seq;
      head = verified.head;
      revision = verified.vault.revision;
      pending_setup = none;
    })

  -- Moves the pins on to a write that the service has just taken.
  unfoldable pub wrote : Device → Update → ℕ → Result Error Device
  wrote self update seq = elim update.event [
    | none ↦ ok (record self { revision = update.expected_revision + 1 })
    | some event ↦ do
      found ← map_err from (hash lib event Kind.event)
      ok (record self { seq = seq_of seq; head = found; revision = update.expected_revision + 1 })
  ]
