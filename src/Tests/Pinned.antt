-- ===== src/Tests/Pinned.antt =====
-- Runs of crates/slink-client/src/device.rs: a device that accepts a first record, and then one in
-- which a second device was approved.
use mathlib.Core.Logic.Or
use mathlib.Core.List.{mem-cons, not-mem-nil, Mem, Subset}
use session_link.Common.{
  none, ℕ, [], ◌∷◌, ◌++◌, Text, Bytes, codes, replicate, length-replicate, ◌≡◌, ◌≢◌, refl, sym, ◌∙◌,
  ap, ok, err, arith, All, ◌≤◌, get_or, ◌+◌,
}
use session_link.Common.Int.{pos}
use session_link.Protocol.Errors.{Kind}
use session_link.Protocol.Crypto.{Libs}
use session_link.Protocol.Encoding.{digest}
use session_link.Protocol.Json.{Raw, RawFields}
use session_link.Protocol.Laws.{IsDigest}
use session_link.Protocol.Signed.{Signed, read}
use session_link.Protocol.History
use session_link.Protocol.History.{State, init, approve}
use session_link.Protocol.History.Walk.Binding.{NoCollision}
use session_link.Protocol.Record.{
  Vault, Record, Verified, vault_of, writer_key, read_vault, bad_data, verify_record,
}
use session_link.Client.Errors.{Error}
use session_link.Client.Device.{
  Device, new_device, public, own_id, setup_conflict, older, same_event, pin,
}
use session_link.Client.Device.Pins.{pin_in_range}
use session_link.Client.Device.Ahead.{IsExtension, Accepts, device_never_goes_back}
use session_link.Tests.ToyLaws.{length-toy_encode}
use session_link.Tests.Opened.{opened_history}
use session_link.Tests.Toy.{
  toy, toy_encode, key_text, wrapper_text, read_table, raw_state, raw_text, raw_count,
}

abbrev sum : Bytes → Bytes
sum bytes = replicate 32 (get_or bytes 0 0)

abbrev device_of : ℕ → ℕ → History.Device
device_of k w = record {
  id = toy_encode (sum (key_text k ++ codes "." ++ key_text (k + 1)));
  name = codes "Laptop";
  sign_key = key_text k;
  box_key = key_text (k + 1);
  wrap = wrapper_text w;
}

abbrev first_state : State
first_state = record {
  account = codes "usr_a";
  seq = 0;
  prev = [];
  kind = init;
  signer = codes "root";
  root = key_text 7;
  recovery = key_text 8;
  recovery_box = toy_encode (replicate 92 9);
  recovery_wrap = wrapper_text 10;
  epoch = 1;
  devices = device_of 20 30 ∷ [];
  inbox = none;
}

abbrev head_of : ℕ → Text
head_of payload = toy_encode (sum (payload ∷ []))

abbrev second_state : State
second_state = record first_state {
  seq = 1;
  prev = head_of 1;
  kind = approve;
  signer = (device_of 20 30).id;
  devices = device_of 20 30 ∷ device_of 50 31 ∷ [];
}

abbrev vault : ℕ → ℕ → Vault
vault revision payload = record {
  account = codes "usr_a";
  revision = revision;
  head = head_of payload;
  epoch = 1;
  signer = (device_of 20 30).id;
  sealed = toy_encode (replicate 40 9);
}

abbrev raw_vault : Vault → Raw
raw_vault v = Raw.object (
    raw_text (codes "account") v.account (
      raw_count (codes "revision") v.revision (
        raw_text (codes "head") v.head (
          raw_count (codes "epoch") v.epoch (
            raw_text (codes "signer") v.signer (raw_text (codes "data") v.sealed RawFields.end))))))

abbrev lib : Libs
lib = record (toy []) {
  sha256 = sum;
  from_slice = read_table (
      (1 ∷ [], raw_state first_state)
      ∷ (2 ∷ [], raw_state second_state)
      ∷ (3 ∷ [], raw_vault (vault 1 1))
      ∷ (4 ∷ [], raw_vault (vault 2 2))
      ∷ []);
}

abbrev event : ℕ → ℕ → Signed
event payload signer = record {
  payload = toy_encode (payload ∷ []);
  signature = toy_encode (replicate 64 signer);
}

abbrev first_record : Record
first_record = record { events = event 1 7 ∷ []; vault = event 3 20 }

abbrev second_record : Record
second_record = record { events = event 1 7 ∷ event 2 20 ∷ []; vault = event 4 20 }

abbrev first_accepted : Verified
first_accepted = record { state = first_state; head = head_of 1; vault = vault 1 1 }

abbrev second_accepted : Verified
second_accepted = record { state = second_state; head = head_of 2; vault = vault 2 2 }

first_verifies : verify_record lib first_record (codes "usr_a") ≡ ok first_accepted
unfolding opened_history vault_of writer_key read_vault bad_data verify_record
first_verifies = refl

second_verifies : verify_record lib second_record (codes "usr_a") ≡ ok second_accepted
unfolding opened_history vault_of writer_key read_vault bad_data verify_record
second_verifies = refl

abbrev fresh : Device
fresh = new_device (replicate 32 20) (replicate 32 21)

abbrev first_device : Device
first_device = record fresh { root = key_text 7; seq = pos 0; head = head_of 1; revision = 1 }

abbrev second_device : Device
second_device = record fresh { root = key_text 7; seq = pos 1; head = head_of 2; revision = 2 }

first_pins : pin lib fresh first_record first_accepted ≡ ok first_device
unfolding opened_history public own_id setup_conflict older same_event pin
first_pins = refl

second_pins : pin lib first_device second_record second_accepted ≡ ok second_device
unfolding opened_history public own_id setup_conflict older same_event pin
second_pins = refl

-- The record that came before, one with another root key, and one whose last event is another.
pin_refusals :
    (pin lib second_device first_record first_accepted
      ≡ err (Error.refused (codes "server returned an older encrypted vault")))
    × (pin lib first_device second_record
          (record second_accepted { state = record second_state { root = key_text 9 } })
        ≡ err (Error.refused (codes "server recovery identity changed; refusing replacement")))
    × (pin lib (record first_device { head = head_of 9 }) second_record second_accepted
        ≡ err (Error.refused (codes "device history conflicts with this device's saved history")))
unfolding opened_history public own_id setup_conflict older same_event pin
pin_refusals = (refl, refl, refl)

law : IsDigest lib
law = record {
  length_encode = length-toy_encode;
  length_sha256 = λ b. length-replicate {A = ℕ} 32 (get_or b 0 0);
}

-- Payloads of one byte have digests of their own.
one_byte : (a b : ℕ) → digest lib (a ∷ []) ≡ digest lib (b ∷ []) → a ≡ b
unfolding digest
one_byte a b h = omega (arith, ap (λ t. get_or t 0 0) h)

first_reads : read lib (event 1 7) Kind.event ≡ ok (1 ∷ [])
unfolding opened_history
first_reads = refl

second_reads : read lib (event 2 20) Kind.event ≡ ok (2 ∷ [])
unfolding opened_history
second_reads = refl

listed :
    (e : Signed) (a : Bytes)
    → Mem e second_record.events
    → read lib e Kind.event ≡ ok a
    → a ≡ get_or a 0 0 ∷ []
listed e a m r =
    Or.elim (hlevel) (mem-cons.0 m) (λ p. ground (arith, first_reads))
      (λ n.
        Or.elim (hlevel) (mem-cons.0 n) (λ p. ground (arith, second_reads))
          (λ none_left. absurd (not-mem-nil none_left)))

apart : NoCollision lib second_record.events second_record.events
apart e f m n a b r s d =
    let p = listed e a m r in
    let q = listed f b n s in
    let one = one_byte _ _ (ap (digest lib) (sym p) ∙ d ∙ ap (digest lib) q) in
    p ∙ ap (λ k. k ∷ []) one ∙ sym q

within : Subset first_record.events second_record.events
within e m =
    Or.elim (hlevel) (mem-cons.0 m) (λ p. mem-cons.1 (Or.inl p))
      (λ none_left. absurd (not-mem-nil none_left))

device_never_goes_back_example :
    All (λ r. IsExtension lib law (codes "usr_a") first_record r) (second_record ∷ [])
    × (1 ≤ 2)
    × (key_text 7 ≡ key_text 7)
device_never_goes_back_example =
    device_never_goes_back lib law (codes "usr_a") second_record.events fresh first_device
      second_device first_record (second_record ∷ []) first_accepted apart within (λ e m. m, tt)
      first_verifies first_pins
      (Accepts.next second_verifies second_pins (Accepts.settled second_device))

pin_in_range_example :
    pin lib first_device second_record second_accepted ≢ err Error.index_out_of_range
pin_in_range_example = pin_in_range lib first_device second_record second_accepted
