-- ===== src/Protocol/History/Valid.antt =====
-- What `check_keys` and `read_state` (crates/slink-protocol/src/history.rs) establish of a state.
use session_link.Common.{
  ◌≤◌, true, false, Option, none, some, List, [], ◌∷◌, Text, Bytes, codes, ◌≡◌, refl, text_eq,
  length, contains, byte_len, All, ok, map_err, map_ok, arith, inl, inr, Result-cases, Option-cases,
}
use session_link.Protocol.Errors.{Refusal}
use session_link.Protocol.Json.{Value, Items}
use session_link.Protocol.Crypto.{Libs}
use session_link.Protocol.Encoding.{decode_exact}
use session_link.Protocol.Signed.{device_id}
use session_link.Protocol.Payload.{fields_of, array}
use session_link.Protocol.Wrap.{split}
use session_link.Protocol.History.{Device, State, find, max_devices, max_device_name}
use session_link.Protocol.History.Read.{
  state_fields, read_device, read_devices, items_len, state_of, check_key, check_wrapper,
  check_device, check_devices, check_inbox, check_keys,
}

-- No two devices have one id.
abbrev pub IsDistinct : List Device → Type 0
IsDistinct [] = Unit
IsDistinct (d ∷ ds) = (find ds d.id ≡ none) × IsDistinct ds

module _ (lib : Libs) where
  abbrev pub IsKey : Text → Type 0
  IsKey text = (key : Bytes) × (decode_exact lib 32 text ≡ ok key)

  abbrev pub IsWrapper : Text → Type 0
  IsWrapper text = (parts : Text × Bytes × Text) × (split lib text ≡ some parts)

  pub record IsDevice (d : Device) : Type 0 where
    pub sign_key : IsKey d.sign_key
    pub box_key : IsKey d.box_key
    pub wrap : IsWrapper d.wrap
    pub id_hash : d.id ≡ device_id lib d.sign_key d.box_key
    pub name_len : byte_len d.name ≤ max_device_name

  pub check_key-IsKey : (text : Text) → check_key lib text ≡ ok tt → IsKey text
  unfolding check_key
  check_key-IsKey text h = elim (Result-cases (decode_exact lib 32 text)) [
    | inl good ↦ good
    | inr (e, bad) ↦ ground arith
  ]

  check_wrapper-IsWrapper : (text : Text) → check_wrapper lib text ≡ ok tt → IsWrapper text
  unfolding check_wrapper
  check_wrapper-IsWrapper text h = elim (Option-cases (split lib text)) [
    | inl bad ↦ ground arith
    | inr good ↦ good
  ]

  check_device-IsDevice :
      (seen : List Text) (d : Device)
      → check_device lib seen d ≡ ok tt
      → IsDevice d × (contains d.id seen ≡ false)
  unfolding check_device
  check_device-IsDevice seen d h = (
    record {
      sign_key = check_key-IsKey d.sign_key (ground arith);
      box_key = check_key-IsKey d.box_key (ground arith);
      wrap = check_wrapper-IsWrapper d.wrap (ground arith);
      id_hash = ground arith;
      name_len = ground arith;
    },
    ground arith,
  )

  -- The rounds of the loop taken apart.
  check_devices-cons :
      (seen : List Text) (d : Device) (ds : List Device)
      → check_devices lib seen (d ∷ ds) ≡ ok tt
      → (check_device lib seen d ≡ ok tt) × (check_devices lib (d.id ∷ seen) ds ≡ ok tt)
  unfolding check_devices
  check_devices-cons seen d ds h = ground arith

  -- An id seen before is not among the devices that are accepted after it.
  check_devices-fresh :
      (seen : List Text) (ds : List Device) (id : Text)
      → check_devices lib seen ds ≡ ok tt
      → contains id seen ≡ true
      → find ds id ≡ none
  unfolding find
  check_devices-fresh seen [] id h c = refl
  check_devices-fresh seen (d ∷ ds) id h c =
      let (first, rest) = check_devices-cons seen d ds h in
      let (good, fresh) = check_device-IsDevice seen d first in
      ground (arith, fresh, check_devices-fresh (d.id ∷ seen) ds id rest)

  check_devices-IsDistinct :
      (seen : List Text) (ds : List Device)
      → check_devices lib seen ds ≡ ok tt
      → IsDistinct ds × All IsDevice ds
  check_devices-IsDistinct seen [] h = (tt, tt)
  check_devices-IsDistinct seen (d ∷ ds) h =
      let (first, rest) = check_devices-cons seen d ds h in
      let (distinct, good) = check_devices-IsDistinct (d.id ∷ seen) ds rest in
      (
        (check_devices-fresh (d.id ∷ seen) ds d.id rest (ground arith), distinct),
        ((check_device-IsDevice seen d first).0, good),
      )

  check_inbox-IsKey :
      (inbox : Option Text)
      → check_inbox lib inbox ≡ ok tt
      → (key : Text) → inbox ≡ some key
      → IsKey key
  unfolding check_inbox
  check_inbox-IsKey none h key e = cc
  check_inbox-IsKey (some inbox) h key e = check_key-IsKey key (ground arith)

  -- A state whose keys are keys, whose wrappers have a wrapper's shape, and whose devices are
  -- named by the hash of their keys, no two alike.
  pub record IsChecked (state : State) : Type 0 where
    pub root : IsKey state.root
    pub recovery : IsKey state.recovery
    pub inbox : (key : Text) → state.inbox ≡ some key → IsKey key
    pub recovery_box : (sealed : Bytes) × (decode_exact lib 92 state.recovery_box ≡ ok sealed)
    pub recovery_wrap : IsWrapper state.recovery_wrap
    pub distinct : IsDistinct state.devices
    pub devices : All IsDevice state.devices

  box_of :
      (text : Text)
      → map_err (λ _. Refusal.wrapper) (map_ok (λ _. tt {0}) (decode_exact lib 92 text)) ≡ ok tt
      → (sealed : Bytes) × (decode_exact lib 92 text ≡ ok sealed)
  box_of text h = elim (Result-cases (decode_exact lib 92 text)) [
    | inl good ↦ good
    | inr (e, bad) ↦ ground arith
  ]

  pub check_keys-IsChecked : (state : State) → check_keys lib state ≡ ok tt → IsChecked state
  unfolding check_keys
  check_keys-IsChecked state h =
      let (distinct, devices) = check_devices-IsDistinct [] state.devices (ground arith) in
      record {
        root = check_key-IsKey state.root (ground arith);
        recovery = check_key-IsKey state.recovery (ground arith);
        inbox = λ key. check_inbox-IsKey state.inbox (ground arith) key;
        recovery_box = box_of state.recovery_box (ground arith);
        recovery_wrap = check_wrapper-IsWrapper state.recovery_wrap (ground arith);
        distinct = distinct;
        devices = devices;
      }

length-read_devices :
    (items : Items) (ds : List Device) → read_devices items ≡ ok ds → length ds ≡ items_len items
unfolding read_devices
length-read_devices Items.nil ds h = ground arith
length-read_devices (Items.cons value items) ds h = elim (Result-cases (read_devices items)) [
  | inr (e, r) ↦ elim (Result-cases (read_device value)) [
    | inr (f, q) ↦ ground arith
    | inl (d, q) ↦ ground arith
  ]
  | inl (rest, r) ↦ elim (Result-cases (read_device value)) [
    | inr (f, q) ↦ ground arith
    | inl (d, q) ↦ ground (arith, length-read_devices items rest r)
  ]
]

-- A state that was read has from one to `max_devices` devices.
pub state_of-devices :
    (value : Value) (state : State)
    → state_of value ≡ ok state
    → (1 ≤ length state.devices) × (length state.devices ≤ max_devices)
unfolding state_of
state_of-devices value state h = elim (Option-cases (fields_of value state_fields)) [
  | inl f ↦ ground arith
  | inr (fields, f) ↦ elim (Option-cases (array fields (codes "devices"))) [
    | inl a ↦ ground arith
    | inr (items, a) ↦ elim (Result-cases (read_devices items)) [
      | inr (e, r) ↦ ground arith
      | inl (ds, r) ↦ ground (arith, length-read_devices items ds r)
    ]
  ]
]
