-- ===== src/Protocol/History/Read.antt =====
-- crates/slink-protocol/src/history.rs: `read_state`, `read_device`, `check_keys`.
use session_link.Common.{
  ℕ, suc, not, ◌||◌, Option, none, some, List, [], ◌∷◌, Text, Bytes, codes, ltb, ◌==◌, text_eq,
  nat_eq, contains, byte_len, if◌then◌else◌, Result, ok, err, ok_or, map_err, map_ok, refuse_if,
  ◌>>=◌, ◌>>◌,
}
use session_link.Protocol.Errors.{Refusal}
use session_link.Protocol.Json.{Value, Items}
use session_link.Protocol.Crypto.{Libs}
use session_link.Protocol.Encoding.{decode_exact}
use session_link.Protocol.Signed.{device_id}
use session_link.Protocol.Payload.{parse, fields_of, string, optional_string, integer, array}
use session_link.Protocol.Wrap.{split}
use session_link.Protocol.History.{
  Operation, init, approve, recover, revoke, sharing, Device, State, max_devices, max_device_name,
}

abbrev pub state_fields : List Text
state_fields =
    codes "inbox"
    ∷ codes "account"
    ∷ codes "seq"
    ∷ codes "prev"
    ∷ codes "kind"
    ∷ codes "signer"
    ∷ codes "root"
    ∷ codes "recovery"
    ∷ codes "recovery_box"
    ∷ codes "recovery_wrap"
    ∷ codes "epoch"
    ∷ codes "devices"
    ∷ []

abbrev pub device_fields : List Text
device_fields = codes "id" ∷ codes "name" ∷ codes "sign" ∷ codes "box" ∷ codes "wrap" ∷ []

unfoldable pub read_device : Value → Result Refusal Device
read_device value = do
  fields ← ok_or Refusal.payload (fields_of value device_fields)
  id ← ok_or Refusal.payload (string fields (codes "id"))
  name ← ok_or Refusal.payload (string fields (codes "name"))
  sign_key ← ok_or Refusal.payload (string fields (codes "sign"))
  box_key ← ok_or Refusal.payload (string fields (codes "box"))
  wrap ← ok_or Refusal.payload (string fields (codes "wrap"))
  ok (record { id = id; name = name; sign_key = sign_key; box_key = box_key; wrap = wrap })

-- `devices.iter().map(read_device).collect()`
unfoldable pub read_devices : Items → Result Refusal (List Device)
read_devices Items.nil = ok []
read_devices (Items.cons value items) = do
  first ← read_device value
  rest ← read_devices items
  ok (first ∷ rest)

abbrev pub items_len : Items → ℕ
items_len Items.nil = 0
items_len (Items.cons value items) = suc (items_len items)

unfoldable pub read_kind : Text → Result Refusal Operation
read_kind kind =
    if kind == codes "init"
    then ok init
    else if kind == codes "approve"
    then ok approve
    else if kind == codes "recover"
    then ok recover
    else if kind == codes "revoke"
    then ok revoke
    else if kind == codes "sharing"
    then ok sharing
    else err Refusal.kind

-- `read_state` once the payload is a value.
unfoldable pub state_of : Value → Result Refusal State
state_of value = do
  fields ← ok_or Refusal.payload (fields_of value state_fields)
  items ← ok_or Refusal.payload (array fields (codes "devices"))
  refuse_if (items_len items == 0 || ltb max_devices (items_len items)) Refusal.devices
  name ← ok_or Refusal.payload (string fields (codes "kind"))
  kind ← read_kind name
  account ← ok_or Refusal.payload (string fields (codes "account"))
  seq ← ok_or Refusal.payload (integer fields (codes "seq"))
  prev ← ok_or Refusal.payload (string fields (codes "prev"))
  signer ← ok_or Refusal.payload (string fields (codes "signer"))
  root ← ok_or Refusal.payload (string fields (codes "root"))
  recovery ← ok_or Refusal.payload (string fields (codes "recovery"))
  recovery_box ← ok_or Refusal.payload (string fields (codes "recovery_box"))
  recovery_wrap ← ok_or Refusal.payload (string fields (codes "recovery_wrap"))
  epoch ← ok_or Refusal.payload (integer fields (codes "epoch"))
  devices ← read_devices items
  inbox ← ok_or Refusal.payload (optional_string fields (codes "inbox"))
  ok (record {
    account = account;
    seq = seq;
    prev = prev;
    kind = kind;
    signer = signer;
    root = root;
    recovery = recovery;
    recovery_box = recovery_box;
    recovery_wrap = recovery_wrap;
    epoch = epoch;
    devices = devices;
    inbox = inbox;
  })

module _ (lib : Libs) where
  unfoldable pub read_state : Bytes → Result Refusal State
  read_state raw = do value ← ok_or Refusal.payload (parse lib raw); state_of value

  -- A key is 32 bytes, in its canonical spelling.
  unfoldable pub check_key : Text → Result Refusal (Unit {0})
  check_key text = map_err (λ _. Refusal.key) (map_ok (λ _. tt) (decode_exact lib 32 text))

  unfoldable pub check_wrapper : Text → Result Refusal (Unit {0})
  check_wrapper text = elim (split lib text) [ none ↦ err Refusal.wrapper | some _ ↦ ok tt ]

  -- One round of the loop over the devices; `seen` holds the ids so far.
  unfoldable pub check_device : List Text → Device → Result Refusal (Unit {0})
  check_device seen d = do
    check_key d.sign_key
    check_key d.box_key
    check_wrapper d.wrap
    refuse_if
        (not (d.id == device_id lib d.sign_key d.box_key)
          || contains d.id seen
          || ltb max_device_name (byte_len d.name))
        Refusal.device

  unfoldable pub check_devices : List Text → List Device → Result Refusal (Unit {0})
  check_devices seen [] = ok tt
  check_devices seen (d ∷ ds) = do check_device seen d; check_devices (d.id ∷ seen) ds

  unfoldable pub check_inbox : Option Text → Result Refusal (Unit {0})
  check_inbox none = ok tt
  check_inbox (some inbox) = check_key inbox

  -- Every key in a state is a key and every wrapper has a wrapper's shape.
  unfoldable pub check_keys : State → Result Refusal (Unit {0})
  check_keys state = do
    check_key state.root
    check_key state.recovery
    check_inbox state.inbox
    map_err (λ _. Refusal.wrapper) (map_ok (λ _. tt) (decode_exact lib 92 state.recovery_box))
    check_wrapper state.recovery_wrap
    check_devices [] state.devices
