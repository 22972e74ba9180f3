-- ===== src/Protocol/History.antt =====
-- crates/slink-protocol/src/history.rs: the data of an account's signed device history.
pub mod Read
pub mod Step
pub mod Walk
pub mod Devices
pub mod Valid
pub mod Counts
use session_link.Common.{
  ℕ, ◌+◌, ◌*◌, Option, none, some, List, [], ◌∷◌, ◌++◌, Text, Bytes, codes, Eq, ◌==◌, text_eq,
  if◌then◌else◌, Result,
}
use session_link.Protocol.Errors.{Error}
use session_link.Protocol.Crypto.{Libs}
use session_link.Protocol.Signed.{AgreementKey}
use session_link.Protocol.Wrap.{wrap, unwrap}
use session_link.Protocol.Decimal.{print}

abbrev pub max_events : ℕ
max_events = 512

abbrev pub max_devices : ℕ
max_devices = 32

-- In bytes of UTF-8.
abbrev pub max_device_name : ℕ
max_device_name = 80

-- What an event does to the state before it.
pub data Operation : Type 0 where
  init approve recover revoke sharing : Operation

unfoldable pub Operation-discrete : Discrete Operation
Operation-discrete = hlevel

instance abbrev pub operation_eq : Eq Operation
operation_eq = record { discrete = Operation-discrete }

unfoldable pub operation_as_str : Operation → Text
operation_as_str Operation.init = codes "init"
operation_as_str Operation.approve = codes "approve"
operation_as_str Operation.recover = codes "recover"
operation_as_str Operation.revoke = codes "revoke"
operation_as_str Operation.sharing = codes "sharing"

-- A device in a state. Keys are base64url of 32 bytes.
pub record Device : Type 0 where
  pub id : Text
  pub name : Text
  pub sign_key : Text
  pub box_key : Text
  pub wrap : Text

-- The state an event leaves the account in.
pub record State : Type 0 where
  pub account : Text
  pub seq : ℕ
  pub prev : Text
  pub kind : Operation
  pub signer : Text
  pub root : Text
  pub recovery : Text
  pub recovery_box : Text
  pub recovery_wrap : Text
  pub epoch : ℕ
  pub devices : List Device
  pub inbox : Option Text

-- `devices.iter().find(|device| device.id == id)`
unfoldable pub find : List Device → Text → Option Device
find [] id = none
find (d ∷ ds) id = if d.id == id then some d else find ds id

-- `State::device`
abbrev pub device : State → Text → Option Device
device self id = find self.devices id

-- What the wrappers and the vault of this state are bound to.
unfoldable pub context : State → Text
context self = self.account ++ (b'/' ∷ (self.root ++ (b'/' ∷ print self.epoch)))

-- The vault key of this state wrapped to an X25519 public key, and out of a wrapper again.
unfoldable pub wrap_key : Libs → State → Text → Bytes → AgreementKey → Bytes → Result Error Text
wrap_key lib self recipient key ephemeral nonce =
    wrap lib recipient key (context self) ephemeral nonce

unfoldable pub unwrap_key : Libs → State → AgreementKey → Text → Result Error Bytes
unwrap_key lib self private wrapper = unwrap lib private wrapper (context self)
