-- ===== src/Protocol/Write/Encode.antt =====
-- The `encode` functions of crates/slink-protocol: history.rs, record.rs, request.rs and named.rs.
-- A chain of calls `Object::new().text(..)` is a list of steps applied from the first on.
use session_link.Common.{ℕ, Option, none, some, map, Text, Bytes, codes, as_bytes}
use session_link.Protocol.History.{operation_as_str, Device, State}
use session_link.Protocol.Record.{Vault}
use session_link.Protocol.Request.{Request}
use session_link.Protocol.Named.{Claim, Grant}
use session_link.Protocol.Write.{Object, new, text, count, json, finish, list}

-- One call after another.
infixl 5 ◌▷◌
abbrev ◌▷◌ : Object → (Object → Object) → Object
object ▷ call = call object

unfoldable pub write_device : Device → Text
write_device device = finish (
    new
    ▷ text (codes "id") device.id
    ▷ text (codes "name") device.name
    ▷ text (codes "sign") device.sign_key
    ▷ text (codes "box") device.box_key
    ▷ text (codes "wrap") device.wrap)

abbrev object_of : Option Text → Object
object_of none = new
object_of (some inbox) = new ▷ text (codes "inbox") inbox

unfoldable pub encode_state : State → Bytes
encode_state self = as_bytes (
    finish (
      object_of self.inbox
      ▷ text (codes "account") self.account
      ▷ count (codes "seq") self.seq
      ▷ text (codes "prev") self.prev
      ▷ text (codes "kind") (operation_as_str self.kind)
      ▷ text (codes "signer") self.signer
      ▷ text (codes "root") self.root
      ▷ text (codes "recovery") self.recovery
      ▷ text (codes "recovery_box") self.recovery_box
      ▷ text (codes "recovery_wrap") self.recovery_wrap
      ▷ count (codes "epoch") self.epoch
      ▷ json (codes "devices") (list (map write_device self.devices))))

unfoldable pub encode_vault : Vault → Bytes
encode_vault self = as_bytes (
    finish (
      new
      ▷ text (codes "account") self.account
      ▷ count (codes "revision") self.revision
      ▷ text (codes "head") self.head
      ▷ count (codes "epoch") self.epoch
      ▷ text (codes "signer") self.signer
      ▷ text (codes "data") self.sealed))

unfoldable pub encode_request : Request → Bytes
encode_request self = as_bytes (
    finish (
      new
      ▷ text (codes "account") self.account
      ▷ text (codes "root") self.root
      ▷ text (codes "name") self.name
      ▷ text (codes "sign") self.sign_key
      ▷ text (codes "box") self.box_key
      ▷ text (codes "nonce") self.nonce
      ▷ count (codes "created") self.created))

-- One person a share is for.
pub record Invitation : Type 0 where
  pub id : Text
  pub email : Text
  pub commitment : Text

-- The sender's statement to one recipient.
pub record Invite : Type 0 where
  pub account : Text
  pub root : Text
  pub head : Text
  pub signer : Text
  pub sha256 : Text
  pub inbox : Text
  pub epoch : ℕ
  pub wrap : Text
  pub invitation : Invitation

unfoldable pub encode_invite : Invite → Bytes
encode_invite self =
    let invitation = finish (
      new
      ▷ text (codes "id") self.invitation.id
      ▷ text (codes "email") self.invitation.email
      ▷ text (codes "commitment") self.invitation.commitment) in
    as_bytes (
      finish (
        new
        ▷ text (codes "account") self.account
        ▷ text (codes "root") self.root
        ▷ text (codes "head") self.head
        ▷ text (codes "signer") self.signer
        ▷ text (codes "sha256") self.sha256
        ▷ text (codes "inbox") self.inbox
        ▷ count (codes "epoch") self.epoch
        ▷ text (codes "wrap") self.wrap
        ▷ json (codes "invitation") invitation))

unfoldable pub encode_claim : Claim → Bytes
encode_claim self = as_bytes (
    finish (
      new
      ▷ text (codes "account") self.account
      ▷ text (codes "root") self.root
      ▷ text (codes "head") self.head
      ▷ text (codes "signer") self.signer
      ▷ text (codes "share_id") self.share_id
      ▷ text (codes "invite_id") self.invite_id
      ▷ text (codes "sha256") self.sha256
      ▷ text (codes "owner") self.owner
      ▷ text (codes "owner_root") self.owner_root
      ▷ text (codes "inbox") self.inbox
      ▷ count (codes "epoch") self.epoch))

unfoldable pub encode_grant : Grant → Bytes
encode_grant self = as_bytes (
    finish (
      new
      ▷ text (codes "account") self.account
      ▷ text (codes "root") self.root
      ▷ text (codes "head") self.head
      ▷ text (codes "signer") self.signer
      ▷ text (codes "share_id") self.share_id
      ▷ text (codes "invite_id") self.invite_id
      ▷ text (codes "sha256") self.sha256
      ▷ text (codes "recipient") self.recipient
      ▷ text (codes "recipient_root") self.recipient_root
      ▷ text (codes "inbox") self.inbox
      ▷ count (codes "epoch") self.epoch
      ▷ text (codes "wrap") self.wrap
      ▷ text (codes "claim_hash") self.claim_hash))
