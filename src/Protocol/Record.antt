-- ===== src/Protocol/Record.antt =====
-- crates/slink-protocol/src/record.rs: the device history and the vault signed against its head.
pub mod Accepted
use session_link.Common.{
  ℕ, ◌+◌, ◌*◌, Bool, true, false, not, ◌||◌, Option, none, some, List, [], ◌∷◌, ◌++◌, Text, Bytes,
  codes, byte_len, length, ltb, ◌==◌, nat_eq, text_eq, if◌then◌else◌, Result, ok, err, ok_or,
  map_err, guard, refuse_if, ◌>>=◌, ◌>>◌,
}
use session_link.Protocol.Errors.{Kind, Error, Refusal}
use session_link.Protocol.Crypto.{Libs}
use session_link.Protocol.Encoding.{decode_exact}
use session_link.Protocol.Signed.{Signed, read, verify_bytes}
use session_link.Protocol.Payload.{parse, fields_of, string, integer}
use session_link.Protocol.Json.{Value}
use session_link.Protocol.Wrap.{min_sealed, seal, unseal}
use session_link.Protocol.History
use session_link.Protocol.History.{Operation, init, recover, Device, State, device}
use session_link.Protocol.History.Walk.{History, verify_history}

-- The longest vault ciphertext, as text.
abbrev pub max_vault_data : ℕ
max_vault_data = 6 * 1024 * 1024

-- The signed statement that carries the vault.
pub record Vault : Type 0 where
  pub account : Text
  pub revision : ℕ
  pub head : Text
  pub epoch : ℕ
  pub signer : Text
  pub sealed : Text

-- What the service holds for an account.
pub record Record : Type 0 where
  pub events : List Signed
  pub vault : Signed

pub record Verified : Type 0 where
  pub state : State
  pub head : Text
  pub vault : Vault

abbrev pub vault_fields : List Text
vault_fields =
    codes "account"
    ∷ codes "revision"
    ∷ codes "head"
    ∷ codes "epoch"
    ∷ codes "signer"
    ∷ codes "data"
    ∷ []

unfoldable pub vault_of : Value → Result Refusal Vault
vault_of value = do
  fields ← ok_or Refusal.payload (fields_of value vault_fields)
  account ← ok_or Refusal.payload (string fields (codes "account"))
  revision ← ok_or Refusal.payload (integer fields (codes "revision"))
  head ← ok_or Refusal.payload (string fields (codes "head"))
  epoch ← ok_or Refusal.payload (integer fields (codes "epoch"))
  signer ← ok_or Refusal.payload (string fields (codes "signer"))
  sealed ← ok_or Refusal.payload (string fields (codes "data"))
  ok (record {
    account = account;
    revision = revision;
    head = head;
    epoch = epoch;
    signer = signer;
    sealed = sealed;
  })

-- Only an enrolment lets the recovery key write the vault.
abbrev pub root_may_write : Operation → Bool
root_may_write init = true
root_may_write recover = true
root_may_write _ = false

-- The key of whoever may write the vault in this state.
unfoldable pub writer_key : State → Text → Result Error Text
writer_key state signer =
    if signer == codes "root"
    then (do guard (root_may_write state.kind) (Error.vault Refusal.writer); ok state.root)
    else elim (device state signer) [
      | none ↦ err (Error.vault Refusal.writer)
      | some d ↦ ok d.sign_key
    ]

-- What a vault's ciphertext is bound to.
unfoldable pub vault_context : State → Text
vault_context state = codes "slink/vault/v1/" ++ History.context state

module _ (lib : Libs) where
  unfoldable pub read_vault : Bytes → Result Refusal Vault
  read_vault raw = do value ← ok_or Refusal.payload (parse lib raw); vault_of value

  -- The test on the ciphertext: its length as text, and what it spells.
  unfoldable pub bad_data : Text → Bool
  bad_data text = ltb max_vault_data (byte_len text) || elim (lib.base64_decode text) [
    | none ↦ true
    | some sealed ↦ ltb (length sealed) min_sealed
  ]

  -- Verifies the history, then that the vault was written for its last state by someone that state
  -- lets write it.
  unfoldable pub verify_record : Record → Text → Result Error Verified
  verify_record self account = do
    history ← verify_history lib self.events account
    raw ← read lib self.vault Kind.vault
    vault ← map_err Error.vault (read_vault raw)
    guard (vault.account == account) (Error.vault Refusal.account)
    guard (vault.head == history.head) (Error.vault Refusal.head)
    guard (vault.epoch == history.state.epoch) (Error.vault Refusal.epoch)
    refuse_if (ltb vault.revision 1) (Error.vault Refusal.revision)
    refuse_if (bad_data vault.sealed) (Error.vault Refusal.data_rule)
    key ← writer_key history.state vault.signer
    public ← decode_exact lib 32 key
    verify_bytes lib self.vault Kind.vault raw public
    ok (record { state = history.state; head = history.head; vault = vault })

  -- `contents` sealed under the vault key of this state.
  unfoldable pub seal_vault : State → Bytes → Bytes → Bytes → Text
  seal_vault self key contents nonce = seal lib key contents (vault_context self) nonce

  -- What the vault holds, if `key` is the vault key of the record's state.
  unfoldable pub open_vault : Verified → Bytes → Result Error Bytes
  open_vault self key =
      map_err (λ _. Error.vault_key) (unseal lib key self.vault.sealed (vault_context self.state))
