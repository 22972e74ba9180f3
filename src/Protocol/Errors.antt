-- ===== src/Protocol/Errors.antt =====
-- crates/slink-protocol/src/lib.rs and signed.rs: the kinds of statements, and why one is refused.
use session_link.Common.{ℕ, ◌*◌, Text, codes}

-- What a statement is for.
pub data Kind : Type 0 where
  event vault request recovery_check named_invite recipient_claim named_grant : Kind

-- The name as it is signed.
unfoldable pub kind_as_str : Kind → Text
kind_as_str Kind.event = codes "event"
kind_as_str Kind.vault = codes "vault"
kind_as_str Kind.request = codes "request"
kind_as_str Kind.recovery_check = codes "recovery-check"
kind_as_str Kind.named_invite = codes "named-invite"
kind_as_str Kind.recipient_claim = codes "recipient-claim"
kind_as_str Kind.named_grant = codes "named-grant"

-- The longest payload of this kind, as text.
unfoldable pub payload_limit : Kind → ℕ
payload_limit Kind.request = 4096
payload_limit Kind.event = 32 * 1024
payload_limit Kind.vault = 8 * 1024 * 1024
payload_limit _ = 64 * 1024

-- The rule a history or a vault broke.
pub data Refusal : Type 0 where
  length signed payload account sequence previous epoch devices key wrapper device : Refusal
  kind initial recovery signer signature device_changed inbox inbox_reuse operation : Refusal
  rotation head revision data_rule writer : Refusal

-- Why something was not accepted.
pub data Error : Type 0 where
  envelope content_key decrypt encoding too_large signing_key : Error
  signature : Kind → Error
  history : Refusal → Error
  vault : Refusal → Error
  plaintext unseal agreement_key wrapper unwrap vault_key : Error
  recovery_token recovery_key recovery_identity request inbox claim claim_proof : Error
  recipient_identity recipient_history claim_signer : Error
