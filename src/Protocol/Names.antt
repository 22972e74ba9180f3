-- ===== src/Protocol/Names.antt =====
-- crates/slink-protocol/src/lib.rs: the names of the rules and the messages of the errors.
use session_link.Common.{
  true, false, Text-discrete, ℕ_discrete, List, [], ◌∷◌, ◌++◌, Option, none, some, Text, codes,
  ◌==◌, text_eq, ◌≡◌, refl, ap,
}
use session_link.Protocol.Errors.{kind_as_str, Refusal, Error}

-- The name of a rule.
unfoldable pub refusal_as_str : Refusal → Text
refusal_as_str Refusal.length = codes "length"
refusal_as_str Refusal.signed = codes "signed"
refusal_as_str Refusal.payload = codes "payload"
refusal_as_str Refusal.account = codes "account"
refusal_as_str Refusal.sequence = codes "sequence"
refusal_as_str Refusal.previous = codes "previous"
refusal_as_str Refusal.epoch = codes "epoch"
refusal_as_str Refusal.devices = codes "devices"
refusal_as_str Refusal.key = codes "key"
refusal_as_str Refusal.wrapper = codes "wrapper"
refusal_as_str Refusal.device = codes "device"
refusal_as_str Refusal.kind = codes "kind"
refusal_as_str Refusal.initial = codes "initial"
refusal_as_str Refusal.recovery = codes "recovery"
refusal_as_str Refusal.signer = codes "signer"
refusal_as_str Refusal.signature = codes "signature"
refusal_as_str Refusal.device_changed = codes "device-changed"
refusal_as_str Refusal.inbox = codes "inbox"
refusal_as_str Refusal.inbox_reuse = codes "inbox-reuse"
refusal_as_str Refusal.operation = codes "operation"
refusal_as_str Refusal.rotation = codes "rotation"
refusal_as_str Refusal.head = codes "head"
refusal_as_str Refusal.revision = codes "revision"
refusal_as_str Refusal.data_rule = codes "data"
refusal_as_str Refusal.writer = codes "writer"

-- `Refusal::ALL`
abbrev pub all_refusals : List Refusal
all_refusals =
    Refusal.length ∷ Refusal.signed ∷ Refusal.payload ∷ Refusal.account ∷ Refusal.sequence
    ∷ Refusal.previous ∷ Refusal.epoch ∷ Refusal.devices ∷ Refusal.key ∷ Refusal.wrapper
    ∷ Refusal.device ∷ Refusal.kind ∷ Refusal.initial ∷ Refusal.recovery ∷ Refusal.signer
    ∷ Refusal.signature ∷ Refusal.device_changed ∷ Refusal.inbox ∷ Refusal.inbox_reuse
    ∷ Refusal.operation ∷ Refusal.rotation ∷ Refusal.head ∷ Refusal.revision ∷ Refusal.data_rule
    ∷ Refusal.writer ∷ []

-- What a person is told.
unfoldable pub message_of : Error → Text
unfolding kind_as_str
message_of Error.envelope = codes "invalid or unsupported encrypted session envelope"
message_of Error.content_key = codes "invalid content key"
message_of Error.decrypt = codes "cannot decrypt: wrong key or changed document"
message_of Error.encoding = codes "invalid key encoding"
message_of Error.too_large = codes "signed object exceeds the supported limit"
message_of Error.signing_key = codes "invalid signing key"
message_of (Error.signature kind) = codes "invalid " ++ (kind_as_str kind ++ codes " signature")
message_of (Error.history rule) = codes "invalid signed device history"
message_of (Error.vault rule) = codes "invalid signed vault"
message_of Error.plaintext = codes "session exceeds the 25 MiB limit"
message_of Error.unseal = codes "cannot unlock encrypted keys"
message_of Error.agreement_key = codes "invalid encryption key"
message_of Error.wrapper = codes "invalid key wrapper"
message_of Error.unwrap = codes "cannot unlock vault key"
message_of Error.vault_key = codes "cannot decrypt encrypted key vault"
message_of Error.recovery_token =
    codes "recovery key does not match this account's recovery identity"
message_of Error.recovery_key = codes "incorrect recovery key"
message_of Error.recovery_identity = codes "recovery identity verification failed"
message_of Error.request = codes "invalid device request"
message_of Error.inbox = codes "incoming-share key is missing"
message_of Error.claim = codes "invalid recipient identity binding"
message_of Error.claim_proof = codes "recipient verification failed; no decryption key was released"
message_of Error.recipient_identity = codes "recipient's encryption identity changed"
message_of Error.recipient_history = codes "recipient history conflicts with its invitation"
message_of Error.claim_signer = codes "recipient request is not from an approved device"

-- The first rule of a list that has this name.
abbrev named : List Refusal → Text → Option Refusal
named [] name = none
named (rule ∷ rules) name = elim (refusal_as_str rule == name) [
  | true ↦ some rule
  | false ↦ named rules name
]

named-refusal_as_str : (rule : Refusal) → named all_refusals (refusal_as_str rule) ≡ some rule
unfolding refusal_as_str Text-discrete ℕ_discrete
named-refusal_as_str Refusal.length = refl
named-refusal_as_str Refusal.signed = refl
named-refusal_as_str Refusal.payload = refl
named-refusal_as_str Refusal.account = refl
named-refusal_as_str Refusal.sequence = refl
named-refusal_as_str Refusal.previous = refl
named-refusal_as_str Refusal.epoch = refl
named-refusal_as_str Refusal.devices = refl
named-refusal_as_str Refusal.key = refl
named-refusal_as_str Refusal.wrapper = refl
named-refusal_as_str Refusal.device = refl
named-refusal_as_str Refusal.kind = refl
named-refusal_as_str Refusal.initial = refl
named-refusal_as_str Refusal.recovery = refl
named-refusal_as_str Refusal.signer = refl
named-refusal_as_str Refusal.signature = refl
named-refusal_as_str Refusal.device_changed = refl
named-refusal_as_str Refusal.inbox = refl
named-refusal_as_str Refusal.inbox_reuse = refl
named-refusal_as_str Refusal.operation = refl
named-refusal_as_str Refusal.rotation = refl
named-refusal_as_str Refusal.head = refl
named-refusal_as_str Refusal.revision = refl
named-refusal_as_str Refusal.data_rule = refl
named-refusal_as_str Refusal.writer = refl

-- No two rules share a name.
pub refusal_as_str-injective :
    (rule rule' : Refusal) → refusal_as_str rule ≡ refusal_as_str rule' → rule ≡ rule'
refusal_as_str-injective rule rule' h =
    let one = named-refusal_as_str rule in
    let other = named-refusal_as_str rule' in
    let same : named all_refusals (refusal_as_str rule)
        ≡ named all_refusals (refusal_as_str rule') =
      ap (named all_refusals) h in
    cc (one, other, same)
