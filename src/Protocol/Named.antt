-- ===== src/Protocol/Named.antt =====
-- crates/slink-protocol/src/named.rs: a share for named people, as invitations, claims and grants.
pub mod Claims
use session_link.Common.{
  ℕ, zero, suc, ◌+◌, Bool, true, false, not, ◌&&◌, ◌||◌, Option, none, some, List, [], ◌∷◌, ◌++◌,
  Text, Bytes, codes, take, ◌==◌, nat_eq, text_eq, option_eq, if◌then◌else◌, Result, ok, err, ok_or,
  map_err, guard, refuse_if, is_ok, to_option, ◌>>=◌, ◌>>◌,
}
use session_link.Common.Options
use session_link.Common.Options.{is_none}
use session_link.Protocol.Errors.{Kind, Error}
use session_link.Protocol.Json.{Value}
use session_link.Protocol.Crypto.{Libs}
use session_link.Protocol.Encoding.{encode, decode_exact, digest}
use session_link.Protocol.Decimal.{print}
use session_link.Protocol.Signed.{Signed, AgreementKey, read, hash, verify_bytes}
use session_link.Protocol.Payload.{parse, fields_of, string, integer}
use session_link.Protocol.Wrap.{wrap}
use session_link.Protocol.History.{Device, State, device}
use session_link.Protocol.History.Walk.{History, verify_history}

-- What the proof is made over, before the claim's payload.
abbrev pub binding_prefix : Bytes
binding_prefix = codes "slink/recipient-binding/v1" ++ (0 ∷ [])

-- What a share's key is wrapped under for one account.
unfoldable pub named_context : Text → Text → Text → ℕ → Text
named_context sha256 account root epoch =
    codes "named/" ++ (sha256 ++ (b'/' ∷ (account ++ (b'/' ∷ (root ++ (b'/' ∷ print epoch))))))

-- A recipient's answer to an invitation.
pub record Claim : Type 0 where
  pub account : Text
  pub root : Text
  pub head : Text
  pub signer : Text
  pub share_id : Text
  pub invite_id : Text
  pub sha256 : Text
  pub owner : Text
  pub owner_root : Text
  pub inbox : Text
  pub epoch : ℕ

-- The sender's answer to a claim.
pub record Grant : Type 0 where
  pub account : Text
  pub root : Text
  pub head : Text
  pub signer : Text
  pub share_id : Text
  pub invite_id : Text
  pub sha256 : Text
  pub recipient : Text
  pub recipient_root : Text
  pub inbox : Text
  pub epoch : ℕ
  pub wrap : Text
  pub claim_hash : Text

-- What a sender holds of the invitation a claim answers.
pub record Offer : Type 0 where
  pub share_id : Text
  pub invite_id : Text
  pub sha256 : Text
  pub owner : Text
  pub owner_root : Text
  pub secret : Bytes

-- A claim the sender may answer.
pub record Accepted : Type 0 where
  pub claim : Claim
  pub claim_hash : Text
  pub recipient : State

abbrev pub claim_fields : List Text
claim_fields =
    codes "account"
    ∷ codes "root"
    ∷ codes "head"
    ∷ codes "signer"
    ∷ codes "share_id"
    ∷ codes "invite_id"
    ∷ codes "sha256"
    ∷ codes "owner"
    ∷ codes "owner_root"
    ∷ codes "inbox"
    ∷ codes "epoch"
    ∷ []

unfoldable pub claim_of : Value → Option Claim
claim_of value = to_option (do
  fields ← ok_or Error.claim (fields_of value claim_fields)
  account ← ok_or Error.claim (string fields (codes "account"))
  root ← ok_or Error.claim (string fields (codes "root"))
  head ← ok_or Error.claim (string fields (codes "head"))
  signer ← ok_or Error.claim (string fields (codes "signer"))
  share_id ← ok_or Error.claim (string fields (codes "share_id"))
  invite_id ← ok_or Error.claim (string fields (codes "invite_id"))
  sha256 ← ok_or Error.claim (string fields (codes "sha256"))
  owner ← ok_or Error.claim (string fields (codes "owner"))
  owner_root ← ok_or Error.claim (string fields (codes "owner_root"))
  inbox ← ok_or Error.claim (string fields (codes "inbox"))
  epoch ← ok_or Error.claim (integer fields (codes "epoch"))
  ok (record {
    account = account;
    root = root;
    head = head;
    signer = signer;
    share_id = share_id;
    invite_id = invite_id;
    sha256 = sha256;
    owner = owner;
    owner_root = owner_root;
    inbox = inbox;
    epoch = epoch;
  }))

-- Whether a claim answers another invitation, share or sender than the offer's.
unfoldable pub other_offer : Claim → Offer → Bool
other_offer binding offer =
    not (binding.invite_id == offer.invite_id)
    || not (binding.share_id == offer.share_id)
    || not (binding.sha256 == offer.sha256)
    || not (binding.owner == offer.owner)
    || not (binding.owner_root == offer.owner_root)

module _ (lib : Libs) where
  -- What an invitation says of its secret.
  unfoldable pub commitment : Bytes → Text
  commitment secret = digest lib secret

  -- The proof a recipient sends with a claim.
  unfoldable pub binding_proof : Bytes → Signed → Result Error Text
  binding_proof secret claim = do
    raw ← read lib claim Kind.recipient_claim
    ok (encode lib (lib.hmac_sha256 secret (binding_prefix ++ raw)))

  unfoldable pub read_claim : Bytes → Option Claim
  read_claim raw = elim (parse lib raw) [ none ↦ none | some value ↦ claim_of value ]

  -- Whether the proof is the HMAC of the claim under the offer's secret.
  unfoldable pub proven : Text → Offer → Bytes → Bool
  proven proof offer raw = elim (decode_exact lib 32 proof) [
    | err e ↦ false
    | ok tag ↦ lib.hmac_sha256_verify offer.secret (binding_prefix ++ raw) tag
  ]

  -- The loop that looks for the event whose hash is `head`: the events up to it and it.
  unfoldable pub up_to_head : Text → List Signed → Result Error (List Signed)
  up_to_head head [] = err Error.recipient_history
  up_to_head head (event ∷ events) = elim (hash lib event Kind.event) [
    | err e ↦ err e
    | ok found ↦ elim (found == head) [
      | true ↦ ok (event ∷ [])
      | false ↦ elim (up_to_head head events) [ err e ↦ err e | ok front ↦ ok (event ∷ front) ]
    ]
  ]

  -- Whether the device that the claim names held the key that it is signed with.
  unfoldable pub claim_signed : State → Claim → Signed → Bytes → Bool
  claim_signed then_state binding claim raw = elim (device then_state binding.signer) [
    | none ↦ false
    | some d ↦ elim (decode_exact lib 32 d.sign_key) [
      | err e ↦ false
      | ok key ↦ is_ok (verify_bytes lib claim Kind.recipient_claim raw key)
    ]
  ]

  -- Whether a claim is the invited person's, made by a device their history approved, for this
  -- invitation and no other.
  unfoldable pub verify_claim : Signed → Text → Offer → List Signed → Result Error Accepted
  verify_claim claim proof offer history = do
    raw ← map_err (λ _. Error.claim) (read lib claim Kind.recipient_claim)
    binding ← ok_or Error.claim (read_claim raw)
    refuse_if (not (proven proof offer raw) || other_offer binding offer) Error.claim_proof
    now ← verify_history lib history binding.account
    refuse_if (not (now.state.root == binding.root) || is_none now.state.inbox)
        Error.recipient_identity
    front ← up_to_head binding.head history
    at_claim ← verify_history lib front binding.account
    refuse_if
        (not (claim_signed at_claim.state binding claim raw)
          || not (at_claim.state.inbox == some binding.inbox)
          || not (at_claim.state.epoch == binding.epoch))
        Error.claim_signer
    ok (record { claim = binding; claim_hash = digest lib raw; recipient = now.state })

  -- A share's key wrapped to this account's incoming-share key.
  unfoldable pub wrap_share_key : State → Text → Bytes → AgreementKey → Bytes → Result Error Text
  wrap_share_key self sha256 key ephemeral nonce = do
    inbox ← ok_or Error.inbox self.inbox
    wrap lib inbox key (named_context sha256 self.account self.root self.epoch) ephemeral nonce

  -- The grant that answers the claim.
  unfoldable pub grant :
      Accepted → Offer → Text → Text → Bytes → AgreementKey → Bytes → Result Error Grant
  grant self offer head signer key ephemeral nonce = do
    inbox ← ok_or Error.inbox self.recipient.inbox
    wrapper ← wrap_share_key self.recipient offer.sha256 key ephemeral nonce
    ok (record {
      account = offer.owner;
      root = offer.owner_root;
      head = head;
      signer = signer;
      share_id = offer.share_id;
      invite_id = offer.invite_id;
      sha256 = offer.sha256;
      recipient = self.recipient.account;
      recipient_root = self.recipient.root;
      inbox = inbox;
      epoch = self.recipient.epoch;
      wrap = wrapper;
      claim_hash = self.claim_hash;
    })
