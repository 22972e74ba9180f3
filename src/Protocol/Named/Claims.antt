-- ===== src/Protocol/Named/Claims.antt =====
-- What an accepted claim is (crates/slink-protocol/src/named.rs).
use mathlib.Core.Path.{subst}
use session_link.Common.{
  sym, ◌+◌, true, false, some, none, List, [], ◌∷◌, ◌++◌, Text, Bytes, ◌≡◌, ◌≢◌, refl, Result-cases,
  Option-cases, inl, inr, ok, arith, text_eq, length,
}
use session_link.Protocol.Errors.{Kind}
use session_link.Protocol.Crypto.{Libs}
use session_link.Protocol.Encoding.{decode_exact, digest}
use session_link.Protocol.Signed.{Signed, read, hash, verify}
use session_link.Protocol.History.{State, device, Device}
use session_link.Protocol.History.Walk.{History, verify_history, walk_events, start}
use session_link.Protocol.History.Walk.Rounds.{
  walk_event-IsRound, walk_events-cons, walk_events-append, verify_history-IsWalk,
}
use session_link.Protocol.Named.{
  Claim, Offer, Accepted, binding_prefix, other_offer, read_claim, proven, up_to_head, claim_signed,
  verify_claim,
}

module _ (lib : Libs) where
  -- The last event of a verified history names its head.
  pub record IsUpTo (head : Text) (history front : List Signed) : Type 0 where
    pub before : List Signed
    pub event : Signed
    pub back : List Signed
    pub history_eq : history ≡ front ++ back
    pub front_eq : front ≡ before ++ (event ∷ [])
    pub hashed : hash lib event Kind.event ≡ ok head

  up_to_head-eq-ok :
      (head : Text) (history front : List Signed)
      → up_to_head lib head history ≡ ok front
      → IsUpTo head history front
  unfolding up_to_head
  up_to_head-eq-ok head [] front h = absurd (ground arith)
  up_to_head-eq-ok head (event ∷ events) front h = elim (Result-cases (hash lib event Kind.event)) [
    | inr (e, p) ↦ absurd (ground arith)
    | inl (found, p) ↦ elim (text_eq.discrete found head) [
      | yes q ↦ record {
        before = [];
        event = event;
        back = events;
        history_eq = ground arith;
        front_eq = ground arith;
        hashed = ground arith;
      }
      | no n ↦ elim (Result-cases (up_to_head lib head events)) [
        | inr (e, r) ↦ absurd (ground arith)
        | inl (rest, r) ↦
            let u = up_to_head-eq-ok head events rest r in
            let a = u.history_eq in
            let b = u.front_eq in
            record {
              before = event ∷ u.before;
              event = u.event;
              back = u.back;
              history_eq = ground arith;
              front_eq = ground arith;
              hashed = u.hashed;
            }
      ]
    ]
  ]

  -- The head of a verified history is the hash of its last event.
  pub verified_head :
      (before : List Signed) (event : Signed) (account head : Text) (last : History)
      → verify_history lib (before ++ (event ∷ [])) account ≡ ok last
      → hash lib event Kind.event ≡ ok head
      → last.head ≡ head
  unfolding hash
  verified_head before event account head last v h =
      let w = verify_history-IsWalk lib (before ++ (event ∷ [])) account last v in
      let (m, front, back) =
        walk_events-append lib account 0 start before (event ∷ []) w.progress w.walked in
      let (p', step, rest) =
        walk_events-cons lib account (0 + length before) m event [] w.progress back in
      let r = walk_event-IsRound lib account (0 + length before) m event p' step in
      let same : p' ≡ w.progress = unfold walk_events in cc rest in
      let read_raw = r.is_read in let found = r.head_digest in let end = w.last_head in ground arith

  -- Who signed a claim: a device of the state, over the claim's payload.
  claim_signed-eq-true :
      (state : State) (claim : Claim) (signed : Signed) (raw : Bytes)
      → read lib signed Kind.recipient_claim ≡ ok raw
      → claim_signed lib state claim signed raw ≡ true
      → (d : Device) × (device state claim.signer ≡ some d)
        × (verify lib signed Kind.recipient_claim d.sign_key ≡ ok tt)
  unfolding claim_signed verify
  claim_signed-eq-true state claim signed raw is_read h =
      elim (Option-cases (device state claim.signer)) [
        | inl p ↦ absurd (ground arith)
        | inr (d, p) ↦ (d, p, ground arith)
      ]

  -- What an accepted claim says and proves: the invitation's secret was known, the claim is for the
  -- offer, the recipient is the last state of the history, which holds the root key that the claim
  -- names, and the history at the claim's head held the device that signed the claim, and the claim's
  -- incoming-share key and epoch.
  pub record IsAcceptedClaim (claim : Signed) (proof : Text) (offer : Offer) (history : List Signed)
      (accepted : Accepted) : Type 0 where
    pub raw : Bytes
    pub payload : read lib claim Kind.recipient_claim ≡ ok raw
    pub contents : read_claim lib raw ≡ some accepted.claim
    pub hash_of : accepted.claim_hash ≡ digest lib raw
    pub tag : Bytes
    pub tag_of : decode_exact lib 32 proof ≡ ok tag
    pub knows_secret : lib.hmac_sha256_verify offer.secret (binding_prefix ++ raw) tag ≡ true
    pub same_invite : accepted.claim.invite_id ≡ offer.invite_id
    pub same_share : accepted.claim.share_id ≡ offer.share_id
    pub same_document : accepted.claim.sha256 ≡ offer.sha256
    pub same_owner : accepted.claim.owner ≡ offer.owner
    pub same_owner_root : accepted.claim.owner_root ≡ offer.owner_root
    pub head : Text
    pub current :
        verify_history lib history accepted.claim.account
        ≡ ok (record { state = accepted.recipient; head = head })
    pub same_root : accepted.recipient.root ≡ accepted.claim.root
    pub has_inbox : accepted.recipient.inbox ≢ none
    pub front : List Signed
    pub back : List Signed
    pub history_eq : history ≡ front ++ back
    pub at_claim : State
    pub then_verified :
        verify_history lib front accepted.claim.account
        ≡ ok (record { state = at_claim; head = accepted.claim.head })
    pub signer : Device
    pub held_then : device at_claim accepted.claim.signer ≡ some signer
    pub signed : verify lib claim Kind.recipient_claim signer.sign_key ≡ ok tt
    pub inbox_then : at_claim.inbox ≡ some accepted.claim.inbox
    pub epoch_then : at_claim.epoch ≡ accepted.claim.epoch

  proven-eq-true :
      (proof : Text) (offer : Offer) (raw : Bytes)
      → proven lib proof offer raw ≡ true
      → (tag : Bytes) × (decode_exact lib 32 proof ≡ ok tag)
        × (lib.hmac_sha256_verify offer.secret (binding_prefix ++ raw) tag ≡ true)
  unfolding proven
  proven-eq-true proof offer raw h = elim (Result-cases (decode_exact lib 32 proof)) [
    | inr (e, p) ↦ absurd (ground arith)
    | inl (tag, p) ↦ (tag, p, ground arith)
  ]

  -- What is left of a verification once everything was read.
  claim_facts :
      (claim : Signed) (proof : Text) (offer : Offer) (history : List Signed) (accepted : Accepted)
      (raw : Bytes) (binding : Claim) (now at : History) (front : List Signed)
      → read lib claim Kind.recipient_claim ≡ ok raw
      → read_claim lib raw ≡ some binding
      → verify_history lib history binding.account ≡ ok now
      → up_to_head lib binding.head history ≡ ok front
      → verify_history lib front binding.account ≡ ok at
      → verify_claim lib claim proof offer history ≡ ok accepted
      → (accepted ≡ record { claim = binding; claim_hash = digest lib raw; recipient = now.state })
        × (proven lib proof offer raw ≡ true)
        × (other_offer binding offer ≡ false)
        × (now.state.root ≡ binding.root)
        × (now.state.inbox ≢ none)
        × (claim_signed lib at.state binding claim raw ≡ true)
        × (at.state.inbox ≡ some binding.inbox)
        × (at.state.epoch ≡ binding.epoch)
  unfolding verify_claim
  claim_facts claim proof offer history accepted raw binding now at front p q r u v h = (
    ground arith,
    ground arith,
    ground arith,
    ground arith,
    λ n. ground arith,
    ground arith,
    ground arith,
    ground arith,
  )

  accepted_claim :
      (claim : Signed) (proof : Text) (offer : Offer) (history : List Signed) (raw : Bytes)
      (binding : Claim) (now at : History) (front : List Signed)
      → read lib claim Kind.recipient_claim ≡ ok raw
      → read_claim lib raw ≡ some binding
      → verify_history lib history binding.account ≡ ok now
      → up_to_head lib binding.head history ≡ ok front
      → verify_history lib front binding.account ≡ ok at
      → proven lib proof offer raw ≡ true
      → other_offer binding offer ≡ false
      → now.state.root ≡ binding.root
      → now.state.inbox ≢ none
      → claim_signed lib at.state binding claim raw ≡ true
      → at.state.inbox ≡ some binding.inbox
      → at.state.epoch ≡ binding.epoch
      → IsAcceptedClaim claim proof offer history
          (record { claim = binding; claim_hash = digest lib raw; recipient = now.state })
  unfolding other_offer
  accepted_claim claim proof offer history raw binding now at front p q r u v known offered root
        inbox signed inbox_then epoch_then =
      let (d, held, checked) = claim_signed-eq-true at.state binding claim raw p signed in
      let (tag, spelt, knows) = proven-eq-true proof offer raw known in
      let up = up_to_head-eq-ok binding.head history front u in
      let front_verified =
        subst (λ es. verify_history lib es binding.account ≡ ok at) up.front_eq v in
      let found =
        verified_head up.before up.event binding.account binding.head at front_verified up.hashed in
      record {
        raw = raw;
        payload = p;
        contents = q;
        hash_of = refl;
        tag = tag;
        tag_of = spelt;
        knows_secret = knows;
        same_invite = ground arith;
        same_share = ground arith;
        same_document = ground arith;
        same_owner = ground arith;
        same_owner_root = ground arith;
        head = now.head;
        current = r;
        same_root = root;
        has_inbox = inbox;
        front = front;
        back = up.back;
        history_eq = up.history_eq;
        at_claim = at.state;
        then_verified =
            subst
              (λ (t : Text).
                verify_history lib front binding.account
                ≡ ok (record { state = at.state; head = t }))
              found v;
        signer = d;
        held_then = held;
        signed = checked;
        inbox_then = inbox_then;
        epoch_then = epoch_then;
      }

  -- An accepted claim is read from a payload of its kind, its proof is the HMAC of that payload under
  -- the offer's secret, and it names the offer's share, invitation, document and owner. The recipient
  -- is the last state of the history, verified for the account that the claim names; it has the root
  -- key that the claim names and an incoming-share key. At the beginning of the history whose head the
  -- claim names, the signer was a device, whose key signed the claim, and the incoming-share key and
  -- the epoch were those of the claim.
  pub verify_claim-eq-ok :
      (claim : Signed) (proof : Text) (offer : Offer) (history : List Signed) (accepted : Accepted)
      → verify_claim lib claim proof offer history ≡ ok accepted
      → IsAcceptedClaim claim proof offer history accepted
  unfolding verify_claim
  verify_claim-eq-ok claim proof offer history accepted h =
      elim (Result-cases (read lib claim Kind.recipient_claim)) [
        | inr (e, p) ↦ absurd (ground arith)
        | inl (raw, p) ↦ elim (Option-cases (read_claim lib raw)) [
          | inl q ↦ absurd (ground arith)
          | inr (binding, q) ↦ elim (Result-cases (verify_history lib history binding.account)) [
            | inr (e, r) ↦ absurd (ground arith)
            | inl (now, r) ↦ elim (Result-cases (up_to_head lib binding.head history)) [
              | inr (e, u) ↦ absurd (ground arith)
              | inl (front, u) ↦ elim (Result-cases (verify_history lib front binding.account)) [
                | inr (e, v) ↦ absurd (ground arith)
                | inl (at, v) ↦
                    let (same, known, offered, root, inbox, signed, inbox_then, epoch_then) =
                      claim_facts claim proof offer history accepted raw binding now at front p q r
                        u v h in
                    subst (IsAcceptedClaim claim proof offer history) (sym same) (
                      accepted_claim claim proof offer history raw binding now at front p q r u v
                        known offered root inbox signed inbox_then epoch_then)
              ]
            ]
          ]
        ]
      ]
