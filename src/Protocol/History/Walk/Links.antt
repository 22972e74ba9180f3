-- ===== src/Protocol/History/Walk/Links.antt =====
-- How one state of a verified history (crates/slink-protocol/src/history.rs) follows another, and
-- induction along the states of a walk.
use session_link.Common.{
  ℕ, ◌+◌, some, Text, Bytes, codes, ◌≡◌, ◌≢◌, ◌⊎◌, sym, ◌∙◌, nat_eq, text_eq, ok, arith, inl, inr,
  Result-cases, Option-cases,
}
use session_link.Protocol.Errors.{Kind}
use session_link.Protocol.Crypto.{Libs}
use session_link.Protocol.Encoding.{digest}
use session_link.Protocol.Signed.{Signed, read}
use session_link.Protocol.History.{operation_eq, Operation-discrete, recover, Device, State, find}
use session_link.Protocol.History.Read.{read_state, check_keys}
use session_link.Protocol.History.Step.{step}
use session_link.Protocol.History.Walk.{History, Progress, signer_key, signed_by, follow}
use session_link.Protocol.History.Walk.Rounds.{IsRound}

module _ (lib : Libs) where
  -- Who signed an event after the first: the recovery key for a recovery, or else a device that the
  -- state before holds.
  abbrev pub IsAuthorised : State → State → Signed → Bytes → Type 0
  IsAuthorised previous next event raw =
      ((next.kind ≡ recover)
        × (next.signer ≡ codes "root")
        × (signed_by lib event raw previous.root ≡ ok tt))
      ⊎ ((d : Device) × (next.kind ≢ recover)
          × (find previous.devices next.signer ≡ some d)
          × (signed_by lib event raw d.sign_key ≡ ok tt))

  -- How an event takes one verified history to the next.
  pub record IsLink (before : History) (event : Signed) (after : History) : Type 0 where
    pub raw : Bytes
    pub is_read : read lib event Kind.event ≡ ok raw
    pub is_state : read_state lib raw ≡ ok after.state
    pub keys : check_keys lib after.state ≡ ok tt
    pub head_digest : after.head ≡ digest lib raw
    pub prev_head : after.state.prev ≡ before.head
    pub seq_next : after.state.seq ≡ before.state.seq + 1
    pub account_same : after.state.account ≡ before.state.account
    pub root_same : after.state.root ≡ before.state.root
    pub recovery_same : after.state.recovery ≡ before.state.recovery
    pub recovery_box_same : after.state.recovery_box ≡ before.state.recovery_box
    pub authorised : IsAuthorised before.state after.state event raw
    pub stepped : step before.state after.state ≡ ok tt

  signer_key-IsAuthorised :
      (previous next : State) (event : Signed) (raw : Bytes) (key : Text)
      → signer_key lib previous next ≡ ok key
      → signed_by lib event raw key ≡ ok tt
      → IsAuthorised previous next event raw
  unfolding signer_key Operation-discrete
  signer_key-IsAuthorised previous next event raw key h s =
      elim (Operation-discrete next.kind recover) [
        | yes k ↦ inl ((k, ground arith, ground arith))
        | no k ↦ elim (Option-cases (find previous.devices next.signer)) [
          | inl gone ↦ ground arith
          | inr (d, found) ↦ inr ((d, k, found, ground arith))
        ]
      ]

  -- What `follow` checks of an event after the first.
  record IsFollow (previous next : State) (event : Signed) (raw : Bytes) : Type 0 where
    root_same : next.root ≡ previous.root
    recovery_same : next.recovery ≡ previous.recovery
    recovery_box_same : next.recovery_box ≡ previous.recovery_box
    authorised : IsAuthorised previous next event raw
    stepped : step previous next ≡ ok tt

  follow-IsFollow :
      (previous next : State) (event : Signed) (raw : Bytes)
      → follow lib (some previous) event raw next ≡ ok tt
      → IsFollow previous next event raw
  unfolding follow
  follow-IsFollow previous next event raw h = elim (Result-cases (signer_key lib previous next)) [
    | inr (e, k) ↦ ground arith
    | inl (key, k) ↦ record {
      root_same = ground arith;
      recovery_same = ground arith;
      recovery_box_same = ground arith;
      authorised = signer_key-IsAuthorised previous next event raw key k (ground arith);
      stepped = ground arith;
    }
  ]

  -- An accepted round over a state before is a link.
  pub IsRound-IsLink :
      (account : Text) (index : ℕ) (p : Progress) (event : Signed) (p' : Progress)
      (before : History) (r : IsRound lib account index p event p')
      → p.previous ≡ some before.state
      → p.head ≡ before.head
      → before.state.seq + 1 ≡ index
      → before.state.account ≡ account
      → IsLink before event (record { state = r.next; head = p'.head })
  IsRound-IsLink account index p event p' before r prev head seq acc =
      let f : IsFollow before.state r.next event r.raw =
        follow-IsFollow before.state r.next event r.raw (cc (r.follows, prev)) in
      record {
        raw = r.raw;
        is_read = r.is_read;
        is_state = r.is_state;
        keys = r.keys;
        head_digest = r.head_digest;
        prev_head = r.prev_head ∙ head;
        seq_next = r.seq_index ∙ sym seq;
        account_same = r.account_same ∙ sym acc;
        root_same = f.root_same;
        recovery_same = f.recovery_same;
        recovery_box_same = f.recovery_box_same;
        authorised = f.authorised;
        stepped = f.stepped;
      }
