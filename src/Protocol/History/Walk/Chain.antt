-- ===== src/Protocol/History/Walk/Chain.antt =====
-- A verified history (crates/slink-protocol/src/history.rs) as a first event and a chain of links.
use session_link.Common.{
  ℕ, ◌+◌, ◌≤◌, some, List, [], ◌∷◌, Text, Bytes, codes, ◌≡◌, refl, nat_eq, text_eq, length, ok,
  arith,
}
use mathlib.Core.Path.{subst}
use session_link.Protocol.Errors.{Kind}
use session_link.Protocol.Crypto.{Libs}
use session_link.Protocol.Encoding.{digest}
use session_link.Protocol.Signed.{Signed, read}
use session_link.Protocol.History.{operation_eq, Operation-discrete, init, max_events}
use session_link.Protocol.History.Read.{read_state, check_keys}
use session_link.Protocol.History.Walk.{
  History, Progress, start, signed_by, follow, walk_events, verify_history,
}
use session_link.Protocol.History.Walk.Rounds.{
  IsRound, walk_event-IsRound, walk_events-cons, verify_history-IsWalk,
}
use session_link.Protocol.History.Walk.Links.{IsLink, IsRound-IsLink}

module _ (lib : Libs) where
  -- What the first event of a verified history is.
  pub record IsFirst (account : Text) (event : Signed) (after : History) : Type 0 where
    pub raw : Bytes
    pub is_read : read lib event Kind.event ≡ ok raw
    pub is_state : read_state lib raw ≡ ok after.state
    pub keys : check_keys lib after.state ≡ ok tt
    pub head_digest : after.head ≡ digest lib raw
    pub prev_empty : after.state.prev ≡ []
    pub seq_zero : after.state.seq ≡ 0
    pub account_same : after.state.account ≡ account
    pub kind_init : after.state.kind ≡ init
    pub signer_root : after.state.signer ≡ codes "root"
    pub epoch_one : after.state.epoch ≡ 1
    pub one_device : length after.state.devices ≡ 1
    pub root_signed : signed_by lib event raw after.state.root ≡ ok tt

  -- The events that take one history to another, each by a link.
  pub data Links (last : History) : History → List Signed → Type 0 where
    nil : Links last last []
    cons :
        {before : History} {event : Signed} {after : History} {events : List Signed}
        → IsLink lib before event after
        → Links last after events
        → Links last before (event ∷ events)

  IsRound-IsFirst :
      (account : Text) (event : Signed) (p' : Progress) (r : IsRound lib account 0 start event p')
      → IsFirst account event (record { state = r.next; head = p'.head })
  unfolding follow Operation-discrete
  IsRound-IsFirst account event p' r = record {
    raw = r.raw;
    is_read = r.is_read;
    is_state = r.is_state;
    keys = r.keys;
    head_digest = r.head_digest;
    prev_empty = r.prev_head;
    seq_zero = r.seq_index;
    account_same = r.account_same;
    kind_init = ground arith;
    signer_root = ground arith;
    epoch_one = ground arith;
    one_device = ground arith;
    root_signed = ground arith;
  }

  -- A walk on from a state is a chain of links.
  pub walk_events-Links :
      (account : Text) (index : ℕ) (p : Progress) (events : List Signed) (q : Progress)
      (before last : History)
      → walk_events lib account index p events ≡ ok q
      → p.previous ≡ some before.state
      → p.head ≡ before.head
      → before.state.seq + 1 ≡ index
      → before.state.account ≡ account
      → q.previous ≡ some last.state
      → q.head ≡ last.head
      → Links last before events
  walk_events-Links account index p [] q before last w prev head seq acc prev' head' =
      let e : p ≡ q = unfold walk_events in cc w in
      let same : last ≡ before = ground (arith, e) in
      subst (λ (h : History). Links last h []) same nil
  walk_events-Links account index p (event ∷ events) q before last w prev head seq acc prev' head' =
      let (p', step, rest) = walk_events-cons lib account index p event events q w in
      let r = walk_event-IsRound lib account index p event p' step in
      let link = IsRound-IsLink lib account index p event p' before r prev head seq acc in
      cons link (
        walk_events-Links account (index + 1) p' events q
          (record { state = r.next; head = p'.head }) last rest r.previous_next refl
          (omega (arith, r.seq_index)) r.account_same prev' head')

  -- What every link gives of the state after it holds of the last state.
  pub Links-last :
      (P : History → Type 0)
      → ((before : History) (event : Signed) (after : History)
          → IsLink lib before event after
          → P after)
      → {last before : History} {events : List Signed} → P before
      → Links last before events
      → P last
  Links-last P each p nil = p
  Links-last P each p (cons {before = b} {event = e} {after = a} link links) =
      Links-last P each (each b e a link) links

  -- A verified history is a first event and a chain of links to the state that it leaves.
  pub record IsChain (events : List Signed) (account : Text) (last : History) : Type 0 where
    pub event : Signed
    pub rest : List Signed
    pub first : History
    pub events_eq : events ≡ event ∷ rest
    pub is_first : IsFirst account event first
    pub links : Links last first rest
    pub bounded : length events ≤ max_events

  pub verify_history-IsChain :
      (events : List Signed) (account : Text) (last : History)
      → verify_history lib events account ≡ ok last
      → IsChain events account last
  verify_history-IsChain [] account last v =
      absurd (omega (arith, (verify_history-IsWalk lib [] account last v).some_events))
  verify_history-IsChain (event ∷ rest) account last v =
      let w = verify_history-IsWalk lib (event ∷ rest) account last v in
      let (p', step, walked) =
        walk_events-cons lib account 0 start event rest w.progress w.walked in
      let r = walk_event-IsRound lib account 0 start event p' step in
      record {
        event = event;
        rest = rest;
        first = record { state = r.next; head = p'.head };
        events_eq = refl;
        is_first = IsRound-IsFirst account event p' r;
        links =
            walk_events-Links account 1 p' rest w.progress
              (record { state = r.next; head = p'.head }) last walked r.previous_next refl
              (omega (arith, r.seq_index)) r.account_same w.last_state w.last_head;
        bounded = w.not_too_many;
      }
