-- ===== src/Protocol/History/Walk/Rounds.antt =====
-- The rounds of `walk` (crates/slink-protocol/src/history.rs) taken apart: what one accepted round
-- says, and a walk over the whole list as a walk over its first part and then over the rest.
use session_link.Common.{
  ℕ, suc, ◌+◌, ◌≤◌, some, List, [], ◌∷◌, ◌++◌, Text, Bytes, ◌≡◌, refl, ◌∙◌, nat_eq, text_eq, length,
  ok, arith, inl, inr, Result-cases,
}
use session_link.Protocol.Errors.{Kind}
use session_link.Protocol.Crypto.{Libs}
use session_link.Protocol.Encoding.{digest}
use session_link.Protocol.Signed.{Signed, read}
use session_link.Protocol.History.{State, max_events}
use session_link.Protocol.History.Read.{read_state, check_keys}
use session_link.Protocol.History.Walk.{
  History, Progress, start, inbox_before, introduce, follow, walk_event, walk_events, walk,
  verify_history,
}

module _ (lib : Libs) where
  -- What one accepted round found.
  pub record IsRound (account : Text) (index : ℕ) (p : Progress) (event : Signed) (p' : Progress)
      : Type 0 where
    pub raw : Bytes
    pub next : State
    pub is_read : read lib event Kind.event ≡ ok raw
    pub is_state : read_state lib raw ≡ ok next
    pub account_same : next.account ≡ account
    pub seq_index : next.seq ≡ index
    pub prev_head : next.prev ≡ p.head
    pub epoch_pos : 1 ≤ next.epoch
    pub keys : check_keys lib next ≡ ok tt
    pub follows : follow lib p.previous event raw next ≡ ok tt
    pub introduced : introduce (inbox_before p.previous) next.inbox p.inboxes ≡ ok p'.inboxes
    pub previous_next : p'.previous ≡ some next
    pub head_digest : p'.head ≡ digest lib raw

  pub walk_event-IsRound :
      (account : Text) (index : ℕ) (p : Progress) (event : Signed) (p' : Progress)
      → walk_event lib account index p event ≡ ok p'
      → IsRound account index p event p'
  unfolding walk_event
  walk_event-IsRound account index p event p' h = elim (Result-cases (read lib event Kind.event)) [
    | inr (e, r) ↦ ground arith
    | inl (raw, r) ↦ elim (Result-cases (read_state lib raw)) [
      | inr (e, s) ↦ ground arith
      | inl (next, s) ↦ record {
        raw = raw;
        next = next;
        is_read = r;
        is_state = s;
        account_same = ground arith;
        seq_index = ground arith;
        prev_head = ground arith;
        epoch_pos = ground arith;
        keys = ground arith;
        follows = ground arith;
        introduced = ground arith;
        previous_next = ground arith;
        head_digest = ground arith;
      }
    ]
  ]

  -- A round that found all this is accepted.
  pub IsRound-walk_event :
      (account : Text) (index : ℕ) (p : Progress) (event : Signed) (p' : Progress)
      → IsRound account index p event p'
      → walk_event lib account index p event ≡ ok p'
  unfolding walk_event
  IsRound-walk_event account index p event p' h = ground arith

  -- An accepted walk over a list with a first event.
  pub walk_events-cons :
      (account : Text) (index : ℕ) (p : Progress) (event : Signed) (events : List Signed)
      (q : Progress)
      → walk_events lib account index p (event ∷ events) ≡ ok q
      → (p' : Progress) × (walk_event lib account index p event ≡ ok p')
        × (walk_events lib account (index + 1) p' events ≡ ok q)
  unfolding walk_events
  walk_events-cons account index p event events q h =
      elim (Result-cases (walk_event lib account index p event)) [
        | inl (p', r) ↦ (p', r, ground arith)
        | inr (e, r) ↦ ground arith
      ]

  pub walk_events_step :
      (account : Text) (index : ℕ) (p p' : Progress) (event : Signed) (events : List Signed)
      → walk_event lib account index p event ≡ ok p'
      → walk_events lib account index p (event ∷ events)
        ≡ walk_events lib account (index + 1) p' events
  unfolding walk_events
  walk_events_step account index p p' event events r = rw r

  -- A walk over two lists, one behind the other.
  pub walk_events-append :
      (account : Text) (index : ℕ) (p : Progress) (es fs : List Signed) (q : Progress)
      → walk_events lib account index p (es ++ fs) ≡ ok q
      → (m : Progress) × (walk_events lib account index p es ≡ ok m)
        × (walk_events lib account (index + length es) m fs ≡ ok q)
  walk_events-append account index p [] fs q h =
      let e : index + 0 ≡ index = omega arith in (p, unfold walk_events in refl, rw e h)
  walk_events-append account index p (event ∷ es) fs q h =
      let (p', r, rest) = walk_events-cons account index p event (es ++ fs) q h in
      let (m, front, back) = walk_events-append account (index + 1) p' es fs q rest in
      let e : index + suc (length es) ≡ index + 1 + length es = omega arith in
      (m, walk_events_step account index p p' event es r ∙ front, rw e back)

  -- A walk from a state before leaves a state.
  pub walk_events-previous :
      (account : Text) (index : ℕ) (p : Progress) (es : List Signed) (q : Progress) (s : State)
      → p.previous ≡ some s
      → walk_events lib account index p es ≡ ok q
      → (t : State) × (q.previous ≡ some t)
  walk_events-previous account index p [] q s e h = (s, unfold walk_events in ground arith)
  walk_events-previous account index p (event ∷ es) q s e h =
      let (p', r, rest) = walk_events-cons account index p event es q h in
      let round = walk_event-IsRound account index p event p' r in
      walk_events-previous account (index + 1) p' es q round.next round.previous_next rest

  -- A verified history is a walk from the start over a list of an allowed length.
  pub record IsWalk (events : List Signed) (account : Text) (h : History) : Type 0 where
    pub progress : Progress
    pub some_events : 1 ≤ length events
    pub not_too_many : length events ≤ max_events
    pub walked : walk_events lib account 0 start events ≡ ok progress
    pub last_state : progress.previous ≡ some h.state
    pub last_head : progress.head ≡ h.head

  pub verify_history-IsWalk :
      (events : List Signed) (account : Text) (h : History)
      → verify_history lib events account ≡ ok h
      → IsWalk events account h
  unfolding verify_history walk
  verify_history-IsWalk events account h v =
      elim (Result-cases (walk_events lib account 0 start events)) [
        | inr (e, r) ↦ ground arith
        | inl (p, r) ↦ record {
          progress = p;
          some_events = ground arith;
          not_too_many = ground arith;
          walked = r;
          last_state = ground arith;
          last_head = ground arith;
        }
      ]

  pub IsWalk-verify_history :
      (events : List Signed) (account : Text) (h : History)
      → IsWalk events account h
      → verify_history lib events account ≡ ok h
  unfolding verify_history walk
  IsWalk-verify_history events account h v = ground arith
