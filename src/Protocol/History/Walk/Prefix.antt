-- ===== src/Protocol/History/Walk/Prefix.antt =====
-- The beginnings of a verified history (crates/slink-protocol/src/history.rs) are verified
-- histories, and the rest is a chain of links from there.
use session_link.Common.{
  ◌+◌, ◌≤◌, some, Bytes, List, [], ◌∷◌, ◌++◌, Text, ◌≡◌, refl, length, length-append, ok, arith,
}
use session_link.Protocol.History.Walk.Totals.{history_valid}
use mathlib.Core.Path.{subst}
use session_link.Protocol.Errors.{Kind}
use session_link.Protocol.Crypto.{Libs}
use session_link.Protocol.Signed.{Signed, read}
use session_link.Protocol.History.{State}
use session_link.Protocol.History.Step.Permitted.{Permitted, step-Permitted}
use session_link.Protocol.History.Walk.{History, Progress, start, walk_events, verify_history}
use session_link.Protocol.History.Walk.Rounds.{
  walk_event-IsRound, walk_events-cons, walk_events-append, walk_events-previous,
  verify_history-IsWalk, IsWalk-verify_history,
}
use session_link.Protocol.History.Walk.Links.{IsLink, IsAuthorised}
use session_link.Protocol.History.Walk.Chain.{Links, nil, cons, walk_events-Links}
use session_link.Protocol.History.Walk.Totals.{history_totals, history_valid, Links-root}

module _ (lib : Libs) where
  walked_state :
      (account : Text) (events : List Signed) (m : Progress)
      → 1 ≤ length events
      → walk_events lib account 0 start events ≡ ok m
      → (s : State) × (m.previous ≡ some s)
  walked_state account [] m n w = absurd (omega arith)
  walked_state account (e ∷ es) m n w =
      let (p', step, rest) = walk_events-cons lib account 0 start e es m w in
      let r = walk_event-IsRound lib account 0 start e p' step in
      walk_events-previous lib account 1 p' es m r.next r.previous_next rest

  -- Every beginning of a verified history with at least one event is a verified history, and the
  -- other events lead on from the state that it leaves, link by link, to the last state.
  pub verify_history-prefix :
      (es fs : List Signed) (account : Text) (last : History)
      → 1 ≤ length es
      → verify_history lib (es ++ fs) account ≡ ok last
      → (h : History) × (verify_history lib es account ≡ ok h) × Links lib last h fs
  verify_history-prefix es fs account last some_es v =
      let w = verify_history-IsWalk lib (es ++ fs) account last v in
      let (m, front, back) = walk_events-append lib account 0 start es fs w.progress w.walked in
      let (s, left) = walked_state account es m some_es front in
      let h : History = record { state = s; head = m.head } in
      let verified : verify_history lib es account ≡ ok h =
        IsWalk-verify_history lib es account h (record {
          progress = m;
          some_events = some_es;
          not_too_many = omega (arith, w.not_too_many, length-append es fs);
          walked = front;
          last_state = left;
          last_head = refl;
        }) in
      let totals = history_totals lib es account h verified in
      (
        h,
        verified,
        walk_events-Links lib account (0 + length es) m fs w.progress h last back left refl
            (omega (arith, totals.1)) totals.0 w.last_state w.last_head,
      )

  -- The history that a verified history with one event more was before that event.
  pub verify_history-snoc :
      (es : List Signed) (e : Signed) (account : Text) (last : History)
      → 1 ≤ length es
      → verify_history lib (es ++ e ∷ []) account ≡ ok last
      → (h : History) × (verify_history lib es account ≡ ok h) × IsLink lib h e last
  verify_history-snoc es e account last some_es v =
      let (h, verified, links) = verify_history-prefix es (e ∷ []) account last some_es v in
      (h, verified, only_link h links)
    where
      only_link : (h : History) → Links lib last h (e ∷ []) → IsLink lib h e last
      only_link h (cons link nil) = link

  -- Each event after the first is signed by the recovery key, if it is a recovery, or else by a
  -- device that the history held just before it, and leaves a state that its operation permits.
  pub history_authority :
      (es : List Signed) (e : Signed) (account : Text) (last : History)
      → 1 ≤ length es
      → verify_history lib (es ++ e ∷ []) account ≡ ok last
      → (h : History) × (verify_history lib es account ≡ ok h)
        × ((raw : Bytes) × (read lib e Kind.event ≡ ok raw)
            × IsAuthorised lib h.state last.state e raw)
        × Permitted last.state.kind h.state last.state
  history_authority es e account last some_es v =
      let (h, verified, link) = verify_history-snoc es e account last some_es v in
      (
        h,
        verified,
        (link.raw, link.is_read, link.authorised),
        step-Permitted h.state last.state link.stepped,
      )

  -- The root key, the recovery key and the recovery package of a verified history are those that
  -- any beginning of it has.
  pub history_keeps_root :
      (es fs : List Signed) (account : Text) (h last : History)
      → verify_history lib es account ≡ ok h
      → verify_history lib (es ++ fs) account ≡ ok last
      → (last.state.root ≡ h.state.root)
        × (last.state.recovery ≡ h.state.recovery)
        × (last.state.recovery_box ≡ h.state.recovery_box)
  history_keeps_root es fs account h last v v' =
      let some_es = (verify_history-IsWalk lib es account h v).some_events in
      let (h', verified, links) = verify_history-prefix es fs account last some_es v' in
      let same : h' ≡ h = ground (arith, verified, v) in
      let distinct = (history_valid lib es account h v).0.distinct in
      Links-root lib distinct (subst (λ (k : History). Links lib last k fs) same links)
