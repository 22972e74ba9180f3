-- ===== src/Protocol/History/Walk/Inboxes.antt =====
-- The incoming-share keys of a verified history (crates/slink-protocol/src/history.rs): one that was
-- replaced never comes back.
use session_link.Common.{
  ℕ, ◌+◌, true, Option, none, some, List, [], ◌∷◌, ◌++◌, Text, ◌≡◌, ◌≢◌, length, contains, text_eq,
  Option-discrete, ok, arith,
}
use session_link.Protocol.Crypto.{Libs}
use session_link.Protocol.Signed.{Signed}
use session_link.Protocol.History.Walk.{
  History, Progress, start, inbox_before, introduce, walk_events, verify_history,
}
use session_link.Protocol.History.Walk.Rounds.{
  walk_event-IsRound, walk_events-cons, walk_events-append, verify_history-IsWalk,
}

-- The key in force was introduced.
abbrev Held : Option Text → List Text → Type 0
Held inbox inboxes = (key : Text) → inbox ≡ some key → contains key inboxes ≡ true

-- A key that was introduced and is not in force.
abbrev Retired : Text → Option Text → List Text → Type 0
Retired key inbox inboxes = (contains key inboxes ≡ true) × (inbox ≢ some key)

introduce-Held :
    (before inbox : Option Text) (inboxes inboxes' : List Text)
    → introduce before inbox inboxes ≡ ok inboxes'
    → Held before inboxes
    → Held inbox inboxes'
unfolding introduce Option-discrete
introduce-Held before none inboxes inboxes' h held key e = cc
introduce-Held none (some inbox) inboxes inboxes' h held key e = ground arith
introduce-Held (some old) (some inbox) inboxes inboxes' h held key e = ground (arith, held key)

introduce-Retired :
    (key : Text) (before inbox : Option Text) (inboxes inboxes' : List Text)
    → introduce before inbox inboxes ≡ ok inboxes'
    → Retired key before inboxes
    → Retired key inbox inboxes'
unfolding introduce Option-discrete
introduce-Retired key before none inboxes inboxes' h (known, gone) = ground arith
introduce-Retired key none (some inbox) inboxes inboxes' h (known, gone) = ground arith
introduce-Retired key (some old) (some inbox) inboxes inboxes' h (known, gone) = ground arith

introduce-contains :
    (key : Text) (before inbox : Option Text) (inboxes inboxes' : List Text)
    → introduce before inbox inboxes ≡ ok inboxes'
    → contains key inboxes ≡ true
    → contains key inboxes' ≡ true
unfolding introduce Option-discrete
introduce-contains key before none inboxes inboxes' h known = ground arith
introduce-contains key none (some inbox) inboxes inboxes' h known = ground arith
introduce-contains key (some old) (some inbox) inboxes inboxes' h known = ground arith

module _ (lib : Libs) where
  walk-Held :
      (account : Text) (index : ℕ) (p : Progress) (es : List Signed) (q : Progress)
      → walk_events lib account index p es ≡ ok q
      → Held (inbox_before p.previous) p.inboxes
      → Held (inbox_before q.previous) q.inboxes
  unfolding walk_events
  walk-Held account index p [] q w held = λ key e. ground (arith, held key)
  walk-Held account index p (event ∷ es) q w held =
      let (p', step, rest) = walk_events-cons lib account index p event es q w in
      let r = walk_event-IsRound lib account index p event p' step in
      walk-Held account (index + 1) p' es q rest (
        rw r.previous_next (
          introduce-Held (inbox_before p.previous) r.next.inbox p.inboxes p'.inboxes r.introduced
            held))

  walk-Retired :
      (key : Text) (account : Text) (index : ℕ) (p : Progress) (es : List Signed) (q : Progress)
      → walk_events lib account index p es ≡ ok q
      → Retired key (inbox_before p.previous) p.inboxes
      → Retired key (inbox_before q.previous) q.inboxes
  unfolding walk_events
  walk-Retired key account index p [] q w retired = ground arith
  walk-Retired key account index p (event ∷ es) q w retired =
      let (p', step, rest) = walk_events-cons lib account index p event es q w in
      let r = walk_event-IsRound lib account index p event p' step in
      walk-Retired key account (index + 1) p' es q rest (
        rw r.previous_next (
          introduce-Retired key (inbox_before p.previous) r.next.inbox p.inboxes p'.inboxes
            r.introduced retired))

  -- An introduced key stays introduced.
  walk-contains :
      (key : Text) (account : Text) (index : ℕ) (p : Progress) (es : List Signed) (q : Progress)
      → walk_events lib account index p es ≡ ok q
      → contains key p.inboxes ≡ true
      → contains key q.inboxes ≡ true
  unfolding walk_events
  walk-contains key account index p [] q w known = ground arith
  walk-contains key account index p (event ∷ es) q w known =
      let (p', step, rest) = walk_events-cons lib account index p event es q w in
      let r = walk_event-IsRound lib account index p event p' step in
      walk-contains key account (index + 1) p' es q rest (
        introduce-contains key (inbox_before p.previous) r.next.inbox p.inboxes p'.inboxes
          r.introduced known)

  -- The walk over a part, from the walks over it and over the whole.
  walk_rest :
      (es fs : List Signed) (account : Text) (first second : History)
      → verify_history lib es account ≡ ok first
      → verify_history lib (es ++ fs) account ≡ ok second
      → (p q : Progress) × (walk_events lib account 0 start es ≡ ok p)
        × (walk_events lib account (0 + length es) p fs ≡ ok q)
        × (p.previous ≡ some first.state)
        × (q.previous ≡ some second.state)
        × (walk_events lib account 0 start (es ++ fs) ≡ ok q)
  walk_rest es fs account first second v w =
      let part = verify_history-IsWalk lib es account first v in
      let whole = verify_history-IsWalk lib (es ++ fs) account second w in
      let (p, front, back) =
        walk_events-append lib account 0 start es fs whole.progress whole.walked in
      (
        p,
        whole.progress,
        front,
        back,
        ground (arith, front, part.walked, part.last_state),
        whole.last_state,
        whole.walked,
      )

  -- An incoming-share key that was in force, and is not at a later point of a verified history, is
  -- not in force at any point after that.
  pub history_retires_inbox :
      (es fs gs : List Signed) (account : Text) (first second third : History) (key : Text)
      → verify_history lib es account ≡ ok first
      → verify_history lib (es ++ fs) account ≡ ok second
      → verify_history lib ((es ++ fs) ++ gs) account ≡ ok third
      → first.state.inbox ≡ some key
      → second.state.inbox ≢ some key
      → third.state.inbox ≢ some key
  history_retires_inbox es fs gs account first second third key u v w held gone =
      let (p, q, front, back, at_p, at_q, whole) = walk_rest es fs account first second u v in
      let (q', r, front', back', at_q', at_r, whole') =
        walk_rest (es ++ fs) gs account second third v w in
      let introduced : contains key p.inboxes ≡ true =
        walk-Held account 0 start es p front (λ k e. cc e) key (rw at_p held) in
      let known : contains key q.inboxes ≡ true =
        walk-contains key account (0 + length es) p fs q back introduced in
      let same : q ≡ q' = ground (arith, whole, front') in
      let retired =
        walk-Retired key account (0 + length (es ++ fs)) q' gs r back'
          (ground (arith, known, same), rw at_q' gone) in
      rw at_r at retired.1
