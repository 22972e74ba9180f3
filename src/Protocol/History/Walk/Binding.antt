-- ===== src/Protocol/History/Walk/Binding.antt =====
-- The head of a verified history (crates/slink-protocol/src/history.rs) names the whole of it: each
-- event carries the hash of the event before.
use session_link.Common.{
  ℕ, zero, suc, ◌≤◌, Bytes, List, [], ◌∷◌, ◌++◌, Text, ◌≡◌, refl, sym, ◌∙◌, ap, length,
  length-append, Result, ok, arith, map,
}
use mathlib.Core.Path.{ap₂}
use mathlib.Core.List.{map-append, Mem, mem-append, mem-cons}
use mathlib.Core.Logic.Or
use mathlib.Core.Path.{subst₂}
use session_link.Protocol.Errors.{Kind, Error}
use session_link.Protocol.Crypto.{Libs}
use session_link.Protocol.Encoding.{digest}
use session_link.Protocol.Signed.{Signed, read}
use session_link.Protocol.History.Read.{read_state}
use session_link.Protocol.History.Walk.{History, verify_history, walk_events, start, State}
use session_link.Protocol.History.Walk.Rounds.{
  verify_history-IsWalk, walk_events-cons, walk_event-IsRound,
}
use session_link.Protocol.History.Walk.Totals.{history_totals}
use session_link.Protocol.History.Walk.Prefix.{verify_history-snoc}

-- A list that is not empty has a last element.
snoc_view {ℓ} :
    {A : Type ℓ} (xs : List A) → 1 ≤ length xs → (front : List A) × (x : A) × (xs ≡ front ++ x ∷ [])
snoc_view [] h = absurd (omega arith)
snoc_view (x ∷ []) h = ([], x, refl)
snoc_view (x ∷ y ∷ xs) h =
    let (front, z, e) = snoc_view (y ∷ xs) (omega arith) in (x ∷ front, z, ap (λ l. x ∷ l) e)

module _ (lib : Libs) where
  -- What each event's payload spells.
  abbrev pub payloads : List Signed → List (Result Error Bytes)
  payloads = map (λ event. read lib event Kind.event)

  -- No payload of the first history has the digest of another payload of the second.
  abbrev pub NoCollision : List Signed → List Signed → Type 0
  NoCollision es fs =
      (e f : Signed)
      → Mem e es
      → Mem f fs
      → (a b : Bytes) → read lib e Kind.event ≡ ok a
      → read lib f Kind.event ≡ ok b
      → digest lib a ≡ digest lib b
      → a ≡ b

  record EndsIn (event : Signed) (h : History) : Type 0 where
    raw : Bytes
    is_read : read lib event Kind.event ≡ ok raw
    is_state : read_state lib raw ≡ ok h.state
    head_digest : h.head ≡ digest lib raw

  verify_history-EndsIn :
      (front : List Signed) (e : Signed) (account : Text) (h : History)
      → verify_history lib (front ++ e ∷ []) account ≡ ok h
      → EndsIn e h
  unfolding walk_events
  verify_history-EndsIn [] e account h v =
      let w = verify_history-IsWalk lib (e ∷ []) account h v in
      let (p', step, rest) = walk_events-cons lib account 0 start e [] w.progress w.walked in
      let r = walk_event-IsRound lib account 0 start e p' step in
      record {
        raw = r.raw;
        is_read = r.is_read;
        is_state = ground (arith, r.is_state, r.previous_next, w.last_state, rest);
        head_digest = ground (arith, r.head_digest, w.last_head, rest);
      }
  verify_history-EndsIn (d ∷ front) e account h v =
      let link = (verify_history-snoc lib (d ∷ front) e account h (omega arith) v).2 in
      record {
        raw = link.raw;
        is_read = link.is_read;
        is_state = link.is_state;
        head_digest = link.head_digest;
      }

  -- One raw payload, one state.
  same_end :
      (e f : Signed) (h k : History)
      → NoCollision (e ∷ []) (f ∷ [])
      → EndsIn e h
      → EndsIn f k
      → h.head ≡ k.head
      → (read lib e Kind.event ≡ read lib f Kind.event) × (h.state ≡ k.state)
  same_end e f h k apart end_h end_k head =
      let same : end_h.raw ≡ end_k.raw =
        apart e f (mem-cons.1 (Or.inl refl)) (mem-cons.1 (Or.inl refl)) end_h.raw end_k.raw
          end_h.is_read end_k.is_read (sym end_h.head_digest ∙ head ∙ end_k.head_digest) in
      (
        cc (end_h.is_read, end_k.is_read, same),
        ground (arith, end_h.is_state, end_k.is_state, same),
      )

  -- The same of the two lists' ends, and of what stands before them.
  NoCollision-last :
      (front front' : List Signed) (e f : Signed)
      → NoCollision (front ++ e ∷ []) (front' ++ f ∷ [])
      → NoCollision (e ∷ []) (f ∷ [])
  NoCollision-last front front' e f apart c d m n =
      apart c d (mem-append.1 (Or.inr m)) (mem-append.1 (Or.inr n))

  NoCollision-front :
      (front front' : List Signed) (e f : Signed)
      → NoCollision (front ++ e ∷ []) (front' ++ f ∷ [])
      → NoCollision front front'
  NoCollision-front front front' e f apart c d m n =
      apart c d (mem-append.1 (Or.inl m)) (mem-append.1 (Or.inl n))

  -- The histories before the two last events, given that their heads name them.
  before_end :
      (front front' : List Signed) (e f : Signed) (account account' : Text) (h k : History)
      → verify_history lib (front ++ e ∷ []) account ≡ ok h
      → verify_history lib (front' ++ f ∷ []) account' ≡ ok k
      → h.state ≡ k.state
      → ((h' k' : History)
          → verify_history lib front account ≡ ok h'
          → verify_history lib front' account' ≡ ok k'
          → h'.head ≡ k'.head
          → payloads front ≡ payloads front')
      → payloads front ≡ payloads front'
  before_end [] [] e f account account' h k v w same ih = refl
  before_end [] (d ∷ front') e f account account' h k v w same ih = absurd (
      omega (
        arith,
        (history_totals lib (e ∷ []) account h v).1,
        (history_totals lib (d ∷ front' ++ f ∷ []) account' k w).1,
        length-append front' (f ∷ []),
        ap (λ (s : State). s.seq) same,
      ))
  before_end (c ∷ front) [] e f account account' h k v w same ih = absurd (
      omega (
        arith,
        (history_totals lib (f ∷ []) account' k w).1,
        (history_totals lib (c ∷ front ++ e ∷ []) account h v).1,
        length-append front (e ∷ []),
        ap (λ (s : State). s.seq) same,
      ))
  before_end (c ∷ front) (d ∷ front') e f account account' h k v w same ih =
      let (h', v', link) = verify_history-snoc lib (c ∷ front) e account h (omega arith) v in
      let (k', w', link') = verify_history-snoc lib (d ∷ front') f account' k (omega arith) w in
      ih h' k' v' w' (sym link.prev_head ∙ ap (λ (s : State). s.prev) same ∙ link'.prev_head)

  binding :
      (n : ℕ) (es fs : List Signed) (account account' : Text) (h k : History)
      → NoCollision es fs
      → length es ≤ n
      → verify_history lib es account ≡ ok h
      → verify_history lib fs account' ≡ ok k
      → h.head ≡ k.head
      → payloads es ≡ payloads fs
  binding zero es fs account account' h k apart fits v w head =
      absurd (omega (arith, (verify_history-IsWalk lib es account h v).some_events))
  binding (suc n) es fs account account' h k apart fits v w head =
      let (front, e, es_eq) = snoc_view es (verify_history-IsWalk lib es account h v).some_events in
      let (front', f, fs_eq) =
        snoc_view fs (verify_history-IsWalk lib fs account' k w).some_events in
      let both : NoCollision (front ++ e ∷ []) (front' ++ f ∷ []) =
        subst₂ NoCollision es_eq fs_eq apart in
      let v' : verify_history lib (front ++ e ∷ []) account ≡ ok h = cc (v, es_eq) in
      let w' : verify_history lib (front' ++ f ∷ []) account' ≡ ok k = cc (w, fs_eq) in
      let ends =
        same_end e f h k (NoCollision-last front front' e f both)
          (verify_history-EndsIn front e account h v')
          (verify_history-EndsIn front' f account' k w') head in
      let short : length front ≤ n = omega (arith, length-append front (e ∷ []), ap length es_eq) in
      let fronts =
        before_end front front' e f account account' h k v' w' ends.1 (λ h' k' v'' w'' heads.
          binding n front front' account account' h' k' (NoCollision-front front front' e f both)
            short v'' w'' heads) in
      ap payloads es_eq
      ∙ map-append (λ event. read lib event Kind.event) front (e ∷ [])
      ∙ ap₂ (λ a b. a ++ b ∷ []) fronts ends.0
      ∙ sym (map-append (λ event. read lib event Kind.event) front' (f ∷ []))
      ∙ sym (ap payloads fs_eq)

  -- If no payload of the one has the digest of another payload of the other, verified histories with
  -- the same head, of whatever accounts, hold the same payloads in the same order, and leave the same
  -- state.
  pub history_binding :
      (es fs : List Signed) (account account' : Text) (h k : History)
      → NoCollision es fs
      → verify_history lib es account ≡ ok h
      → verify_history lib fs account' ≡ ok k
      → h.head ≡ k.head
      → (payloads es ≡ payloads fs) × (h.state ≡ k.state)
  history_binding es fs account account' h k apart v w head =
      let (front, e, es_eq) = snoc_view es (verify_history-IsWalk lib es account h v).some_events in
      let (front', f, fs_eq) =
        snoc_view fs (verify_history-IsWalk lib fs account' k w).some_events in
      (
        binding (length es) es fs account account' h k apart (omega arith) v w head,
        (same_end e f h k (NoCollision-last front front' e f (subst₂ NoCollision es_eq fs_eq apart))
            (verify_history-EndsIn front e account h (cc (v, es_eq)))
            (verify_history-EndsIn front' f account' k (cc (w, fs_eq))) head).1,
      )
