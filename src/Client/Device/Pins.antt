-- ===== src/Client/Device/Pins.antt =====
-- What the pins of crates/slink-client/src/device.rs keep: a device that accepted a record goes on
-- from it, never back and never aside.
use session_link.Common.{
  zero, suc, Bool-cases, ℕ, ◌≤◌, ◌<◌, true, false, some, none, [], ◌≡◌, ◌≢◌, Option-cases, inl, inr,
  ok, arith, text_eq, get_elem?, length, ◌⊎◌, ◌∷◌, suc, Bool-cases,
}
use session_link.Common.Int.{pos}
use session_link.Protocol.Errors.{Kind}
use session_link.Protocol.Crypto.{Libs}
use session_link.Protocol.Signed.{Signed, hash}
use session_link.Protocol.Record.{Record, Verified}
use session_link.Protocol.Recovery.{recovery_token_matches}
use session_link.Client.Device.{
  Device, seq_of, setup_conflict, older, same_event, pin, List, seen_of, err, Error,
}

module _ (lib : Libs) where
  -- What a pin found and left.
  pub record IsPin (self : Device) (held : Record) (verified : Verified) (after : Device)
      : Type 0 where
    pub no_conflict : setup_conflict lib self verified.state ≡ false
    pub same_recovery :
        (self.pending_recovery ≡ [])
        ⊎ (recovery_token_matches lib self.pending_recovery verified.state.account
              verified.state.root
            ≡ true)
    pub same_root : (self.root ≡ []) ⊎ (self.root ≡ verified.state.root)
    pub long_enough : (n : ℕ) → self.seq ≡ pos n → n < length held.events
    pub not_older : self.revision ≤ verified.vault.revision
    pub same_head :
        (n : ℕ)
        → self.seq ≡ pos n
        → self.head ≢ []
        → (event : Signed) × (get_elem? held.events n ≡ some event)
          × (hash lib event Kind.event ≡ ok self.head)
    pub after_eq : after ≡ record self {
      root = verified.state.root;
      seq = seq_of verified.state.seq;
      head = verified.head;
      revision = verified.vault.revision;
      pending_setup = none;
    }

  older-eq-false :
      (self : Device) (held : Record) (verified : Verified) (n : ℕ)
      → older lib self held verified ≡ false
      → self.seq ≡ pos n
      → n < length held.events
  unfolding older
  older-eq-false self held verified n h e = ground arith

  older_revision :
      (self : Device) (held : Record) (verified : Verified)
      → older lib self held verified ≡ false
      → self.revision ≤ verified.vault.revision
  unfolding older
  older_revision self held verified h = ground arith

  same_event-eq-ok :
      (self : Device) (held : Record) (n : ℕ)
      → same_event lib self held ≡ ok tt
      → self.seq ≡ pos n
      → self.head ≢ []
      → (event : Signed) × (get_elem? held.events n ≡ some event)
        × (hash lib event Kind.event ≡ ok self.head)
  unfolding same_event
  same_event-eq-ok self held n h e head = elim (Option-cases (get_elem? held.events n)) [
    | inl p ↦ absurd (ground arith)
    | inr (event, p) ↦ (event, p, ground arith)
  ]

  pub pin-eq-ok :
      (self : Device) (held : Record) (verified : Verified) (after : Device)
      → pin lib self held verified ≡ ok after
      → IsPin self held verified after
  unfolding pin
  pin-eq-ok self held verified after h =
      let conflict : setup_conflict lib self verified.state ≡ false = ground arith in
      let old : older lib self held verified ≡ false = ground arith in
      let same : same_event lib self held ≡ ok tt = ground arith in
      record {
        no_conflict = conflict;
        same_recovery = elim (text_eq.discrete self.pending_recovery []) [
          | yes p ↦ inl p
          | no n ↦ inr (ground arith)
        ];
        same_root = elim (text_eq.discrete self.root []) [
          | yes p ↦ inl p
          | no n ↦ inr (ground arith)
        ];
        long_enough = λ n e. older-eq-false self held verified n old e;
        not_older = older_revision self held verified old;
        same_head = λ n e head. same_event-eq-ok self held n same e head;
        after_eq = ground arith;
      }

  get_elem?-in_range :
      (events : List Signed) (n : ℕ) → n < length events → get_elem? events n ≢ none
  get_elem?-in_range [] n h p = ground arith
  get_elem?-in_range (event ∷ rest) zero h p = ground arith
  get_elem?-in_range (event ∷ rest) (suc n) h p = get_elem?-in_range rest n (ground arith) p

  seen_in_range :
      (self : Device) (held : Record) (verified : Verified) (n : ℕ)
      → older lib self held verified ≡ false
      → seen_of self.seq ≡ some n
      → n < length held.events
  unfolding older
  seen_in_range self held verified n h e = ground arith

  same_event_in_range :
      (self : Device) (held : Record)
      → ((n : ℕ) → seen_of self.seq ≡ some n → n < length held.events)
      → same_event lib self held ≢ err Error.index_out_of_range
  unfolding same_event
  same_event_in_range self held within h = elim (Option-cases (seen_of self.seq)) [
    | inl p ↦ absurd (ground arith)
    | inr (n, p) ↦ elim (Option-cases (get_elem? held.events n)) [
      | inl q ↦ absurd (get_elem?-in_range held.events n (within n p) q)
      | inr (event, q) ↦ absurd (ground arith)
    ]
  ]

  -- Whatever record and pins a device holds, `pin` never reads an event past the end of the record.
  pub pin_in_range :
      (self : Device) (held : Record) (verified : Verified)
      → pin lib self held verified ≢ err Error.index_out_of_range
  unfolding pin
  pin_in_range self held verified h = elim (Bool-cases (older lib self held verified)) [
    | inl p ↦ absurd (ground arith)
    | inr p ↦
        let same = same_event_in_range self held (λ n e. seen_in_range self held verified n p e) in
        absurd (ground arith)
  ]
