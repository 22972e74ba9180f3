-- ===== src/Client/Device/Ahead.antt =====
-- A device of crates/slink-client/src/device.rs over the records that it accepts one after another.
use mathlib.Core.List.{map-append, append_assoc, Mem, mem-append, Subset}
use mathlib.Core.Logic.Or
use mathlib.Core.Path.{subst}
use session_link.Common.{
  All-map, inl, inr, byte_len, as_bytes, ◌≤◌, List, [], ◌∷◌, ◌++◌, Text, Bytes, ◌≡◌, ◌≢◌, refl, sym,
  ◌∙◌, ap, Result, ok, arith, length, All, get_elem?-split, length-append,
}
use session_link.Common.Int.{pos}
use session_link.Protocol.Errors.{Kind, Error}
use session_link.Protocol.Crypto.{Libs}
use session_link.Protocol.Encoding.{digest, decode_exact}
use session_link.Protocol.Laws.{IsDigest, digest_not_empty}
use session_link.Protocol.Signed.{Signed, read, hash}
use session_link.Protocol.History.Walk.{History, verify_history}
use session_link.Protocol.History.Walk.Chain.{Links-last, verify_history-IsChain}
use session_link.Protocol.History.Walk.Rounds.{verify_history-IsWalk}
use session_link.Protocol.History.Walk.Totals.{history_totals, history_valid}
use session_link.Protocol.History.Walk.Prefix.{verify_history-prefix}
use session_link.Protocol.History.Walk.Binding.{payloads, NoCollision, history_binding}
use session_link.Protocol.Record.{Record, Verified, verify_record}
use session_link.Protocol.Record.Accepted.{verify_record_lem}
use session_link.Protocol.Named.Claims.{verified_head}
use session_link.Client.Device.{Device, pin}
use session_link.Client.Device.Pins.{pin-eq-ok}

module _ (lib : Libs) (law : IsDigest lib) (account : Text) where
  -- A record's events come first in another's, payload by payload.
  pub record IsExtension (earlier later : Record) : Type 0 where
    pub more : List (Result Error Bytes)
    pub payloads_eq : payloads lib later.events ≡ payloads lib earlier.events ++ more

  -- The records that a device was given one after another, and accepted.
  pub data Accepts : Device → List Record → Device → Type 0 where
    settled : (d : Device) → Accepts d [] d
    next :
        {d d' d'' : Device} {held : Record} {verified : Verified} {rest : List Record}
        → verify_record lib held account ≡ ok verified
        → pin lib d held verified ≡ ok d'
        → Accepts d' rest d''
        → Accepts d (held ∷ rest) d''

  -- What a device keeps of the record that it accepted last.
  pub record IsPinnedTo (d : Device) (held : Record) : Type 0 where
    pub verified : Verified
    pub verifies : verify_record lib held account ≡ ok verified
    pub seq_eq : d.seq ≡ pos verified.state.seq
    pub head_eq : d.head ≡ verified.head
    pub root_eq : d.root ≡ verified.state.root
    pub revision_eq : d.revision ≡ verified.vault.revision

  verified_history :
      (held : Record) (verified : Verified)
      → verify_record lib held account ≡ ok verified
      → verify_history lib held.events account
        ≡ ok (record { state = verified.state; head = verified.head })
  verified_history held verified v = ((verify_record_lem lib held account verified).0 v).history

  pin-IsPinnedTo :
      (d d' : Device) (held : Record) (verified : Verified)
      → verify_record lib held account ≡ ok verified
      → pin lib d held verified ≡ ok d'
      → IsPinnedTo d' held
  pin-IsPinnedTo d d' held verified v p =
      let h = verified_history held verified v in
      let totals = history_totals lib held.events account _ h in
      let bounded = (verify_history-IsWalk lib held.events account _ h).not_too_many in
      let after = (pin-eq-ok lib d held verified d' p).after_eq in
      record {
        verified = verified;
        verifies = v;
        seq_eq = ground (arith, totals.1);
        head_eq = ground arith;
        root_eq = ground arith;
        revision_eq = ground arith;
      }

  -- The head of a verified history is a digest.
  head_digest :
      (events : List Signed) (h : History)
      → verify_history lib events account ≡ ok h
      → (raw : Bytes) × (h.head ≡ digest lib raw)
  head_digest events h v =
      let c = verify_history-IsChain lib events account h v in
      Links-last lib (λ k. (raw : Bytes) × (k.head ≡ digest lib raw))
        (λ before event after link. (link.raw, link.head_digest))
        (c.is_first.raw, c.is_first.head_digest) c.links

  head_not_empty :
      (events : List Signed) (h : History) → verify_history lib events account ≡ ok h → h.head ≢ []
  head_not_empty events h v e =
      let (raw, found) = head_digest events h v in digest_not_empty lib law raw (sym found ∙ e)

  -- A verified history in which an event has the head of another as its hash goes on from that other.
  goes_on :
      (es later front back : List Signed) (event : Signed) (h last : History)
      → NoCollision lib later es
      → later ≡ front ++ (event ∷ []) ++ back
      → verify_history lib es account ≡ ok h
      → verify_history lib later account ≡ ok last
      → hash lib event Kind.event ≡ ok h.head
      → payloads lib later ≡ payloads lib es ++ payloads lib back
  goes_on es later front back event h last apart split v w hashed =
      let whole = subst (λ es. verify_history lib es account ≡ ok last) split w in
      let some_events : 1 ≤ length (front ++ (event ∷ [])) =
        omega (arith, length-append front (event ∷ [])) in
      let (k, front_history, links) =
        verify_history-prefix lib (front ++ (event ∷ [])) back account last some_events whole in
      let same = verified_head lib front event account h.head k front_history hashed in
      let apart' : NoCollision lib (front ++ (event ∷ [])) es =
        λ e f m n. apart e f (subst (λ l. Mem e l) (sym split) (mem-append.1 (Or.inl m))) n in
      let (bound, state) =
        history_binding lib (front ++ (event ∷ [])) es account account k h apart' front_history v
          same in
      ap (payloads lib) split
      ∙ map-append (λ e. read lib e Kind.event) (front ++ (event ∷ [])) back
      ∙ ap (λ l. l ++ payloads lib back) bound

  -- The next record that a pinned device accepts goes on from the one before.
  pin-IsExtension :
      (d d' : Device) (held later : Record) (verified : Verified)
      → NoCollision lib later.events held.events
      → IsPinnedTo d held
      → verify_record lib later account ≡ ok verified
      → pin lib d later verified ≡ ok d'
      → IsExtension held later
  pin-IsExtension d d' held later verified apart pinned v p =
      let found = pin-eq-ok lib d later verified d' p in
      let held_history = verified_history held pinned.verified pinned.verifies in
      let not_empty = head_not_empty held.events _ held_history in
      let (event, at, hashed) =
        found.same_head pinned.verified.state.seq pinned.seq_eq
          (λ e. not_empty (sym pinned.head_eq ∙ e)) in
      let (front, back, split, n) =
        get_elem?-split later.events pinned.verified.state.seq event at in
      record {
        more = payloads lib back;
        payloads_eq =
            goes_on held.events later.events front back event _ _ apart split held_history
              (verified_history later verified v) (hashed ∙ ap ok pinned.head_eq);
      }

  IsExtension-trans : (a b c : Record) → IsExtension a b → IsExtension b c → IsExtension a c
  IsExtension-trans a b c x y = record {
    more = x.more ++ y.more;
    payloads_eq =
        y.payloads_eq
        ∙ ap (λ l. l ++ y.more) x.payloads_eq
        ∙ append_assoc (payloads lib a.events) x.more y.more;
  }

  empty-IsKey : (key : Bytes) → decode_exact lib 32 [] ≢ ok key
  unfolding decode_exact byte_len as_bytes
  empty-IsKey key h = ground arith

  root_not_empty :
      (events : List Signed) (h : History)
      → verify_history lib events account ≡ ok h
      → h.state.root ≢ []
  root_not_empty events h v e =
      let (key, decoded) = (history_valid lib events account h v).0.root in
      empty-IsKey key (ap (decode_exact lib 32) (sym e) ∙ decoded)

  -- What one pin after another keeps of the pins themselves.
  pin_keeps :
      (d d' : Device) (held later : Record) (verified : Verified)
      → IsPinnedTo d held
      → pin lib d later verified ≡ ok d'
      → (d.revision ≤ d'.revision) × (d'.root ≡ d.root)
  pin_keeps d d' held later verified pinned p =
      let found = pin-eq-ok lib d later verified d' p in
      let after = found.after_eq in
      let older = found.not_older in
      let not_empty =
        root_not_empty held.events _ (verified_history held pinned.verified pinned.verifies) in
      (
        ground arith,
        elim found.same_root [
          | inl e ↦ absurd (not_empty (sym pinned.root_eq ∙ e))
          | inr e ↦ ground arith
        ],
      )

  accepted_ahead :
      (all : List Signed) (d d' : Device) (held : Record) (rest : List Record)
      → NoCollision lib all all
      → Subset held.events all
      → All (λ r. Subset r.events all) rest
      → IsPinnedTo d held
      → Accepts d rest d'
      → All (λ r. IsExtension held r) rest × (d.revision ≤ d'.revision) × (d'.root ≡ d.root)
  accepted_ahead all d d' held [] apart within every pinned (settled d'') = (tt, omega arith, refl)
  accepted_ahead all d d'' held (later ∷ rest) apart within every pinned
        (next {d' = d'} {verified = verified} v p accepts) =
      let one =
        pin-IsExtension d d' held later verified (λ e f m n. apart e f (every.0 e m) (within f n))
          pinned v p in
      let again = pin-IsPinnedTo d d' later verified v p in
      let (more, revision, root) =
        accepted_ahead all d' d'' later rest apart every.0 every.1 again accepts in
      let (up, same) = pin_keeps d d' held later verified pinned p in
      (
        (
          one,
          All-map (IsExtension later) (IsExtension held) (λ r. IsExtension-trans held later r one)
              rest more,
        ),
        omega arith,
        root ∙ same,
      )

  -- A device that accepts a record, and others after it, for one account: if no two of the payloads in
  -- them collide, the events of each later record go on from those of the first, the pinned root key
  -- stays, and the pinned revision of the vault never falls.
  pub device_never_goes_back :
      (all : List Signed) (d d' d'' : Device) (held : Record) (rest : List Record)
      (verified : Verified)
      → NoCollision lib all all
      → Subset held.events all
      → All (λ r. Subset r.events all) rest
      → verify_record lib held account ≡ ok verified
      → pin lib d held verified ≡ ok d'
      → Accepts d' rest d''
      → All (λ r. IsExtension held r) rest × (d'.revision ≤ d''.revision) × (d''.root ≡ d'.root)
  device_never_goes_back all d d' d'' held rest verified apart within every v p accepts =
      accepted_ahead all d' d'' held rest apart within every (pin-IsPinnedTo d d' held verified v p)
        accepts
