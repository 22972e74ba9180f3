-- ===== src/Client/Changes/Permitted/Revoked.antt =====
-- A revocation that crates/slink-client/src/identity.rs makes is one that `step` of
-- crates/slink-protocol/src/history.rs lets follow.
use mathlib.Core.Path.{subst}
use session_link.Common.{
  Text-discrete, ◌+◌, true, false, Option, Option-cases, some, none, List, [], ◌∷◌, Text, Bytes,
  ◌≡◌, ◌≢◌, refl, sym, ◌∙◌, ap, arith, any, Result-cases, ok, inl, inr, ◌==◌, text_eq, nat_eq,
  option_eq,
}
use session_link.Common.Options.{is_none}
use session_link.Protocol.Crypto.{Libs}
use session_link.Protocol.Signed.{agreement_public}
use session_link.Protocol.History.{
  Operation, operation_eq, revoke, Device, State, find, wrap_key, context,
}
use session_link.Protocol.History.Step.{count_added, count_removed, rotated, kept, rule, step}
use session_link.Protocol.History.Valid.{IsDistinct}
use session_link.Client.Vault.{Contents, rotate_inbox}
use session_link.Client.Changes.{Fresh, advance, revoke_next, retain, rewrap, wrap_to, turn_inbox}
use session_link.Client.Changes.Permitted.{distinct-IsListed}
use session_link.Client.Changes.Permitted.Rewrapped.{
  rewrap-count_added, rewrap-find, IsRenewed, rewrap-kept, retain-IsListed, find-retain, count_gone,
  count_removed-gone,
}

module _ (lib : Libs) where
  -- A wrapper is made of the account, the root key and the epoch of a state alone.
  wrap_to-same :
      (s t : State) (recipient : Text) (key : Bytes) (fresh : Fresh)
      → s.account ≡ t.account
      → s.root ≡ t.root
      → s.epoch ≡ t.epoch
      → wrap_to lib s recipient key fresh ≡ wrap_to lib t recipient key fresh
  unfolding wrap_to wrap_key context
  wrap_to-same s t recipient key fresh a r e = rw a (rw r (rw e refl))

  abbrev new_inbox : Option Text → Bytes → Option Text
  new_inbox none private = none
  new_inbox (some old) private = some (agreement_public lib (record { bytes = private }))

  -- What an accepted `revoke_next` did. `later` is the state that the wrappers were made for.
  record IsRevocation (state later made : State) (own gone : Text) (private key : Bytes)
      (fresh : Text → Fresh) (recovery_fresh : Fresh) : Type 0 where
    another : gone ≢ own
    approved : is_none (find state.devices gone) ≡ false
    later_eq :
        (later.account ≡ state.account)
        × (later.root ≡ state.root)
        × (later.epoch ≡ state.epoch + 1)
    rewrapped : rewrap lib later key fresh (retain lib gone state.devices) ≡ ok made.devices
    recovery_wrapped : wrap_to lib later state.recovery key recovery_fresh ≡ ok made.recovery_wrap
    inbox_eq : made.inbox ≡ new_inbox state.inbox private
    epoch_eq : made.epoch ≡ state.epoch + 1
    signer_eq : made.signer ≡ own

  turn_inbox-inbox :
      (contents : Contents) (next : State) (private : Bytes)
      → ((turn_inbox lib contents next private).1.inbox ≡ new_inbox next.inbox private)
        × ((turn_inbox lib contents next private).1.account ≡ next.account)
        × ((turn_inbox lib contents next private).1.root ≡ next.root)
        × ((turn_inbox lib contents next private).1.epoch ≡ next.epoch)
        × ((turn_inbox lib contents next private).1.signer ≡ next.signer)
        × ((turn_inbox lib contents next private).1.recovery ≡ next.recovery)
  unfolding turn_inbox rotate_inbox
  turn_inbox-inbox contents next private = elim (Option-cases next.inbox) [
    | inl p ↦ ground arith
    | inr (old, p) ↦ ground arith
  ]

  revoke_next-IsRevocation :
      (contents : Contents) (state : State) (made : Contents × State) (own gone : Text)
      (private key : Bytes) (fresh : Text → Fresh) (recovery_fresh : Fresh)
      → revoke_next lib contents
          (record state { signer = own })
          own
          gone
          private
          key
          fresh
          recovery_fresh
        ≡ ok made
      → (later : State) × IsRevocation state later made.1 own gone private key fresh recovery_fresh
  unfolding revoke_next
  revoke_next-IsRevocation contents state made own gone private key fresh recovery_fresh h =
      let raised = record state { signer = own; epoch = state.epoch + 1 } in
      let turned = turn_inbox lib contents raised private in
      let later = record (turned.1) { devices = retain lib gone state.devices } in
      let (inbox, account, root, epoch, signer, recovery) =
        turn_inbox-inbox contents raised private in
      elim (Result-cases (rewrap lib later key fresh (retain lib gone state.devices))) [
        | inr (e, p) ↦ absurd (ground arith)
        | inl (devices, p) ↦
            let again = record later { devices = devices } in
            elim (Result-cases (wrap_to lib again again.recovery key recovery_fresh)) [
              | inr (e, q) ↦ absurd (ground arith)
              | inl (wrapper, q) ↦ (
                later,
                record {
                  another = ground arith;
                  approved = ground arith;
                  later_eq = (account, root, epoch);
                  rewrapped = p ∙ ap ok (ground arith);
                  recovery_wrapped =
                      wrap_to-same later again state.recovery key recovery_fresh refl refl refl
                      ∙ ap (λ r. wrap_to lib again r key recovery_fresh) (sym recovery)
                      ∙ q
                      ∙ ap ok (ground arith);
                  inbox_eq = ground arith;
                  epoch_eq = ground arith;
                  signer_eq = ground arith;
                },
              )
            ]
      ]

  new_inbox-rotated :
      (old : Option Text) (private : Bytes)
      → old ≢ some (agreement_public lib (record { bytes = private }))
      → rotated old (new_inbox old private) ≡ true
  unfolding rotated
  new_inbox-rotated none private n = refl
  new_inbox-rotated (some old) private n = ground (arith, n)

  retain-IsRenewed :
      (state later : State) (key : Bytes) (fresh : Text → Fresh) (gone : Text) (ds : List Device)
      → (later.account ≡ state.account)
        × (later.root ≡ state.root)
        × (later.epoch ≡ state.epoch + 1)
      → IsRenewed lib (record state { epoch = state.epoch + 1 }) key fresh ds
      → IsRenewed lib later key fresh (retain lib gone ds)
  retain-IsRenewed state later key fresh gone [] same h = tt
  retain-IsRenewed state later key fresh gone (d ∷ ds) same h =
      let rest = retain-IsRenewed state later key fresh gone ds same h.1 in
      let first = λ (w : Text) (p : wrap_to lib later d.box_key key (fresh d.id) ≡ ok w). h.0 w (
        sym (
          wrap_to-same later (record state { epoch = state.epoch + 1 }) d.box_key key (fresh d.id)
            same.0 same.1 same.2)
        ∙ p) in
      elim (Text-discrete d.id gone) [
        | yes p ↦
            let dropped : retain lib gone ds ≡ retain lib gone (d ∷ ds) = ground arith in
            subst (IsRenewed lib later key fresh) dropped rest
        | no n ↦
            let kept_first : d ∷ retain lib gone ds ≡ retain lib gone (d ∷ ds) = ground arith in
            subst (IsRenewed lib later key fresh) kept_first (first, rest)
      ]

  -- What `step` reads of a revocation.
  record IsRemoved (state next : State) : Type 0 where
    kind_eq : next.kind ≡ revoke
    added_eq : count_added state.devices true next.devices 0 ≡ ok 0
    removed_eq : count_removed state.devices next.devices ≡ 1
    rotated_eq : rotated state.inbox next.inbox ≡ true
    epoch_eq : next.epoch ≡ state.epoch + 1
    wrap_ne : next.recovery_wrap ≢ state.recovery_wrap
    kept_eq : any (kept state.devices) next.devices ≡ false
    signer_eq : is_none (find next.devices next.signer) ≡ false

  rule-removed : (state next : State) → IsRemoved state next → rule revoke state next 0 1 ≡ ok tt
  unfolding rule
  rule-removed state next is =
      ground (arith, is.rotated_eq, is.epoch_eq, is.wrap_ne, is.kept_eq, is.signer_eq)

  revoking : (operation : Operation) → operation ≡ revoke → (operation == revoke) ≡ true
  revoking operation p = ground (arith, p)

  step-removed : (state next : State) → IsRemoved state next → step state next ≡ ok tt
  unfolding step
  step-removed state next is =
      let r = rule-removed state next is in
      ground (arith, is.kind_eq, is.added_eq, is.removed_eq, r, revoking next.kind is.kind_eq)

  -- The state that an approved device makes to revoke another is one that `step` lets follow, if the
  -- devices of the state before have different ids, its own among them, and what is drawn at random
  -- differs from what was: the incoming-share key, each device's wrapper and the recovery wrapper.
  pub revoke_next-step :
      (contents : Contents) (state : State) (made : Contents × State) (own gone : Text)
      (private key : Bytes) (fresh : Text → Fresh) (recovery_fresh : Fresh) (head : Text)
      → IsDistinct state.devices
      → is_none (find state.devices own) ≡ false
      → IsRenewed lib (record state { epoch = state.epoch + 1 }) key fresh state.devices
      → ((wrapper : Text)
          → wrap_to lib (record state { epoch = state.epoch + 1 }) state.recovery key recovery_fresh
            ≡ ok wrapper
          → wrapper ≢ state.recovery_wrap)
      → state.inbox ≢ some (agreement_public lib (record { bytes = private }))
      → revoke_next lib contents
          (record state { signer = own })
          own
          gone
          private
          key
          fresh
          recovery_fresh
        ≡ ok made
      → step state (advance made.1 revoke head) ≡ ok tt
  unfolding advance
  revoke_next-step contents state made own gone private key fresh recovery_fresh head distinct here
        renewed recovery_renewed inbox_new h =
      let (later, did) =
        revoke_next-IsRevocation contents state made own gone private key fresh recovery_fresh h in
      let all_listed = distinct-IsListed state.devices distinct in
      let stay = retain-IsListed lib gone state.devices state.devices all_listed in
      let found : (id : Text)
          → is_none (find made.1.devices id) ≡ is_none (find (retain lib gone state.devices) id) =
        λ id. rewrap-find lib later key fresh _ made.1.devices id did.rewrapped in
      step-removed state _ (record {
        kind_eq = refl;
        added_eq =
            rewrap-count_added lib later key fresh state.devices _ made.1.devices stay
              did.rewrapped;
        removed_eq =
            count_removed-gone lib gone state.devices made.1.devices state.devices found all_listed
            ∙ count_gone lib gone state.devices distinct did.approved;
        rotated_eq =
            ap (rotated state.inbox) did.inbox_eq ∙ new_inbox-rotated state.inbox private inbox_new;
        epoch_eq = did.epoch_eq;
        wrap_ne = recovery_renewed made.1.recovery_wrap (
            sym (
              wrap_to-same later (record state { epoch = state.epoch + 1 }) state.recovery key
                recovery_fresh did.later_eq.0 did.later_eq.1 did.later_eq.2)
            ∙ did.recovery_wrapped);
        kept_eq =
            rewrap-kept lib later key fresh state.devices _ made.1.devices stay
              (retain-IsRenewed state later key fresh gone state.devices did.later_eq renewed)
              did.rewrapped;
        signer_eq =
            ap (λ id. is_none (find made.1.devices id)) did.signer_eq
            ∙ found own
            ∙ ap is_none (find-retain lib gone own state.devices (λ e. did.another (sym e)))
            ∙ here;
      })
