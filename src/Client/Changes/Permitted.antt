-- ===== src/Client/Changes/Permitted.antt =====
-- The states that crates/slink-client/src/identity.rs makes are ones that `step` of
-- crates/slink-protocol/src/history.rs lets follow.
pub mod Rewrapped
pub mod Revoked
use mathlib.Core.List.{append-nil}
use session_link.Common.{
  Text-discrete, ℕ, ◌+◌, ◌≤◌, Bool, true, false, Option, Option-cases, some, none, List, [], ◌∷◌,
  ◌++◌, Text, Bytes, codes, ◌≡◌, ◌≢◌, refl, sym, ◌∙◌, ap, arith, length, All, All-map, All-append,
  count_if, Result, Result-cases, ok, err, inl, inr, ◌==◌, text_eq, nat_eq, option_eq, ◌⊎◌,
}
use session_link.Common.Options.{is_some, is_none}
use session_link.Protocol.Crypto.{Libs}
use session_link.Protocol.Signed.{Signed}
use session_link.Protocol.History.{
  Operation, Operation-discrete, operation_eq, init, approve, recover, revoke, sharing, Device,
  State, find, device,
}
use session_link.Protocol.History.Step.{device_changed, count_added, count_removed, rule, step}
use session_link.Protocol.History.Valid.{IsDistinct}
use session_link.Protocol.History.Devices.{find-cons_self, find-cons_ne, id-find}
use session_link.Protocol.Request.{Request, id}
use session_link.Protocol.Request.Check.{verify, read}
use session_link.Protocol.Request.Laws.{verify_lem}
use session_link.Client.Vault.{Contents, rotate_inbox}
use session_link.Client.Changes.{
  Fresh, advance, approve_next, recover_next, sharing_next, wrap_to, listed, approvable,
  first_request,
}

-- Each device is the one that is found under its id.
abbrev pub IsListed : List Device → List Device → Type 0
IsListed before ds = All (λ d. find before d.id ≡ some d) ds

IsListed-cons :
    (x : Device) (before ds : List Device)
    → All (λ d. x.id ≢ d.id) ds
    → IsListed before ds
    → IsListed (x ∷ before) ds
IsListed-cons x before [] n h = tt
IsListed-cons x before (d ∷ ds) n h =
    (find-cons_ne x before d.id n.0 ∙ h.0, IsListed-cons x before ds n.1 h.1)

not_listed : (id : Text) (ds : List Device) → find ds id ≡ none → All (λ d. id ≢ d.id) ds
unfolding find
not_listed id [] h = tt
not_listed id (d ∷ ds) h = (ground arith, not_listed id ds (ground arith))

pub distinct-IsListed : (ds : List Device) → IsDistinct ds → IsListed ds ds
distinct-IsListed [] h = tt
distinct-IsListed (d ∷ ds) h =
    (find-cons_self d ds, IsListed-cons d ds ds (not_listed d.id ds h.0) (distinct-IsListed ds h.1))

-- Devices that the state before lists, as they are, count for nothing.
count_added-listed :
    (before ds new : List Device) (n : ℕ)
    → IsListed before ds
    → count_added before false (ds ++ new) n ≡ count_added before false new n
unfolding count_added device_changed
count_added-listed before [] new n h = refl
count_added-listed before (d ∷ ds) new n h = ground (arith, count_added-listed before ds new n h.1)

find-append :
    (ds new : List Device) (id : Text) (d : Device)
    → find ds id ≡ some d
    → find (ds ++ new) id ≡ some d
unfolding find
find-append [] new id d h = absurd (ground arith)
find-append (x ∷ ds) new id d h = ground (arith, find-append ds new id d)

count_removed-none :
    (before ds new : List Device) → IsListed before ds → count_removed ds (before ++ new) ≡ 0
unfolding count_removed
count_removed-none before [] new h = refl
count_removed-none before (d ∷ ds) new h =
    ground (arith, find-append before new d.id d h.0, count_removed-none before ds new h.1)

count_added-one :
    (before : List Device) (new : Device)
    → IsDistinct before
    → find before new.id ≡ none
    → count_added before false (before ++ (new ∷ [])) 0 ≡ ok 1
unfolding count_added
count_added-one before new distinct fresh = ground (
  arith,
  fresh,
  count_added-listed before before (new ∷ []) 0 (distinct-IsListed before distinct),
)

-- A state in which one device was added at the end and nothing else changed that `step` reads.
pub record IsAdded (state next : State) (new : Device) : Type 0 where
  pub distinct : IsDistinct state.devices
  pub fresh : find state.devices new.id ≡ none
  pub devices_eq : next.devices ≡ state.devices ++ (new ∷ [])
  pub inbox_eq : next.inbox ≡ state.inbox
  pub epoch_eq : next.epoch ≡ state.epoch
  pub wrap_eq : next.recovery_wrap ≡ state.recovery_wrap

rule-added :
    (operation : Operation) (state next : State) (new : Device)
    → (operation ≡ approve) ⊎ (operation ≡ recover)
    → IsAdded state next new
    → rule operation state next 1 0 ≡ ok tt
unfolding rule
rule-added operation state next new (inl which) added =
    rw which (ground (arith, added.inbox_eq, added.epoch_eq, added.wrap_eq))
rule-added operation state next new (inr which) added =
    rw which (ground (arith, added.inbox_eq, added.epoch_eq, added.wrap_eq))

adding_kind :
    (operation : Operation)
    → (operation ≡ approve) ⊎ (operation ≡ recover)
    → (operation == revoke) ≡ false
unfolding Operation-discrete
adding_kind operation (inl which) = rw which refl
adding_kind operation (inr which) = rw which refl

step-added :
    (state next : State) (new : Device)
    → (next.kind ≡ approve) ⊎ (next.kind ≡ recover)
    → IsAdded state next new
    → step state next ≡ ok tt
unfolding step
step-added state next new which added =
    let c : count_added state.devices false next.devices 0 ≡ ok 1 =
      rw added.devices_eq (count_added-one state.devices new added.distinct added.fresh) in
    let r : count_removed state.devices next.devices ≡ 0 = rw added.devices_eq (
      count_removed-none state.devices state.devices (new ∷ [])
        (distinct-IsListed state.devices added.distinct)) in
    ground
      (arith, c, r, adding_kind next.kind which, rule-added next.kind state next new which added)

count_added-same :
    (before : List Device) → IsListed before before → count_added before false before 0 ≡ ok 0
unfolding count_added
count_added-same before h =
    ap (λ ds. count_added before false ds 0) (sym (append-nil before))
    ∙ count_added-listed before before [] 0 h

module _ (lib : Libs) where
  first_request-id :
      (requests : List Signed) (wanted : Text) (signed : Signed)
      → first_request lib requests wanted ≡ some signed
      → (request : Request) × (read lib signed ≡ ok request) × (id lib request ≡ wanted)
  unfolding first_request
  first_request-id [] wanted signed h = absurd (ground arith)
  first_request-id (s ∷ requests) wanted signed h = elim (Result-cases (read lib s)) [
    | inr (e, p) ↦ first_request-id requests wanted signed (ground arith)
    | inl (request, p) ↦ elim (Text-discrete (id lib request) wanted) [
      | yes q ↦ (request, ap (read lib) (ground arith) ∙ p, q)
      | no n ↦ first_request-id requests wanted signed (ground arith)
    ]
  ]

  approvable-id :
      (next : State) (requests : List Signed) (wanted code : Text) (request : Request)
      → approvable lib next requests wanted code ≡ some request
      → id lib request ≡ wanted
  unfolding approvable
  approvable-id next requests wanted code request h =
      elim (Option-cases (first_request lib requests wanted)) [
        | inl p ↦ absurd (ground arith)
        | inr (signed, p) ↦
            let (found, r, q) = first_request-id requests wanted signed p in
            let v : verify lib signed ≡ ok request = ground arith in
            let r' = ((verify_lem lib signed request).0 v).0 in ground (arith, r, r', q)
      ]

  -- The state that an approved device makes of a request is one that `step` lets follow, if the
  -- devices of the state before have different ids, none of them that of the request.
  pub approve_next-step :
      (state made : State) (own : Text) (requests : List Signed) (wanted code : Text) (key : Bytes)
      (fresh : Fresh) (head : Text)
      → IsDistinct state.devices
      → find state.devices wanted ≡ none
      → approve_next lib (record state { signer = own }) requests wanted code key fresh ≡ ok made
      → step state (advance made approve head) ≡ ok tt
  unfolding approve_next advance
  approve_next-step state made own requests wanted code key fresh head distinct new h =
      elim (Option-cases (approvable lib (record state { signer = own }) requests wanted code)) [
        | inl p ↦ absurd (ground arith)
        | inr (request, p) ↦
            elim (Result-cases
              (wrap_to lib (record state { signer = own }) request.box_key key fresh)) [
                | inr (e, q) ↦ absurd (ground arith)
                | inl (wrapper, q) ↦
                    let same = approvable-id _ requests wanted code request p in
                    step-added state _ (listed lib request wrapper) (inl refl) (record {
                      distinct = distinct;
                      fresh = rw same new;
                      devices_eq = ground arith;
                      inbox_eq = ground arith;
                      epoch_eq = ground arith;
                      wrap_eq = ground arith;
                    })
              ]
      ]

  -- The state that a machine makes with the recovery key is one that `step` lets follow, if the
  -- devices of the state before have different ids, none of them that of the machine's fresh keys.
  pub recover_next-step :
      (state made : State) (added : Device) (key : Bytes) (fresh : Fresh) (head : Text)
      → IsDistinct state.devices
      → find state.devices added.id ≡ none
      → recover_next lib state added key fresh ≡ ok made
      → step state (advance made recover head) ≡ ok tt
  unfolding recover_next advance
  recover_next-step state made added key fresh head distinct new h =
      elim (Result-cases (wrap_to lib state added.box_key key fresh)) [
        | inr (e, q) ↦ absurd (ground arith)
        | inl (wrapper, q) ↦
            step-added state _ (record added { wrap = wrapper }) (inr refl)
              (record {
                distinct = distinct;
                fresh = new;
                devices_eq = ground arith;
                inbox_eq = ground arith;
                epoch_eq = ground arith;
                wrap_eq = ground arith;
              })
      ]

  -- The state that turns sharing on is one that `step` lets follow, if it was off and the devices have
  -- different ids.
  pub sharing_next-step :
      (contents : Contents) (state : State) (own : Text) (private : Bytes) (head : Text)
      → IsDistinct state.devices
      → state.inbox ≡ none
      → step state (advance (sharing_next lib contents state own private).1 sharing head) ≡ ok tt
  unfolding sharing_next rotate_inbox advance step rule
  sharing_next-step contents state own private head distinct off =
      let listed_all = distinct-IsListed state.devices distinct in
      let c : count_added state.devices false state.devices 0 ≡ ok 0 =
        count_added-same state.devices listed_all in
      let r : count_removed state.devices state.devices ≡ 0 =
        ap (count_removed state.devices) (sym (append-nil state.devices))
        ∙ count_removed-none state.devices state.devices [] listed_all in
      ground (arith, c, r, off)
