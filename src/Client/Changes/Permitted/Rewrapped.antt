-- ===== src/Client/Changes/Permitted/Rewrapped.antt =====
-- The devices that a revocation of crates/slink-client/src/identity.rs leaves, with their new wrappers,
-- as `step` of crates/slink-protocol/src/history.rs counts them.
use session_link.Common.{
  true, false, none, List, [], ◌∷◌, Text, Bytes, ◌≡◌, ◌≢◌, refl, arith, All, count_if, any,
  Result-cases, ok, inl, inr, ◌==◌, text_eq, nat_eq, option_eq,
}
use session_link.Common.Options.{is_none}
use session_link.Protocol.Crypto.{Libs}
use session_link.Protocol.History.{operation_eq, Device, State, find}
use session_link.Protocol.History.Step.{device_changed, count_added, count_removed, kept}
use session_link.Protocol.History.Valid.{IsDistinct}
use session_link.Client.Changes.{Fresh, retain, rewrap, wrap_to}
use session_link.Client.Changes.Permitted.{IsListed}

module _ (lib : Libs) where
  -- The devices that stay, with other wrappers, are no change and are not new.
  pub rewrap-count_added :
      (next : State) (key : Bytes) (fresh : Text → Fresh) (before ds made : List Device)
      → IsListed before ds
      → rewrap lib next key fresh ds ≡ ok made
      → count_added before true made 0 ≡ ok 0
  unfolding rewrap count_added device_changed
  rewrap-count_added next key fresh before [] made h r = ground arith
  rewrap-count_added next key fresh before (d ∷ ds) made h r =
      elim (Result-cases (wrap_to lib next d.box_key key (fresh d.id))) [
        | inr (e, p) ↦ absurd (ground arith)
        | inl (wrapper, p) ↦ elim (Result-cases (rewrap lib next key fresh ds)) [
          | inr (e, q) ↦ absurd (ground arith)
          | inl (rest, q) ↦
              ground (arith, h.0, rewrap-count_added next key fresh before ds rest h.1 q)
        ]
      ]

  pub rewrap-find :
      (next : State) (key : Bytes) (fresh : Text → Fresh) (ds made : List Device) (id : Text)
      → rewrap lib next key fresh ds ≡ ok made
      → is_none (find made id) ≡ is_none (find ds id)
  unfolding rewrap find
  rewrap-find next key fresh [] made id r = ground arith
  rewrap-find next key fresh (d ∷ ds) made id r =
      elim (Result-cases (wrap_to lib next d.box_key key (fresh d.id))) [
        | inr (e, p) ↦ absurd (ground arith)
        | inl (wrapper, p) ↦ elim (Result-cases (rewrap lib next key fresh ds)) [
          | inr (e, q) ↦ absurd (ground arith)
          | inl (rest, q) ↦ ground (arith, rewrap-find next key fresh ds rest id q)
        ]
      ]

  -- No wrapper that was drawn is the one that the device had.
  abbrev pub IsRenewed : State → Bytes → (Text → Fresh) → List Device → Type 0
  IsRenewed next key fresh = All (λ d.
      (wrapper : Text)
      → wrap_to lib next d.box_key key (fresh d.id) ≡ ok wrapper
      → wrapper ≢ d.wrap)

  pub rewrap-kept :
      (next : State) (key : Bytes) (fresh : Text → Fresh) (before ds made : List Device)
      → IsListed before ds
      → IsRenewed next key fresh ds
      → rewrap lib next key fresh ds ≡ ok made
      → any (kept before) made ≡ false
  unfolding rewrap kept
  rewrap-kept next key fresh before [] made h n r = ground arith
  rewrap-kept next key fresh before (d ∷ ds) made h n r =
      elim (Result-cases (wrap_to lib next d.box_key key (fresh d.id))) [
        | inr (e, p) ↦ absurd (ground arith)
        | inl (wrapper, p) ↦ elim (Result-cases (rewrap lib next key fresh ds)) [
          | inr (e, q) ↦ absurd (ground arith)
          | inl (rest, q) ↦
              ground
                (arith, h.0, n.0 wrapper p, rewrap-kept next key fresh before ds rest h.1 n.1 q)
        ]
      ]

  pub retain-IsListed :
      (gone : Text) (before ds : List Device)
      → IsListed before ds
      → IsListed before (retain lib gone ds)
  retain-IsListed gone before [] h = tt
  retain-IsListed gone before (d ∷ ds) h = ground (arith, retain-IsListed gone before ds h.1)

  pub find-retain :
      (gone id : Text) (ds : List Device) → id ≢ gone → find (retain lib gone ds) id ≡ find ds id
  unfolding find
  find-retain gone id [] n = refl
  find-retain gone id (d ∷ ds) n = ground (arith, find-retain gone id ds n)

  find-retain_gone : (gone : Text) (ds : List Device) → find (retain lib gone ds) gone ≡ none
  unfolding find
  find-retain_gone gone [] = refl
  find-retain_gone gone (d ∷ ds) = ground (arith, find-retain_gone gone ds)

  count_none :
      (gone : Text) (ds : List Device) → find ds gone ≡ none → count_if (λ d. d.id == gone) ds ≡ 0
  unfolding find
  count_none gone [] h = refl
  count_none gone (d ∷ ds) h = ground (arith, count_none gone ds)

  -- One device alone has the id of one that is found.
  pub count_gone :
      (gone : Text) (ds : List Device)
      → IsDistinct ds
      → is_none (find ds gone) ≡ false
      → count_if (λ d. d.id == gone) ds ≡ 1
  unfolding find
  count_gone gone [] distinct h = absurd (ground arith)
  count_gone gone (d ∷ ds) distinct h =
      ground (arith, count_gone gone ds distinct.1, count_none gone ds)

  pub count_removed-gone :
      (gone : Text) (before after ds : List Device)
      → ((id : Text) → is_none (find after id) ≡ is_none (find (retain lib gone before) id))
      → IsListed before ds
      → count_removed ds after ≡ count_if (λ d. d.id == gone) ds
  unfolding count_removed
  count_removed-gone gone before after [] same h = refl
  count_removed-gone gone before after (d ∷ ds) same h = ground (
    arith,
    same d.id,
    h.0,
    find-retain gone d.id before,
    find-retain_gone gone before,
    count_removed-gone gone before after ds same h.1,
  )
