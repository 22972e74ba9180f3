-- ===== src/Protocol/History/Step/Maps.antt =====
-- `step` (crates/slink-protocol/src/history.rs) against an independent view: the devices of a state
-- as a partial map from ids, in which each operation inserts, removes or keeps entries.
use session_link.Common.{
  ℕ, true, false, Option, none, some, List, [], ◌∷◌, Text, ◌≡◌, ◌≢◌, ◌⊎◌, sym, ◌∙◌, ◌==◌, nat_eq,
  text_eq, option_eq, count_if, if◌then◌else◌, ok, arith, inl, inr, Option-cases,
}
use session_link.Protocol.History.{operation_eq, Device, find}
use session_link.Protocol.History.Step.{device_changed, count_added, count_removed, kept}
use session_link.Protocol.History.Devices.{
  id-find, is_new, count_added-count_if, count_added-device_changed, find_of_count_zero,
  find-cons_ne, find-cons_self,
}

-- One device, new to `before`, and every other id as it was.
abbrev pub IsInsert : List Device → List Device → Type 0
IsInsert before after =
    (new : Device) × (find before new.id ≡ none)
    × ((id : Text) → find after id ≡ (if new.id == id then some new else find before id))

-- The same device, with another wrapper of the vault key.
abbrev pub IsRewrapped : Option Device → Option Device → Type 0
IsRewrapped none none = Unit
IsRewrapped (some old) (some new) =
    (new.id ≡ old.id)
    × (new.name ≡ old.name)
    × (new.sign_key ≡ old.sign_key)
    × (new.box_key ≡ old.box_key)
    × (new.wrap ≢ old.wrap)
IsRewrapped _ _ = ⊥

-- One device of `before` is gone, and every other is wrapped to anew.
abbrev pub IsRemoval : List Device → List Device → Type 0
IsRemoval before after =
    (gone : Device) × (find before gone.id ≡ some gone)
    × (find after gone.id ≡ none)
    × ((id : Text) → id ≢ gone.id → IsRewrapped (find before id) (find after id))

-- Exactly one device of the list is new to `other`.
one_new :
    (other ds : List Device)
    → count_if (is_new other) ds ≡ 1
    → (x : Device) × (find ds x.id ≡ some x)
      × (find other x.id ≡ none)
      × ((id : Text) (d : Device) → find ds id ≡ some d → id ≢ x.id → is_new other d ≡ false)
unfolding find
one_new other [] h = absurd (omega arith)
one_new other (x ∷ ds) h = elim (Option-cases (find other x.id)) [
  | inl fresh ↦ (
    x,
    find-cons_self x ds,
    fresh,
    λ id d p ne.
        find_of_count_zero (is_new other) ds id d (ground arith)
          (sym (find-cons_ne x ds id (λ q. ne (sym q))) ∙ p),
  )
  | inr (old, known) ↦
      let (y, found, fresh, rest) = one_new other ds (ground arith) in
      (
        y,
        find-cons_ne x ds y.id (ground arith) ∙ found,
        fresh,
        λ id d p ne. ground (arith, rest id d),
      )
]

-- What `count_added` says of an id that both states have.
unchanged :
    (before : List Device) (after : List Device) (n : ℕ) (id : Text) (old d : Device)
    → count_added before false after 0 ≡ ok n
    → find after id ≡ some d
    → find before id ≡ some old
    → d ≡ old
unchanged before after n id old d h p q =
    unfold device_changed in
    ground (
      arith,
      count_added-device_changed before false after 0 n id old d h p,
      id-find after id d p,
      id-find before id old q,
    )

same_keys :
    (before : List Device) (after : List Device) (n : ℕ) (id : Text) (old d : Device)
    → count_added before true after 0 ≡ ok n
    → find after id ≡ some d
    → find before id ≡ some old
    → (d.id ≡ old.id)
      × (d.name ≡ old.name)
      × (d.sign_key ≡ old.sign_key)
      × (d.box_key ≡ old.box_key)
same_keys before after n id old d h p q =
    unfold device_changed in
    ground (
      arith,
      count_added-device_changed before true after 0 n id old d h p,
      id-find after id d p,
      id-find before id old q,
    )

-- Nothing of the list is new to `other`: each id that it has is one of `other`.
none_new :
    (other ds : List Device) (id : Text) (d : Device)
    → count_if (is_new other) ds ≡ 0
    → find ds id ≡ some d
    → (old : Device) × (find other id ≡ some old)
none_new other ds id d h p = elim (Option-cases (find other id)) [
  | inl fresh ↦ ground (arith, find_of_count_zero (is_new other) ds id d h p, id-find ds id d p)
  | inr known ↦ known
]

-- Nothing added and nothing removed: the map is the same.
pub same_map :
    (before after : List Device) (id : Text)
    → count_added before false after 0 ≡ ok 0
    → count_removed before after ≡ 0
    → find after id ≡ find before id
unfolding count_removed
same_map before after id h removed = elim (Option-cases (find after id)) [
  | inl gone ↦ elim (Option-cases (find before id)) [
    | inl fresh ↦ ground arith
    | inr (old, known) ↦ ground (arith, none_new after before id old removed known)
  ]
  | inr (d, found) ↦
      let (old, known) =
        none_new before after id d (ground (arith, count_added-count_if before false after 0 0 h))
          found in
      ground (arith, unchanged before after 0 id old d h found known)
]

-- One added and none removed: the map with one new entry.
pub one_enters :
    (before after : List Device)
    → count_added before false after 0 ≡ ok 1
    → count_removed before after ≡ 0
    → IsInsert before after
unfolding count_removed
one_enters before after h removed =
    let (new, found, fresh, others) =
      one_new before after (ground (arith, count_added-count_if before false after 0 1 h)) in
    (new, fresh, λ id. at new found fresh others id (Option-cases (find after id)))
  where
    at :
        (new : Device)
        → find after new.id ≡ some new
        → find before new.id ≡ none
        → ((id : Text) (d : Device)
            → find after id ≡ some d
            → id ≢ new.id
            → is_new before d ≡ false)
        → (id : Text) → (find after id ≡ none) ⊎ ((d : Device) × (find after id ≡ some d))
        → find after id ≡ (if new.id == id then some new else find before id)
    at new found fresh others id (inl gone) = elim (Option-cases (find before id)) [
      | inl empty ↦ ground arith
      | inr (old, known) ↦ ground (arith, none_new after before id old removed known)
    ]
    at new found fresh others id (inr (d, is)) = elim (Option-cases (find before id)) [
      | inl empty ↦ ground (arith, others id d is, id-find after id d is)
      | inr (old, known) ↦ ground (arith, unchanged before after 1 id old d h is known)
    ]

-- None added, one removed, and no wrapper kept: one entry is gone, and the others are rewrapped.
pub one_leaves :
    (before after : List Device)
    → count_added before true after 0 ≡ ok 0
    → count_removed before after ≡ 1
    → ((id : Text) (d : Device) → find after id ≡ some d → kept before d ≡ false)
    → IsRemoval before after
unfolding count_removed
one_leaves before after h removed renewed =
    let (gone, found, absent, others) = one_new after before removed in
    (gone, found, absent, λ id ne. at gone absent others id ne (Option-cases (find after id)))
  where
    at :
        (gone : Device)
        → find after gone.id ≡ none
        → ((id : Text) (d : Device)
            → find before id ≡ some d
            → id ≢ gone.id
            → is_new after d ≡ false)
        → (id : Text) → id ≢ gone.id
        → (find after id ≡ none) ⊎ ((d : Device) × (find after id ≡ some d))
        → IsRewrapped (find before id) (find after id)
    at gone absent others id ne (inl lost) = elim (Option-cases (find before id)) [
      | inl empty ↦ rw (empty, lost) tt
      | inr (old, known) ↦
          absurd (ground (arith, others id old known ne, id-find before id old known))
    ]
    at gone absent others id ne (inr (d, is)) =
        let (old, known) =
          none_new before after id d (ground (arith, count_added-count_if before true after 0 0 h))
            is in
        let (i, n, s, b) = same_keys before after 0 id old d h is known in
        rw (known, is)
          ((
            i,
            n,
            s,
            b,
            unfold kept in ground (arith, renewed id d is, id-find before id old known),
          ))
