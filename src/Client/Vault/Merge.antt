-- ===== src/Client/Vault/Merge.antt =====
-- `Contents::merge` of crates/slink-client/src/vault.rs: what the vault holds after it.
use mathlib.Core.List.{map}
use mathlib.Core.Path.{subst}
use session_link.Common.{
  ◌≤◌, true, Option, some, none, List, [], ◌∷◌, ◌++◌, Text, ◌≡◌, arith, length, All, All-append, ok,
  ◌==◌, nat_eq, if◌then◌else◌,
}
use session_link.Protocol.Json.{Value}
use session_link.Protocol.Crypto.{Libs}
use session_link.Client.Maps.{values, IsRising}
use session_link.Client.Maps.Collect.{
  collect, first_with, last_with, values-collect, values-collect-All, collect-append,
}
use session_link.Client.Named
use session_link.Client.Named.{Outbox}
use session_link.Client.Receipt.{Receipt, receipt_valid}
use session_link.Client.Vault.{Contents, local_receipts, merge, max_entries}

-- The values of one list after another, each key once and in order, with the last of its key.
abbrev pub IsLatest : {A : Type 0} → (A → Text) → List A → List A → Type 0
IsLatest key given kept =
    IsRising (map key kept) × ((k : Text) → first_with key k kept ≡ last_with key k given)

-- What `merge` makes of the contents.
pub record IsMerged (lib : Libs) (self : Contents) (server account : Text)
    (files : List (Option Value)) (saved : List Outbox) (out : Contents) : Type 0 where
  pub shares :
      IsLatest Receipt.url (self.shares ++ local_receipts lib server account files) out.shares
  pub named : IsLatest Outbox.sha256 (self.named ++ saved) out.named
  pub size : length out.shares ≤ max_entries
  pub inboxes_eq : out.inboxes ≡ self.inboxes
  pub version_eq : out.version ≡ (if self.version == 0 then 1 else self.version)

local_receipts-All :
    (lib : Libs) (server account : Text) (files : List (Option Value))
    → All (λ r. receipt_valid lib server account r ≡ true) (local_receipts lib server account files)
unfolding local_receipts
local_receipts-All lib server account [] = tt
local_receipts-All lib server account (none ∷ files) = local_receipts-All lib server account files
local_receipts-All lib server account (some value ∷ files) =
    ground (arith, local_receipts-All lib server account files)

collect-IsLatest :
    {A : Type 0} (key : A → Text) (xs ys : List A)
    → IsLatest key (xs ++ ys) (values (collect key ys (collect key xs [])))
collect-IsLatest key xs ys =
    subst (λ m. IsLatest key (xs ++ ys) (values m)) (collect-append key xs ys [])
      (values-collect key (xs ++ ys))

collected-All :
    {A : Type 0} (key : A → Text) (P : A → Type 0) (xs ys : List A)
    → All P (xs ++ ys)
    → All P (values (collect key ys (collect key xs [])))
collected-All key P xs ys h =
    subst (λ m. All P (values m)) (collect-append key xs ys [])
      (values-collect-All key P (xs ++ ys) h)

module _ (lib : Libs) (self out : Contents) (server account : Text) (files : List (Option Value))
    (saved : List Outbox) where
  abbrev merged_shares : List Receipt
  merged_shares = values (
      collect Receipt.url (local_receipts lib server account files)
        (collect Receipt.url self.shares []))

  abbrev merged_named : List Outbox
  merged_named = values (collect Outbox.sha256 saved (collect Outbox.sha256 self.named []))

  merge-eq-ok :
      merge lib self server account files (ok saved) ≡ ok out
      → (merged_shares ≡ out.shares)
        × (merged_named ≡ out.named)
        × (length out.shares ≤ max_entries)
        × (out.inboxes ≡ self.inboxes)
        × (out.version ≡ (if self.version == 0 then 1 else self.version))
  unfolding merge
  merge-eq-ok h = ground arith

-- After a merge the vault has the links of the vault and of this machine's files, and the named shares
-- of the vault and of its outbox: one for each url and each ciphertext, in order, this machine's over
-- the vault's. The incoming-share keys stay, a version that was zero is one, and the links are within
-- the limit. This is of a merge that succeeds, with an outbox that could be read.
pub merge_lem :
    (lib : Libs) (self out : Contents) (server account : Text) (files : List (Option Value))
    (saved : List Outbox)
    → merge lib self server account files (ok saved) ≡ ok out
    → IsMerged lib self server account files saved out
merge_lem lib self out server account files saved h =
    let (shares, named, size, inboxes, version) =
      merge-eq-ok lib self out server account files saved h in
    record {
      shares =
          subst (IsLatest Receipt.url (self.shares ++ local_receipts lib server account files))
            shares
            (collect-IsLatest Receipt.url self.shares (local_receipts lib server account files));
      named =
          subst (IsLatest Outbox.sha256 (self.named ++ saved)) named
            (collect-IsLatest Outbox.sha256 self.named saved);
      size = size;
      inboxes_eq = inboxes;
      version_eq = version;
    }

-- A merge keeps the rules that the vault was opened under: when each link and each named share of the
-- vault passes its test, and each named share of the outbox, each of the merged vault does.
pub merge_keeps_valid :
    (lib : Libs) (self out : Contents) (server account root : Text) (files : List (Option Value))
    (saved : List Outbox)
    → All (λ r. receipt_valid lib server account r ≡ true) self.shares
    → All (λ o. Named.valid lib o server account root ≡ true) (self.named ++ saved)
    → merge lib self server account files (ok saved) ≡ ok out
    → All (λ r. receipt_valid lib server account r ≡ true) out.shares
      × All (λ o. Named.valid lib o server account root ≡ true) out.named
merge_keeps_valid lib self out server account root files saved shares named h =
    let (shares_eq, named_eq, size, inboxes, version) =
      merge-eq-ok lib self out server account files saved h in
    (
      subst (All (λ r. receipt_valid lib server account r ≡ true)) shares_eq (
          collected-All Receipt.url _ self.shares (local_receipts lib server account files)
            (All-append _ self.shares _ shares (local_receipts-All lib server account files))),
      subst (All (λ o. Named.valid lib o server account root ≡ true)) named_eq
          (collected-All Outbox.sha256 _ self.named saved named),
    )
