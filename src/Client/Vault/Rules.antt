-- ===== src/Client/Vault/Rules.antt =====
-- The rules of `Contents::open` of crates/slink-client/src/vault.rs, one by one.
use session_link.Common.{
  ◌≤◌, true, none, some, List, [], ◌∷◌, Text, Bytes, all, length, ◌≡◌, arith, refl, Result-cases,
  Option-cases, inl, inr, ok, All, nat_eq, text_eq, ◌⊎◌,
}
use session_link.Protocol.Crypto.{Libs}
use session_link.Protocol.Encoding.{decode_exact}
use session_link.Protocol.Signed.{agreement_public}
use session_link.Protocol.History.{State}
use session_link.Client.Maps.{Map, find}
use session_link.Client.Named
use session_link.Client.Named.Kept.{IsOutbox, valid_sound, valid_complete}
use session_link.Client.Receipt.{receipt_valid}
use session_link.Client.Receipt.Links.{IsReceipt, receipt_valid_lem}
use session_link.Client.Vault.{
  Contents, check_inbox_keys, check_inboxes, check_contents, named_fit, Bool, Option,
}

-- A Boolean test of every element, opened into what the test means of each.
module _ {ℓ κ} {A : Type ℓ} {P : A → Type κ} (test : A → Bool) where
  all-All : ((a : A) → test a ≡ true → P a) → (list : List A) → all test list ≡ true → All P list
  all-All sound [] h = tt
  all-All sound (a ∷ rest) h = (sound a (ground arith), all-All sound rest (ground arith))

  All-all : ((a : A) → P a → test a ≡ true) → (list : List A) → All P list → all test list ≡ true
  All-all complete [] h = refl
  All-all complete (a ∷ rest) h =
      let first = complete a h.0 in let more = All-all complete rest h.1 in ground arith

module _ (lib : Libs) where
  -- A key pair for incoming shares: 32 bytes, filed under their public key.
  pub record IsPair (entry : Text × Text) : Type 0 where
    pub private : Bytes
    pub private_eq : decode_exact lib 32 (entry.1) ≡ ok private
    pub public_eq : agreement_public lib (record { bytes = private }) ≡ entry.0

  inbox_keys_sound :
      (inboxes : Map Text) → check_inbox_keys lib inboxes ≡ ok tt → All IsPair inboxes
  unfolding check_inbox_keys
  inbox_keys_sound [] h = tt
  inbox_keys_sound ((public, private) ∷ rest) h =
      elim (Result-cases (decode_exact lib 32 private)) [
        | inr (e, p) ↦ absurd (ground arith)
        | inl (bytes, p) ↦ (
          record { private = bytes; private_eq = p; public_eq = ground arith },
          inbox_keys_sound rest (ground arith),
        )
      ]

  inbox_keys_complete :
      (inboxes : Map Text) → All IsPair inboxes → check_inbox_keys lib inboxes ≡ ok tt
  unfolding check_inbox_keys
  inbox_keys_complete [] h = refl
  inbox_keys_complete ((public, private) ∷ rest) h =
      let first = h.0 in
      let more = inbox_keys_complete rest h.1 in ground (arith, first.private_eq, first.public_eq)

  -- What the account's incoming-share key asks of the vault: with sharing off, version 1 and no
  -- keys; with sharing on, version 2 and pairs, at most 512, the account's own among them.
  pub data IsKeyed (contents : Contents) : Option Text → Type 0 where
    off : contents.version ≡ 1 → contents.inboxes ≡ [] → IsKeyed contents none
    on :
        {inbox private : Text}
        → contents.version ≡ 2
        → length contents.inboxes ≤ 512
        → find inbox contents.inboxes ≡ some private
        → All IsPair contents.inboxes
        → IsKeyed contents (some inbox)

  -- The vault's rules for a server and the account's state.
  pub record IsContents (contents : Contents) (server : Text) (state : State) : Type 0 where
    pub keyed : IsKeyed contents state.inbox
    pub shares_size : length contents.shares ≤ 10000
    pub shares : All (IsReceipt lib server state.account) contents.shares
    pub named_size : length contents.named ≤ 10000
    pub named : All (IsOutbox lib server state.account state.root) contents.named

  inboxes_sound :
      (contents : Contents) (inbox : Option Text)
      → check_inboxes lib contents inbox ≡ ok tt
      → IsKeyed contents inbox
  unfolding check_inboxes
  inboxes_sound contents none h = IsKeyed.off (ground arith) (ground arith)
  inboxes_sound contents (some inbox) h = elim (Option-cases (find inbox contents.inboxes)) [
    | inl p ↦ absurd (ground arith)
    | inr (private, p) ↦
        IsKeyed.on (ground arith) (ground arith) p
          (inbox_keys_sound contents.inboxes (ground arith))
  ]

  inboxes_complete :
      (contents : Contents) (inbox : Option Text)
      → IsKeyed contents inbox
      → check_inboxes lib contents inbox ≡ ok tt
  unfolding check_inboxes
  inboxes_complete contents none (IsKeyed.off version empty) = ground arith
  inboxes_complete contents (some inbox) (IsKeyed.on version few found pairs) =
      let keys = inbox_keys_complete contents.inboxes pairs in ground arith

  keyed_version :
      (contents : Contents) (inbox : Option Text)
      → IsKeyed contents inbox
      → (contents.version ≡ 1) ⊎ (contents.version ≡ 2)
  keyed_version contents none (IsKeyed.off version empty) = inl version
  keyed_version contents (some inbox) (IsKeyed.on version few found pairs) = inr version

  keyed_on :
      (contents : Contents) (found : Option Text) (inbox : Text)
      → found ≡ some inbox
      → IsKeyed contents found
      → contents.version ≡ 2
  keyed_on contents none inbox h (IsKeyed.off version empty) = absurd (ground arith)
  keyed_on contents (some found) inbox h (IsKeyed.on version few private pairs) = version

  pub check_contents_sound :
      (contents : Contents) (server : Text) (state : State)
      → check_contents lib contents server state ≡ ok tt
      → IsContents contents server state
  unfolding check_contents
  check_contents_sound contents server state h = record {
    keyed = inboxes_sound contents state.inbox (ground arith);
    shares_size = ground arith;
    shares =
        all-All (receipt_valid lib server state.account)
          (λ receipt. (receipt_valid_lem lib server state.account receipt).0) contents.shares
          (ground arith);
    named_size = ground arith;
    named =
        all-All (λ item. Named.valid lib item server state.account state.root)
          (λ item. valid_sound lib item server state.account state.root) contents.named
          (ground arith);
  }

  pub check_contents_complete :
      (contents : Contents) (server : Text) (state : State)
      → IsContents contents server state
      → check_contents lib contents server state ≡ ok tt
  unfolding check_contents
  check_contents_complete contents server state is =
      let keys = inboxes_complete contents state.inbox is.keyed in
      let version = keyed_version contents state.inbox is.keyed in
      let shares =
        All-all (receipt_valid lib server state.account)
          (λ receipt. (receipt_valid_lem lib server state.account receipt).1) contents.shares
          is.shares in
      let named =
        All-all (λ item. Named.valid lib item server state.account state.root)
          (λ item. valid_complete lib item server state.account state.root) contents.named
          is.named in
      ground (arith, is.shares_size, is.named_size)

  -- Contents that keep the rules, of an account with sharing on, have named shares that may be
  -- written back.
  pub named_fit-IsContents :
      (contents : Contents) (server inbox : Text) (state : State)
      → state.inbox ≡ some inbox
      → IsContents contents server state
      → named_fit lib contents server state ≡ true
  unfolding named_fit
  named_fit-IsContents contents server inbox state h is =
      let version = keyed_on contents state.inbox inbox h is.keyed in
      let named =
        All-all (λ item. Named.valid lib item server state.account state.root)
          (λ item. valid_complete lib item server state.account state.root) contents.named
          is.named in
      ground (arith, is.named_size)
