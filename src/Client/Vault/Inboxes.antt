-- ===== src/Client/Vault/Inboxes.antt =====
-- `Contents::rotate_inbox` of crates/slink-client/src/vault.rs against the rules of `Contents::open`.
use session_link.Common.{
  ◌≤◌, Option, some, none, [], ◌∷◌, Text, Bytes, IsBytes, ◌≡◌, ◌≢◌, refl, ◌∙◌, arith, length,
  Result-cases, ok, inl, inr, text_eq, nat_eq,
}
use session_link.Protocol.Crypto.{Libs}
use session_link.Protocol.Encoding.{encode, decode_exact}
use session_link.Protocol.Laws.{IsBase64, decode_exact-encode}
use session_link.Protocol.Signed.{agreement_public}
use session_link.Protocol.History.{State}
use session_link.Client.Maps.{Map, put, find, find-put, find-put_other}
use session_link.Client.Vault.{Contents, check_inbox_keys, check_inboxes, rotate_inbox, max_inboxes}

module _ (lib : Libs) where
  check_inbox_keys-put :
      (key : Bytes) (spelt : Text) (m : Map Text)
      → decode_exact lib 32 spelt ≡ ok key
      → check_inbox_keys lib m ≡ ok tt
      → check_inbox_keys lib (put (agreement_public lib (record { bytes = key })) spelt m) ≡ ok tt
  unfolding check_inbox_keys put
  check_inbox_keys-put key spelt [] p h = ground arith
  check_inbox_keys-put key spelt ((k, v) ∷ rest) p h = elim (Result-cases (decode_exact lib 32 v)) [
    | inr (e, q) ↦ absurd (ground arith)
    | inl (bytes, q) ↦ ground (arith, check_inbox_keys-put key spelt rest p)
  ]

  no_keys : (m : Map Text) → length m ≡ 0 → check_inbox_keys lib m ≡ ok tt
  unfolding check_inbox_keys
  no_keys [] h = refl
  no_keys ((k, v) ∷ rest) h = absurd (omega arith)

  check_inboxes-keys :
      (self : Contents) (inbox : Option Text)
      → check_inboxes lib self inbox ≡ ok tt
      → check_inbox_keys lib self.inboxes ≡ ok tt
  unfolding check_inboxes check_inbox_keys
  check_inboxes-keys self none h = no_keys self.inboxes (ground arith)
  check_inboxes-keys self (some inbox) h = ground arith

  -- A vault whose incoming-share keys pass the rules, with a new private key of 32 bytes: they pass for
  -- the new state, as long as they are not too many and base64 has its laws, and every key that the
  -- vault had under another public key is still there.
  pub rotate_inbox_opens :
      (self : Contents) (state : State) (private : Bytes)
      → IsBase64 lib
      → IsBytes private
      → length private ≡ 32
      → check_inboxes lib self state.inbox ≡ ok tt
      → length ((rotate_inbox lib self state private).0.inboxes) ≤ max_inboxes
      → (check_inboxes lib
            (rotate_inbox lib self state private).0
            (rotate_inbox lib self state private).1.inbox
          ≡ ok tt)
        × ((public kept : Text)
            → find public self.inboxes ≡ some kept
            → public ≢ agreement_public lib (record { bytes = private })
            → find public (rotate_inbox lib self state private).0.inboxes ≡ some kept)
  unfolding rotate_inbox check_inboxes
  rotate_inbox_opens self state private b64 bytes len h size =
      let public = agreement_public lib (record { bytes = private }) in
      let keys =
        check_inbox_keys-put private (encode lib private) self.inboxes
          (decode_exact-encode b64 32 private bytes len) (check_inboxes-keys self state.inbox h) in
      let found = find-put public (encode lib private) self.inboxes in
      (
        ground (arith, keys, found, size),
        λ other kept p n. find-put_other public other (encode lib private) self.inboxes n ∙ p,
      )
