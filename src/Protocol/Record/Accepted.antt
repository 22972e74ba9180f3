-- ===== src/Protocol/Record/Accepted.antt =====
-- What an accepted record is (crates/slink-protocol/src/record.rs).
use session_link.Common.{
  ◌≤◌, true, false, Text, Bytes, ◌≡◌, ok, arith, ◌↔◌, ◌⊎◌, codes, some, text_eq, Option-cases, inl,
  inr, ◌≢◌, Result-cases,
}
use session_link.Protocol.Errors.{Kind}
use session_link.Protocol.Crypto.{Libs}
use session_link.Protocol.Signed.{read, verify}
use session_link.Protocol.History.{State, Operation, init, recover, device, Device}
use session_link.Protocol.History.Walk.{verify_history}
use session_link.Protocol.Record.{
  Record, Verified, root_may_write, writer_key, read_vault, bad_data, verify_record,
}

-- Who may write the vault of a state, and the key that they sign with: the recovery key at an
-- enrolment, or a device that the state holds.
pub data IsWriter (state : State) (signer key : Text) : Type 0 where
  root :
      signer ≡ codes "root"
      → (state.kind ≡ init) ⊎ (state.kind ≡ recover)
      → state.root ≡ key
      → IsWriter state signer key
  held :
      (d : Device)
      → signer ≢ codes "root"
      → device state signer ≡ some d
      → d.sign_key ≡ key
      → IsWriter state signer key

root_may_write-eq-true : (k : Operation) → root_may_write k ≡ true → (k ≡ init) ⊎ (k ≡ recover)
root_may_write-eq-true k h = ground arith

writer_key-eq-ok :
    (state : State) (signer key : Text)
    → writer_key state signer ≡ ok key
    → IsWriter state signer key
unfolding writer_key
writer_key-eq-ok state signer key h = elim (text_eq.discrete signer (codes "root")) [
  | yes p ↦ IsWriter.root p (root_may_write-eq-true state.kind (ground arith)) (ground arith)
  | no n ↦ elim (Option-cases (device state signer)) [
    | inl p ↦ absurd (ground arith)
    | inr (d, p) ↦ IsWriter.held d n p (ground arith)
  ]
]

writer_key_of :
    (state : State) (signer key : Text)
    → IsWriter state signer key
    → writer_key state signer ≡ ok key
unfolding writer_key
writer_key_of state signer key (IsWriter.root p (inl k) e) = ground arith
writer_key_of state signer key (IsWriter.root p (inr k) e) = ground arith
writer_key_of state signer key (IsWriter.held d n p e) = ground arith

-- What the record of an accepted record is.
pub record IsAccepted (lib : Libs) (self : Record) (account : Text) (verified : Verified)
    : Type 0 where
  pub history :
      verify_history lib self.events account
      ≡ ok (record { state = verified.state; head = verified.head })
  pub raw : Bytes
  pub payload : read lib self.vault Kind.vault ≡ ok raw
  pub contents : read_vault lib raw ≡ ok verified.vault
  pub same_account : verified.vault.account ≡ account
  pub same_head : verified.vault.head ≡ verified.head
  pub same_epoch : verified.vault.epoch ≡ verified.state.epoch
  pub revised : 1 ≤ verified.vault.revision
  pub boxed : bad_data lib verified.vault.sealed ≡ false
  pub key : Text
  pub writer : IsWriter verified.state verified.vault.signer key
  pub signed : verify lib self.vault Kind.vault key ≡ ok tt

module _ (lib : Libs) (self : Record) (account : Text) where
  verify_record-eq-ok :
      (verified : Verified)
      → verify_record lib self account ≡ ok verified
      → IsAccepted lib self account verified
  unfolding verify_record verify
  verify_record-eq-ok verified h = elim (Result-cases (verify_history lib self.events account)) [
    | inr (e, p) ↦ absurd (ground arith)
    | inl (history, p) ↦ elim (Result-cases (read lib self.vault Kind.vault)) [
      | inr (e, q) ↦ absurd (ground arith)
      | inl (raw, q) ↦ elim (Result-cases (read_vault lib raw)) [
        | inr (e, r) ↦ absurd (ground arith)
        | inl (vault, r) ↦ elim (Result-cases (writer_key history.state vault.signer)) [
          | inr (e, w) ↦ absurd (ground arith)
          | inl (key, w) ↦ record {
            history = ground arith;
            raw = raw;
            payload = q;
            contents = ground arith;
            same_account = ground arith;
            same_head = ground arith;
            same_epoch = ground arith;
            revised = ground arith;
            boxed = ground arith;
            key = key;
            writer = writer_key-eq-ok verified.state verified.vault.signer key (ground arith);
            signed = ground arith;
          }
        ]
      ]
    ]
  ]

  verify_record_complete :
      (verified : Verified)
      → IsAccepted lib self account verified
      → verify_record lib self account ≡ ok verified
  unfolding verify_record verify
  verify_record_complete verified a =
      let h = a.history in
      let p = a.payload in
      let c = a.contents in
      let n = a.same_account in
      let e = a.same_head in
      let f = a.same_epoch in
      let g = a.revised in
      let b = a.boxed in
      let s = a.signed in
      let w = writer_key_of verified.state verified.vault.signer a.key a.writer in ground arith

  -- A record is accepted, with what comes out, exactly when its history verifies for the account and
  -- its vault is a payload for that account, head and epoch, at a revision of at least one, with a
  -- ciphertext of an allowed length, signed by someone who may write the vault of the last state: the
  -- recovery key after an `init` or `recover`, or a device of that state.
  pub verify_record_lem :
      (verified : Verified)
      → (verify_record lib self account ≡ ok verified) ↔ IsAccepted lib self account verified
  verify_record_lem verified = (verify_record-eq-ok verified, verify_record_complete verified)
