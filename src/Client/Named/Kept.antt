-- ===== src/Client/Named/Kept.antt =====
-- `Outbox::valid` of crates/slink-client/src/named.rs: which shares for named people are kept.
use session_link.Common.{
  refl, ◌≤◌, true, false, List, [], ◌∷◌, Text, Bytes, all, contains, length, byte_len, ◌≡◌, ◌≢◌,
  arith, Result-cases, inl, inr, ok, All, nat_eq, text_eq,
}
use session_link.Protocol.Crypto.{Libs}
use session_link.Protocol.Encoding.{decode_exact}
use session_link.Protocol.Named.{commitment}
use session_link.Protocol.Write.Encode.{Invitation}
use session_link.Client.Maps.{Map, find}
use session_link.Client.Named.{
  Outbox, share_id, hex_digit, text_or_empty, invitation_valid, invitations_valid, valid,
}
use session_link.Client.Named.Address.{IsAddress, email_address_lem}

module _ (lib : Libs) where
  -- An invitation to an address, whose secret is kept and hashes to its commitment.
  pub record IsInvitation (secrets : Map Text) (invitation : Invitation) : Type 0 where
    pub email_size : byte_len invitation.email ≤ 254
    pub email : IsAddress invitation.email
    pub id : Bytes
    pub id_eq : decode_exact lib 24 invitation.id ≡ ok id
    pub secret : Bytes
    pub secret_eq : decode_exact lib 32 (text_or_empty (find invitation.id secrets)) ≡ ok secret
    pub commitment_eq : commitment lib secret ≡ invitation.commitment

  -- No two invitations have one id.
  abbrev pub Apart : List Invitation → Type 0
  Apart [] = Unit
  Apart (invitation ∷ rest) = All (λ other. other.id ≢ invitation.id) rest × Apart rest

  abbrev Unseen : List Text → List Invitation → Type 0
  Unseen seen = All (λ other. contains other.id seen ≡ false)

  pub record IsOutbox (server account root : Text) (self : Outbox) : Type 0 where
    pub server_eq : self.server ≡ server
    pub account_eq : self.account ≡ account
    pub root_eq : self.root ≡ root
    pub id_valid : share_id self.id ≡ true
    pub hash_length : byte_len self.sha256 ≡ 64
    pub hash_digits : all hex_digit self.sha256 ≡ true
    pub no_envelope : self.envelope ≡ []
    pub some_invitation : 1 ≤ length self.invitations
    pub few_invitations : length self.invitations ≤ 10
    pub key : Bytes
    pub key_eq : decode_exact lib 32 self.key ≡ ok key
    pub invitations : All (IsInvitation self.secrets) self.invitations
    pub apart : Apart self.invitations

  invitation_sound :
      (secrets : Map Text) (seen : List Text) (invitation : Invitation)
      → invitation_valid lib secrets seen invitation ≡ true
      → IsInvitation secrets invitation
  unfolding invitation_valid
  invitation_sound secrets seen invitation h =
      elim (Result-cases (decode_exact lib 24 invitation.id)) [
        | inr (e, p) ↦ absurd (ground arith)
        | inl (id, p) ↦
            elim (Result-cases (decode_exact lib 32 (text_or_empty (find invitation.id secrets)))) [
              | inr (e, q) ↦ absurd (ground arith)
              | inl (secret, q) ↦ record {
                email_size = ground arith;
                email = (email_address_lem invitation.email).0 (ground arith);
                id = id;
                id_eq = p;
                secret = secret;
                secret_eq = q;
                commitment_eq = ground arith;
              }
            ]
      ]

  invitation_fresh :
      (secrets : Map Text) (seen : List Text) (invitation : Invitation)
      → invitation_valid lib secrets seen invitation ≡ true
      → contains invitation.id seen ≡ false
  unfolding invitation_valid
  invitation_fresh secrets seen invitation h = ground arith

  invitation_complete :
      (secrets : Map Text) (seen : List Text) (invitation : Invitation)
      → contains invitation.id seen ≡ false
      → IsInvitation secrets invitation
      → invitation_valid lib secrets seen invitation ≡ true
  unfolding invitation_valid
  invitation_complete secrets seen invitation fresh is =
      let address = (email_address_lem invitation.email).1 is.email in
      ground (arith, is.email_size, is.id_eq, is.secret_eq, is.commitment_eq)

  fresh_tail :
      (id : Text) (seen : List Text) (rest : List Invitation)
      → Unseen (id ∷ seen) rest
      → All (λ other. other.id ≢ id) rest × Unseen seen rest
  fresh_tail id seen [] h = (tt, tt)
  fresh_tail id seen (other ∷ rest) h =
      let more = fresh_tail id seen rest h.1 in
      let first = h.0 in ((λ p. absurd (ground arith), more.0), (ground arith, more.1))

  fresh_cons :
      (id : Text) (seen : List Text) (rest : List Invitation)
      → All (λ other. other.id ≢ id) rest
      → Unseen seen rest
      → Unseen (id ∷ seen) rest
  fresh_cons id seen [] h k = tt
  fresh_cons id seen (other ∷ rest) h k =
      let apart = h.0 in let first = k.0 in (ground arith, fresh_cons id seen rest h.1 k.1)

  invitations_sound :
      (secrets : Map Text) (seen : List Text) (list : List Invitation)
      → invitations_valid lib secrets seen list ≡ true
      → All (IsInvitation secrets) list × Apart list × Unseen seen list
  unfolding invitations_valid
  invitations_sound secrets seen [] h = (tt, tt, tt)
  invitations_sound secrets seen (invitation ∷ rest) h =
      let first : invitation_valid lib secrets seen invitation ≡ true = ground arith in
      let more = invitations_sound secrets (invitation.id ∷ seen) rest (ground arith) in
      let tail = fresh_tail invitation.id seen rest (more.2) in
      (
        (invitation_sound secrets seen invitation first, more.0),
        (tail.0, more.1),
        (invitation_fresh secrets seen invitation first, tail.1),
      )

  invitations_complete :
      (secrets : Map Text) (seen : List Text) (list : List Invitation)
      → All (IsInvitation secrets) list
      → Apart list
      → Unseen seen list
      → invitations_valid lib secrets seen list ≡ true
  unfolding invitations_valid
  invitations_complete secrets seen [] is apart fresh = refl
  invitations_complete secrets seen (invitation ∷ rest) is apart fresh =
      let first = invitation_complete secrets seen invitation fresh.0 is.0 in
      let more =
        invitations_complete secrets (invitation.id ∷ seen) rest is.1 apart.1
          (fresh_cons invitation.id seen rest apart.0 fresh.1) in
      ground arith

  nothing_seen : (list : List Invitation) → Unseen [] list
  nothing_seen [] = tt
  nothing_seen (invitation ∷ rest) = (refl, nothing_seen rest)

  pub valid_sound :
      (self : Outbox) (server account root : Text)
      → valid lib self server account root ≡ true
      → IsOutbox server account root self
  unfolding valid
  valid_sound self server account root h = elim (Result-cases (decode_exact lib 32 self.key)) [
    | inr (e, p) ↦ absurd (ground arith)
    | inl (key, p) ↦
        let all = invitations_sound self.secrets [] self.invitations (ground arith) in
        record {
          server_eq = ground arith;
          account_eq = ground arith;
          root_eq = ground arith;
          id_valid = ground arith;
          hash_length = ground arith;
          hash_digits = ground arith;
          no_envelope = ground arith;
          some_invitation = ground arith;
          few_invitations = ground arith;
          key = key;
          key_eq = p;
          invitations = all.0;
          apart = all.1;
        }
  ]

  pub valid_complete :
      (self : Outbox) (server account root : Text)
      → IsOutbox server account root self
      → valid lib self server account root ≡ true
  unfolding valid
  valid_complete self server account root is =
      let all =
        invitations_complete self.secrets [] self.invitations is.invitations is.apart
          (nothing_seen self.invitations) in
      ground (
        arith, is.server_eq, is.account_eq, is.root_eq, is.id_valid, is.hash_length, is.hash_digits,
        is.no_envelope, is.some_invitation, is.few_invitations, is.key_eq,
      )
