-- ===== src/Tests/Records.antt =====
-- A record, a claim and a request (crates/slink-protocol/src/record.rs, named.rs and request.rs) on
-- the history of Tests/History.
use session_link.Common.{[], ◌∷◌, codes, replicate, ◌≡◌, ◌↔◌, refl, ok, err}
use session_link.Protocol.Errors.{Kind, Error, Refusal}
use session_link.Protocol.Crypto.{Libs}
use session_link.Protocol.Json.{Raw, RawFields}
use session_link.Protocol.Signed
use session_link.Protocol.Signed.{Signed}
use session_link.Protocol.Record.{
  Vault, Record, Verified, vault_of, writer_key, read_vault, bad_data, verify_record,
}
use session_link.Protocol.Record.Accepted.{IsAccepted, verify_record_lem}
use session_link.Protocol.Named.{
  Claim, Offer, Accepted, claim_of, other_offer, read_claim, proven, up_to_head, claim_signed,
  verify_claim,
}
use session_link.Protocol.Named.Claims.{IsAcceptedClaim, verify_claim-eq-ok}
use session_link.Protocol.Request.{Request, read_request}
use session_link.Protocol.Request.Check.{verify, read}
use session_link.Protocol.Request.Laws.{verify_lem}
use session_link.Tests.Opened.{opened_history}
use session_link.Tests.Toy.{toy, toy_encode, key_text, raw_state, raw_text, raw_count}
use session_link.Tests.History.{first_state, second_state, third_state, event, device_of}

abbrev vault : Vault
vault = record {
  account = codes "usr_a";
  revision = 3;
  head = toy_encode (3 ∷ []);
  epoch = 2;
  signer = (device_of 20 30).id;
  sealed = toy_encode (replicate 40 9);
}

abbrev raw_vault : Raw
raw_vault = Raw.object (
    raw_text (codes "account") vault.account (
      raw_count (codes "revision") vault.revision (
        raw_text (codes "head") vault.head (
          raw_count (codes "epoch") vault.epoch (
            raw_text (codes "signer") vault.signer
              (raw_text (codes "data") vault.sealed RawFields.end))))))

abbrev claim : Claim
claim = record {
  account = codes "usr_a";
  root = first_state.root;
  head = toy_encode (2 ∷ []);
  signer = (device_of 50 31).id;
  share_id = codes "shr";
  invite_id = codes "inv";
  sha256 = codes "sum";
  owner = codes "usr_o";
  owner_root = codes "okey";
  inbox = key_text 40;
  epoch = 1;
}

abbrev raw_claim : Raw
raw_claim = Raw.object (
    raw_text (codes "account") claim.account (
      raw_text (codes "root") claim.root (
        raw_text (codes "head") claim.head (
          raw_text (codes "signer") claim.signer (
            raw_text (codes "share_id") claim.share_id (
              raw_text (codes "invite_id") claim.invite_id (
                raw_text (codes "sha256") claim.sha256 (
                  raw_text (codes "owner") claim.owner (
                    raw_text (codes "owner_root") claim.owner_root (
                      raw_text (codes "inbox") claim.inbox
                        (raw_count (codes "epoch") claim.epoch RawFields.end)))))))))))

abbrev pub request : Request
request = record {
  account = codes "usr_a";
  root = first_state.root;
  name = codes "Phone";
  sign_key = key_text 60;
  box_key = key_text 61;
  nonce = toy_encode (replicate 24 1);
  created = 1700000000000;
}

abbrev pub raw_request : Raw
raw_request = Raw.object (
    raw_text (codes "account") request.account (
      raw_text (codes "root") request.root (
        raw_text (codes "name") request.name (
          raw_text (codes "sign") request.sign_key (
            raw_text (codes "box") request.box_key (
              raw_text (codes "nonce") request.nonce
                (raw_count (codes "created") request.created RawFields.end)))))))

abbrev lib : Libs
lib = toy (
    (1 ∷ [], raw_state first_state)
    ∷ (2 ∷ [], raw_state second_state)
    ∷ (3 ∷ [], raw_state third_state)
    ∷ (4 ∷ [], raw_vault)
    ∷ (5 ∷ [], raw_claim)
    ∷ (6 ∷ [], raw_request)
    ∷ [])

abbrev held : Record
held = record { events = event 1 7 ∷ event 2 20 ∷ event 3 20 ∷ []; vault = event 4 20 }

abbrev pub accepted_record : Verified
accepted_record = record { state = third_state; head = toy_encode (3 ∷ []); vault = vault }

record_verifies : verify_record lib held (codes "usr_a") ≡ ok accepted_record
unfolding opened_history vault_of writer_key read_vault bad_data verify_record
record_verifies = refl

-- A vault for an older head, and one that a revoked device wrote.
record_refusals :
    (verify_record lib (record held { events = event 1 7 ∷ event 2 20 ∷ [] }) (codes "usr_a")
      ≡ err (Error.vault Refusal.head))
    × (verify_record lib (record held { vault = event 4 50 }) (codes "usr_a")
        ≡ err (Error.signature Kind.vault))
unfolding opened_history vault_of writer_key read_vault bad_data verify_record
record_refusals = (refl, refl)

verify_record_lem_example :
    (verify_record lib held (codes "usr_a") ≡ ok accepted_record)
    ↔ IsAccepted lib held (codes "usr_a") accepted_record
verify_record_lem_example = verify_record_lem lib held (codes "usr_a") accepted_record

abbrev offer : Offer
offer = record {
  share_id = codes "shr";
  invite_id = codes "inv";
  sha256 = codes "sum";
  owner = codes "usr_o";
  owner_root = codes "okey";
  secret = replicate 32 77;
}

abbrev accepted_claim : Accepted
accepted_claim = record { claim = claim; claim_hash = toy_encode (5 ∷ []); recipient = third_state }

claim_verifies : verify_claim lib (event 5 50) (key_text 77) offer held.events ≡ ok accepted_claim
unfolding opened_history claim_of other_offer read_claim proven up_to_head claim_signed verify_claim
claim_verifies = refl

verify_claim-eq-ok_example :
    IsAcceptedClaim lib (event 5 50) (key_text 77) offer held.events accepted_claim
verify_claim-eq-ok_example =
    verify_claim-eq-ok lib (event 5 50) (key_text 77) offer held.events accepted_claim
      claim_verifies

request_verifies : verify lib (event 6 60) ≡ ok request
unfolding opened_history read_request verify
request_verifies = refl

verify_lem_example : (verify lib (event 6 60) ≡ ok request) ↔ (
    (read lib (event 6 60) ≡ ok request)
    × (Signed.verify lib (event 6 60) Kind.request (key_text 60) ≡ ok tt))
verify_lem_example = verify_lem lib (event 6 60) request
