-- ===== src/Tests/Shares.antt =====
-- Runs of crates/slink-client/src/named.rs and vault.rs: addresses, recipients, receipts, and the
-- vault merged and with its incoming-share key replaced.
use session_link.Common.{
  ℕ, true, false, none, some, List, [], ◌∷◌, ◌++◌, Text, codes, replicate, ◌≡◌, ◌≢◌, ◌↔◌, refl, ok,
  err, All, length, arith, ◌≤◌,
}
use session_link.Protocol.Crypto.{Libs}
use session_link.Protocol.Named.{commitment}
use session_link.Protocol.History.{State}
use session_link.Protocol.Json.{Value, Fields}
use session_link.Protocol.Signed.{agreement_public}
use session_link.Protocol.Wrap.{split_once}
use session_link.Client.Errors.{Error}
use session_link.Client.Maps.{put, find}
use session_link.Client.Named.{
  Outbox, share_id, email_address, sorted_insert, sort, dedup, addresses, recipients,
  invitation_valid, invitations_valid, valid,
}
use session_link.Client.Named.Address.{IsAddress, email_address_lem}
use session_link.Client.Named.Recipients.{IsRecipients, recipients_lem}
use session_link.Client.Receipt.{Receipt, text_field, read_receipt, whole_link, receipt_valid}
use session_link.Client.Receipt.Links.{IsReceipt, receipt_valid_lem}
use session_link.Client.Texts.{rsplit_once, strip_prefix}
use session_link.Client.Vault.{
  Contents, check_inbox_keys, check_inboxes, rotate_inbox, local_receipts, merge, max_inboxes,
}
use session_link.Client.Vault.Merge.{IsMerged, merge_lem, merge_keeps_valid}
use session_link.Client.Vault.Inboxes.{rotate_inbox_opens}
use session_link.Tests.History.{first_state}
use session_link.Tests.Opened.{opened_history}
use session_link.Tests.Standard.{standard, standard-IsBase64, replicate-IsBytes}
use session_link.Tests.Base64
use session_link.Tests.Toy.{toy, toy_encode, key_text}

abbrev lib : Libs
lib = toy []

email_addresses :
    (email_address (codes "ann@mail.example.org") ≡ true)
    × (email_address (codes "ann@example") ≡ false)
    × (email_address (codes "ann@-x.org") ≡ false)
    × (email_address (codes "a@b@c.org") ≡ false)
    × (email_address (codes "ann@example.o1") ≡ false)
unfolding opened_history split_once rsplit_once email_address
email_addresses = (refl, refl, refl, refl, refl)

email_address_lem_example :
    (email_address (codes "ann@mail.example.org") ≡ true) ↔ IsAddress (codes "ann@mail.example.org")
email_address_lem_example = email_address_lem (codes "ann@mail.example.org")

abbrev typed : List Text
typed = codes "bob@x.org" ∷ codes "ann@x.org" ∷ codes "bob@x.org" ∷ []

abbrev listed_once : List Text
listed_once = codes "ann@x.org" ∷ codes "bob@x.org" ∷ []

recipients_listed :
    (recipients (λ t. t) typed ≡ ok listed_once)
    × (recipients (λ t. t) []
        ≡ err (Error.refused (codes "choose between one and ten email recipients")))
    × (recipients (λ t. t) (codes "ann" ∷ [])
        ≡ err (Error.refused (codes "enter a valid email address for each recipient")))
unfolding opened_history split_once rsplit_once email_address sorted_insert sort dedup addresses
    recipients
recipients_listed = (refl, refl, refl)

recipients_lem_example :
    (recipients (λ t. t) typed ≡ ok listed_once) ↔ IsRecipients (λ t. t) typed listed_once
recipients_lem_example = recipients_lem (λ t. t) typed listed_once

abbrev server : Text
server = codes "https://h"

abbrev receipt_of : Text → ℕ → Receipt
receipt_of id k = record {
  server = server;
  account = codes "usr_a";
  key = key_text k;
  sha256 = replicate 64 b'a';
  url = server ++ codes "/s/" ++ id ++ codes "#key=" ++ key_text k;
}

abbrev receipt : Receipt
receipt = receipt_of (codes "23456789abcdef") 65

receipts :
    (receipt_valid lib server (codes "usr_a") receipt ≡ true)
    × (receipt_valid lib server (codes "usr_b") receipt ≡ false)
    × (receipt_valid lib (codes "https://g") (codes "usr_a") receipt ≡ false)
    × (receipt_valid lib server (codes "usr_a") (receipt_of (codes "23456789abcde1") 65) ≡ false)
    × (receipt_valid lib server (codes "usr_a") (record receipt { key = key_text 66 }) ≡ false)
unfolding opened_history split_once strip_prefix share_id whole_link receipt_valid
receipts = (refl, refl, refl, refl, refl)

receipt_valid_lem_example :
    (receipt_valid lib server (codes "usr_a") receipt ≡ true)
    ↔ IsReceipt lib server (codes "usr_a") receipt
receipt_valid_lem_example = receipt_valid_lem lib server (codes "usr_a") receipt

abbrev file_of : Receipt → Value
file_of r = Value.object (
    Fields.field (codes "account") (Value.string r.account) (
      Fields.field (codes "key") (Value.string r.key) (
        Fields.field (codes "server") (Value.string r.server) (
          Fields.field (codes "sha256") (Value.string r.sha256)
            (Fields.field (codes "url") (Value.string r.url) Fields.end)))))

abbrev outbox : Outbox
outbox = record {
  status = [];
  server = server;
  account = codes "usr_a";
  root = key_text 7;
  id = codes "23456789abcdef";
  sha256 = replicate 64 b'b';
  key = key_text 67;
  envelope = [];
  invitations =
      record {
        id = toy_encode (replicate 24 70);
        email = codes "ann@x.org";
        commitment = toy_encode (replicate 32 71);
      }
      ∷ [];
  secrets = (toy_encode (replicate 24 70), key_text 71) ∷ [];
}

outbox-valid :
    (valid lib outbox server (codes "usr_a") (key_text 7) ≡ true)
    × (valid lib (record outbox { secrets = [] }) server (codes "usr_a") (key_text 7) ≡ false)
unfolding opened_history split_once rsplit_once email_address share_id find commitment
    invitation_valid invitations_valid valid
outbox-valid = (refl, refl)

abbrev held : Contents
held = record { version = 2; shares = receipt ∷ []; inboxes = []; named = [] }

abbrev other : Receipt
other = receipt_of (codes "zzzzzzzzzzzzzz") 66

abbrev merged : Contents
merged = record held { shares = receipt ∷ other ∷ []; named = outbox ∷ [] }

held_merges :
    merge lib held server
      (codes "usr_a")
      (some (file_of other) ∷ none ∷ some Value.null ∷ [])
      (ok (outbox ∷ []))
    ≡ ok merged
unfolding opened_history split_once strip_prefix share_id whole_link receipt_valid text_field
    read_receipt local_receipts put merge
held_merges = refl

merge_lem_example :
    IsMerged lib held server
      (codes "usr_a")
      (some (file_of other) ∷ none ∷ some Value.null ∷ [])
      (outbox ∷ [])
      merged
merge_lem_example =
    merge_lem lib held merged server (codes "usr_a")
      (some (file_of other) ∷ none ∷ some Value.null ∷ []) (outbox ∷ []) held_merges

merge_keeps_valid_example :
    All (λ r. receipt_valid lib server (codes "usr_a") r ≡ true) merged.shares
    × All (λ o. valid lib o server (codes "usr_a") (key_text 7) ≡ true) merged.named
merge_keeps_valid_example =
    merge_keeps_valid lib held merged server (codes "usr_a") (key_text 7)
      (some (file_of other) ∷ none ∷ some Value.null ∷ []) (outbox ∷ []) (receipts.0, tt)
      (outbox-valid.0, tt) held_merges

abbrev sharing_on : Contents
sharing_on = record {
  version = 2;
  shares = [];
  inboxes = (Base64.encode (replicate 32 9), Base64.encode (replicate 32 9)) ∷ [];
  named = [];
}

abbrev open_state : State
open_state = record first_state { inbox = some (Base64.encode (replicate 32 9)) }

inboxes_pass : check_inboxes standard sharing_on open_state.inbox ≡ ok tt
unfolding opened_history find check_inbox_keys check_inboxes
inboxes_pass = refl

few :
    length ((rotate_inbox standard sharing_on open_state (replicate 32 5)).0.inboxes) ≤ max_inboxes
unfolding opened_history put rotate_inbox
few = omega arith

rotate_inbox_opens_example :
    (check_inboxes standard
        (rotate_inbox standard sharing_on open_state (replicate 32 5)).0
        (rotate_inbox standard sharing_on open_state (replicate 32 5)).1.inbox
      ≡ ok tt)
    × ((public kept : Text)
        → find public sharing_on.inboxes ≡ some kept
        → public ≢ agreement_public standard (record { bytes = replicate 32 5 })
        → find public (rotate_inbox standard sharing_on open_state (replicate 32 5)).0.inboxes
          ≡ some kept)
rotate_inbox_opens_example =
    rotate_inbox_opens standard sharing_on open_state (replicate 32 5) standard-IsBase64
      (replicate-IsBytes 32 5 (omega arith)) refl inboxes_pass few
