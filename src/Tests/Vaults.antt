-- ===== src/Tests/Vaults.antt =====
-- Runs of `Contents::open` of crates/slink-client/src/vault.rs, on the record of Tests/Records.
use session_link.Common.{none, some, [], ◌∷◌, codes, replicate, ◌↔◌, ◌≡◌, refl, ok, err}
use session_link.Protocol.Crypto.{Libs}
use session_link.Protocol.Json.{Value, Number, Items, Fields}
use session_link.Protocol.Record.{vault_context, open_vault}
use session_link.Client.Errors.{Error}
use session_link.Client.Maps.{put, find}
use session_link.Client.Vault.{Contents, check_inbox_keys, check_inboxes, check_contents}
use session_link.Client.Vault.Open.{
  entries, texts, list, read_invitation, read_outbox, read_version, read_contents, open_contents,
  IsOpened, open_contents_lem,
}
use session_link.Client.Receipt.{text_field, read_receipt}
use session_link.Tests.Opened.{opened_history}
use session_link.Tests.Records.{accepted_record}
use session_link.Tests.Toy.{toy, toy_decode, key_text}

abbrev lib : Libs
lib = toy []

-- The contents as JSON: version 2, no links, the incoming-share key that the account has.
abbrev stored : Value
stored = Value.object (
    Fields.field (codes "inboxes")
      (Value.object (Fields.field (key_text 41) (Value.string (key_text 41)) Fields.end))
      (Fields.field (codes "shares") (Value.array Items.nil)
        (Fields.field (codes "version") (Value.number (Number.unsigned 2)) Fields.end)))

abbrev contents : Contents
contents = record {
  version = 2;
  shares = [];
  inboxes = (key_text 41, key_text 41) ∷ [];
  named = [];
}

opens :
    open_contents toy_decode lib
      (λ raw. some stored)
      (replicate 32 1)
      accepted_record
      (codes "https://h")
    ≡ ok contents
unfolding opened_history vault_context open_vault find put text_field read_receipt entries texts
    list read_invitation read_outbox read_version read_contents check_inbox_keys check_inboxes
    check_contents open_contents
opens = refl

-- Contents that are no JSON, and contents without the account's key.
not_opened :
    (open_contents toy_decode lib (λ raw. none) (replicate 32 1) accepted_record (codes "https://h")
      ≡ err (Error.refused (codes "invalid key vault")))
    × (open_contents toy_decode lib
          (λ raw. some (
            Value.object
              (Fields.field (codes "version") (Value.number (Number.unsigned 2)) Fields.end)))
          (replicate 32 1)
          accepted_record
          (codes "https://h")
        ≡ err (Error.refused (codes "incoming-share key is missing")))
unfolding opened_history vault_context open_vault find put text_field read_receipt entries texts
    list read_invitation read_outbox read_version read_contents check_inbox_keys check_inboxes
    check_contents open_contents
not_opened = (refl, refl)

open_contents_lem_example :
    (open_contents toy_decode lib
        (λ raw. some stored)
        (replicate 32 1)
        accepted_record
        (codes "https://h")
      ≡ ok contents)
    ↔ IsOpened toy_decode lib
        (λ raw. some stored)
        (replicate 32 1)
        accepted_record
        (codes "https://h")
        contents
open_contents_lem_example =
    open_contents_lem toy_decode lib (λ raw. some stored) (replicate 32 1) accepted_record
      (codes "https://h") contents
