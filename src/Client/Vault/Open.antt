-- ===== src/Client/Vault/Open.antt =====
-- `Contents::open` and `Contents::read` of crates/slink-client/src/vault.rs, and `Outbox::read` of
-- named.rs. The reader of standard base64 and serde_json's reader are parameters.
use session_link.Common.{
  ap, ◌∙◌, ◌≤◌, ◌↔◌, Result-cases, Option-cases, inl, inr, ℕ, Option, none, some, List, [], ◌∷◌,
  Text, Bytes, codes, length, ltb, nat_eq, text_eq, ◌≡◌, arith, Result, ok, ok_or, map_err,
  refuse_if, to_option, ◌>>=◌, ◌>>◌,
}
use session_link.Protocol.Json.{Value, Fields}
use session_link.Protocol.Payload.{get, fields_of, as_str, as_u64}
use session_link.Protocol.Crypto.{Libs}
use session_link.Protocol.Record.{Verified, open_vault}
use session_link.Protocol.Write.Encode.{Invitation}
use session_link.Format.Invariants.{items_of}
use session_link.Client.Errors.{Error}
use session_link.Client.Maps.{Map, put}
use session_link.Client.Named.{Outbox}
use session_link.Client.Receipt.{read_receipt, text_field}
use session_link.Client.Vault.{Contents, invalid, max_plaintext, check_contents}
use session_link.Client.Vault.Rules.{IsContents, check_contents_sound, check_contents_complete}

-- A part that is not what it must be: `None` of the source.
abbrev nothing : Error
nothing = invalid

-- The entries of an object of texts, put into a map one after another.
unfoldable pub entries : Map Text → Fields → Option (Map Text)
entries map Fields.end = some map
entries map (Fields.field key value rest) = elim (as_str value) [
  | none ↦ none
  | some text ↦ entries (put key text map) rest
]

-- `texts`: missing or null is empty.
unfoldable pub texts : Fields → Text → Option (Map Text)
texts fields name = elim (get name fields) [
  | none ↦ some []
  | some Value.null ↦ some []
  | some (Value.object object) ↦ entries [] object
  | _ ↦ none
]

-- The closure `list`: missing or null is empty.
unfoldable pub list : Fields → Text → Option (List Value)
list fields name = elim (get name fields) [
  | none ↦ some []
  | some Value.null ↦ some []
  | some (Value.array items) ↦ some (items_of items)
  | _ ↦ none
]

-- `collect::<Option<Vec<_>>>`
abbrev pub collect_all {ℓ} : {A : Type ℓ} → (Value → Option A) → List Value → Option (List A)
collect_all read [] = some []
collect_all read (value ∷ values) = elim (read value) [
  | none ↦ none
  | some a ↦ elim (collect_all read values) [ none ↦ none | some rest ↦ some (a ∷ rest) ]
]

unfoldable pub read_invitation : Value → Option Invitation
read_invitation value = to_option (do
  fields ← ok_or nothing (fields_of value (codes "id" ∷ codes "email" ∷ codes "commitment" ∷ []))
  id ← ok_or nothing (text_field fields (codes "id"))
  email ← ok_or nothing (text_field fields (codes "email"))
  commitment ← ok_or nothing (text_field fields (codes "commitment"))
  ok (record { id = id; email = email; commitment = commitment }))

abbrev pub outbox_fields : List Text
outbox_fields =
    codes "status"
    ∷ codes "server"
    ∷ codes "account"
    ∷ codes "root"
    ∷ codes "id"
    ∷ codes "sha256"
    ∷ codes "key"
    ∷ codes "envelope"
    ∷ codes "invitations"
    ∷ codes "secrets"
    ∷ []

module _ (standard_decode : Text → Option Bytes) where
  unfoldable pub read_outbox : Value → Option Outbox
  read_outbox value = to_option (do
    fields ← ok_or nothing (fields_of value outbox_fields)
    items ← ok_or nothing (list fields (codes "invitations"))
    invitations ← ok_or nothing (collect_all read_invitation items)
    status ← ok_or nothing (texts fields (codes "status"))
    server ← ok_or nothing (text_field fields (codes "server"))
    account ← ok_or nothing (text_field fields (codes "account"))
    root ← ok_or nothing (text_field fields (codes "root"))
    id ← ok_or nothing (text_field fields (codes "id"))
    sha256 ← ok_or nothing (text_field fields (codes "sha256"))
    key ← ok_or nothing (text_field fields (codes "key"))
    spelt ← ok_or nothing (text_field fields (codes "envelope"))
    envelope ← ok_or nothing (standard_decode spelt)
    secrets ← ok_or nothing (texts fields (codes "secrets"))
    ok (record {
      status = status;
      server = server;
      account = account;
      root = root;
      id = id;
      sha256 = sha256;
      key = key;
      envelope = envelope;
      invitations = invitations;
      secrets = secrets;
    }))

  -- The version: missing or null is zero.
  unfoldable pub read_version : Fields → Option ℕ
  read_version fields = elim (get (codes "version") fields) [
    | none ↦ some 0
    | some Value.null ↦ some 0
    | some other ↦ as_u64 other
  ]

  unfoldable pub read_contents : Value → Option Contents
  read_contents value = to_option (do
    fields ←
        ok_or nothing (
          fields_of value (codes "version" ∷ codes "shares" ∷ codes "named" ∷ codes "inboxes" ∷ []))
    version ← ok_or nothing (read_version fields)
    listed ← ok_or nothing (list fields (codes "shares"))
    shares ← ok_or nothing (collect_all read_receipt listed)
    outboxes ← ok_or nothing (list fields (codes "named"))
    named ← ok_or nothing (collect_all read_outbox outboxes)
    inboxes ← ok_or nothing (texts fields (codes "inboxes"))
    ok (record { version = version; shares = shares; inboxes = inboxes; named = named }))

module _ (standard_decode : Text → Option Bytes) (lib : Libs)
    (from_slice : Bytes → Option Value) where
  -- `Contents::open`
  unfoldable pub open_contents : Bytes → Verified → Text → Result Error Contents
  open_contents key verified server = do
    raw ←
        map_err (λ e. Error.refused (codes "cannot decrypt encrypted key vault"))
          (open_vault lib verified key)
    refuse_if (ltb max_plaintext (length raw)) invalid
    value ← ok_or invalid (from_slice raw)
    contents ← ok_or invalid (read_contents standard_decode value)
    check_contents lib contents server verified.state
    ok contents

  -- Where opened contents come from: the sealed vault, opened with the vault key, at most 4 MiB of
  -- JSON, read strictly, by the rules of the server and the account's state.
  pub record IsOpened (key : Bytes) (verified : Verified) (server : Text) (contents : Contents)
      : Type 0 where
    pub raw : Bytes
    pub raw_eq : open_vault lib verified key ≡ ok raw
    pub raw_size : length raw ≤ 4194304
    pub value : Value
    pub value_eq : from_slice raw ≡ some value
    pub contents_eq : read_contents standard_decode value ≡ some contents
    pub rules : IsContents lib contents server verified.state

  open_contents_sound :
      (key : Bytes) (verified : Verified) (server : Text) (contents : Contents)
      → open_contents key verified server ≡ ok contents
      → IsOpened key verified server contents
  unfolding open_contents
  open_contents_sound key verified server contents h =
      elim (Result-cases (open_vault lib verified key)) [
        | inr (e, p) ↦ absurd (ground arith)
        | inl (raw, p) ↦ elim (Option-cases (from_slice raw)) [
          | inl q ↦ absurd (ground arith)
          | inr (value, q) ↦ elim (Option-cases (read_contents standard_decode value)) [
            | inl r ↦ absurd (ground arith)
            | inr (found, r) ↦
                let same : found ≡ contents = ground arith in
                record {
                  raw = raw;
                  raw_eq = p;
                  raw_size = ground arith;
                  value = value;
                  value_eq = q;
                  contents_eq = r ∙ ap some same;
                  rules = check_contents_sound lib contents server verified.state (ground arith);
                }
          ]
        ]
      ]

  open_contents_complete :
      (key : Bytes) (verified : Verified) (server : Text) (contents : Contents)
      → IsOpened key verified server contents
      → open_contents key verified server ≡ ok contents
  unfolding open_contents
  open_contents_complete key verified server contents is =
      let checked = check_contents_complete lib contents server verified.state is.rules in
      ground (arith, is.raw_eq, is.raw_size, is.value_eq, is.contents_eq)

  -- A vault opens to `contents` exactly when the key opens the sealed vault to at most 4 MiB, which
  -- are JSON and read as `contents`, and the contents keep the rules: at most 10000 links, each a
  -- whole link of this server and account; at most 10000 named shares, each of this server, account
  -- and root, with an id of the service's alphabet, a hash of 64 hexadecimal digits, a key of 32
  -- bytes, no envelope, and one to ten invitations, whose ids are 24 bytes and differ, to email
  -- addresses of at most 254 bytes, with secrets of 32 bytes that hash to their commitments; with no
  -- incoming-share key in the state, version 1 and no incoming-share keys; with one, version 2 and
  -- at most 512 of them, it among them, each a private key of 32 bytes filed under its public key.
  pub open_contents_lem :
      (key : Bytes) (verified : Verified) (server : Text) (contents : Contents)
      → (open_contents key verified server ≡ ok contents) ↔ IsOpened key verified server contents
  open_contents_lem key verified server contents = (
    open_contents_sound key verified server contents,
    open_contents_complete key verified server contents,
  )
