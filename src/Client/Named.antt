-- ===== src/Client/Named.antt =====
-- crates/slink-client/src/named.rs: a share for named people as this machine keeps it, and the
-- addresses it is for.
pub mod Address
pub mod Kept
pub mod Recipients
use session_link.Common.{
  ℕ, ◌+◌, Bool, true, false, not, ◌&&◌, ◌||◌, Option, none, some, List, [], ◌∷◌, ◌++◌, Text, Bytes,
  codes, all, contains, length, byte_len, ltb, leb, ◌==◌, nat_eq, text_eq, if◌then◌else◌, Result,
  ok, err, guard, is_ok, map_err, ◌>>=◌, ◌>>◌,
}
use session_link.Common.Options.{is_none}
use session_link.Protocol.Crypto.{Libs}
use session_link.Protocol.Encoding.{decode_exact}
use session_link.Protocol.Named.{commitment}
use session_link.Protocol.Payload.{text_lt}
use session_link.Protocol.Wrap.{split_once}
use session_link.Protocol.Write.Encode.{Invitation}
use session_link.Client.Errors.{Error}
use session_link.Client.Maps.{Map, find}
use session_link.Client.Texts.{rsplit_once, first_is, last_is}

abbrev pub max_recipients : ℕ
max_recipients = 10

-- `share_id` of publish.rs
unfoldable pub share_id : Text → Bool
share_id id =
    byte_len id == 14 && all (λ c. contains c (codes "23456789abcdefghjkmnpqrstuvwxyz")) id

abbrev pub lowercase : ℕ → Bool
lowercase c = leb b'a' c && leb c b'z'

abbrev pub digit : ℕ → Bool
digit c = leb b'0' c && leb c b'9'

-- `is_ascii_hexdigit`
abbrev pub hex_digit : ℕ → Bool
hex_digit c = digit c || (leb b'a' c && leb c b'f') || (leb b'A' c && leb c b'F')

abbrev pub alnum : ℕ → Bool
alnum c = lowercase c || digit c

abbrev pub local_char : ℕ → Bool
local_char c = alnum c || contains c (codes ".!#$%&'*+/=?^_`{|}~-")

abbrev pub name_char : ℕ → Bool
name_char c = alnum c || c == b'.' || c == b'-'

unfoldable pub email_address : Text → Bool
email_address text = elim (split_once b'@' text) [
  | none ↦ false
  | some (local, domain) ↦ elim (rsplit_once b'.' domain) [
    | none ↦ false
    | some (name, top) ↦
        not (local == [])
        && all local_char local
        && first_is alnum name
        && last_is alnum name
        && all name_char name
        && (leb 2 (byte_len top) && leb (byte_len top) 63)
        && all lowercase top
  ]
]

-- `sort`
unfoldable pub sorted_insert : Text → List Text → List Text
sorted_insert text [] = text ∷ []
sorted_insert text (other ∷ rest) =
    let more = sorted_insert text rest in
    if text_lt other text then other ∷ more else text ∷ other ∷ rest

unfoldable pub sort : List Text → List Text
unfolding sorted_insert
sort [] = []
sort (text ∷ rest) = sorted_insert text (sort rest)

-- `dedup`
unfoldable pub dedup : List Text → List Text
dedup [] = []
dedup (text ∷ []) = text ∷ []
dedup (text ∷ other ∷ rest) =
    let more = dedup (other ∷ rest) in if text == other then more else text ∷ more

-- The loop of `recipients`. `normal` is `trim` and then `to_lowercase`, which
-- goes by the tables of Unicode.
unfoldable pub addresses : (Text → Text) → List Text → Result Error (List Text)
addresses normal [] = ok []
addresses normal (value ∷ values) = do
  let email = normal value
  guard (leb (byte_len email) 254 && email_address email)
      (Error.refused (codes "enter a valid email address for each recipient"))
  rest ← addresses normal values
  ok (email ∷ rest)

unfoldable pub recipients : (Text → Text) → List Text → Result Error (List Text)
recipients normal values = do
  guard (leb 1 (length values) && leb (length values) max_recipients)
      (Error.refused (codes "choose between one and ten email recipients"))
  out ← addresses normal values
  ok (dedup (sort out))

-- A share until each person has their key.
pub record Outbox : Type 0 where
  pub status : Map Text
  pub server : Text
  pub account : Text
  pub root : Text
  pub id : Text
  pub sha256 : Text
  pub key : Text
  pub envelope : Bytes
  pub invitations : List Invitation
  pub secrets : Map Text

-- `map_or("", String::as_str)`
abbrev pub text_or_empty : Option Text → Text
text_or_empty none = []
text_or_empty (some text) = text

module _ (lib : Libs) where
  -- The closure on one invitation.
  unfoldable pub invitation_valid : Map Text → List Text → Invitation → Bool
  invitation_valid secrets seen invitation =
      not (contains invitation.id seen)
      && leb (byte_len invitation.email) 254
      && email_address invitation.email
      && is_ok (decode_exact lib 24 invitation.id)
      && elim (decode_exact lib 32 (text_or_empty (find invitation.id secrets))) [
        | err e ↦ false
        | ok secret ↦ commitment lib secret == invitation.commitment
      ]

  unfoldable pub invitations_valid : Map Text → List Text → List Invitation → Bool
  invitations_valid secrets seen [] = true
  invitations_valid secrets seen (invitation ∷ rest) =
      invitation_valid secrets seen invitation
      && invitations_valid secrets (invitation.id ∷ seen) rest

  -- `Outbox::valid`
  unfoldable pub valid : Outbox → Text → Text → Text → Bool
  valid self server account root =
      (self.server == server
        && self.account == account
        && self.root == root
        && share_id self.id
        && byte_len self.sha256 == 64
        && all hex_digit self.sha256
        && self.envelope == []
        && (leb 1 (length self.invitations) && leb (length self.invitations) max_recipients)
        && is_ok (decode_exact lib 32 self.key))
      && invitations_valid self.secrets [] self.invitations

-- One person a share is for, as a page is shown them.
pub record Recipient : Type 0 where
  pub id : Text
  pub email : Text
  pub url : Text
  pub status : Text

pub record Shared : Type 0 where
  pub id : Text
  pub url : Text
  pub recipients : List Recipient
  pub error : Text

-- The status of an invitation: `waiting` until the service has said another.
unfoldable pub status_of : Outbox → Text → Text
status_of self id = elim (find id self.status) [
  | none ↦ codes "waiting"
  | some status ↦ if status == [] then codes "waiting" else status
]

unfoldable pub recipient_of : Outbox → Text → Invitation → Recipient
recipient_of self url invitation =
    let status = status_of self invitation.id in
    let link = url ++ (codes "?invite=" ++ invitation.id) in
    let secret = text_or_empty (find invitation.id self.secrets) in
    record {
      id = invitation.id;
      email = invitation.email;
      url =
          if status == codes "waiting"
          then link ++ (codes "#invite=" ++ (secret ++ (codes "&sender=" ++ self.root)))
          else link;
      status = status;
    }

unfoldable pub recipients_of : Outbox → Text → List Invitation → List Recipient
recipients_of self url [] = []
recipients_of self url (invitation ∷ rest) =
    recipient_of self url invitation ∷ recipients_of self url rest

-- `Outbox::result`
unfoldable pub result : Outbox → Shared
result self =
    let url = self.server ++ (codes "/n/" ++ self.id) in
    record {
      id = self.id;
      url = url;
      recipients = recipients_of self url self.invitations;
      error = [];
    }
