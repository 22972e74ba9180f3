-- ===== src/Client/Receipt.antt =====
-- crates/slink-client/src/vault.rs: the key of a published link.
pub mod Links
use session_link.Common.{
  ℕ, Bool, true, false, ◌&&◌, ◌||◌, Option, none, some, List, [], ◌∷◌, Text, codes, all, contains,
  byte_len, leb, ◌==◌, nat_eq, text_eq, option_eq, is_ok,
}
use session_link.Common.Options.{◌>>=◌}
use session_link.Protocol.Json.{Value, Fields}
use session_link.Protocol.Payload.{get, fields_of}
use session_link.Protocol.Crypto.{Libs}
use session_link.Protocol.Encoding.{decode_exact}
use session_link.Protocol.Wrap.{split_once}
use session_link.Client.Named.{share_id, digit}
use session_link.Client.Texts.{strip_prefix}

-- A link's key as the vault keeps it.
pub record Receipt : Type 0 where
  pub server : Text
  pub account : Text
  pub key : Text
  pub sha256 : Text
  pub url : Text

abbrev receipt_fields : List Text
receipt_fields = codes "server" ∷ codes "account" ∷ codes "key" ∷ codes "sha256" ∷ codes "url" ∷ []

-- A field that is text: missing or null is empty.
unfoldable pub text_field : Fields → Text → Option Text
text_field fields name = elim (get name fields) [
  | none ↦ some []
  | some Value.null ↦ some []
  | some (Value.string text) ↦ some text
  | _ ↦ none
]

-- `Receipt::read`
unfoldable pub read_receipt : Value → Option Receipt
unfolding text_field
read_receipt value = do
  fields ← fields_of value receipt_fields
  server ← text_field fields (codes "server")
  account ← text_field fields (codes "account")
  key ← text_field fields (codes "key")
  sha256 ← text_field fields (codes "sha256")
  url ← text_field fields (codes "url")
  some (record { server = server; account = account; key = key; sha256 = sha256; url = url })

abbrev pub lower_hex : ℕ → Bool
lower_hex c = digit c || (leb b'a' c && leb c b'f')

-- The closure `link`.
unfoldable pub whole_link : Receipt → Text → Option Bool
whole_link self server = do
  after ← strip_prefix server self.url
  rest ← strip_prefix (codes "/s/") after
  parts ← split_once b'#' rest
  some (share_id parts.0 && (strip_prefix (codes "key=") parts.1 == some self.key))

module _ (lib : Libs) where
  -- `Receipt::valid`
  unfoldable pub receipt_valid : Text → Text → Receipt → Bool
  receipt_valid server account self =
      self.server == server
      && self.account == account
      && byte_len self.sha256 == 64
      && all lower_hex self.sha256
      && is_ok (decode_exact lib 32 self.key)
      && elim (whole_link self server) [ none ↦ false | some whole ↦ whole ]
