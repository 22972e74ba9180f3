-- ===== src/Protocol/Request.antt =====
-- crates/slink-protocol/src/request.rs: a device's request to join an account, and its code.
pub mod Check
pub mod Laws
use session_link.Common.{
  ℕ, zero, suc, ◌+◌, ◌-◌, ◌*◌, ◌/◌, ◌%◌, ◌^◌, Bool, true, false, not, ◌&&◌, ◌||◌, Option, none,
  some, List, [], ◌∷◌, ◌++◌, map, Text, Bytes, codes, byte_len, length, take, get_or, ltb, leb,
  ◌==◌, nat_eq, text_eq, filter, if◌then◌else◌, Result, ok, err, ok_or, map_err,
}
use session_link.Common
use session_link.Common.Options.{◌>>=◌, ◌>>◌, check}
use session_link.Protocol.Errors.{Kind, Error}
use session_link.Protocol.Crypto.{Libs}
use session_link.Protocol.Encoding.{decode_exact}
use session_link.Protocol.Signed
use session_link.Protocol.Signed.{Signed, device_id, hash, verify_bytes}
use session_link.Protocol.Payload.{parse, fields_of, string, integer}
use session_link.Protocol.History.{max_device_name}

abbrev pub request_lifetime_ms : ℕ
request_lifetime_ms = 10 * 60 * 1000

abbrev pub clock_ahead_ms : ℕ
clock_ahead_ms = 60 * 1000

-- A device asking to be approved.
pub record Request : Type 0 where
  pub account : Text
  pub root : Text
  pub name : Text
  pub sign_key : Text
  pub box_key : Text
  pub nonce : Text
  pub created : ℕ

abbrev pub request_fields : List Text
request_fields =
    codes "account"
    ∷ codes "root"
    ∷ codes "name"
    ∷ codes "sign"
    ∷ codes "box"
    ∷ codes "nonce"
    ∷ codes "created"
    ∷ []

-- `u64::saturating_add`
abbrev pub saturating_add : ℕ → ℕ → ℕ
saturating_add a b = if ltb (a + b) (2 ^ 64) then a + b else 2 ^ 64 - 1

-- Whether the request can still be approved at `now`.
unfoldable pub pending : Request → ℕ → Bool
pending self now =
    ltb now (saturating_add self.created request_lifetime_ms)
    && leb self.created (saturating_add now clock_ahead_ms)

abbrev pub base32 : Text
base32 = codes "ABCDEFGHIJKLMNOPQRSTUVWXYZ234567"

-- `u64::from_be_bytes`
abbrev pub from_be_bytes : ℕ → Bytes → ℕ
from_be_bytes n [] = n
from_be_bytes n (b ∷ bs) = from_be_bytes (n * 256 + b) bs

-- The rounds of the loop from `index` on: `bits >> (59 - 5 * index) & 31`, with a hyphen before each
-- fourth character but the first.
unfoldable pub code_from : ℕ → ℕ → ℕ → Text
code_from zero index bits = []
code_from (suc rounds) index bits =
    let rest =
      get_or base32 (bits / 2 ^ (59 - 5 * index) % 32) 0 ∷ code_from rounds (index + 1) bits in
    if ltb 0 index && index % 4 == 0 then b'-' ∷ rest else rest

abbrev pub to_ascii_uppercase : ℕ → ℕ
to_ascii_uppercase c = if leb b'a' c && leb c b'z' then c - 32 else c

-- The closure `plain`: hyphens and spaces dropped, letters in upper case.
unfoldable pub plain : Text → Text
plain text = map to_ascii_uppercase (filter (λ c. not (c == b'-' || c == b' ')) text)

module _ (lib : Libs) where
  -- The id the device will have in the history.
  unfoldable pub id : Request → Text
  id self = device_id lib self.sign_key self.box_key

  unfoldable pub read_request : Bytes → Option Request
  read_request raw = do
    value ← parse lib raw
    fields ← fields_of value request_fields
    account ← string fields (codes "account")
    root ← string fields (codes "root")
    name ← string fields (codes "name")
    sign_key ← string fields (codes "sign")
    box_key ← string fields (codes "box")
    nonce ← string fields (codes "nonce")
    created ← integer fields (codes "created")
    root_key ← Common.to_option (decode_exact lib 32 root)
    box_bytes ← Common.to_option (decode_exact lib 32 box_key)
    nonce_bytes ← Common.to_option (decode_exact lib 24 nonce)
    check (leb (byte_len name) max_device_name)
    some (record {
      account = account;
      root = root;
      name = name;
      sign_key = sign_key;
      box_key = box_key;
      nonce = nonce;
      created = created;
    })
