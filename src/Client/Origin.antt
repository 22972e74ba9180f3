-- ===== src/Client/Origin.antt =====
-- crates/slink-client/src/origin.rs: which servers a key is sent to. The readers of addresses are of
-- Rust's standard library, and a parameter: an IPv4 address is its four bytes, an IPv6 address its
-- eight segments.
pub mod Safe
use session_link.Common.{
  ℕ, Bool, true, false, not, ◌&&◌, ◌||◌, ◌-◌, ◌+◌, ◌/◌, Option, none, some, List, [], ◌∷◌, ◌++◌,
  Text, codes, all, map, contains, leb, ◌==◌, nat_eq, text_eq, if◌then◌else◌, Result, ok, err,
  ok_or, guard, refuse_if, ◌>>=◌, ◌>>◌,
}
use session_link.Common.Options.{is_some, is_none}
use session_link.Protocol.Wrap.{split_once}
use session_link.Client.Named.{hex_digit, digit, lowercase}
use session_link.Client.Texts.{rsplit_once, strip_prefix, first_is}

pub data Refused : Type 0 where
  invalid insecure : Refused

-- The readers of IPv4 and IPv6 addresses.
pub record Addresses : Type 0 where
  pub parse_v4 : Text → Option (List ℕ)
  pub parse_v6 : Text → Option (List ℕ)

abbrev uppercase : ℕ → Bool
uppercase c = leb b'A' c && leb c b'Z'

abbrev pub alphabetic : ℕ → Bool
alphabetic c = lowercase c || uppercase c

abbrev pub alphanumeric : ℕ → Bool
alphanumeric c = alphabetic c || digit c

-- The closure `escape`, on what follows a `%`.
unfoldable pub escape : Text → Bool
escape (a ∷ b ∷ rest) = hex_digit a && hex_digit b
escape _ = false

abbrev pub refused_char : ℕ → Bool
refused_char c = leb c b' ' || leb 0x7f c || c == b'\\' || c == b'?' || c == b'#'

-- Whether a character is refused, or a `%` that is not an escape.
unfoldable pub has_refused : Text → Bool
has_refused [] = false
has_refused (c ∷ rest) = refused_char c || (c == b'%' && not (escape rest)) || has_refused rest

abbrev pub scheme_char : ℕ → Bool
scheme_char c = alphanumeric c || c == b'+' || c == b'-' || c == b'.'

unfoldable pub is_scheme : Text → Bool
is_scheme [] = false
is_scheme (c ∷ rest) = alphabetic c && all scheme_char rest

-- `split('/').next()`
unfoldable pub first_part : Text → Text
first_part [] = []
first_part (c ∷ rest) = let more = first_part rest in if c == b'/' then [] else c ∷ more

-- `trim_end_matches('/')`
unfoldable pub trim_end : Text → Text
trim_end [] = []
trim_end (c ∷ rest) = let more = trim_end rest in if more == [] && c == b'/' then [] else c ∷ more

abbrev pub to_lower : ℕ → ℕ
to_lower c = if uppercase c then c + 32 else c

abbrev pub host_char : ℕ → Bool
host_char c = alphanumeric c || c == b'-' || c == b'.' || c == b'_' || c == b'~'

abbrev pub port_after : Text → Option Text
port_after after = if after == [] then some [] else strip_prefix (codes ":") after

abbrev pub host_and_port : Text → Text × Text
host_and_port authority = elim (rsplit_once b':' authority) [
  | none ↦ (authority, [])
  | some parts ↦ parts
]

module _ (std : Addresses) where
  -- The `match` of `hostname`: the host and the port.
  unfoldable pub host_port : Text → Option (Text × Text)
  host_port authority = elim (strip_prefix (codes "[") authority) [
    | some rest ↦ elim (split_once b']' rest) [
      | none ↦ none
      | some (inside, after) ↦ elim (std.parse_v6 inside) [
        | none ↦ none
        | some segments ↦ elim (port_after after) [ none ↦ none | some port ↦ some (inside, port) ]
      ]
    ]
    | none ↦
        let parts = host_and_port authority in if all host_char parts.0 then some parts else none
  ]

  unfoldable pub hostname : Text → Option Text
  hostname authority = elim (host_port authority) [
    | none ↦ none
    | some (host, port) ↦ if not (host == []) && all digit port then some host else none
  ]

  -- `Ipv4Addr::is_loopback`
  abbrev pub v4_loopback : List ℕ → Bool
  v4_loopback (a ∷ rest) = a == 127
  v4_loopback [] = false

  -- `::1`, and what `to_ipv4_mapped` makes a loopback address.
  abbrev pub v6_loopback : List ℕ → Bool
  v6_loopback (a ∷ b ∷ c ∷ d ∷ e ∷ f ∷ g ∷ h ∷ []) =
      (a == 0 && b == 0 && c == 0 && d == 0 && e == 0)
      && ((f == 0 && g == 0 && h == 1) || (f == 0xffff && g / 256 == 127))
  v6_loopback _ = false

  unfoldable pub loopback : Text → Bool
  loopback host = elim (std.parse_v4 host) [
    | some bytes ↦ v4_loopback bytes
    | none ↦ elim (std.parse_v6 host) [ some segments ↦ v6_loopback segments | none ↦ false ]
  ]

  -- The `match` on the scheme.
  unfoldable pub allowed : Text → Text → Bool
  allowed scheme host =
      map to_lower scheme == codes "https"
      || (map to_lower scheme == codes "http" && (host == codes "localhost" || loopback host))

  unfoldable pub origin : Text → Result Refused Text
  origin server = do
    refuse_if (has_refused server) Refused.invalid
    parts ← ok_or Refused.invalid (split_once b':' server)
    guard (is_scheme (parts.0)) Refused.invalid
    rest ← ok_or Refused.invalid (strip_prefix (codes "//") (parts.1))
    refuse_if (contains b'@' (first_part rest)) Refused.invalid
    host ← ok_or Refused.invalid (hostname (first_part rest))
    guard (allowed (parts.0) host) Refused.insecure
    ok (trim_end server)
