-- ===== src/Tests/Servers.antt =====
-- Runs of crates/slink-client/src/origin.rs, with readers that know three addresses.
use session_link.Common.{
  ℕ_discrete, Text-discrete, none, some, [], ◌∷◌, codes, ◌≡◌, refl, ok, err, ◌==◌, text_eq,
  if◌then◌else◌,
}
use session_link.Protocol.Wrap.{split_once}
use session_link.Client.Origin.{
  Refused, Addresses, escape, has_refused, is_scheme, first_part, trim_end, host_port, hostname,
  loopback, allowed, origin,
}
use session_link.Client.Origin.Safe.{IsSafe, origin-IsSafe}
use session_link.Client.Texts.{rsplit_once, strip_prefix}

abbrev std : Addresses
std = record {
  parse_v4 = λ text.
      if text == codes "127.0.0.1"
      then some (127 ∷ 0 ∷ 0 ∷ 1 ∷ [])
      else if text == codes "10.0.0.1"
      then some (10 ∷ 0 ∷ 0 ∷ 1 ∷ [])
      else none;
  parse_v6 =
      λ text. if text == codes "::1" then some (0 ∷ 0 ∷ 0 ∷ 0 ∷ 0 ∷ 0 ∷ 0 ∷ 1 ∷ []) else none;
}

accepted : origin std (codes "http://127.0.0.1:3838/") ≡ ok (codes "http://127.0.0.1:3838")
unfolding ℕ_discrete Text-discrete split_once rsplit_once strip_prefix escape has_refused is_scheme
    first_part trim_end host_port hostname loopback allowed origin
accepted = refl

servers :
    (origin std (codes "HTTPS://session.link//") ≡ ok (codes "HTTPS://session.link"))
    × (origin std (codes "http://[::1]:3838") ≡ ok (codes "http://[::1]:3838"))
    × (origin std (codes "http://session.link") ≡ err Refused.insecure)
    × (origin std (codes "http://10.0.0.1") ≡ err Refused.insecure)
    × (origin std (codes "https://user@session.link") ≡ err Refused.invalid)
    × (origin std (codes "https://session.link?") ≡ err Refused.invalid)
    × (origin std (codes "https://session.link:x") ≡ err Refused.invalid)
unfolding ℕ_discrete Text-discrete split_once rsplit_once strip_prefix escape has_refused is_scheme
    first_part trim_end host_port hostname loopback allowed origin
servers = (refl, refl, refl, refl, refl, refl, refl)

origin-IsSafe_example : IsSafe std (codes "http://127.0.0.1:3838/") (codes "http://127.0.0.1:3838")
origin-IsSafe_example =
    origin-IsSafe std (codes "http://127.0.0.1:3838/") (codes "http://127.0.0.1:3838") accepted
