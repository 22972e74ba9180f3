-- ===== src/Client/Origin/Safe.antt =====
-- What `origin` of crates/slink-client/src/origin.rs lets through.
use mathlib.Core.List.{append-nil}
use session_link.Common.{
  ℕ, ℕ_discrete, Text-discrete, true, false, not, Option-cases, none, some, List, [], ◌∷◌, ◌++◌,
  Text, codes, all, ◌≡◌, ◌≢◌, ◌⊎◌, inl, inr, refl, sym, ◌∙◌, ap, arith, contains, nat_eq, text_eq,
  ok, map,
}
use session_link.Protocol.Wrap.{split_once}
use session_link.Client.Named.{digit}
use session_link.Client.Texts.{
  rsplit_once, strip_prefix, split_once-eq-some, rsplit_once-eq-some, strip_prefix-eq-some,
}
use session_link.Client.Origin.{
  Addresses, refused_char, has_refused, first_part, trim_end, to_lower, host_char, port_after,
  host_port, hostname, loopback, allowed, origin,
}

-- The rest of an authority after its host: nothing, or a colon and digits.
abbrev pub IsPort : Text → Type 0
IsPort after = (after ≡ []) ⊎ ((port : Text) × (after ≡ b':' ∷ port) × (all digit port ≡ true))

-- A path: nothing, or what starts with a slash.
abbrev pub IsPath : Text → Type 0
IsPath path = (path ≡ []) ⊎ ((rest : Text) × (path ≡ b'/' ∷ rest))

module _ (std : Addresses) where
  -- A host that stands for itself, or an IPv6 address in brackets.
  abbrev pub IsHost : Text → Text → Type 0
  IsHost host spelt =
      ((spelt ≡ host) × (all host_char host ≡ true))
      ⊎ ((spelt ≡ b'[' ∷ (host ++ codes "]"))
          × ((segments : List ℕ) × (std.parse_v6 host ≡ some segments)))

  -- `{scheme}://{host}{port}{path}`, with a scheme that is safe for the host, and no user, query,
  -- fragment, space or control character; and `made` is this without the slashes at its end.
  pub record IsSafe (server made : Text) : Type 0 where
    pub scheme : Text
    pub host : Text
    pub spelt : Text
    pub after : Text
    pub path : Text
    pub server_eq : server ≡ scheme ++ (codes "://" ++ (spelt ++ (after ++ path)))
    pub plain : all (λ c. not (refused_char c)) server ≡ true
    pub is_host : IsHost host spelt
    pub host_some : host ≢ []
    pub is_port : IsPort after
    pub is_path : IsPath path
    pub no_user : contains b'@' (spelt ++ after) ≡ false
    pub safe :
        (map to_lower scheme ≡ codes "https")
        ⊎ ((map to_lower scheme ≡ codes "http")
            × ((host ≡ codes "localhost") ⊎ (loopback std host ≡ true)))
    pub made_eq : made ≡ trim_end server

first_part-IsPath : (rest : Text) → (path : Text) × (rest ≡ first_part rest ++ path) × IsPath path
unfolding first_part
first_part-IsPath [] = ([], refl, inl refl)
first_part-IsPath (c ∷ rest) =
    let (path, eq, is) = first_part-IsPath rest in
    elim (ℕ_discrete c b'/') [
      | yes p ↦ (c ∷ rest, ground arith, inr (rest, ground arith))
      | no n ↦ (path, ground arith, is)
    ]

has_refused-all :
    (text : Text) → has_refused text ≡ false → all (λ c. not (refused_char c)) text ≡ true
unfolding has_refused
has_refused-all [] h = refl
has_refused-all (c ∷ text) h = ground (arith, has_refused-all text)

append_assoc : (a b c : Text) → (a ++ b) ++ c ≡ a ++ (b ++ c)
append_assoc [] b c = refl
append_assoc (x ∷ a) b c = ap (λ t. x ∷ t) (append_assoc a b c)

module _ (std : Addresses) where
  -- What an authority is made of.
  record IsAuthority (authority host : Text) : Type 0 where
    spelt : Text
    after : Text
    authority_eq : authority ≡ spelt ++ after
    is_host : IsHost std host spelt
    is_port : IsPort after

  port_after-IsPort :
      (after port : Text) → port_after after ≡ some port → all digit port ≡ true → IsPort after
  port_after-IsPort after port h d = elim (Text-discrete after []) [
    | yes p ↦ inl p
    | no n ↦ inr (port, strip_prefix-eq-some (codes ":") after port (ground arith), d)
  ]

  bracketed :
      (authority rest host port : Text)
      → strip_prefix (codes "[") authority ≡ some rest
      → host_port std authority ≡ some (host, port)
      → all digit port ≡ true
      → IsAuthority authority host
  unfolding host_port
  bracketed authority rest host port p h d = elim (Option-cases (split_once b']' rest)) [
    | inl q ↦ absurd (ground arith)
    | inr ((inside, after), q) ↦ elim (Option-cases (std.parse_v6 inside)) [
      | inl r ↦ absurd (ground arith)
      | inr (segments, r) ↦ elim (Option-cases (port_after after)) [
        | inl s ↦ absurd (ground arith)
        | inr (found, s) ↦
            let same : inside ≡ host = ground arith in
            let same_port : found ≡ port = ground arith in
            record {
              spelt = b'[' ∷ (inside ++ codes "]");
              after = after;
              authority_eq =
                  strip_prefix-eq-some (codes "[") authority rest p
                  ∙ ap (λ t. b'[' ∷ t)
                      ((split_once-eq-some b']' rest inside after q).0
                        ∙ sym (append_assoc inside (codes "]") after));
              is_host = inr (
                ap (λ t. b'[' ∷ (t ++ codes "]")) same,
                (segments, ap std.parse_v6 (sym same) ∙ r),
              );
              is_port = port_after-IsPort after found s (ap (all digit) same_port ∙ d);
            }
      ]
    ]
  ]

  bare :
      (authority host port : Text)
      → strip_prefix (codes "[") authority ≡ none
      → host_port std authority ≡ some (host, port)
      → all digit port ≡ true
      → IsAuthority authority host
  unfolding host_port
  bare authority host port p h d = elim (Option-cases (rsplit_once b':' authority)) [
    | inl q ↦ record {
      spelt = authority;
      after = [];
      authority_eq = sym (append-nil authority);
      is_host = inl (ground arith, ground arith);
      is_port = inl refl;
    }
    | inr ((found, after), q) ↦ record {
      spelt = found;
      after = b':' ∷ after;
      authority_eq = rsplit_once-eq-some b':' authority found after q;
      is_host = inl (ground arith, ground arith);
      is_port = inr (after, refl, ground arith);
    }
  ]

  hostname-IsAuthority :
      (authority host : Text)
      → hostname std authority ≡ some host
      → (host ≢ []) × IsAuthority authority host
  unfolding hostname
  hostname-IsAuthority authority host h = elim (Option-cases (host_port std authority)) [
    | inl p ↦ absurd (ground arith)
    | inr ((found, port), p) ↦
        let some_host : host ≢ [] = ground arith in
        let digits : all digit port ≡ true = ground arith in
        let same : host_port std authority ≡ some (host, port) = ground arith in
        elim (Option-cases (strip_prefix (codes "[") authority)) [
          | inl q ↦ (some_host, bare authority host port q same digits)
          | inr (rest, q) ↦ (some_host, bracketed authority rest host port q same digits)
        ]
  ]

  allowed-safe :
      (scheme host : Text)
      → allowed std scheme host ≡ true
      → (map to_lower scheme ≡ codes "https")
        ⊎ ((map to_lower scheme ≡ codes "http")
            × ((host ≡ codes "localhost") ⊎ (loopback std host ≡ true)))
  unfolding allowed
  allowed-safe scheme host h = elim (Text-discrete (map to_lower scheme) (codes "https")) [
    | yes p ↦ inl p
    | no n ↦ elim (Text-discrete host (codes "localhost")) [
      | yes q ↦ inr (ground arith, inl q)
      | no m ↦ inr (ground arith, inr (ground arith))
    ]
  ]

  -- A server that a key may be sent to is an HTTPS URL, or a plain HTTP URL whose host is this
  -- machine; it has a host, a port of digits or none, no user, and none of the characters by which
  -- one reader may take its host for another's. The answer is the text without its last slashes.
  pub origin-IsSafe : (server made : Text) → origin std server ≡ ok made → IsSafe std server made
  unfolding origin
  origin-IsSafe server made h = elim (Option-cases (split_once b':' server)) [
    | inl p ↦ absurd (ground arith)
    | inr ((scheme, tail), p) ↦ elim (Option-cases (strip_prefix (codes "//") tail)) [
      | inl q ↦ absurd (ground arith)
      | inr (rest, q) ↦ elim (Option-cases (hostname std (first_part rest))) [
        | inl r ↦ absurd (ground arith)
        | inr (host, r) ↦
            let (path, path_eq, is_path) = first_part-IsPath rest in
            let (host_some, authority) = hostname-IsAuthority (first_part rest) host r in
            record {
              scheme = scheme;
              host = host;
              spelt = authority.spelt;
              after = authority.after;
              path = path;
              server_eq =
                  (split_once-eq-some b':' server scheme tail p).0
                  ∙ ap (λ t. scheme ++ (b':' ∷ t))
                      (strip_prefix-eq-some (codes "//") tail rest q
                        ∙ ap (λ t. codes "//" ++ t)
                            (path_eq
                              ∙ ap (λ t. t ++ path) authority.authority_eq
                              ∙ append_assoc authority.spelt authority.after path));
              plain = has_refused-all server (ground arith);
              is_host = authority.is_host;
              host_some = host_some;
              is_port = authority.is_port;
              is_path = is_path;
              no_user = ap (contains b'@') (sym authority.authority_eq) ∙ (ground arith);
              safe = allowed-safe scheme host (ground arith);
              made_eq = ground arith;
            }
      ]
    ]
  ]
