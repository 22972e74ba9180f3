-- ===== src/Client/Receipt/Links.antt =====
-- `Receipt::valid` of crates/slink-client/src/vault.rs: which receipts are whole links.
use session_link.Common.{
  ℕ_discrete, nat_eq, text_eq, true, false, Option-cases, some, inl, inr, ◌∷◌, ◌++◌, Text, Bytes,
  codes, ◌≡◌, ◌↔◌, refl, ◌∙◌, ap, all, contains, arith, byte_len, Result-cases, ok, ℕ_discrete,
}
use session_link.Protocol.Crypto.{Libs}
use session_link.Protocol.Encoding.{decode_exact}
use session_link.Protocol.Wrap.{split_once}
use session_link.Client.Named.{share_id}
use session_link.Client.Texts.{
  strip_prefix, strip_prefix-eq-some, strip_prefix-append, split_once-eq-some, split_once-found,
  contains-all,
}
use session_link.Client.Receipt.{Receipt, receipt_valid, whole_link, lower_hex}

-- A whole link: `{server}/s/{id}#key={key}`.
pub record IsLink (self : Receipt) (server : Text) : Type 0 where
  pub id : Text
  pub id_valid : share_id id ≡ true
  pub url_eq : self.url ≡ server ++ (codes "/s/" ++ (id ++ (b'#' ∷ (codes "key=" ++ self.key))))

pub record IsReceipt (lib : Libs) (server account : Text) (self : Receipt) : Type 0 where
  pub server_eq : self.server ≡ server
  pub account_eq : self.account ≡ account
  pub hash_length : byte_len self.sha256 ≡ 64
  pub hash_digits : all lower_hex self.sha256 ≡ true
  pub key : Bytes
  pub key_eq : decode_exact lib 32 self.key ≡ ok key
  pub link : IsLink self server

whole_link_sound :
    (self : Receipt) (server : Text) → whole_link self server ≡ some true → IsLink self server
unfolding whole_link
whole_link_sound self server h = elim (Option-cases (strip_prefix server self.url)) [
  | inl p ↦ absurd (ground arith)
  | inr (after, p) ↦ elim (Option-cases (strip_prefix (codes "/s/") after)) [
    | inl q ↦ absurd (ground arith)
    | inr (rest, q) ↦ elim (Option-cases (split_once b'#' rest)) [
      | inl r ↦ absurd (ground arith)
      | inr ((id, fragment), r) ↦
          let s : strip_prefix (codes "key=") fragment ≡ some self.key = ground arith in
          record {
            id = id;
            id_valid = ground arith;
            url_eq =
                strip_prefix-eq-some server self.url after p
                ∙ ap (λ t. server ++ t)
                    (strip_prefix-eq-some (codes "/s/") after rest q
                      ∙ ap (λ t. codes "/s/" ++ t)
                          ((split_once-eq-some b'#' rest id fragment r).0
                            ∙ ap (λ t. id ++ (b'#' ∷ t))
                                (strip_prefix-eq-some (codes "key=") fragment self.key s)));
          }
    ]
  ]
]

hash_outside : contains b'#' (codes "23456789abcdefghjkmnpqrstuvwxyz") ≡ false
unfolding ℕ_discrete
hash_outside = refl

share_id-no_hash : (id : Text) → share_id id ≡ true → contains b'#' id ≡ false
unfolding share_id
share_id-no_hash id h =
    contains-all (λ c. contains c (codes "23456789abcdefghjkmnpqrstuvwxyz")) b'#' id hash_outside
      (ground arith)

whole_link_complete :
    (self : Receipt) (server : Text) → IsLink self server → whole_link self server ≡ some true
unfolding whole_link
whole_link_complete self server link =
    let p = ap (strip_prefix server) link.url_eq ∙ strip_prefix-append server _ in
    let q = strip_prefix-append (codes "/s/") (link.id ++ (b'#' ∷ (codes "key=" ++ self.key))) in
    let r =
      split_once-found b'#' link.id (codes "key=" ++ self.key)
        (share_id-no_hash link.id link.id_valid) in
    let s = strip_prefix-append (codes "key=") self.key in ground (arith, link.id_valid)

receipt_sound :
    (lib : Libs) (server account : Text) (self : Receipt)
    → receipt_valid lib server account self ≡ true
    → IsReceipt lib server account self
unfolding receipt_valid
receipt_sound lib server account self h = elim (Result-cases (decode_exact lib 32 self.key)) [
  | inr (e, p) ↦ absurd (ground arith)
  | inl (key, p) ↦ record {
    server_eq = ground arith;
    account_eq = ground arith;
    hash_length = ground arith;
    hash_digits = ground arith;
    key = key;
    key_eq = p;
    link = whole_link_sound self server (ground arith);
  }
]

receipt_complete :
    (lib : Libs) (server account : Text) (self : Receipt)
    → IsReceipt lib server account self
    → receipt_valid lib server account self ≡ true
unfolding receipt_valid
receipt_complete lib server account self is =
    let link = whole_link_complete self server is.link in
    ground (arith, is.server_eq, is.account_eq, is.hash_length, is.hash_digits, is.key_eq)

-- A receipt is taken exactly when it is for this server and this account, its hash has 64 lower-case
-- hexadecimal digits, its key is 32 bytes, and its link is one made on this server, with an id of the
-- service's alphabet and this key.
pub receipt_valid_lem :
    (lib : Libs) (server account : Text) (self : Receipt)
    → (receipt_valid lib server account self ≡ true) ↔ IsReceipt lib server account self
receipt_valid_lem lib server account self =
    (receipt_sound lib server account self, receipt_complete lib server account self)
