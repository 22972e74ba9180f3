-- ===== src/Client/Named/Address.antt =====
-- `email_address` of crates/slink-client/src/named.rs against the pattern that its comment gives.
use mathlib.Core.Path.{subst}
use session_link.Common.{
  ℕ, ℕ_discrete, ◌≤◌, Bool, true, false, Option-cases, inl, inr, [], ◌∷◌, ◌++◌, Text, ◌≡◌, ◌≢◌, ◌↔◌,
  refl, sym, ◌∙◌, ap, all, arith, length, byte_len, as_bytes-IsAscii, IsAscii,
}
use session_link.Protocol.Wrap.{split_once}
use session_link.Client.Named.{email_address, local_char, name_char, alnum, lowercase}
use session_link.Client.Texts.{
  rsplit_once, first_is, last_is, split_once-eq-some, split_once-found, rsplit_once-eq-some,
  rsplit_once-found, contains-all,
}

-- `[a-z0-9](?:[a-z0-9.-]*[a-z0-9])?`
pub data IsName : Text → Type 0 where
  one : (c : ℕ) → alnum c ≡ true → IsName (c ∷ [])
  more :
      (c d : ℕ) (middle : Text)
      → alnum c ≡ true
      → all name_char middle ≡ true
      → alnum d ≡ true
      → IsName (c ∷ (middle ++ (d ∷ [])))

-- `^[a-z0-9.!#$%&'*+/=?^_`{|}~-]+@[a-z0-9](?:[a-z0-9.-]*[a-z0-9])?\.[a-z]{2,63}$`
pub record IsAddress (text : Text) : Type 0 where
  pub local : Text
  pub name : Text
  pub top : Text
  pub text_eq : text ≡ local ++ (b'@' ∷ (name ++ (b'.' ∷ top)))
  pub local_some : local ≢ []
  pub local_chars : all local_char local ≡ true
  pub name_shape : IsName name
  pub top_chars : all lowercase top ≡ true
  pub top_length : (2 ≤ length top) × (length top ≤ 63)

-- The tests on the name, together, are its part of the pattern.
last-IsName :
    (c d : ℕ) (text : Text)
    → alnum c ≡ true
    → all name_char (d ∷ text) ≡ true
    → last_is alnum (d ∷ text) ≡ true
    → (middle : Text) × (e : ℕ) × (d ∷ text ≡ middle ++ (e ∷ []))
      × (all name_char middle ≡ true)
      × (alnum e ≡ true)
last-IsName c d [] p q r = ([], d, refl, refl, r)
last-IsName c d (e ∷ text) p q r =
    let (middle, f, eq, chars, last) = last-IsName c e text p (ground arith) r in
    (d ∷ middle, f, ap (λ t. d ∷ t) eq, ground arith, last)

tests-IsName :
    (name : Text)
    → first_is alnum name ≡ true
    → last_is alnum name ≡ true
    → all name_char name ≡ true
    → IsName name
tests-IsName [] p q r = absurd (ground arith)
tests-IsName (c ∷ []) p q r = IsName.one c p
tests-IsName (c ∷ d ∷ text) p q r =
    let (middle, e, eq, chars, last) = last-IsName c d text p (ground arith) q in
    subst (λ t. IsName (c ∷ t)) (sym eq) (IsName.more c e middle p chars last)

last_is-append :
    (p : ℕ → Bool) (c d : ℕ) (middle : Text) → last_is p (c ∷ (middle ++ (d ∷ []))) ≡ p d
last_is-append p c d [] = refl
last_is-append p c d (e ∷ middle) = last_is-append p e d middle

all-append : (p : ℕ → Bool) (s t : Text) → all p s ≡ true → all p t ≡ true → all p (s ++ t) ≡ true
all-append p [] t a b = b
all-append p (c ∷ s) t a b = ground (arith, all-append p s t)

IsName-tests :
    (name : Text)
    → IsName name
    → (first_is alnum name ≡ true) × (last_is alnum name ≡ true) × (all name_char name ≡ true)
IsName-tests _ (IsName.one c a) = (a, a, ground arith)
IsName-tests _ (IsName.more c d middle a b e) =
    (a, last_is-append alnum c d middle ∙ e, ground (arith, all-append name_char middle (d ∷ []) b))

lowercase-length : (top : Text) → all lowercase top ≡ true → byte_len top ≡ length top
unfolding byte_len
lowercase-length top h = ap length (as_bytes-IsAscii top (ascii top h))
  where
    ascii : (t : Text) → all lowercase t ≡ true → IsAscii t
    ascii [] h = tt
    ascii (c ∷ t) h = (ground arith, ascii t (ground arith))

at_outside : local_char b'@' ≡ false
unfolding ℕ_discrete
at_outside = refl

email_address_sound : (text : Text) → email_address text ≡ true → IsAddress text
unfolding email_address
email_address_sound text h = elim (Option-cases (split_once b'@' text)) [
  | inl p ↦ absurd (ground arith)
  | inr ((local, domain), p) ↦ elim (Option-cases (rsplit_once b'.' domain)) [
    | inl q ↦ absurd (ground arith)
    | inr ((name, top), q) ↦ record {
      local = local;
      name = name;
      top = top;
      text_eq =
          (split_once-eq-some b'@' text local domain p).0
          ∙ ap (λ t. local ++ (b'@' ∷ t)) (rsplit_once-eq-some b'.' domain name top q);
      local_some = ground arith;
      local_chars = ground arith;
      name_shape = tests-IsName name (ground arith) (ground arith) (ground arith);
      top_chars = ground arith;
      top_length = let len = lowercase-length top (ground arith) in (ground arith, ground arith);
    }
  ]
]

email_address_complete : (text : Text) → IsAddress text → email_address text ≡ true
unfolding email_address
email_address_complete text a =
    let p =
      ap (split_once b'@') a.text_eq
      ∙ split_once-found b'@' a.local (a.name ++ (b'.' ∷ a.top))
          (contains-all local_char b'@' a.local at_outside a.local_chars) in
    let q =
      rsplit_once-found b'.' a.name a.top (contains-all lowercase b'.' a.top refl a.top_chars) in
    let (first, last, chars) = IsName-tests a.name a.name_shape in
    let len = lowercase-length a.top a.top_chars in
    ground (arith, a.local_some, a.local_chars, a.top_chars, a.top_length)

-- A text is taken for an email address exactly when it matches the pattern that the source gives.
pub email_address_lem : (text : Text) → (email_address text ≡ true) ↔ IsAddress text
email_address_lem text = (email_address_sound text, email_address_complete text)
