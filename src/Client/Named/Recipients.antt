-- ===== src/Client/Named/Recipients.antt =====
-- `recipients` of crates/slink-client/src/named.rs: what the list of addresses is, and when it is
-- refused.
use mathlib.Core.Path.{subst}
use session_link.Common.{
  Text-discrete, Bool-cases, ◌≤◌, Bool, true, false, ◌||◌, ◌&&◌, List, [], ◌∷◌, map, Text, ◌≡◌, ◌↔◌,
  refl, sym, ◌∙◌, ap, arith, length, contains, byte_len, leb, ◌==◌, text_eq, Result-cases, ok, inl,
  inr, all,
}
use session_link.Protocol.Payload.{text_lt}
use session_link.Client.Maps.{IsBefore, IsRising, text_lt_total, text_lt_irrefl, text_lt_trans}
use session_link.Client.Named.{
  email_address, sorted_insert, sort, dedup, addresses, recipients, max_recipients,
}

abbrev IsNotAfter : Text → List Text → Type 0
IsNotAfter a [] = Unit
IsNotAfter a (b ∷ rest) = text_lt b a ≡ false

abbrev IsSorted : List Text → Type 0
IsSorted [] = Unit
IsSorted (a ∷ rest) = IsNotAfter a rest × IsSorted rest

sorted_insert-IsNotAfter :
    (a t : Text) (rest : List Text)
    → text_lt t a ≡ false
    → IsNotAfter a rest
    → IsNotAfter a (sorted_insert t rest)
unfolding sorted_insert
sorted_insert-IsNotAfter a t [] p h = p
sorted_insert-IsNotAfter a t (b ∷ rest) p h = ground arith

text_lt_asym : (s t : Text) → text_lt s t ≡ true → text_lt t s ≡ false
unfolding text_lt
text_lt_asym [] [] h = refl
text_lt_asym [] (d ∷ t) h = refl
text_lt_asym (c ∷ s) [] h = absurd (ground arith)
text_lt_asym (c ∷ s) (d ∷ t) h = ground (arith, text_lt_asym s t)

sorted_insert-IsSorted :
    (t : Text) (rest : List Text) → IsSorted rest → IsSorted (sorted_insert t rest)
unfolding sorted_insert
sorted_insert-IsSorted t [] h = (tt, tt)
sorted_insert-IsSorted t (b ∷ rest) h =
    ground (
      arith,
      sorted_insert-IsSorted t rest h.1,
      sorted_insert-IsNotAfter b t rest,
      text_lt_asym b t,
    )

sort-IsSorted : (texts : List Text) → IsSorted (sort texts)
unfolding sort
sort-IsSorted [] = tt
sort-IsSorted (t ∷ texts) = sorted_insert-IsSorted t (sort texts) (sort-IsSorted texts)

dedup-IsBefore :
    (a b : Text) (rest : List Text) → text_lt a b ≡ true → IsBefore a (dedup (b ∷ rest))
unfolding dedup
dedup-IsBefore a b [] h = h
dedup-IsBefore a b (c ∷ rest) h = ground (arith, dedup-IsBefore a c rest)

dedup-IsRising : (texts : List Text) → IsSorted texts → IsRising (dedup texts)
unfolding dedup
dedup-IsRising [] h = tt
dedup-IsRising (a ∷ []) h = (tt, tt)
dedup-IsRising (a ∷ b ∷ rest) h =
    ground (arith, dedup-IsRising (b ∷ rest) h.1, dedup-IsBefore a b rest, text_lt_total b a)

contains-sorted_insert :
    (s t : Text) (rest : List Text) → contains s (sorted_insert t rest) ≡ contains s (t ∷ rest)
unfolding sorted_insert
contains-sorted_insert s t [] = refl
contains-sorted_insert s t (b ∷ rest) = ground (arith, contains-sorted_insert s t rest)

contains-sort : (s : Text) (texts : List Text) → contains s (sort texts) ≡ contains s texts
unfolding sort
contains-sort s [] = refl
contains-sort s (t ∷ texts) =
    contains-sorted_insert s t (sort texts) ∙ ap (λ b. s == t || b) (contains-sort s texts)

contains-dedup : (s : Text) (texts : List Text) → contains s (dedup texts) ≡ contains s texts
unfolding dedup
contains-dedup s [] = refl
contains-dedup s (a ∷ []) = refl
contains-dedup s (a ∷ b ∷ rest) = ground (arith, contains-dedup s (b ∷ rest))

-- What each address passed.
abbrev pub accepted : Text → Bool
accepted email = leb (byte_len email) 254 && email_address email

addresses-eq-ok :
    (normal : Text → Text) (values out : List Text)
    → addresses normal values ≡ ok out
    → (out ≡ map normal values) × (all accepted (map normal values) ≡ true)
unfolding addresses
addresses-eq-ok normal [] out h = ground arith
addresses-eq-ok normal (value ∷ values) out h = elim (Result-cases (addresses normal values)) [
  | inr (e, p) ↦ absurd (ground arith)
  | inl (rest, p) ↦ ground (arith, addresses-eq-ok normal values rest p)
]

addresses_complete :
    (normal : Text → Text) (values : List Text)
    → all accepted (map normal values) ≡ true
    → addresses normal values ≡ ok (map normal values)
unfolding addresses
addresses_complete normal [] h = refl
addresses_complete normal (value ∷ values) h = ground (arith, addresses_complete normal values)

not_contains-IsBefore :
    (a : Text) (texts : List Text) → IsBefore a texts → IsRising texts → contains a texts ≡ false
not_contains-IsBefore a [] h r = refl
not_contains-IsBefore a (b ∷ []) h r = ground (arith, text_lt_irrefl a)
not_contains-IsBefore a (b ∷ c ∷ rest) h r =
    ground
      (arith, text_lt_irrefl a, not_contains-IsBefore a (c ∷ rest) (text_lt_trans a b c h r.0) r.1)

contains-head : (x : Text) (xs : List Text) → contains x (x ∷ xs) ≡ true
contains-head x xs = ground arith

rising_heads :
    (x y : Text) (xs ys : List Text)
    → IsRising (x ∷ xs)
    → IsRising (y ∷ ys)
    → ((t : Text) → contains t (x ∷ xs) ≡ contains t (y ∷ ys))
    → x ≡ y
rising_heads x y xs ys r s h = elim (Text-discrete x y) [
  | yes p ↦ p
  | no n ↦ elim (Bool-cases (text_lt x y)) [
    | inl p ↦ absurd (ground (arith, h x, contains-head x xs, not_contains-IsBefore x (y ∷ ys) p s))
    | inr p ↦
        let q = text_lt_total x y n p in
        absurd (ground (arith, h y, contains-head y ys, not_contains-IsBefore y (x ∷ xs) q r))
  ]
]

rising_tails :
    (x : Text) (xs ys : List Text)
    → IsRising (x ∷ xs)
    → IsRising (x ∷ ys)
    → ((t : Text) → contains t (x ∷ xs) ≡ contains t (x ∷ ys))
    → (t : Text) → contains t xs ≡ contains t ys
rising_tails x xs ys r s h t = elim (Text-discrete t x) [
  | yes p ↦ rw p (not_contains-IsBefore x xs r.0 r.1 ∙ sym (not_contains-IsBefore x ys s.0 s.1))
  | no n ↦ ground (arith, h t)
]

-- A list in order is known by what it contains.
rising_unique :
    (xs ys : List Text)
    → IsRising xs
    → IsRising ys
    → ((t : Text) → contains t xs ≡ contains t ys)
    → xs ≡ ys
rising_unique [] [] r s h = refl
rising_unique [] (y ∷ ys) r s h = absurd (ground (arith, h y))
rising_unique (x ∷ xs) [] r s h = absurd (ground (arith, h x))
rising_unique (x ∷ xs) (y ∷ ys) r s h =
    let p = rising_heads x y xs ys r s h in
    let s' = subst (λ z. IsRising (z ∷ ys)) (sym p) s in
    let h' = subst (λ z. (t : Text) → contains t (x ∷ xs) ≡ contains t (z ∷ ys)) (sym p) h in
    ground (arith, rising_unique xs ys r.1 s.1 (rising_tails x xs ys r s' h'))

-- What the list of recipients is.
pub record IsRecipients (normal : Text → Text) (values out : List Text) : Type 0 where
  pub number : (1 ≤ length values) × (length values ≤ max_recipients)
  pub addresses : all accepted (map normal values) ≡ true
  pub rising : IsRising out
  pub members : (t : Text) → contains t out ≡ contains t (map normal values)

recipients_sound :
    (normal : Text → Text) (values out : List Text)
    → recipients normal values ≡ ok out
    → IsRecipients normal values out
unfolding recipients
recipients_sound normal values out h = elim (Result-cases (addresses normal values)) [
  | inr (e, p) ↦ absurd (ground arith)
  | inl (found, p) ↦
      let (eq, every) = addresses-eq-ok normal values found p in
      let out_eq : out ≡ dedup (sort (map normal values)) = ground arith in
      record {
        number = (ground arith, ground arith);
        addresses = every;
        rising = subst IsRising (sym out_eq) (dedup-IsRising _ (sort-IsSorted (map normal values)));
        members = λ t.
            ap (contains t) out_eq
            ∙ contains-dedup t (sort (map normal values))
            ∙ contains-sort t (map normal values);
      }
]

recipients_complete :
    (normal : Text → Text) (values out : List Text)
    → IsRecipients normal values out
    → recipients normal values ≡ ok out
unfolding recipients
recipients_complete normal values out is =
    let found = addresses_complete normal values is.addresses in
    let out_eq : dedup (sort (map normal values)) ≡ out =
      rising_unique _ out (dedup-IsRising _ (sort-IsSorted (map normal values))) is.rising (λ t.
        contains-dedup t (sort (map normal values))
        ∙ contains-sort t (map normal values)
        ∙ sym (is.members t)) in
    ground (arith, is.number)

-- A list of recipients is answered exactly when one to ten were typed, each of them, in its normal
-- form, an email address of at most 254 bytes; and it is then the one list that has these addresses,
-- each once and in order.
pub recipients_lem :
    (normal : Text → Text) (values out : List Text)
    → (recipients normal values ≡ ok out) ↔ IsRecipients normal values out
recipients_lem normal values out =
    (recipients_sound normal values out, recipients_complete normal values out)
