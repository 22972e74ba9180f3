-- ===== src/Client/Actions/Names.antt =====
-- `device_name` of crates/slink-client/src/identity.rs: what is left of a long name.
use mathlib.Core.List.{append_assoc}
use mathlib.Core.Path.{subst}
use session_link.Client.Actions.Trimmed.{IsTrimmed, trim-IsTrimmed}
use session_link.Protocol.Recovery.{trim}
use session_link.Common.{
  Text-discrete, ◌⊎◌, ℕ, zero, suc, ◌+◌, ◌-◌, ◌≤◌, Option-cases, none, some, inl, inr, [], ◌∷◌,
  ◌++◌, Text, length, length-append, byte_len, as_bytes, utf8_char, ltb, nat_eq, text_eq,
  if◌then◌else◌, ◌≡◌, ◌≢◌, refl, sym, ap, ◌∙◌, arith,
}
use session_link.Client.Actions.{max_name, prefix_at, cut, device_name, codes}

as_bytes-append : (s t : Text) → as_bytes (s ++ t) ≡ as_bytes s ++ as_bytes t
unfolding as_bytes
as_bytes-append [] t = refl
as_bytes-append (c ∷ s) t =
    ap (λ b. utf8_char c ++ b) (as_bytes-append s t)
    ∙ sym (append_assoc (utf8_char c) (as_bytes s) (as_bytes t))

length-utf8_char : (c : ℕ) → 1 ≤ length (utf8_char c)
unfolding utf8_char
length-utf8_char c = ground arith

byte_len-cons : (c : ℕ) (t : Text) → byte_len (c ∷ t) ≡ length (utf8_char c) + byte_len t
unfolding byte_len as_bytes
byte_len-cons c t = length-append (utf8_char c) (as_bytes t)

byte_len-nil : byte_len [] ≡ 0
unfolding byte_len as_bytes
byte_len-nil = refl

prefix_at-length :
    (size : ℕ) (text before : Text)
    → prefix_at size text ≡ some before
    → (byte_len before ≡ size) × ((after : Text) × (text ≡ before ++ after))
unfolding prefix_at
prefix_at-length zero text before h =
    let none_before : [] ≡ before = ground arith in
    (ap byte_len (sym none_before) ∙ byte_len-nil, (text, ap (λ t. t ++ text) none_before))
prefix_at-length (suc size) [] before h = absurd (ground arith)
prefix_at-length (suc size) (c ∷ text) before h =
    elim (Option-cases (prefix_at (suc size - length (utf8_char c)) text)) [
      | inl p ↦ absurd (ground arith)
      | inr (rest, p) ↦
          let (len, (after, eq)) = prefix_at-length (suc size - length (utf8_char c)) text rest p in
          let same : c ∷ rest ≡ before = ground arith in
          let room : length (utf8_char c) ≤ suc size = ground arith in
          (
            ap byte_len (sym same) ∙ byte_len-cons c rest ∙ omega (arith, len, room),
            (after, ap (λ t. c ∷ t) eq ∙ ap (λ t. t ++ after) same),
          )
    ]

prefix_at-cons :
    (size c : ℕ) (text before : Text)
    → 1 ≤ size
    → length (utf8_char c) ≤ size
    → prefix_at (size - length (utf8_char c)) text ≡ some before
    → prefix_at size (c ∷ text) ≡ some (c ∷ before)
unfolding prefix_at
prefix_at-cons zero c text before one h p = absurd (omega (arith, one))
prefix_at-cons (suc size) c text before one h p = ground (arith, h)

prefix_at_zero : (text : Text) → prefix_at 0 text ≡ some []
unfolding prefix_at
prefix_at_zero text = refl

prefix_at_found :
    (before after : Text) → prefix_at (byte_len before) (before ++ after) ≡ some before
prefix_at_found [] after = ap (λ n. prefix_at n after) byte_len-nil ∙ prefix_at_zero after
prefix_at_found (c ∷ before) after =
    let size = byte_len-cons c before in
    let positive = length-utf8_char c in
    prefix_at-cons (byte_len (c ∷ before)) c (before ++ after) before
      (omega (arith, size, positive)) (omega (arith, size))
      (ap (λ n. prefix_at n (before ++ after)) (omega (arith, size)) ∙ prefix_at_found before after)

cut-prefix :
    (end : ℕ) (name : Text)
    → (byte_len (cut end name) ≤ end) × ((after : Text) × (name ≡ cut end name ++ after))
unfolding cut
cut-prefix zero name = (omega (arith, byte_len-nil), (name, refl))
cut-prefix (suc end) name = elim (Option-cases (prefix_at (suc end) name)) [
  | inl p ↦
      let (len, (after, eq)) = cut-prefix end name in
      let same : cut (suc end) name ≡ cut end name = ground arith in
      (omega (arith, ap byte_len same, len), (after, eq ∙ ap (λ t. t ++ after) (sym same)))
  | inr (before, p) ↦
      let (len, (after, eq)) = prefix_at-length (suc end) name before p in
      let same : cut (suc end) name ≡ before = ground arith in
      (omega (arith, ap byte_len same, len), (after, eq ∙ ap (λ t. t ++ after) (sym same)))
]

missed :
    (end : ℕ) (name before after : Text)
    → prefix_at (suc end) name ≡ none
    → name ≡ before ++ after
    → byte_len before ≢ suc end
missed end name before after q p e =
    let found =
      ap (λ n. prefix_at n name) (sym e)
      ∙ ap (prefix_at (byte_len before)) p
      ∙ prefix_at_found before after in
    absurd (ground (arith, found, q))

byte_len-append : (s t : Text) → byte_len (s ++ t) ≡ byte_len s + byte_len t
unfolding byte_len
byte_len-append s t = ap length (as_bytes-append s t) ∙ length-append (as_bytes s) (as_bytes t)

-- A beginning of a name in whole characters, of at most eighty bytes, and the longest such.
pub record IsLongest (name kept : Text) : Type 0 where
  pub some_name : name ≢ []
  pub short : byte_len kept ≤ 80
  pub after : Text
  pub name_eq : name ≡ kept ++ after
  pub longest :
      (before rest : Text)
      → name ≡ before ++ rest
      → byte_len before ≤ 80
      → byte_len before ≤ byte_len kept

cut-longest :
    (end : ℕ) (name before after : Text)
    → name ≡ before ++ after
    → byte_len before ≤ end
    → byte_len before ≤ byte_len (cut end name)
unfolding cut
cut-longest zero name before after p h = omega (arith, h)
cut-longest (suc end) name before after p h = elim (Option-cases (prefix_at (suc end) name)) [
  | inl q ↦
      let same : cut (suc end) name ≡ cut end name = ground arith in
      let other = missed end name before after q p in
      omega (
        arith,
        ap byte_len same,
        h,
        other,
        cut-longest end name before after p (omega (arith, h, other)),
      )
  | inr (found, q) ↦
      let (len, (rest, eq)) = prefix_at-length (suc end) name found q in
      let same : cut (suc end) name ≡ found = ground arith in
      omega (arith, ap byte_len same, len, h)
]

cut-IsLongest :
    (name : Text)
    → name ≢ []
    → IsLongest name (cut (if ltb (byte_len name) max_name then byte_len name else max_name) name)
cut-IsLongest name some_name =
    let end = if ltb (byte_len name) max_name then byte_len name else max_name in
    let small : end ≤ max_name = ground arith in
    let (len, (after, eq)) = cut-prefix end name in
    record {
      some_name = some_name;
      short = omega (arith, len, small);
      after = after;
      name_eq = eq;
      longest = λ before rest p h.
          let within : byte_len before ≤ end =
            ground (arith, h, ap byte_len p, byte_len-append before rest) in
          cut-longest end name before rest p within;
    }

-- The name of a device: what is given, without the white space around it, or as much of that, in whole
-- characters, as eighty bytes hold; and `My device` when nothing is left.
pub device_name_lem :
    (given : Text)
    → (name : Text) × IsTrimmed given name
      × (((name ≡ []) × (device_name given ≡ codes "My device"))
          ⊎ IsLongest name (device_name given))
unfolding device_name
device_name_lem given = elim (Text-discrete (trim given) []) [
  | yes p ↦ (trim given, trim-IsTrimmed given, inl (p, ground (arith, p)))
  | no n ↦
      let end = if ltb (byte_len (trim given)) max_name then byte_len (trim given) else max_name in
      let same : cut end (trim given) ≡ device_name given = ground (arith, n) in
      (
        trim given,
        trim-IsTrimmed given,
        inr (subst (IsLongest (trim given)) same (cut-IsLongest (trim given) n)),
      )
]
