-- ===== src/Client/Actions/Trimmed.antt =====
-- `str::trim`, which `device_name` of crates/slink-client/src/identity.rs calls.
use mathlib.Core.List.{reverse, reverse-append, reverse-cons, reverse-reverse}
use session_link.Common.{
  ℕ, Bool, true, false, [], ◌∷◌, ◌++◌, Text, all, ◌≡◌, refl, sym, ◌∙◌, ap, arith, Bool-cases, inl,
  inr,
}
use session_link.Protocol.Recovery.{is_whitespace, trim_start, trim}
use session_link.Client.Texts.{first_is, last_is}

-- What is left of a text when the white space at both its ends is gone.
pub record IsTrimmed (given name : Text) : Type 0 where
  pub lead : Text
  pub tail : Text
  pub given_eq : given ≡ lead ++ (name ++ tail)
  pub lead_white : all is_whitespace lead ≡ true
  pub tail_white : all is_whitespace tail ≡ true
  pub first_black : first_is is_whitespace name ≡ false
  pub last_black : last_is is_whitespace name ≡ false

trim_start-split :
    (text : Text)
    → (lead : Text) × (text ≡ lead ++ trim_start text)
      × (all is_whitespace lead ≡ true)
      × (first_is is_whitespace (trim_start text) ≡ false)
unfolding trim_start
trim_start-split [] = ([], refl, refl, refl)
trim_start-split (c ∷ text) =
    let (lead, eq, white, black) = trim_start-split text in
    elim (Bool-cases (is_whitespace c)) [
      | inl p ↦ (c ∷ lead, ground arith, ground arith, ground arith)
      | inr p ↦ ([], ground arith, refl, ground arith)
    ]

all-append : (p : ℕ → Bool) (s t : Text) → all p s ≡ true → all p t ≡ true → all p (s ++ t) ≡ true
all-append p [] t a b = b
all-append p (c ∷ s) t a b = ground (arith, all-append p s t)

all-reverse : (p : ℕ → Bool) (s : Text) → all p s ≡ true → all p (reverse s) ≡ true
all-reverse p [] h = refl
all-reverse p (c ∷ s) h =
    ap (all p) (reverse-cons c s)
    ∙ all-append p (reverse s) (c ∷ []) (all-reverse p s (ground arith)) (ground arith)

first_is-append : (p : ℕ → Bool) (s t : Text) → first_is p (s ++ t) ≡ false → first_is p s ≡ false
first_is-append p [] t h = refl
first_is-append p (c ∷ s) t h = h

last_is-append : (p : ℕ → Bool) (s : Text) (c : ℕ) → last_is p (s ++ (c ∷ [])) ≡ p c
last_is-append p [] c = refl
last_is-append p (a ∷ []) c = refl
last_is-append p (a ∷ b ∷ s) c = last_is-append p (b ∷ s) c

last_is-reverse : (p : ℕ → Bool) (s : Text) → last_is p (reverse s) ≡ first_is p s
last_is-reverse p [] = refl
last_is-reverse p (c ∷ s) = ap (last_is p) (reverse-cons c s) ∙ last_is-append p (reverse s) c

pub trim-IsTrimmed : (given : Text) → IsTrimmed given (trim given)
unfolding trim
trim-IsTrimmed given =
    let (lead, eq, white, black) = trim_start-split given in
    let left = trim_start given in
    let (back, back_eq, back_white, back_black) = trim_start-split (reverse left) in
    let kept = trim_start (reverse left) in
    let left_eq : left ≡ reverse kept ++ reverse back =
      sym (reverse-reverse left) ∙ ap reverse back_eq ∙ reverse-append back kept in
    record {
      lead = lead;
      tail = reverse back;
      given_eq = eq ∙ ap (λ t. lead ++ t) left_eq;
      lead_white = white;
      tail_white = all-reverse is_whitespace back back_white;
      first_black =
          first_is-append is_whitespace (reverse kept) (reverse back)
            (ap (first_is is_whitespace) (sym left_eq) ∙ black);
      last_black = last_is-reverse is_whitespace kept ∙ back_black;
    }
