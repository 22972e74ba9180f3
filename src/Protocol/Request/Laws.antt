-- ===== src/Protocol/Request/Laws.antt =====
-- Which requests are accepted and when they can be approved, and the code that a person compares
-- (crates/slink-protocol/src/request.rs).
use native.Mathlib.Nat.{div-div-eq-div-mul, pow-suc}
use mathlib.Core.Path.{subst}
use session_link.Common.{
  ltb, if◌then◌else◌, ap, ℕ, zero, suc, ◌+◌, ◌-◌, ◌*◌, ◌/◌, ◌%◌, ◌^◌, ◌≤◌, ◌<◌, Bool, true, false,
  [], ◌∷◌, Text, get_or, ◌≡◌, ◌↔◌, refl, Result-cases, Option-cases, inl, inr, ok, arith,
  ℕ_discrete, ◌∙◌, sym, drop,
}
use session_link.Protocol.Errors.{Kind}
use session_link.Protocol.Crypto.{Libs}
use session_link.Protocol.Encoding.{decode_exact}
use session_link.Protocol.Signed
use session_link.Protocol.Signed.{Signed, hash, verify_bytes}
use session_link.Protocol.Request.{Request, pending, base32, code_from, plain, read_request}
use session_link.Protocol.Request.Check.{verify, read}

-- For times that are u64 counts of milliseconds, those included at which `saturating_add` stops: a
-- request can be approved until ten minutes (600,000) after it was made, but not at the last time that
-- there is, and from a minute (60,000) before it was made, by a clock that is behind.
pub pending_lem :
    (request : Request) (now : ℕ)
    → request.created < 2 ^ 64
    → now < 2 ^ 64
    → (pending request now ≡ true)
      ↔ ((now < request.created + 600000) × (now + 1 < 2 ^ 64) × (request.created ≤ now + 60000))
unfolding pending
pending_lem request now a b = (λ h. ground arith, λ h. ground arith)

module _ (lib : Libs) where
  verify-eq-ok :
      (signed : Signed) (request : Request)
      → verify lib signed ≡ ok request
      → (read lib signed ≡ ok request)
        × (Signed.verify lib signed Kind.request request.sign_key ≡ ok tt)
  unfolding verify read Signed.verify
  verify-eq-ok signed request h = elim (Result-cases (Signed.read lib signed Kind.request)) [
    | inr (e, p) ↦ absurd (ground arith)
    | inl (raw, p) ↦ elim (Option-cases (read_request lib raw)) [
      | inl q ↦ absurd (ground arith)
      | inr (found, q) ↦ elim (Result-cases (decode_exact lib 32 found.sign_key)) [
        | inr (e, r) ↦ absurd (ground arith)
        | inl (key, r) ↦ (ground arith, ground arith)
      ]
    ]
  ]

  verify_of_read :
      (signed : Signed) (request : Request)
      → read lib signed ≡ ok request
      → Signed.verify lib signed Kind.request request.sign_key ≡ ok tt
      → verify lib signed ≡ ok request
  unfolding verify read Signed.verify
  verify_of_read signed request h v = elim (Result-cases (Signed.read lib signed Kind.request)) [
    | inr (e, p) ↦ absurd (ground arith)
    | inl (raw, p) ↦ elim (Option-cases (read_request lib raw)) [
      | inl q ↦ absurd (ground arith)
      | inr (found, q) ↦ elim (Result-cases (decode_exact lib 32 request.sign_key)) [
        | inr (e, r) ↦ absurd (ground arith)
        | inl (key, r) ↦ ground arith
      ]
    ]
  ]

  -- A request is verified exactly when its payload is a request and the device key that it names
  -- signed that payload as a request.
  pub verify_lem :
      (signed : Signed) (request : Request)
      → (verify lib signed ≡ ok request) ↔ (
          (read lib signed ≡ ok request)
          × (Signed.verify lib signed Kind.request request.sign_key ≡ ok tt))
  verify_lem signed request =
      (verify-eq-ok signed request, λ h. verify_of_read signed request h.0 h.1)

-- The rounds' digits, without the hyphens.
abbrev digits : ℕ → ℕ → ℕ → Text
digits zero index bits = []
digits (suc rounds) index bits =
    get_or base32 (bits / 2 ^ (59 - 5 * index) % 32) 0 ∷ digits rounds (index + 1) bits

base32-digit : (v : ℕ) → v < 32 → get_or base32 v 0 ≡ (if ltb v 26 then b'A' + v else 24 + v)
base32-digit v h = ground arith

plain-digit :
    (v : ℕ) (t : Text) → v < 32 → plain (get_or base32 v 0 ∷ t) ≡ get_or base32 v 0 ∷ plain t
unfolding plain
plain-digit v t h = rw (base32-digit v h) (ground arith)

plain-hyphen : (t : Text) → plain (b'-' ∷ t) ≡ plain t
unfolding plain ℕ_discrete
plain-hyphen t = refl

plain_maybe_hyphen : (b : Bool) (t : Text) → plain (if b then b'-' ∷ t else t) ≡ plain t
plain_maybe_hyphen true t = plain-hyphen t
plain_maybe_hyphen false t = refl

-- What is compared of a code: its digits.
plain-code_from :
    (rounds index bits : ℕ) → plain (code_from rounds index bits) ≡ digits rounds index bits
unfolding code_from
plain-code_from zero index bits = unfold plain in refl
plain-code_from (suc rounds) index bits =
    let v = bits / 2 ^ (59 - 5 * index) % 32 in
    plain_maybe_hyphen _ (get_or base32 v 0 ∷ code_from rounds (index + 1) bits)
    ∙ plain-digit v (code_from rounds (index + 1) bits) (omega arith)
    ∙ ap (λ t. get_or base32 v 0 ∷ t) (plain-code_from rounds (index + 1) bits)

spelt_digit-injective :
    (v w : ℕ)
    → v < 32
    → w < 32
    → (if ltb v 26 then b'A' + v else 24 + v) ≡ (if ltb w 26 then b'A' + w else 24 + w)
    → v ≡ w
spelt_digit-injective v w hv hw h = ground arith

base32-injective : (v w : ℕ) → v < 32 → w < 32 → get_or base32 v 0 ≡ get_or base32 w 0 → v ≡ w
base32-injective v w hv hw h =
    spelt_digit-injective v w hv hw (sym (base32-digit v hv) ∙ h ∙ base32-digit w hw)

abbrev Same : ℕ → ℕ → ℕ → Type 0
Same d a b = a / d ≡ b / d

-- One digit more.
digit_more :
    (rounds index a b : ℕ)
    → digits (suc rounds) index a ≡ digits (suc rounds) index b
    → (a / 2 ^ (59 - 5 * index) % 32 ≡ b / 2 ^ (59 - 5 * index) % 32)
      × (digits rounds (index + 1) a ≡ digits rounds (index + 1) b)
digit_more rounds index a b h = (
  base32-injective _ _ (omega arith) (omega arith) (ap (λ t. get_or t 0 0) h),
  ap (λ t. drop 1 t) h,
)

Same-more : (n a b : ℕ) → Same (2 ^ n * 32) a b → a / 2 ^ n % 32 ≡ b / 2 ^ n % 32 → Same (2 ^ n) a b
Same-more n a b h k =
    omega (arith, h, k, div-div-eq-div-mul a (2 ^ n) 32, div-div-eq-div-mul b (2 ^ n) 32)

two_pow : (n m : ℕ) → m ≡ suc n → 2 ^ m ≡ 2 ^ n * 2
two_pow n m e = ap (λ k. 2 ^ k) e ∙ pow-suc 2 n

pow_add_five : (n : ℕ) → 2 ^ (n + 5) ≡ 2 ^ n * 32
pow_add_five n = omega (
  arith,
  two_pow n (n + 1) (omega arith),
  two_pow (n + 1) (n + 2) (omega arith),
  two_pow (n + 2) (n + 3) (omega arith),
  two_pow (n + 3) (n + 4) (omega arith),
  two_pow (n + 4) (n + 5) (omega arith),
)

digits-Same :
    (rounds index a b : ℕ)
    → index + rounds ≡ 12
    → Same (2 ^ (64 - 5 * index)) a b
    → digits rounds index a ≡ digits rounds index b
    → Same 16 a b
digits-Same zero index a b e same h =
    let last : index ≡ 12 = omega arith in subst (λ n. Same (2 ^ (64 - 5 * n)) a b) last same
digits-Same (suc rounds) index a b e same h =
    let (first, rest) = digit_more rounds index a b h in
    let down : 64 - 5 * index ≡ 59 - 5 * index + 5 = omega arith in
    let f : 59 - 5 * index ≡ 64 - 5 * (index + 1) = omega arith in
    let before =
      subst (λ n. Same n a b) (ap (λ n. 2 ^ n) down ∙ pow_add_five (59 - 5 * index)) same in
    let more = Same-more (59 - 5 * index) a b before first in
    digits-Same rounds (index + 1) a b (omega arith) (subst (λ n. Same (2 ^ n) a b) f more) rest

-- Two numbers of 64 bits have codes that compare equal only if their first sixty bits are the same.
pub code-injective :
    (a b : ℕ)
    → a < 2 ^ 64
    → b < 2 ^ 64
    → plain (code_from 12 0 a) ≡ plain (code_from 12 0 b)
    → a / 16 ≡ b / 16
code-injective a b ha hb h =
    digits-Same 12 0 a b refl (omega arith)
      (sym (plain-code_from 12 0 a) ∙ h ∙ plain-code_from 12 0 b)
