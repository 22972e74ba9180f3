-- ===== src/Common/Tests.antt =====
-- Boolean tests on the native numbers, the conditional, and `==` at every type whose equality is
-- decided, as Rust's `PartialEq` gives it.
use Prim.Native.Nat.{ℕ, compare, Ordering}
use mathlib.Core.Path.{◌≡◌, refl}
use mathlib.Core.Logic.{◌⊎◌, inl, inr}
use mathlib.Core.Bool.{Bool, true, false}
use mathlib.Core.Option.{Option, none, some}
use native.Mathlib.Decide.{ℕ_discrete}

abbrev pub ltb : ℕ → ℕ → Bool
ltb a b = elim (compare a b) [ Ordering.lt ↦ true | _ ↦ false ]

abbrev pub leb : ℕ → ℕ → Bool
leb a b = elim (compare a b) [ Ordering.gt ↦ false | _ ↦ true ]

infix 1 if◌then◌else◌
abbrev pub if◌then◌else◌ {ℓ} : {A : Type ℓ} → Bool → A → A → A
if true then x else y = x
if false then x else y = y

abbrev pub dec_bool {ℓ} : {A : Type ℓ} → Dec A → Bool
dec_bool (yes _) = true
dec_bool (no _) = false

pub record Eq {ℓ} (A : Type ℓ) : Type ℓ where
  pub discrete : Discrete A

-- `ground` splits on the decision, and has the equation or its negation in each case.
infix 50 ◌==◌
abbrev pub ◌==◌ {ℓ} : {A : Type ℓ} ⦃e : Eq A⦄ → A → A → Bool
◌==◌ ⦃e⦄ a b = dec_bool (e.discrete a b)

instance abbrev pub nat_eq : Eq ℕ
nat_eq = record { discrete = ℕ_discrete }

Option-discrete_at {ℓ} : {A : Type ℓ} → Discrete A → Discrete (Option A)
Option-discrete_at d none none = yes refl
Option-discrete_at d none (some b) = no (cc)
Option-discrete_at d (some a) none = no (cc)
Option-discrete_at d (some a) (some b) = elim (d a b) [ yes p ↦ yes (cc) | no p ↦ no (λ q. p (cc)) ]

unfoldable pub Option-discrete {ℓ} : {A : Type ℓ} → Discrete A → Discrete (Option A)
unfolding Option-discrete_at
Option-discrete d = Option-discrete_at d

instance abbrev pub option_eq {ℓ} : {A : Type ℓ} ⦃e : Eq A⦄ → Eq (Option A)
option_eq ⦃e⦄ = record { discrete = Option-discrete e.discrete }

-- To split on a computed test and keep the equation.
pub Bool-cases : (b : Bool) → (b ≡ true) ⊎ (b ≡ false)
Bool-cases true = inl refl
Bool-cases false = inr refl

pub Option-cases {ℓ} : {A : Type ℓ} (o : Option A) → (o ≡ none) ⊎ ((a : A) × (o ≡ some a))
Option-cases none = inl refl
Option-cases (some a) = inr (a, refl)
