-- ===== src/Client/Actions/Retries.antt =====
-- `handle` of crates/slink-client/src/identity.rs: which attempt it answers with.
use mathlib.Core.Path.{subst}
use session_link.Common.{
  Bool-cases, true, false, inl, inr, Text, codes, nat_eq, text_eq, ◌≡◌, Result, ok, err, arith,
}
use session_link.Client.Errors.{Error}
use session_link.Client.Actions.{lost_race, attempts, handle}

-- A backup to which the service answered that the vault had changed.
abbrev pub IsLost {ℓ} : {A : Type ℓ} → Text → Result Error A → Type ℓ
IsLost action answer =
    (action ≡ codes "sync") × ((message : Text) × (answer ≡ err (Error.service 409 message)))

lost_race-IsLost {ℓ} :
    {A : Type ℓ} (action : Text) (answer : Result Error A)
    → lost_race action answer ≡ true
    → IsLost action answer
unfolding lost_race
lost_race-IsLost action (ok a) h = absurd (ground arith)
lost_race-IsLost action (err (Error.service answered message)) h =
    (ground arith, (message, ground arith))
lost_race-IsLost action (err Error.locked) h = absurd (ground arith)
lost_race-IsLost action (err Error.setup_conflict) h = absurd (ground arith)
lost_race-IsLost action (err Error.index_out_of_range) h = absurd (ground arith)
lost_race-IsLost action (err (Error.refused message)) h = absurd (ground arith)

IsLost-lost_race {ℓ} :
    {A : Type ℓ} (action : Text) (answer : Result Error A)
    → lost_race action answer ≡ false
    → ¬ IsLost action answer
unfolding lost_race
IsLost-lost_race action answer h (sync, (message, e)) = ground (arith, h, sync, e)

module _ {ℓ κ} {S : Type κ} {A : Type ℓ} (action : Text) (once : S → Result Error A × S)
    (held : S) where
  abbrev pub second : S
  second = (once held).1

  abbrev pub third : S
  third = (once second).1

  -- How the attempts of an action end.
  pub data IsHandled : Result Error A × S → Type (ℓ ⊔ κ) where
    at_first : ¬ IsLost action (once held).0 → IsHandled (once held)
    at_second :
        IsLost action (once held).0 → ¬ IsLost action (once second).0 → IsHandled (once second)
    at_third :
        IsLost action (once held).0
        → IsLost action (once second).0
        → ¬ IsLost action (once third).0
        → IsHandled (once third)
    given_up :
        IsLost action (once held).0
        → IsLost action (once second).0
        → IsLost action (once third).0
        → IsHandled (
          err (Error.refused (codes "vault is changing on another device; retry backup")),
          (once third).1,
        )

  handle_first : lost_race action (once held).0 ≡ false → once held ≡ handle action once held
  unfolding handle attempts
  handle_first p = ground (arith, p)

  handle-second :
      lost_race action (once held).0 ≡ true
      → lost_race action (once second).0 ≡ false
      → once second ≡ handle action once held
  unfolding handle attempts
  handle-second p q = ground (arith, p, q)

  handle-third :
      lost_race action (once held).0 ≡ true
      → lost_race action (once second).0 ≡ true
      → lost_race action (once third).0 ≡ false
      → once third ≡ handle action once held
  unfolding handle attempts
  handle-third p q r = ground (arith, p, q, r)

  handle_given_up :
      lost_race action (once held).0 ≡ true
      → lost_race action (once second).0 ≡ true
      → lost_race action (once third).0 ≡ true
      → (
        err (Error.refused (codes "vault is changing on another device; retry backup")),
        (once third).1,
      )
        ≡ handle action once held
  unfolding handle attempts
  handle_given_up p q r = ground (arith, p, q, r)

  -- `handle` attempts a backup again when it lost a race, three times in all: it answers with the
  -- first attempt that did not, and leaves what that left; or, when the third lost too, with the advice
  -- to retry, and leaves what the third left. An action other than a backup is attempted once.
  pub handle_lem : IsHandled (handle action once held)
  handle_lem = elim (Bool-cases (lost_race action (once held).0)) [
    | inr p ↦ subst IsHandled (handle_first p) (IsHandled.at_first (IsLost-lost_race action _ p))
    | inl p ↦ elim (Bool-cases (lost_race action (once second).0)) [
      | inr q ↦
          subst IsHandled (handle-second p q)
            (IsHandled.at_second (lost_race-IsLost action _ p) (IsLost-lost_race action _ q))
      | inl q ↦ elim (Bool-cases (lost_race action (once third).0)) [
        | inr r ↦ subst IsHandled (handle-third p q r) (
            IsHandled.at_third (lost_race-IsLost action _ p) (lost_race-IsLost action _ q)
              (IsLost-lost_race action _ r))
        | inl r ↦ subst IsHandled (handle_given_up p q r) (
            IsHandled.given_up (lost_race-IsLost action _ p) (lost_race-IsLost action _ q)
              (lost_race-IsLost action _ r))
      ]
    ]
  ]
