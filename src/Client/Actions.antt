-- ===== src/Client/Actions.antt =====
-- crates/slink-client/src/identity.rs: what a device is called, and the attempts that `handle` makes.
pub mod Trimmed
pub mod Names
pub mod Retries
use mathlib.Core.List.{append_assoc}
use session_link.Common.{
  Bool-cases, ℕ, zero, suc, ◌+◌, ◌-◌, ◌≤◌, ◌<◌, Bool, true, false, not, ◌&&◌, Option, Option-cases,
  none, some, inl, inr, List, [], ◌∷◌, ◌++◌, Text, codes, length, length-append, byte_len, as_bytes,
  utf8_char, ltb, leb, ◌==◌, nat_eq, text_eq, if◌then◌else◌, ◌≡◌, ◌≢◌, ◌⊎◌, refl, sym, ap, ◌∙◌,
  Result, ok, err, arith,
}
use session_link.Protocol.Recovery.{trim}
use session_link.Client.Errors.{Error}

abbrev pub max_name : ℕ
max_name = 80

-- The first `size` bytes, if they end between two characters: `is_char_boundary`, with the slice.
unfoldable pub prefix_at : ℕ → Text → Option Text
prefix_at zero text = some []
prefix_at (suc size) [] = none
prefix_at (suc size) (c ∷ text) =
    let rest = prefix_at (suc size - length (utf8_char c)) text in
    if leb (length (utf8_char c)) (suc size)
    then elim rest [ none ↦ none | some before ↦ some (c ∷ before) ]
    else none

-- The `while` loop, down from `end`.
unfoldable pub cut : ℕ → Text → Text
cut zero name = []
cut (suc end) name =
    let rest = cut end name in
    elim (prefix_at (suc end) name) [ some before ↦ before | none ↦ rest ]

unfoldable pub device_name : Text → Text
device_name given =
    let name = trim given in
    let end = if ltb (byte_len name) max_name then byte_len name else max_name in
    if name == [] then codes "My device" else cut end name

-- Whether an attempt is a backup that lost a race: the guard of the `match` in `handle`.
unfoldable pub lost_race {ℓ} : {A : Type ℓ} → Text → Result Error A → Bool
lost_race action (err (Error.service answered message)) = answered == 409 && action == codes "sync"
lost_race action _ = false

-- The loop of `handle`: each attempt is a step from what the service and this machine hold to what they
-- hold after it.
unfoldable pub attempts {ℓ κ} :
    {S : Type κ} {A : Type ℓ} → ℕ → Text → (S → Result Error A × S) → S → Result Error A × S
attempts zero action once held =
    (err (Error.refused (codes "vault is changing on another device; retry backup")), held)
attempts (suc rounds) action once held =
    let again = attempts rounds action once (once held).1 in
    if lost_race action (once held).0 then again else once held

unfoldable pub handle {ℓ κ} :
    {S : Type κ} {A : Type ℓ} → Text → (S → Result Error A × S) → S → Result Error A × S
unfolding attempts
handle action once held = attempts 3 action once held
