-- ===== src/Tests/Actions.antt =====
-- Runs of crates/slink-client/src/identity.rs: names of devices, and attempts.
use session_link.Common.{
  ◌⊎◌, ℕ, ℕ_discrete, Text-discrete, zero, suc, ◌++◌, Text, codes, [], replicate, utf8_char,
  as_bytes, byte_len, ◌≡◌, refl, Result, ok, err,
}
use session_link.Client.Errors.{Error}
use session_link.Client.Actions.{prefix_at, cut, device_name, lost_race, attempts, handle}
use session_link.Client.Actions.Names.{IsLongest, device_name_lem}
use session_link.Client.Actions.Trimmed.{IsTrimmed}
use session_link.Protocol.Recovery.{is_whitespace, trim_start, trim}
use session_link.Client.Actions.Retries.{IsHandled, handle_lem}

-- Names with white space around them, one of two-byte characters, and one that would be cut inside a
-- character.
names :
    (device_name (codes "  ") ≡ codes "My device")
    × (device_name (codes " Laptop \n") ≡ codes "Laptop")
    × (device_name (replicate 41 0xe9) ≡ replicate 40 0xe9)
    × (device_name (codes "a" ++ replicate 40 0xe9) ≡ codes "a" ++ replicate 39 0xe9)
unfolding ℕ_discrete Text-discrete is_whitespace trim_start trim utf8_char as_bytes byte_len
    prefix_at cut device_name
names = (refl, refl, refl, refl)

device_name_lem_example :
    (name : Text) × IsTrimmed (codes " Laptop ") name
    × (((name ≡ []) × (device_name (codes " Laptop ") ≡ codes "My device"))
        ⊎ IsLongest name (device_name (codes " Laptop ")))
device_name_lem_example = device_name_lem (codes " Laptop ")

-- One conflict, and then an answer; what is held is the number of attempts so far.
abbrev once : ℕ → Result Error ℕ × ℕ
once zero = (err (Error.service 409 (codes "conflict")), 1)
once (suc n) = (ok n, suc (suc n))

abbrev busy : ℕ → Result Error ℕ × ℕ
busy n = (err (Error.service 409 (codes "conflict")), suc n)

attempted :
    (handle (codes "sync") once 0 ≡ (ok 0, 2))
    × (handle (codes "status") once 0 ≡ (err (Error.service 409 (codes "conflict")), 1))
    × (handle (codes "sync") busy 0
        ≡ (err (Error.refused (codes "vault is changing on another device; retry backup")), 3))
unfolding ℕ_discrete Text-discrete lost_race attempts handle
attempted = (refl, refl, refl)

handle_lem_example : IsHandled (codes "sync") once 0 (handle (codes "sync") once 0)
handle_lem_example = handle_lem (codes "sync") once 0
