-- ===== src/Protocol/History/Devices.antt =====
-- Lemmas on lists of devices and on the two loops of `step` (crates/slink-protocol/src/history.rs).
use session_link.Common.{
  ℕ, ◌+◌, Bool, false, some, List, [], ◌∷◌, Text, ◌≡◌, ◌≢◌, nat_eq, text_eq, any, count_if, ok,
  arith,
}
use session_link.Common.Options.{is_none}
use session_link.Protocol.History.{Device, find}
use session_link.Protocol.History.Step.{device_changed, count_added}

pub id-find : (ds : List Device) (id : Text) (d : Device) → find ds id ≡ some d → d.id ≡ id
unfolding find
id-find [] id d h = cc
id-find (x ∷ ds) id d h = ground (arith, id-find ds id d)

-- Is the device new to `before`?
abbrev pub is_new : List Device → Device → Bool
is_new before d = is_none (find before d.id)

-- An accepted comparison counted the devices that are new.
pub count_added-count_if :
    (before : List Device) (revoking : Bool) (ds : List Device) (added n : ℕ)
    → count_added before revoking ds added ≡ ok n
    → n ≡ added + count_if (is_new before) ds
unfolding count_added
count_added-count_if before revoking [] added n h = ground arith
count_added-count_if before revoking (d ∷ ds) added n h = ground (
  arith,
  count_added-count_if before revoking ds (added + 1) n,
  count_added-count_if before revoking ds added n,
)

-- A device in both states did not change, if the comparison was accepted.
pub count_added-device_changed :
    (before : List Device) (revoking : Bool) (ds : List Device) (added n : ℕ) (id : Text)
    (old d : Device)
    → count_added before revoking ds added ≡ ok n
    → find ds id ≡ some d
    → find before id ≡ some old
    → device_changed revoking d old ≡ false
unfolding count_added find
count_added-device_changed before revoking [] added n id old d h p q = cc
count_added-device_changed before revoking (x ∷ ds) added n id old d h p q = ground (
  arith,
  count_added-device_changed before revoking ds (added + 1) n id old d,
  count_added-device_changed before revoking ds added n id old d,
)

-- No device passes the test, so none that is found does.
pub find_of_count_zero :
    (test : Device → Bool) (ds : List Device) (id : Text) (d : Device)
    → count_if test ds ≡ 0
    → find ds id ≡ some d
    → test d ≡ false
unfolding find
find_of_count_zero test [] id d h p = cc
find_of_count_zero test (x ∷ ds) id d h p = ground (arith, find_of_count_zero test ds id d)

-- A device that is not in the list is found in the shorter list, unless it is the first.
pub find-cons_ne :
    (x : Device) (ds : List Device) (id : Text) → x.id ≢ id → find (x ∷ ds) id ≡ find ds id
unfolding find
find-cons_ne x ds id h = ground arith

pub find-cons_self : (x : Device) (ds : List Device) → find (x ∷ ds) x.id ≡ some x
unfolding find
find-cons_self x ds = ground arith

-- No device of the list passes the test, so the one found does not.
pub find_of_any :
    (test : Device → Bool) (ds : List Device) (id : Text) (d : Device)
    → any test ds ≡ false
    → find ds id ≡ some d
    → test d ≡ false
unfolding find
find_of_any test [] id d h p = cc
find_of_any test (x ∷ ds) id d h p = ground (arith, find_of_any test ds id d)
