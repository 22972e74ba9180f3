-- ===== src/Format/DateTime.antt =====
-- crates/slink-format/src/datetime.rs: the check of the `date-time` format, RFC 3339 section 5.6.
pub mod Stamps
use session_link.Common.{
  ℕ, zero, suc, ◌+◌, ◌-◌, ◌*◌, ◌%◌, Bool, true, false, not, ◌&&◌, ◌||◌, Option, none, some, List,
  [], ◌∷◌, Text, Bytes, as_bytes, codes, length, drop, get_elem?, contains, ltb, leb, ◌==◌, nat_eq,
  if◌then◌else◌, Result, ok, err, ok_or, guard, refuse_if, ◌>>=◌, ◌>>◌,
}

-- The messages of the source, by name.
pub data Fault : Type 0 where
  shape offset_range month_range day_range time_range leap_second : Fault

-- Minutes east or west of UTC.
pub data Offset : Type 0 where
  east west : ℕ → Offset

abbrev pub is_digit : ℕ → Bool
is_digit b = leb b'0' b && leb b b'9'

-- The `match` on two bytes.
unfoldable pub two_digits : Option ℕ → Option ℕ → Option ℕ
two_digits (some a) (some b) =
    if is_digit a && is_digit b then some ((a - b'0') * 10 + (b - b'0')) else none
two_digits _ _ = none

-- The closure `two`.
unfoldable pub two : Bytes → ℕ → Option ℕ
unfolding two_digits
two bytes at = two_digits (get_elem? bytes at) (get_elem? bytes (at + 1))

-- The closure `is`.
unfoldable pub is : Bytes → ℕ → Bytes → Bool
is bytes at wanted = elim (get_elem? bytes at) [ none ↦ false | some byte ↦ contains byte wanted ]

-- `take_while(is_ascii_digit).count()`
unfoldable pub count_digits : Bytes → ℕ
count_digits [] = 0
count_digits (b ∷ bytes) = let rest = count_digits bytes in if is_digit b then suc rest else 0

-- Where the offset starts: behind the fraction, if there is one.
unfoldable pub offset_at : Bytes → Result Fault ℕ
offset_at bytes =
    if is bytes 19 (codes ".")
    then (do
      let digits = count_digits (drop 20 bytes)
      refuse_if (digits == 0) Fault.shape
      ok (19 + (1 + digits)))
    else ok 19

unfoldable pub offset : Bytes → ℕ → Result Fault Offset
offset bytes at =
    if is bytes at (codes "Zz") && length bytes == at + 1
    then ok (Offset.east 0)
    else if is bytes at (codes "+-") && is bytes (at + 3) (codes ":") && length bytes == at + 6
    then (do
      hours ← ok_or Fault.shape (two bytes (at + 1))
      minutes ← ok_or Fault.shape (two bytes (at + 4))
      refuse_if (ltb 23 hours || ltb 59 minutes) Fault.offset_range
      ok (
          if is bytes at (codes "-")
          then Offset.west (hours * 60 + minutes)
          else Offset.east (hours * 60 + minutes)))
    else err Fault.shape

abbrev pub leap : ℕ → Bool
leap year = year % 4 == 0 && (not (year % 100 == 0) || year % 400 == 0)

-- The `match month`.
unfoldable pub days : ℕ → ℕ → Option ℕ
days year month =
    if contains month (1 ∷ 3 ∷ 5 ∷ 7 ∷ 8 ∷ 10 ∷ 12 ∷ [])
    then some 31
    else if contains month (4 ∷ 6 ∷ 9 ∷ 11 ∷ [])
    then some 30
    else if month == 2
    then some (if leap year then 29 else 28)
    else none

-- `(minutes - offset).rem_euclid(24 * 60)`; the offset is less than a day.
abbrev pub utc : ℕ → Offset → ℕ
utc minutes (Offset.east m) = (minutes + 1440 - m) % 1440
utc minutes (Offset.west m) = (minutes + m) % 1440

-- The checks on what was read.
unfoldable pub ranges : ℕ → ℕ → ℕ → ℕ → ℕ → ℕ → Offset → Result Fault (Unit {0})
ranges year month day hour minute second at = do
  last ← ok_or Fault.month_range (days year month)
  refuse_if (day == 0 || ltb last day) Fault.day_range
  refuse_if (ltb 23 hour || ltb 59 minute || ltb 60 second) Fault.time_range
  refuse_if (second == 60 && not (utc (hour * 60 + minute) at == 23 * 60 + 59)) Fault.leap_second
  ok tt

unfoldable pub check : Text → Result Fault (Unit {0})
check text = do
  let bytes = as_bytes text
  refuse_if (ltb (length bytes) 20) Fault.shape
  century ← ok_or Fault.shape (two bytes 0)
  year ← ok_or Fault.shape (two bytes 2)
  month ← ok_or Fault.shape (two bytes 5)
  day ← ok_or Fault.shape (two bytes 8)
  hour ← ok_or Fault.shape (two bytes 11)
  minute ← ok_or Fault.shape (two bytes 14)
  second ← ok_or Fault.shape (two bytes 17)
  guard
      (is bytes 4 (codes "-")
        && is bytes 7 (codes "-")
        && is bytes 10 (codes "Tt")
        && is bytes 13 (codes ":")
        && is bytes 16 (codes ":"))
      Fault.shape
  at ← offset_at bytes
  zone ← offset bytes at
  ranges (century * 100 + year) month day hour minute second zone
