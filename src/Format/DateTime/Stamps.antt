-- ===== src/Format/DateTime/Stamps.antt =====
-- Which dates and times the check of crates/slink-format/src/datetime.rs takes.
use session_link.Common.{
  Bool-cases, leb, ◌&&◌, sym, ap, ◌∙◌, ◌≢◌, inl, inr, none, ◌==◌, nat_eq, if◌then◌else◌, ℕ, ◌+◌,
  ◌*◌, ◌/◌, ◌%◌, ◌≤◌, ◌<◌, false, some, [], ◌∷◌, Text, as_bytes-IsAscii, IsAscii, ◌≡◌, ◌⊎◌, ◌↔◌,
  refl, ok, arith, ℕ_discrete,
}
use session_link.Format.DateTime.{east, two_digits, two, is, offset_at, offset, days, ranges, check}

-- Two digits.
abbrev tens : ℕ → ℕ
tens n = b'0' + n / 10 % 10

abbrev units : ℕ → ℕ
units n = b'0' + n % 10

-- `yyyy-mm-ddThh:mm:ssZ`
abbrev pub stamp : ℕ → ℕ → ℕ → ℕ → ℕ → ℕ → Text
stamp y mo d h mi s =
    tens (y / 100)
    ∷ units (y / 100)
    ∷ tens (y % 100)
    ∷ units (y % 100)
    ∷ b'-'
    ∷ tens mo
    ∷ units mo
    ∷ b'-'
    ∷ tens d
    ∷ units d
    ∷ b'T'
    ∷ tens h
    ∷ units h
    ∷ b':'
    ∷ tens mi
    ∷ units mi
    ∷ b':'
    ∷ tens s
    ∷ units s
    ∷ b'Z'
    ∷ []

digits-two : (n : ℕ) → n < 100 → two_digits (some (tens n)) (some (units n)) ≡ some n
unfolding two_digits
digits-two n h = ground arith

tens_lt : (n : ℕ) → tens n < 128
tens_lt n = omega arith

units_lt : (n : ℕ) → units n < 128
units_lt n = omega arith

stamp-IsAscii : (y mo d h mi s : ℕ) → IsAscii (stamp y mo d h mi s)
stamp-IsAscii y mo d h mi s = (
  tens_lt (y / 100),
  (
    units_lt (y / 100),
    (
      tens_lt (y % 100),
      (
        units_lt (y % 100),
        (
          omega arith,
          (
            tens_lt mo,
            (
              units_lt mo,
              (
                omega arith,
                (
                  tens_lt d,
                  (
                    units_lt d,
                    (
                      omega arith,
                      (
                        tens_lt h,
                        (
                          units_lt h,
                          (
                            omega arith,
                            (
                              tens_lt mi,
                              (
                                units_lt mi,
                                (omega arith, (tens_lt s, (units_lt s, (omega arith, tt)))),
                              ),
                            ),
                          ),
                        ),
                      ),
                    ),
                  ),
                ),
              ),
            ),
          ),
        ),
      ),
    ),
  ),
)

check-stamp :
    (y mo d h mi s : ℕ)
    → y < 10000
    → mo < 100
    → d < 100
    → h < 100
    → mi < 100
    → s < 100
    → check (stamp y mo d h mi s) ≡ ranges (y / 100 * 100 + y % 100) mo d h mi s (east 0)
unfolding check two is offset_at offset ℕ_discrete
check-stamp y mo d h mi s hy hmo hd hh hmi hs =
    rw
      (
        as_bytes-IsAscii (stamp y mo d h mi s) (stamp-IsAscii y mo d h mi s),
        digits-two (y / 100) (omega arith),
        digits-two (y % 100) (omega arith),
        digits-two mo hmo,
        digits-two d hd,
        digits-two h hh,
        digits-two mi hmi,
        digits-two s hs,
      )
      refl

-- The length of February: a day more in each fourth year, but in a year of a full century only if it
-- is one of a fourth century.
abbrev pub february : ℕ → ℕ
february y = if y % 400 == 0 then 29 else if y % 100 == 0 then 28 else if y % 4 == 0 then 29 else 28

-- The length of a month, from the knuckles and the rule of leap years.
abbrev pub month_length : ℕ → ℕ → ℕ
month_length y mo = if mo == 2 then february y else 30 + (mo + mo / 8) % 2

days_lem : (y mo : ℕ) → 1 ≤ mo → mo ≤ 12 → days y mo ≡ some (month_length y mo)
unfolding days
days_lem y mo a b = ground arith

days_other : (y mo : ℕ) → (mo ≡ 0) ⊎ (12 < mo) → days y mo ≡ none
unfolding days
days_other y mo (inl e) = ground arith
days_other y mo (inr e) = ground arith

-- A date of the calendar.
abbrev pub IsDate : ℕ → ℕ → ℕ → Type 0
IsDate y mo d = (1 ≤ mo) × (mo ≤ 12) × (1 ≤ d) × (d ≤ month_length y mo)

-- A time of day in UTC, where the last minute may have a second more.
abbrev pub IsTime : ℕ → ℕ → ℕ → Type 0
IsTime h mi s = (h < 24) × (mi < 60) × ((s < 60) ⊎ ((h ≡ 23) × (mi ≡ 59) × (s ≡ 60)))

ranges-east :
    (y mo d h mi s last : ℕ)
    → days y mo ≡ some last
    → ranges y mo d h mi s (east 0) ≡ ok tt
    → (1 ≤ d) × (d ≤ last) × IsTime h mi s
unfolding ranges
ranges-east y mo d h mi s last e r = elim (nat_eq.discrete s 60) [
  | yes p ↦ (
    ground arith,
    ground arith,
    (ground arith, ground arith, inr (ground arith, ground arith, p)),
  )
  | no n ↦ (ground arith, ground arith, (ground arith, ground arith, inl (ground arith)))
]

ranges_of :
    (y mo d h mi s last : ℕ)
    → days y mo ≡ some last
    → 1 ≤ d
    → d ≤ last
    → IsTime h mi s
    → ranges y mo d h mi s (east 0) ≡ ok tt
unfolding ranges
ranges_of y mo d h mi s last e a b (ha, ma, inl sa) = ground arith
ranges_of y mo d h mi s last e a b (ha, ma, inr (hb, mb, sb)) = ground arith

ranges_other_month : (y mo d h mi s : ℕ) → days y mo ≡ none → ranges y mo d h mi s (east 0) ≢ ok tt
unfolding ranges
ranges_other_month y mo d h mi s e r = ground arith

month_in_range : (y mo d h mi s : ℕ) → ranges y mo d h mi s (east 0) ≡ ok tt → (1 ≤ mo) × (mo ≤ 12)
month_in_range y mo d h mi s r = elim (Bool-cases (leb 1 mo && leb mo 12)) [
  | inl p ↦ (ground arith, ground arith)
  | inr p ↦ absurd (ranges_other_month y mo d h mi s (days_other y mo (outside p)) r)
]
  where
    outside : leb 1 mo && leb mo 12 ≡ false → (mo ≡ 0) ⊎ (12 < mo)
    outside p = elim (nat_eq.discrete mo 0) [ yes e ↦ inl e | no n ↦ inr (ground arith) ]

ranges_lem :
    (y mo d h mi s : ℕ) → (ranges y mo d h mi s (east 0) ≡ ok tt) ↔ (IsDate y mo d × IsTime h mi s)
ranges_lem y mo d h mi s =
    (sound, λ ((a, b, c, e), t). ranges_of y mo d h mi s _ (days_lem y mo a b) c e t)
  where
    sound : ranges y mo d h mi s (east 0) ≡ ok tt → IsDate y mo d × IsTime h mi s
    sound r =
        let (a, b) = month_in_range y mo d h mi s r in
        let (c, e, t) = ranges-east y mo d h mi s _ (days_lem y mo a b) r in ((a, b, c, e), t)

-- A stamp `yyyy-mm-ddThh:mm:ssZ` is taken exactly when its date is one of the calendar, by the rule of
-- leap years, and its time one of a day, where only 23:59 may have a second 60.
pub check-stamp_lem :
    (y mo d h mi s : ℕ)
    → y < 10000
    → mo < 100
    → d < 100
    → h < 100
    → mi < 100
    → s < 100
    → (check (stamp y mo d h mi s) ≡ ok tt) ↔ (IsDate y mo d × IsTime h mi s)
check-stamp_lem y mo d h mi s hy hmo hd hh hmi hs =
    let year : y / 100 * 100 + y % 100 ≡ y = omega arith in
    let stamped = check-stamp y mo d h mi s hy hmo hd hh hmi hs in
    let (sound, complete) = ranges_lem y mo d h mi s in
    (
      λ c. sound (sym (ap (λ n. ranges n mo d h mi s (east 0)) year) ∙ (sym stamped ∙ c)),
      λ t. stamped ∙ (ap (λ n. ranges n mo d h mi s (east 0)) year ∙ complete t),
    )
