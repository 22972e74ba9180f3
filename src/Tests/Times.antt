-- ===== src/Tests/Times.antt =====
-- Runs of crates/slink-format/src/datetime.rs.
use session_link.Common.{codes, ◌≡◌, ◌↔◌, refl, ok, err, arith}
use session_link.Format.DateTime.{
  Fault, check, two, two_digits, is, count_digits, offset_at, offset, days, ranges,
}
use session_link.Format.DateTime.Stamps.{stamp, IsDate, IsTime, check-stamp_lem}
use session_link.Tests.Opened.{opened_basics}

check_runs :
    (check (codes "2026-07-19T10:00:00.5Z") ≡ ok tt)
    × (check (codes "2026-07-20T01:59:60+02:00") ≡ ok tt)
    × (check (codes "2026-07-19T15:59:60-08:00") ≡ ok tt)
    × (check (codes "2026-02-29T10:00:00Z") ≡ err Fault.day_range)
    × (check (codes "2026-13-01T10:00:00Z") ≡ err Fault.month_range)
    × (check (codes "2026-07-19T24:00:00Z") ≡ err Fault.time_range)
    × (check (codes "2026-07-19T23:59:60+02:00") ≡ err Fault.leap_second)
    × (check (codes "2026-07-19T10:00:00+24:00") ≡ err Fault.offset_range)
    × (check (codes "2026-07-19 10:00:00Z") ≡ err Fault.shape)
unfolding opened_basics check two two_digits is count_digits offset_at offset days ranges
check_runs = (refl, refl, refl, refl, refl, refl, refl, refl, refl)

check-stamp_lem_example :
    (check (stamp 2024 2 29 23 59 60) ≡ ok tt) ↔ (IsDate 2024 2 29 × IsTime 23 59 60)
check-stamp_lem_example =
    check-stamp_lem 2024 2 29 23 59 60 (omega arith) (omega arith) (omega arith) (omega arith)
      (omega arith) (omega arith)
