-- ===== src/Processor/Solutions/Week.antt =====
-- The week that `parse_pvt` completes the time of week of a solution with.
use gnss_parser.Prelude.{ℕ, ◌+◌, ◌*◌, ◌≤◌, ◌<◌, ◌≡◌, arith}
use gnss_parser.Prelude.Int.{pos}
use gnss_parser.Gnss.Time.{second, week_seconds, Gtime, gpst2time, time2gpst}
use gnss_parser.Gnss.Time.Weeks.{time2gpst-gpst2time}
use gnss_parser.Processor.Solutions.{pvt_week}

-- Ticks since the epoch of GPS time.
abbrev pub since_epoch : ℕ → ℕ → ℕ
since_epoch week tow = week * (week_seconds * second) + tow

-- The test on the two times of week.
near_week :
    (curr : Gtime) (week tow itow : ℕ)
    → 1 ≤ week
    → week < 7101
    → tow < week_seconds * second
    → itow < week_seconds * second
    → time2gpst curr ≡ (pos tow, week)
    → (since_epoch (pvt_week curr (pos itow)) itow ≤ since_epoch week tow + 302400 * second)
      × (since_epoch week tow ≤ since_epoch (pvt_week curr (pos itow)) itow + 302400 * second)
unfolding pvt_week
near_week curr week tow itow l w t i e = rw e (ground arith)

-- When the current time is a time of week `tow` in a week from 1 to 7100 of GPS time, and `itow` is
-- a time of week, then the week that is found for `itow` brings it within half a week of the
-- current time.
pub pvt_week-nearest :
    (week tow itow : ℕ)
    → 1 ≤ week
    → week < 7101
    → tow < week_seconds * second
    → itow < week_seconds * second
    → (since_epoch (pvt_week (gpst2time week (pos tow)) (pos itow)) itow
        ≤ since_epoch week tow + 302400 * second)
      × (since_epoch week tow
          ≤ since_epoch (pvt_week (gpst2time week (pos tow)) (pos itow)) itow + 302400 * second)
pvt_week-nearest week tow itow l w t i =
    near_week (gpst2time week (pos tow)) week tow itow l w t i (time2gpst-gpst2time week tow w t)
