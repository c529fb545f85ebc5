-- ===== src/Gnss/Time/Weeks.antt =====
-- Weeks and times of week of GPS, Galileo and BeiDou time.
use gnss_parser.Prelude.{ℕ, ◌*◌, ◌<◌, ◌≡◌, arith}
use gnss_parser.Prelude.Int.{pos, word}
use gnss_parser.Gnss.Time.{
  second, week_seconds, epoch2time, days_and_two, gpst2time, time2gpst, gst2time, time2gst,
  bdt2time, time2bdt,
}

-- `time2gpst` gives back the week and the time of week that `gpst2time` was given, for a time
-- within a week and a week whose seconds fit the `uint32_t` of the sum.
pub time2gpst-gpst2time :
    (week tow : ℕ)
    → week < 7101
    → tow < week_seconds * second
    → time2gpst (gpst2time week (pos tow)) ≡ (pos tow, week)
unfolding gpst2time time2gpst epoch2time days_and_two word
time2gpst-gpst2time week tow w t = ground arith

-- The same of Galileo time, for any week from its epoch on.
pub time2gst-gst2time :
    (week tow : ℕ)
    → tow < week_seconds * second
    → time2gst (gst2time (pos week) (pos tow)) ≡ (pos tow, pos week)
unfolding gst2time time2gst epoch2time days_and_two
time2gst-gst2time week tow t = ground arith

-- The same of BeiDou time.
pub time2bdt-bdt2time :
    (week tow : ℕ)
    → tow < week_seconds * second
    → time2bdt (bdt2time (pos week) (pos tow)) ≡ (pos tow, pos week)
unfolding bdt2time time2bdt epoch2time days_and_two
time2bdt-bdt2time week tow t = ground arith
