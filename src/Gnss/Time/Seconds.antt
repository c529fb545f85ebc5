-- ===== src/Gnss/Time/Seconds.antt =====
-- `time2sec`, `sec2time`, `time2doy` and `leap_seconds_from_GPS_epoch` of
-- gnss_comm/src/gnss_utility.cpp. Seconds and days are in ticks.
use gnss_parser.Prelude.{ℕ, ◌-◌, ◌*◌, ◌^◌, ◌≡◌, List, [], ◌∷◌, if◌then◌else◌, arith}
use gnss_parser.Prelude.Int.{ℤ, pos, negsuc, ◌+ℤ◌, ◌-ℤ◌, difference, above}
use gnss_parser.Gnss.Time.{
  second, Gtime, Epoch, floor, in_ticks, epoch2time, time2epoch, time_diff, time_add, Leap, leaps,
  is_before,
}

unfoldable pub time2sec : Gtime → ℤ
time2sec time = in_ticks time.time +ℤ time.sec

unfoldable pub sec2time : ℤ → Gtime
sec2time sec = record { time = floor sec; sec = sec -ℤ in_ticks (floor sec) }

-- The result is in ticks of a day number, 86400 seconds to a day. For a time from 1970 on.
unfoldable pub time2doy : Gtime → ℤ
time2doy time =
    let ep = time2epoch (above time.time) (above time.sec) in
    let first : Epoch = (record {
      year = ep.year;
      month = 1;
      day = 1;
      hour = 0;
      minute = 0;
      sec = 0;
    }) in
    time_diff time (epoch2time first) +ℤ pos (86400 * second)

-- The loop over the rows.
unfoldable pub leap_seconds_in : List Leap → Gtime → ℕ
leap_seconds_in [] given_t = 2 ^ 32 - 1
leap_seconds_in (l ∷ ls) given_t =
    let older = leap_seconds_in ls given_t in
    let tu = time_add given_t (difference 0 (l.ahead * second)) in
    if is_before tu l.from then older else l.ahead

unfoldable pub leap_seconds_from_gps_epoch : Epoch → ℕ
leap_seconds_from_gps_epoch datetime = leap_seconds_in leaps (epoch2time datetime)

-- The time that is made of a number of seconds stands for that number.
time2sec-sec2time : (sec : ℤ) → time2sec (sec2time sec) ≡ sec
unfolding time2sec sec2time
time2sec-sec2time (pos n) = ground arith
time2sec-sec2time (negsuc n) = ground arith
