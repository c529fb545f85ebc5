-- ===== src/Gnss/Tests.antt =====
-- Runs of the satellite numbering, and its theorems at concrete inputs.
use gnss_parser.Prelude.{some, ℕ, ◌*◌, ◌+◌, ◌≡◌, refl, arith}
use gnss_parser.Gnss.Satellites.{
  sat_no, satsys, satsys_glo, satsys_gal, satsys_bds, sys_glo, sys_bds,
}
use gnss_parser.Prelude.Int.{pos}
use gnss_parser.Gnss.Time.{second, Epoch, epoch2time, days_and_two, time2epoch, gpst2utc, utc2gpst}
use gnss_parser.Gnss.Time.Calendar.{IsValid, time2epoch-epoch2time}
use gnss_parser.Gnss.Time.Leaps.{at_time, gpst2utc-utc2gpst}
use gnss_parser.Gnss.Satellites.Names.{sat2str, str2sat, str2sat-sat2str}

satsys-run : satsys 160 ≡ record { sys = sys_bds; prn = 63 }
unfolding satsys satsys_glo satsys_gal satsys_bds
satsys-run = refl

glonass_5 : sat_no sys_glo 5 ≡ 37
unfolding sat_no
glonass_5 = refl

-- The last satellite of BeiDou
str2sat-sat2str_example : str2sat (sat2str 160) ≡ some 160
str2sat-sat2str_example = str2sat-sat2str 160 (omega arith)

-- 2024-02-29 23:59:59 and a tick
abbrev leap_day : Epoch
leap_day = record {
  year = 2024;
  month = 2;
  day = 29;
  hour = 23;
  minute = 59;
  sec = 59 * second + 1;
}

leap_day-IsValid : IsValid leap_day
leap_day-IsValid = record {
  year_in = (omega arith, omega arith);
  month_in = (omega arith, omega arith);
  day_in = (omega arith, omega arith);
  hour_in = omega arith;
  minute_in = omega arith;
  sec_in = omega arith;
}

time2epoch-epoch2time_example :
    (t : ℕ) × (s : ℕ) × (epoch2time leap_day ≡ record { time = pos t; sec = pos s })
    × (time2epoch t s ≡ leap_day)
time2epoch-epoch2time_example = time2epoch-epoch2time leap_day leap_day-IsValid

leap_day-run : epoch2time leap_day ≡ record { time = pos 1709251199; sec = pos 1 }
unfolding epoch2time days_and_two
leap_day-run = refl

-- In the leap second before 2017
gpst2utc-utc2gpst_example :
    gpst2utc (utc2gpst (at_time (pos 1483228799) 7)) ≡ at_time (pos 1483228799) 7
gpst2utc-utc2gpst_example = gpst2utc-utc2gpst (pos 1483228799) 7 (omega arith)
