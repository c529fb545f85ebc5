-- ===== src/Ephem/Bds.antt =====
-- `decode_BDS_D1_ephem` and `decode_BDS_D2_ephem` of
-- ublox_driver/src/gnss_message_parser/ublox_message_processor_helper.cpp, on the buffer of a
-- satellite, whose subframes or pages have 38 bytes each.
pub mod D1
pub mod D2
use gnss_parser.Prelude.{ℕ, ◌+◌, ◌-◌, ◌*◌, ◌%◌, ◌^◌, ltb, if◌then◌else◌}
use gnss_parser.Prelude.Int.{ℤ, pos, int32}
use gnss_parser.Gnss.Time.{second, Gtime, bdt2time, time_add, time2gpst}
use gnss_parser.Ephem.{Ephem}

abbrev pub fourteen : ℤ
fourteen = pos (14 * second)

-- The week of `toe`, as a `uint32_t`, by two tests on the times of week, with the step that each
-- makes.
abbrev pub bdt_week_of : ℕ → ℕ → ℕ → ℕ → ℕ → ℕ
bdt_week_of late early week toes sow =
    if ltb (sow + 302400) toes
    then (week + late) % 2 ^ 32
    else if ltb (toes + 302400) sow
    then (week + early) % 2 ^ 32
    else week

abbrev pub minus_one : ℕ
minus_one = 2 ^ 32 - 1

-- The times from the week and the times of week; `week'` is the week of `toe`.
abbrev pub bdt_times : ℕ → ℕ → ℕ → ℕ → ℕ → Ephem → Ephem
bdt_times week week' sow toes tocs ephem =
    let toe = time_add (bdt2time (int32 week') (pos (toes * second))) fourteen in
    let toc = time_add (bdt2time (int32 week') (pos (tocs * second))) fourteen in
    let (toe_tow, gps_week) = time2gpst toe in
    record ephem {
      ttr = time_add (bdt2time (int32 week) (pos (sow * second))) fourteen;
      toe = toe;
      toe_tow = toe_tow;
      week = gps_week;
      toc = toc;
      code = 0;
    }
