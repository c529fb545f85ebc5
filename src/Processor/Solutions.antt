-- ===== src/Processor/Solutions.antt =====
-- `parse_time_pulse` and `parse_pvt` of
-- ublox_driver/src/gnss_message_parser/ublox_message_processor_helper.cpp. A field that the code
-- multiplies by a constant is kept as the integer of the message.
pub mod Week
use gnss_parser.Prelude.{
  ℕ, ◌+◌, ◌-◌, ◌*◌, ◌/◌, ◌%◌, ◌^◌, Bool, not, ◌||◌, List, [], ltb, ◌==◌, if◌then◌else◌, length,
  Option, none, some, byte_at,
}
use gnss_parser.Prelude.Int.{ℤ, pos, negsuc, ◌+ℤ◌, ◌-ℤ◌, less_ℤ, int32}
use gnss_parser.Gnss.Time.{second, Gtime, gpst2time, time2gpst}
use gnss_parser.Gnss.Satellites.{sys_none, sys_gps, sys_bds, sys_glo, sys_gal}
use gnss_parser.Ubx.Frame.{u16_at, msg_header_len}
use gnss_parser.Processor.{Processor, u32_at, is_0}

pub record TimePulseInfo : Type 0 where
  pub time : Gtime
  pub utc_based : Bool
  pub time_sys : ℕ

-- `towSubMS` is in 2^-32 ms, which is a tick.
unfoldable pub parse_time_pulse : List ℕ → Option TimePulseInfo
parse_time_pulse data' =
    let tow = u32_at data' 6 * 2 ^ 32 + u32_at data' 10 in
    let ref_system = byte_at data' 21 % 16 in
    if not (length data' == 24)
    then none
    else some (record {
      time = gpst2time (u16_at data' 18) (pos tow);
      utc_based = byte_at data' 20 % 2 == 1;
      time_sys =
          if ref_system == sys_gps
          then sys_gps
          else if ref_system == sys_bds
          then sys_bds
          else if ref_system == sys_glo
          then sys_glo
          else if ref_system == sys_gal
          then sys_gal
          else sys_none;
    })

-- The angles are in 1e-7 degrees, the lengths in mm, the speeds in mm/s, `p_dop` in hundredths.
pub record PvtSolution : Type 0 where
  pub time : Gtime
  pub fix_type : ℕ
  pub valid_fix : Bool
  pub diff_soln : Bool
  pub carr_soln : ℕ
  pub num_sv : ℕ
  pub lat : ℤ
  pub lon : ℤ
  pub hgt : ℤ
  pub hgt_msl : ℤ
  pub h_acc : ℕ
  pub v_acc : ℕ
  pub p_dop : ℕ
  pub vel_n : ℤ
  pub vel_e : ℤ
  pub vel_d : ℤ
  pub vel_acc : ℕ

abbrev i32_at : List ℕ → ℕ → ℤ
i32_at data' i = int32 (u32_at data' i)

abbrev half_week : ℤ
half_week = pos (302400 * second)

-- The week of a time of week, near the current time.
unfoldable pub pvt_week : Gtime → ℤ → ℕ
pvt_week curr_time itow =
    let (tow, week) = time2gpst curr_time in
    if less_ℤ (tow +ℤ half_week) itow
    then (week + 2 ^ 32 - 1) % 2 ^ 32
    else if less_ℤ itow (tow -ℤ half_week)
    then (week + 1) % 2 ^ 32
    else week

-- The check of the UTC time is under `if (false && ...)`.
unfoldable pub parse_pvt : Processor → List ℕ → Option PvtSolution
parse_pvt p data' =
    let itow = pos (u32_at data' 6 * 2 ^ 32) in
    let flags = byte_at data' 27 in
    let solution : PvtSolution = (record {
      time = gpst2time (pvt_week p.curr_time itow) itow;
      fix_type = byte_at data' 26;
      valid_fix = flags % 2 == 1;
      diff_soln = flags / 2 % 2 == 1;
      carr_soln = flags / 64;
      num_sv = byte_at data' 29;
      lat = i32_at data' 34;
      lon = i32_at data' 30;
      hgt = i32_at data' 38;
      hgt_msl = i32_at data' 42;
      h_acc = u32_at data' 46;
      v_acc = u32_at data' 50;
      p_dop = u16_at data' 82;
      vel_n = i32_at data' 54;
      vel_e = i32_at data' 58;
      vel_d = i32_at data' 62;
      vel_acc = u32_at data' 74;
    }) in
    if not (length data' == msg_header_len + 92 + 2)
    then none
    else if is_0 p.curr_time.time
    then none
    else some solution
