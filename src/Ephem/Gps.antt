-- ===== src/Ephem/Gps.antt =====
-- `decode_GPS_ephem` of ublox_driver/src/gnss_message_parser/ublox_message_processor_helper.cpp, on
-- the buffer of a satellite, whose subframes have 240 bits each.
pub mod Broadcast
pub mod Decode
use gnss_parser.Prelude.{
  ℕ, ◌+◌, ◌-◌, ◌*◌, ◌%◌, ◌^◌, Bool, false, not, ◌||◌, List, ◌==◌, if◌then◌else◌, Option, none, some,
}
use gnss_parser.Prelude.Int.{ℤ, pos, negsuc, ◌+ℤ◌, ◌-ℤ◌, less_ℤ}
use gnss_parser.Gnss.Time.{second, gpst2time, time2gpst}
use gnss_parser.Ubx.Bits.{getbitu}
use gnss_parser.Ubx.Bits.Signed.{getbits}
use gnss_parser.Ephem.{Ephem, Decoded, ◌of◌, p2, p2_semicircles, nothing, ura_of}

abbrev pub is_minus_128 : ℤ → Bool
is_minus_128 (pos n) = false
is_minus_128 (negsuc n) = n == 127

-- Subframe 1: the clock, and the first of the times.
unfoldable pub gps_clock : List ℕ → Ephem → Ephem
gps_clock buff ephem =
    let tow = pos (getbitu buff 24 17 * 6 * second) in
    let week = getbitu buff 48 10 + 1024 * 2 in
    let tgd = getbits buff 160 8 in
    let toc = pos (getbitu buff 176 16 * 16 * second) in
    record ephem {
      ura = ura_of (getbitu buff 60 4);
      health = getbitu buff 64 6;
      af2 = getbits buff 192 8 of p2 55;
      af1 = getbits buff 200 16 of p2 43;
      af0 = getbits buff 216 22 of p2 31;
      tgd0 = if is_minus_128 tgd then nothing else tgd of p2 31;
      iodc = getbitu buff 70 2 * 2 ^ 8 + getbitu buff 168 8;
      week = week;
      ttr = gpst2time week tow;
      toc = gpst2time week toc;
    }

-- Subframe 2
unfoldable pub gps_orbit : List ℕ → Ephem → Ephem
gps_orbit buff ephem = record ephem {
  iode = getbitu buff (240 + 48) 8;
  crs = getbits buff (240 + 56) 16 of p2 5;
  delta_n = getbits buff (240 + 72) 16 of p2_semicircles 43;
  m0 = getbits buff (240 + 88) 32 of p2_semicircles 31;
  cuc = getbits buff (240 + 120) 16 of p2 29;
  e = pos (getbitu buff (240 + 136) 32) of p2 33;
  cus = getbits buff (240 + 168) 16 of p2 29;
  sqrt_a = pos (getbitu buff (240 + 184) 32) of p2 19;
  toe_tow = pos (getbitu buff (240 + 216) 16 * 16 * second);
}

-- Subframe 3
unfoldable pub gps_plane : List ℕ → Ephem → Ephem
gps_plane buff ephem = record ephem {
  cic = getbits buff (480 + 48) 16 of p2 29;
  omg0 = getbits buff (480 + 64) 32 of p2_semicircles 31;
  cis = getbits buff (480 + 96) 16 of p2 29;
  i0 = getbits buff (480 + 112) 32 of p2_semicircles 31;
  crc = getbits buff (480 + 144) 16 of p2 5;
  omg = getbits buff (480 + 160) 32 of p2_semicircles 31;
  omg_dot = getbits buff (480 + 192) 24 of p2_semicircles 43;
  i_dot = getbits buff (480 + 224) 14 of p2_semicircles 43;
}

abbrev pub half_week : ℤ
half_week = pos (302400 * second)

abbrev pub whole_week : ℤ
whole_week = pos (604800 * second)

-- "adjustment for week handover": the week and the time of week of `toe` and `ttr`.
unfoldable pub gps_handover : ℤ → ℤ → ℕ → ℕ × ℤ
gps_handover toe_tow tow week =
    if less_ℤ toe_tow (tow -ℤ half_week)
    then ((week + 1) % 2 ^ 32, tow -ℤ whole_week)
    else if less_ℤ (tow +ℤ half_week) toe_tow
    then ((week + 2 ^ 32 - 1) % 2 ^ 32, tow +ℤ whole_week)
    else (week, tow)

unfoldable pub gps_times : Ephem → Ephem
gps_times ephem =
    let (tow, week) = time2gpst ephem.ttr in
    let toc = (time2gpst ephem.toc).0 in
    let (week', tow') = gps_handover ephem.toe_tow tow week in
    record ephem {
      week = week';
      toe = gpst2time week' ephem.toe_tow;
      toc = gpst2time week' toc;
      ttr = gpst2time week' tow';
    }

-- The loop that checks the subframe ids and the z counts: the status of an early return.
unfoldable pub gps_check : List ℕ → Option ℤ
gps_check buff =
    if not (getbitu buff 43 3 == 1)
    then some (pos 1)
    else if not (getbitu buff (240 + 43) 3 == 2)
    then some (pos 2)
    else if not (getbitu buff 24 17 + 1 == getbitu buff (240 + 24) 17)
    then some (negsuc 1)
    else if not (getbitu buff (480 + 43) 3 == 3)
    then some (pos 3)
    else if not (getbitu buff (240 + 24) 17 + 1 == getbitu buff (480 + 24) 17)
    then some (negsuc 1)
    else none

-- The rest of the decoder, after the loop.
unfoldable pub after_check : Option ℤ → List ℕ → Ephem → Decoded
after_check (some status) buff ephem = record { status = status; ephem = ephem; now = none }
after_check none buff ephem =
    let read = gps_plane buff (gps_orbit buff (gps_clock buff ephem)) in
    let iode = getbitu buff (480 + 216) 8 in
    let done = gps_times read in
    if not (iode == read.iode) || not (iode == read.iodc % 256)
    then record { status = negsuc 0; ephem = read; now = none }
    else record { status = pos 0; ephem = done; now = some done.ttr }

unfoldable pub decode_gps_ephem : List ℕ → Ephem → Decoded
decode_gps_ephem buff ephem = after_check (gps_check buff) buff ephem
