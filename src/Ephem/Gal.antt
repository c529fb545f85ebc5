-- ===== src/Ephem/Gal.antt =====
-- `decode_GAL_ephem` of ublox_driver/src/gnss_message_parser/ublox_message_processor_helper.cpp, on
-- the buffer of a satellite, whose I/NAV words have 128 bits each.
use gnss_parser.Prelude.{
  ℕ, ◌+◌, ◌-◌, ◌*◌, ◌^◌, Bool, not, ◌&&◌, List, ltb, ◌==◌, if◌then◌else◌, none, some, bit_or,
  replicate,
}
use gnss_parser.Prelude.Int.{ℤ, pos, negsuc, ◌+ℤ◌, ◌-ℤ◌, less_ℤ, difference}
use gnss_parser.Gnss.Time.{second, gst2time, time_diff, time2gpst}
use gnss_parser.Gnss.Satellites.{sat_no, sys_gal}
use gnss_parser.Ubx.Bits.{getbitu}
use gnss_parser.Ubx.Bits.Signed.{getbits}
use gnss_parser.Ephem.{Ephem, Decoded, ◌of◌, p2, p2_semicircles, Accuracy, centimetres, unknown}

-- `0.01 * sisa`, `0.5 + 0.02 * (sisa - 50)` and so on
unfoldable pub sisa_of : ℕ → Accuracy
sisa_of sisa =
    if ltb sisa 50
    then centimetres sisa
    else if ltb sisa 75
    then centimetres (50 + 2 * (sisa - 50))
    else if ltb sisa 100
    then centimetres (100 + 4 * (sisa - 75))
    else if ltb sisa 125
    then centimetres (200 + 16 * (sisa - 100))
    else unknown

-- Words 1 and 2
unfoldable pub gal_orbit : List ℕ → Ephem → Ephem
gal_orbit buff ephem = record ephem {
  m0 = getbits buff (128 + 30) 32 of p2_semicircles 31;
  e = pos (getbitu buff (128 + 62) 32) of p2 33;
  omg0 = getbits buff (256 + 16) 32 of p2_semicircles 31;
  i0 = getbits buff (256 + 48) 32 of p2_semicircles 31;
  omg = getbits buff (256 + 80) 32 of p2_semicircles 31;
  i_dot = getbits buff (256 + 112) 14 of p2_semicircles 43;
}

-- Words 3 to 5
unfoldable pub gal_clock : List ℕ → Ephem → Ephem
gal_clock buff ephem = record ephem {
  omg_dot = getbits buff (384 + 16) 24 of p2_semicircles 43;
  delta_n = getbits buff (384 + 40) 16 of p2_semicircles 43;
  cuc = getbits buff (384 + 56) 16 of p2 29;
  cus = getbits buff (384 + 72) 16 of p2 29;
  crc = getbits buff (384 + 88) 16 of p2 5;
  crs = getbits buff (384 + 104) 16 of p2 5;
  ura = sisa_of (getbitu buff (384 + 120) 8);
  cic = getbits buff (512 + 22) 16 of p2 29;
  cis = getbits buff (512 + 38) 16 of p2 29;
  af0 = getbits buff (512 + 68) 31 of p2 34;
  af1 = getbits buff (512 + 99) 21 of p2 46;
  af2 = getbits buff (512 + 120) 6 of p2 59;
  tgd0 = getbits buff (640 + 47) 10 of p2 32;
  tgd1 = getbits buff (640 + 57) 10 of p2 32;
}

-- Each word says its number, and the time of word 0 is valid.
unfoldable pub gal_words : List ℕ → Bool
gal_words buff =
    (getbitu buff 0 6 == 0)
    && (getbitu buff 128 6 == 1)
    && (getbitu buff 256 6 == 2)
    && (getbitu buff 384 6 == 3)
    && (getbitu buff 512 6 == 4)
    && (getbitu buff 640 6 == 5)
    && (getbitu buff 6 2 == 2)

abbrev gal_iod : List ℕ → ℕ → ℕ
gal_iod buff n = getbitu buff (128 * n + 6) 10

-- The four issues of data agree, and the satellite is the one of word 4.
unfoldable pub gal_agrees : List ℕ → ℕ → Bool
gal_agrees buff sat =
    (gal_iod buff 1 == gal_iod buff 2)
    && (gal_iod buff 1 == gal_iod buff 3)
    && (gal_iod buff 1 == gal_iod buff 4)
    && (sat == sat_no sys_gal (getbitu buff (512 + 16) 6))

abbrev half_week : ℤ
half_week = pos (302400 * second)

abbrev minutes : ℕ → ℤ
minutes n = pos (n * 60 * second)

-- The rest of the decoder when all checks pass.
unfoldable pub gal_times : List ℕ → Ephem → Ephem
gal_times buff ephem =
    let week = pos (getbitu buff 96 12) in
    let toes = minutes (getbitu buff (128 + 16) 14) in
    let toc = minutes (getbitu buff (512 + 54) 14) in
    let ttr = gst2time week (pos (getbitu buff 108 20 * second)) in
    let tt = time_diff (gst2time week toes) ttr in
    let week' : ℤ =
      (if less_ℤ half_week tt
        then week -ℤ pos 1
        else if less_ℤ tt (difference 0 (302400 * second))
        then week +ℤ pos 1
        else week) in
    let toe = gst2time week' toes in
    let (toe_tow, gps_week) = time2gpst toe in
    let iod = gal_iod buff 1 in
    record ephem {
      sqrt_a = pos (getbitu buff (128 + 94) 32) of p2 19;
      iode = iod;
      iodc = iod;
      health = bit_or (getbitu buff (640 + 67) 2 * 2 ^ 7) (
          bit_or (getbitu buff (640 + 71) 1 * 2 ^ 6)
            (bit_or (getbitu buff (640 + 69) 2 * 2) (getbitu buff (640 + 72) 1)));
      ttr = ttr;
      toe = toe;
      toc = gst2time week' toc;
      toe_tow = toe_tow;
      week = gps_week;
      code = bit_or 1 (2 ^ 9);
    }

-- With the buffer, which is cleared when the ephemeris is complete.
unfoldable pub decode_gal_ephem : List ℕ → Ephem → Decoded × List ℕ
decode_gal_ephem buff ephem =
    let read = gal_clock buff (gal_orbit buff ephem) in
    let done = gal_times buff read in
    if not (gal_words buff)
    then (record { status = negsuc 0; ephem = read; now = none }, buff)
    else if not (gal_agrees buff ephem.sat)
    then (record { status = pos 0; ephem = read; now = none }, buff)
    else (record { status = pos 0; ephem = done; now = some done.ttr }, replicate 380 0)
