-- ===== src/Driver/Gga.antt =====
-- The GGA sentences of ublox_driver/src/gnss_communication_wrapper/ublox_driver.cpp, and when
-- `sendNtripGga` sends one. The numbers of a solution are integers, as in Processor.Solutions.
pub mod Receiver
pub mod Fields
pub mod Framing
pub mod Parts
pub mod Sentence
pub mod Degrees
use gnss_parser.Prelude.{
  ℕ, zero, suc, ◌+◌, ◌-◌, ◌*◌, ◌/◌, ◌%◌, ◌^◌, Bool, true, false, not, ◌&&◌, ◌||◌, List, [], ◌∷◌,
  ◌++◌, ltb, leb, ◌==◌, if◌then◌else◌, Option, none, some, bit_xor,
}
use gnss_parser.Prelude.Int.{ℤ, pos, negsuc, ◌-ℤ◌, above, less_ℤ}
use gnss_parser.Prelude.Text.{Bytes, codes, joined}
use gnss_parser.Gnss.Time.{Gtime, Epoch, gpst2utc, time2epoch}
use gnss_parser.Processor.{is_0}
use gnss_parser.Processor.Solutions.{PvtSolution}

unfoldable pub get_nmea_fix_quality : PvtSolution → ℕ
get_nmea_fix_quality pvt_soln =
    if not pvt_soln.valid_fix || ltb pvt_soln.fix_type 2
    then 0
    else if pvt_soln.carr_soln == 2
    then 4
    else if pvt_soln.carr_soln == 1
    then 5
    else if pvt_soln.diff_soln
    then 2
    else 1

-- The last `w` decimal digits.
unfoldable pub digits : ℕ → ℕ → Bytes
digits zero n = []
digits (suc w) n = digits w (n / 10) ++ ((n % 10 + 48) ∷ [])

-- How many digits a number has, at most `fuel`.
unfoldable pub count_digits : ℕ → ℕ → ℕ
count_digits zero n = 0
count_digits (suc fuel) n =
    let rest = count_digits fuel (n / 10) in if ltb n 10 then 1 else rest + 1

-- `std::setfill('0') << std::setw(w)` of a number that is not negative
unfoldable pub print : ℕ → ℕ → Bytes
print w n = if ltb n (10 ^ w) then digits w n else digits (count_digits 20 n) n

-- `std::fabs` of an angle
abbrev pub magnitude : ℤ → ℕ
magnitude (pos n) = n
magnitude (negsuc n) = suc n

-- The minutes of an angle in 1e-5 minutes; `std::setprecision(5)` takes the nearest, and no angle
-- is half-way.
abbrev pub minutes_of : ℕ → ℕ
minutes_of value = (value % 10000000 * 6 + 5) / 10

unfoldable pub format_nmea_degrees : ℤ → Bool → Bytes
format_nmea_degrees value is_latitude =
    let minutes = minutes_of (magnitude value) in
    print (if is_latitude then 2 else 3) (magnitude value / 10000000)
    ++ (print 2 (minutes / 100000) ++ (46 ∷ digits 5 (minutes % 100000)))

unfoldable pub xor_all : Bytes → ℕ → ℕ
xor_all [] checksum = checksum
xor_all (ch ∷ body) checksum = xor_all body (bit_xor checksum ch)

abbrev pub hex_upper : ℕ → ℕ
hex_upper d = if ltb d 10 then d + 48 else d + 55

unfoldable pub append_nmea_checksum : Bytes → Bytes
append_nmea_checksum sentence_body =
    let checksum = xor_all sentence_body 0 in
    36
    ∷ (sentence_body ++ (42 ∷ hex_upper (checksum / 16) ∷ hex_upper (checksum % 16) ∷ 13 ∷ 10 ∷ []))

-- A length in mm as metres with three decimals.
abbrev metres : ℕ → Bytes
metres n = print 1 (n / 1000) ++ (46 ∷ digits 3 (n % 1000))

abbrev pub signed_metres : ℤ → Bytes
signed_metres (pos n) = metres n
signed_metres (negsuc n) = 45 ∷ metres (suc n)

abbrev pub hemisphere : ℤ → Bytes → Bytes → Bytes
hemisphere (pos n) positive negative = positive
hemisphere (negsuc n) positive negative = negative

-- The seconds of an epoch in ms.
abbrev pub millis : ℕ → ℕ
millis ticks = (ticks + 2 ^ 31) / 2 ^ 32

abbrev pub utc_epoch : PvtSolution → Epoch
utc_epoch pvt_soln = let utc = gpst2utc pvt_soln.time in time2epoch (above utc.time) (above utc.sec)

-- `std::setprecision(1)` of hundredths is a parameter: a number half-way is rounded as the `double`
-- that stands for it is. It gives tenths.
module _ (tenths : ℕ → ℕ) where
  unfoldable pub gga_fields : PvtSolution → List Bytes
  gga_fields pvt_soln =
      let epoch = utc_epoch pvt_soln in
      let ms = millis epoch.sec in
      let dop = if ltb 0 pvt_soln.p_dop then tenths pvt_soln.p_dop else 0 in
      codes "GPGGA,"
      ∷ print 2 epoch.hour
      ∷ print 2 epoch.minute
      ∷ print 2 (ms / 1000)
      ∷ codes "."
      ∷ digits 3 (ms % 1000)
      ∷ codes ","
      ∷ format_nmea_degrees pvt_soln.lat true
      ∷ codes ","
      ∷ hemisphere pvt_soln.lat (codes "N") (codes "S")
      ∷ codes ","
      ∷ format_nmea_degrees pvt_soln.lon false
      ∷ codes ","
      ∷ hemisphere pvt_soln.lon (codes "E") (codes "W")
      ∷ codes ","
      ∷ print 1 (get_nmea_fix_quality pvt_soln)
      ∷ codes ","
      ∷ print 2 pvt_soln.num_sv
      ∷ codes ","
      ∷ print 1 (dop / 10)
      ∷ codes "."
      ∷ digits 1 dop
      ∷ codes ","
      ∷ signed_metres pvt_soln.hgt_msl
      ∷ codes ",M,"
      ∷ signed_metres (pvt_soln.hgt -ℤ pvt_soln.hgt_msl)
      ∷ codes ",M,,"
      ∷ []

  abbrev pub gga_body : PvtSolution → Bytes
  gga_body pvt_soln = joined (gga_fields pvt_soln)

  unfoldable pub build_nmea_gga_sentence : PvtSolution → Bytes
  build_nmea_gga_sentence pvt_soln =
      if get_nmea_fix_quality pvt_soln == 0 then [] else append_nmea_checksum (gga_body pvt_soln)

-- The counters, which are `uint64_t`, and the sentences that were written.
pub record GgaState : Type 0 where
  pub ntrip_gga_send_count : ℕ
  pub ntrip_gga_skip_count : ℕ
  pub written : List Bytes

-- `enable_ntrip_rtcm`, an open client, the latest solution, and whether the write succeeds.
pub record GgaInput : Type 0 where
  pub enable_ntrip_rtcm : Bool
  pub client_open : Bool
  pub latest_pvt : Option PvtSolution
  pub write_ok : Bool

abbrev count_skip : GgaState → GgaState
count_skip s = record s { ntrip_gga_skip_count = (s.ntrip_gga_skip_count + 1) % 2 ^ 64 }

abbrev count_sent : Bytes → GgaState → GgaState
count_sent sentence s = record s {
  ntrip_gga_send_count = (s.ntrip_gga_send_count + 1) % 2 ^ 64;
  written = s.written ++ (sentence ∷ []);
}

module _ (tenths : ℕ → ℕ) where
  abbrev send_sentence : GgaInput → Bytes → GgaState → GgaState
  send_sentence i [] s = count_skip s
  send_sentence i (c ∷ cs) s = if i.write_ok then count_sent (c ∷ cs) s else s

  abbrev send_latest : GgaInput → Option PvtSolution → GgaState → GgaState
  send_latest i none s = count_skip s
  send_latest i (some pvt) s =
      if is_0 pvt.time.time
      then count_skip s
      else send_sentence i (build_nmea_gga_sentence tenths pvt) s

  unfoldable pub send_ntrip_gga : GgaInput → GgaState → GgaState
  send_ntrip_gga i s =
      if not i.enable_ntrip_rtcm || not i.client_open then s else send_latest i i.latest_pvt s
