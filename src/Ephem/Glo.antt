-- ===== src/Ephem/Glo.antt =====
-- `decode_GLO_ephem` of
-- ublox_driver/src/gnss_message_parser/ublox_message_processor_helper.cpp, on the buffer of a
-- satellite, whose strings have 80 bits each.
use gnss_parser.Prelude.{
  ℕ, suc, ◌+◌, ◌-◌, ◌*◌, ◌%◌, ◌^◌, Bool, ◌&&◌, List, ltb, ◌==◌, if◌then◌else◌,
}
use gnss_parser.Prelude.Int.{ℤ, pos, negsuc, ◌+ℤ◌, ◌-ℤ◌, less_ℤ, difference}
use gnss_parser.Gnss.Time.{second, Gtime, gpst2utc, utc2gpst, gpst2time, time2gpst}
use gnss_parser.Gnss.Satellites.{sat_no, sys_glo}
use gnss_parser.Ubx.Bits.{getbitu}
use gnss_parser.Ubx.Bits.Signed.{getbitg}
use gnss_parser.Ephem.{Quantity, ◌of◌, p2, p2_kilo, Accuracy, metres, centimetres, unknown}

pub record Vector : Type 0 where
  pub x : Quantity
  pub y : Quantity
  pub z : Quantity

-- `GloEphem`
pub record GloEphem : Type 0 where
  pub sat : ℕ
  pub ttr : Gtime
  pub toe : Gtime
  pub health : ℕ
  pub ura : Accuracy
  pub iode : ℕ
  pub freqo : ℤ
  pub age : ℕ
  pub position : Vector
  pub velocity : Vector
  pub acceleration : Vector
  pub tau_n : Quantity
  pub gamma : Quantity
  pub delta_tau_n : Quantity

-- The strings begin at bit 0, 80, 160 and 240; the counter `i` starts at 1.
abbrev axes : List ℕ → ℕ → ℕ → ℕ → Vector
axes buff offset len scale = record {
  x = getbitg buff (1 + offset) len of p2_kilo scale;
  y = getbitg buff (81 + offset) len of p2_kilo scale;
  z = getbitg buff (161 + offset) len of p2_kilo scale;
}

-- `2.5`, `ft + 1.0` and so on
unfoldable pub glo_ura_of : ℕ → Accuracy
glo_ura_of ft =
    if ft == 2
    then centimetres 250
    else if ltb ft 5
    then metres (ft + 1)
    else if ft == 5
    then metres 7
    else if ltb ft 10
    then metres (10 + (ft - 6) * 2)
    else if ltb ft 15
    then metres (2 ^ (ft - 5))
    else unknown

unfoldable pub glo_read : List ℕ → GloEphem → GloEphem
glo_read buff ephem = record ephem {
  velocity = axes buff 20 24 20;
  acceleration = axes buff 44 5 30;
  position = axes buff 49 27 11;
  health = getbitu buff 85 3;
  gamma = getbitg buff 166 11 of p2 40;
  tau_n = getbitg buff 245 22 of p2 30;
  delta_tau_n = getbitg buff 267 5 of p2 30;
  age = getbitu buff 272 5;
  ura = glo_ura_of (getbitu buff 292 4);
}

unfoldable pub glo_strings : List ℕ → ℕ → Bool
glo_strings buff sat =
    (getbitu buff 1 4 == 1)
    && (getbitu buff 81 4 == 2)
    && (getbitu buff 161 4 == 3)
    && (getbitu buff 241 4 == 4)
    && (sat == sat_no sys_glo (getbitu buff 310 5))

-- `fmod(x, m)`
abbrev fmod : ℤ → ℕ → ℤ
fmod (pos n) m = pos (n % m)
fmod (negsuc n) m = difference 0 (suc n % m)

-- A time of day that is moved by a day to be within half a day of `tod`.
abbrev near : ℤ → ℤ → ℤ
near tod t =
    if less_ℤ t (tod -ℤ pos (43200 * second))
    then t +ℤ pos (86400 * second)
    else if less_ℤ (tod +ℤ pos (43200 * second)) t
    then t -ℤ pos (86400 * second)
    else t

abbrev three_hours : ℤ
three_hours = pos (10800 * second)

-- `tk` and `tb` in UTC+3, on the day of `now`
unfoldable pub glo_times : Gtime → List ℕ → GloEphem → GloEphem
glo_times now buff ephem =
    let (tow, week) = time2gpst (gpst2utc now) in
    let tod = fmod tow (86400 * second) in
    let day = tow -ℤ tod in
    let tb = getbitu buff 89 7 in
    let tk = getbitu buff 9 5 * 3600 + getbitu buff 14 6 * 60 + getbitu buff 20 1 * 30 in
    let tof = near tod (pos (tk * second) -ℤ three_hours) in
    let toe = near tod (pos (tb * 900 * second) -ℤ three_hours) in
    record ephem {
      iode = tb;
      ttr = utc2gpst (gpst2time week (day +ℤ tof));
      toe = utc2gpst (gpst2time week (day +ℤ toe));
    }

-- The status and the ephemeris.
unfoldable pub decode_glo_ephem : Gtime → List ℕ → GloEphem → ℤ × GloEphem
decode_glo_ephem now buff ephem =
    let read = glo_read buff ephem in
    let done = glo_times now buff read in
    if glo_strings buff ephem.sat then (pos 0, done) else (negsuc 0, read)
