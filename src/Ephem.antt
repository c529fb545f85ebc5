-- ===== src/Ephem.antt =====
-- Broadcast ephemerides: `Ephem` of gnss_comm/include/gnss_comm/gnss_constant.hpp, and what the
-- message processor decodes from the subframes
-- (ublox_driver/src/gnss_message_parser/ublox_message_processor_helper.cpp).
-- A parameter is kept as the integer of the message with its scale, whose product the code stores
-- as a `double`.
pub mod Gps
pub mod Bds
pub mod Gal
pub mod Glo
mod Tests
use gnss_parser.Prelude.{ℕ, ◌-◌, ◌+◌, ◌^◌, ltb, if◌then◌else◌, Option}
use gnss_parser.Prelude.Int.{ℤ, pos}
use gnss_parser.Gnss.Time.{Gtime}

-- The factor of a parameter: 2^-n, 2^-n SC2RAD, 2^-n 1E3, 0.1E-9, or 2^n.
pub data Scale : Type 0 where
  p2 p2_semicircles p2_kilo : ℕ → Scale
  tenth_nano : Scale
  times_2 : ℕ → Scale

pub record Quantity : Type 0 where
  pub raw : ℤ
  pub scale : Scale

infix 60 ◌of◌
abbrev pub ◌of◌ : ℤ → Scale → Quantity
raw of scale = record { raw = raw; scale = scale }

abbrev pub nothing : Quantity
nothing = pos 0 of p2 0

-- `ura`: pow(2, n / 2.0 + 1), whole metres, hundredths of a metre, or -1.0.
pub data Accuracy : Type 0 where
  half_powers metres centimetres : ℕ → Accuracy
  unknown : Accuracy

-- `(urai < 6) ? pow(2, urai / 2.0 + 1) : (1 << (urai - 2))`
abbrev pub ura_of : ℕ → Accuracy
ura_of urai = if ltb urai 6 then half_powers urai else metres (2 ^ (urai - 2))

-- Of the semi-major axis the root is kept, whose square the code stores.
pub record Ephem : Type 0 where
  pub sat : ℕ
  pub ttr : Gtime
  pub toe : Gtime
  pub toc : Gtime
  pub health : ℕ
  pub ura : Accuracy
  pub iode : ℕ
  pub iodc : ℕ
  pub toe_tow : ℤ
  pub week : ℕ
  pub code : ℕ
  pub sqrt_a : Quantity
  pub e : Quantity
  pub i0 : Quantity
  pub omg : Quantity
  pub omg0 : Quantity
  pub m0 : Quantity
  pub delta_n : Quantity
  pub omg_dot : Quantity
  pub i_dot : Quantity
  pub cuc : Quantity
  pub cus : Quantity
  pub crc : Quantity
  pub crs : Quantity
  pub cic : Quantity
  pub cis : Quantity
  pub af0 : Quantity
  pub af1 : Quantity
  pub af2 : Quantity
  pub tgd0 : Quantity
  pub tgd1 : Quantity

abbrev pub time_0 : Gtime
time_0 = record { time = pos 0; sec = pos 0 }

-- `std::make_unique<Ephem>()` with `ephem->sat = sat`
abbrev pub blank : ℕ → Ephem
blank sat = record {
  sat = sat;
  ttr = time_0;
  toe = time_0;
  toc = time_0;
  health = 0;
  ura = metres 0;
  iode = 0;
  iodc = 0;
  toe_tow = pos 0;
  week = 0;
  code = 0;
  sqrt_a = nothing;
  e = nothing;
  i0 = nothing;
  omg = nothing;
  omg0 = nothing;
  m0 = nothing;
  delta_n = nothing;
  omg_dot = nothing;
  i_dot = nothing;
  cuc = nothing;
  cus = nothing;
  crc = nothing;
  crs = nothing;
  cic = nothing;
  cis = nothing;
  af0 = nothing;
  af1 = nothing;
  af2 = nothing;
  tgd0 = nothing;
  tgd1 = nothing;
}

-- The status that a decoder returns, the ephemeris as it leaves it, also on an error, and the new
-- `curr_time` where it sets one.
pub record Decoded : Type 0 where
  pub status : ℤ
  pub ephem : Ephem
  pub now : Option Gtime
