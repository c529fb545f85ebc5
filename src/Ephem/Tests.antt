-- ===== src/Ephem/Tests.antt =====
-- The decoders of ephemerides at concrete inputs.
use gnss_parser.Prelude.{◌≡◌, arith, some}
use gnss_parser.Prelude.Int.{pos, negsuc}
use gnss_parser.Ephem.{blank}
use gnss_parser.Ephem.Gps.{decode_gps_ephem}
use gnss_parser.Ephem.Gps.Broadcast.{Broadcast, IsBroadcast, encoded, meant}
use gnss_parser.Ephem.Gps.Decode.{decode_gps_ephem-encoded}

-- An orbit of 26560 km, two hours before its reference time.
abbrev sent : Broadcast
sent = record {
  count = 2400;
  week = 252;
  urai = 1;
  health = 0;
  iodc = 0x155;
  toc = 1350;
  toe = 1350;
  e = 51539607;
  sqrt_a = 2702000000;
  tgd = negsuc 23;
  af2 = pos 0;
  af1 = negsuc 11;
  af0 = pos 123456;
  crs = pos 1200;
  delta_n = pos 12000;
  m0 = negsuc 99999999;
  cuc = negsuc 400;
  cus = pos 4000;
  cic = pos 50;
  omg0 = pos 1500000000;
  cis = negsuc 60;
  i0 = pos 650000000;
  crc = pos 8000;
  omg = negsuc 800000000;
  omg_dot = negsuc 22000;
  i_dot = pos 300;
}

sent-IsBroadcast : IsBroadcast sent
sent-IsBroadcast = record {
  count = omega arith;
  in_week = omega arith;
  week = omega arith;
  urai = omega arith;
  health = omega arith;
  iodc = omega arith;
  toc = omega arith;
  toe = omega arith;
  near = (omega arith, omega arith);
  e = omega arith;
  sqrt_a = omega arith;
  tgd = omega arith;
  af2 = omega arith;
  af1 = omega arith;
  af0 = omega arith;
  crs = omega arith;
  delta_n = omega arith;
  m0 = omega arith;
  cuc = omega arith;
  cus = omega arith;
  cic = omega arith;
  omg0 = omega arith;
  cis = omega arith;
  i0 = omega arith;
  crc = omega arith;
  omg = omega arith;
  omg_dot = omega arith;
  i_dot = omega arith;
}

decode_gps_ephem-encoded_example :
    decode_gps_ephem (encoded sent) (blank 7)
    ≡ record { status = pos 0; ephem = meant sent (blank 7); now = some (meant sent (blank 7)).ttr }
decode_gps_ephem-encoded_example = decode_gps_ephem-encoded sent sent-IsBroadcast (blank 7)
