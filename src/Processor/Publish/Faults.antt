-- ===== src/Processor/Publish/Faults.antt =====
-- The messages that end the program: the null pointer of GLONASS subframes.
use gnss_parser.Prelude.{
  ℕ, ◌-◌, ◌/◌, ◌%◌, ◌^◌, ◌≤◌, true, List, [], ◌≡◌, ◌≢◌, ◌↔◌, ap, ◌∙◌, length, byte_at, Option, none,
  some, arith,
}
use gnss_parser.Gnss.Satellites.{sat_no, satsys, sys_glo, SatSys}
use gnss_parser.Gnss.Satellites.Numbering.{satsys-sat_no}
use gnss_parser.Ubx.Signals.{ubx_sys}
use gnss_parser.Ubx.Bits.{getbitu}
use gnss_parser.Ubx.Frame.{verify_msg, msg_type}
use gnss_parser.Ephem.{Ephem, blank}
use gnss_parser.Ephem.Gps.{
  after_check, decode_gps_ephem, gps_clock, gps_orbit, gps_plane, gps_times,
}
use gnss_parser.Ephem.Gal.{decode_gal_ephem, gal_clock, gal_orbit, gal_times}
use gnss_parser.Ephem.Bds.D1.{decode_bds_d1_ephem, d1_clock, d1_orbit, d1_plane}
use gnss_parser.Ephem.Bds.D2.{decode_bds_d2_ephem, d2_clock, d2_orbit, d2_merged}
use gnss_parser.Processor.{Processor, Handled, row}
use gnss_parser.Processor.Subframes.{parsed, parse_subframe, result_of}
use gnss_parser.Processor.Subframes.Gps.{gps_stored, gps_subframe_id, decode_gps_subframe}
use gnss_parser.Processor.Subframes.Bds.{
  bds_stored, bds_word, decode_bds_subframe, bds_d1_subframe, bds_d2_subframe,
}
use gnss_parser.Processor.Subframes.Gal.{swapped, gal_stored, decode_gal_subframe}
use gnss_parser.Processor.Publish.{
  RosHandler, crashed, publish_subframe, publish_ephemeris, process_data,
}

-- The decoders write no other satellite into an ephemeris.
decode_gps-sat : (buff : List ℕ) (e : Ephem) → (decode_gps_ephem buff e).ephem.sat ≡ e.sat
unfolding decode_gps_ephem after_check gps_clock gps_orbit gps_plane gps_times
decode_gps-sat buff e = ground arith

decode_gal-sat : (buff : List ℕ) (e : Ephem) → (decode_gal_ephem buff e).0.ephem.sat ≡ e.sat
unfolding decode_gal_ephem gal_clock gal_orbit gal_times
decode_gal-sat buff e = ground arith

decode_d1-sat : (buff : List ℕ) (e : Ephem) → (decode_bds_d1_ephem buff e).0.ephem.sat ≡ e.sat
unfolding decode_bds_d1_ephem d1_clock d1_orbit d1_plane
decode_d1-sat buff e = ground arith

decode_d2-sat : (buff : List ℕ) (e : Ephem) → (decode_bds_d2_ephem buff e).ephem.sat ≡ e.sat
unfolding decode_bds_d2_ephem d2_clock d2_orbit d2_merged
decode_d2-sat buff e = ground arith

pub gps-sat :
    (p : Processor) (d : List ℕ) (e : Ephem) → (decode_gps_subframe p d e).ephem.sat ≡ e.sat
unfolding decode_gps_subframe
gps-sat p d e = ground (arith, decode_gps-sat (gps_stored p d e.sat (gps_subframe_id d - 1)) e)

pub gal-sat :
    (p : Processor) (d : List ℕ) (e : Ephem) → (decode_gal_subframe p d e).ephem.sat ≡ e.sat
unfolding decode_gal_subframe
gal-sat p d e =
    let buff = swapped d 14 8 in
    ground (arith, decode_gal-sat (gal_stored buff (getbitu buff 2 6) (row p e.sat)) e)

d1-sat :
    (p : Processor) (d : List ℕ) (e : Ephem) (id : ℕ) → (bds_d1_subframe p d e id).ephem.sat ≡ e.sat
unfolding bds_d1_subframe
d1-sat p d e id = ground (arith, decode_d1-sat (bds_stored p d e.sat (id - 1)) e)

d2-sat :
    (p : Processor) (d : List ℕ) (e : Ephem) (id : ℕ) → (bds_d2_subframe p d e id).ephem.sat ≡ e.sat
unfolding bds_d2_subframe
d2-sat p d e id =
    ground (arith, decode_d2-sat (bds_stored p d e.sat (bds_word d 1 / 2 ^ 14 % 16 - 1)) e)

pub bds-sat :
    (p : Processor) (d : List ℕ) (e : Ephem) → (decode_bds_subframe p d e).ephem.sat ≡ e.sat
unfolding decode_bds_subframe
bds-sat p d e =
    let id = bds_word d 0 / 2 ^ 12 % 8 in ground (arith, d1-sat p d e id, d2-sat p d e id)

system_of : (sat s prn : ℕ) → sat ≡ sat_no s prn → sat_no s prn ≢ 0 → (satsys sat).sys ≡ s
system_of sat s prn e h = ap (λ n. (satsys n).sys) e ∙ ap SatSys.sys (satsys-sat_no s prn h)

-- Of another system than GLONASS every ephemeris can be published.
published_of :
    (h : Option RosHandler) (x : Handled) (s prn : ℕ)
    → x.ephem.sat ≡ sat_no s prn
    → sat_no s prn ≢ 0
    → s ≢ sys_glo
    → publish_subframe h (result_of x) ≢ crashed
unfolding publish_ephemeris
published_of none x s prn e a n c = ground arith
published_of (some h) x s prn e a n c = let o = system_of x.ephem.sat s prn e a in ground arith

-- A frame of a GLONASS satellite's subframe, long enough for a string.
abbrev pub IsFatal : List ℕ → Type 0
IsFatal d = (ubx_sys (byte_at d 6) ≡ sys_glo) × (sat_no sys_glo (byte_at d 7) ≢ 0) × (32 ≤ length d)

blank_published :
    (h : Option RosHandler) (p : Processor) (n : ℕ)
    → publish_subframe h (parsed p (some (blank n)) []) ≢ crashed
unfolding publish_ephemeris
blank_published none p n c = ground arith
blank_published (some h) p n c = ground arith

nothing_published :
    (h : Option RosHandler) (p : Processor) → publish_subframe h (parsed p none []) ≢ crashed
unfolding publish_ephemeris
nothing_published none p c = ground arith
nothing_published (some h) p c = ground arith

subframe-crashed_iff :
    (h : Option RosHandler) (p : Processor) (d : List ℕ)
    → (publish_subframe h (parse_subframe p d) ≡ crashed) ↔ IsFatal d
unfolding parse_subframe
subframe-crashed_iff h p d =
    let s = ubx_sys (byte_at d 6) in
    let prn = byte_at d 7 in
    let e = blank (sat_no s prn) in
    ground (
      arith,
      published_of h (decode_gps_subframe p d e) s prn (gps-sat p d e),
      published_of h (decode_bds_subframe p d e) s prn (bds-sat p d e),
      published_of h (decode_gal_subframe p d e) s prn (gal-sat p d e),
      blank_published h p (sat_no s prn),
      nothing_published h p,
    )

-- The program ends at a message exactly when the message is a verified UBX-RXM-SFRBX frame of at
-- least 32 bytes from a GLONASS satellite, whatever the state and the handler are.
pub process_data-crashed_iff :
    (h : Option RosHandler) (p : Processor) (d : List ℕ)
    → (process_data h p d ≡ crashed)
      ↔ ((verify_msg d (length d) ≡ true) × (msg_type d ≡ 0x0213) × IsFatal d)
unfolding process_data
process_data-crashed_iff h p d = ground (arith, subframe-crashed_iff h p d)
