-- ===== src/Processor/Subframes.antt =====
-- `parse_subframe` of
-- ublox_driver/src/gnss_message_parser/ublox_message_processor_helper.cpp.
pub mod Gps
pub mod Bds
pub mod Gal
pub mod Glo
use gnss_parser.Prelude.{
  ℕ, ◌+◌, ◌-◌, List, [], ltb, ◌==◌, if◌then◌else◌, length, Option, none, some, byte_at,
}
use gnss_parser.Gnss.Satellites.{sat_no, sys_gps, sys_bds, sys_gal, sys_glo}
use gnss_parser.Ubx.Signals.{ubx_sys}
use gnss_parser.Ephem.{Ephem, Quantity, blank}
use gnss_parser.Processor.{Processor, Handled}
use Gps.{decode_gps_subframe}
use Bds.{decode_bds_subframe}
use Gal.{decode_gal_subframe}

-- The ephemeris pointer, the ionosphere parameters and the state, or the write through a null
-- pointer.
pub data Parsed : Type 0 where
  null_write : Parsed
  parsed : Processor → Option Ephem → List Quantity → Parsed

-- The status is not used.
abbrev pub result_of : Handled → Parsed
result_of h = parsed h.state (some h.ephem) h.iono

-- In the branch of GLONASS the pointer is one to an `Ephem`, so that the cast to a `GloEphem` is
-- null, which `decode_GLO_subframe` writes through after its test of the length.
unfoldable pub parse_subframe : Processor → List ℕ → Parsed
parse_subframe p msg_data =
    let sys = ubx_sys (byte_at msg_data 6) in
    let sat = sat_no sys (byte_at msg_data 7) in
    if sys == 0
    then parsed p none []
    else if sat == 0
    then parsed p none []
    else if sys == sys_gps
    then result_of (decode_gps_subframe p msg_data (blank sat))
    else if sys == sys_bds
    then result_of (decode_bds_subframe p msg_data (blank sat))
    else if sys == sys_gal
    then result_of (decode_gal_subframe p msg_data (blank sat))
    else if sys == sys_glo
    then (if ltb (length msg_data) 32 then parsed p (some (blank sat)) [] else null_write)
    else parsed p none []
