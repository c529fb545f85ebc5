-- ===== src/Processor/Publish.antt =====
-- `process_data` of ublox_driver/src/gnss_message_parser/ublox_message_processor.cpp, and the
-- filters of `UbloxRosHandler` (ublox_driver/src/gnss_communication_wrapper/ros_handler.cpp) that
-- it publishes through.
pub mod Faults
pub mod Filters
use gnss_parser.Prelude.{
  ℕ, ◌+◌, ◌*◌, Bool, not, ◌||◌, List, [], ◌∷◌, ◌++◌, ◌==◌, if◌then◌else◌, length, Option, none,
  some, bit_and,
}
use gnss_parser.Gnss.Time.{Gtime}
use gnss_parser.Gnss.Satellites.{satsys, sys_glo}
use gnss_parser.Ubx.Frame.{verify_msg, msg_type}
use gnss_parser.Ephem.{Ephem, Quantity}
use gnss_parser.Processor.{Processor, is_0}
use gnss_parser.Processor.Subframes.{Parsed, null_write, parsed, parse_subframe}
use gnss_parser.Processor.Observations.{Obs, parse_meas_msg}
use gnss_parser.Processor.Solutions.{TimePulseInfo, parse_time_pulse, PvtSolution, parse_pvt}

pub record RosHandler : Type 0 where
  pub raw_observation_system_mask : ℕ
  pub ephemeris_system_mask : ℕ

-- A solution goes to the callbacks and to two topics, in one step here.
pub data Publication : Type 0 where
  range_meas : List Obs → Publication
  ephem : Ephem → Publication
  iono_params : List Quantity → Gtime → Publication
  time_pulse_info : TimePulseInfo → Publication
  receiver_pvt : PvtSolution → Publication

unfoldable pub filtered : ℕ → List Obs → List Obs
filtered mask [] = []
filtered mask (o ∷ meas) =
    let rest = filtered mask meas in if bit_and (satsys o.sat).sys mask == 0 then rest else o ∷ rest

abbrev nonempty : List Obs → List Publication
nonempty [] = []
nonempty (o ∷ meas) = range_meas (o ∷ meas) ∷ []

unfoldable pub publish_observations : RosHandler → List Obs → List Publication
publish_observations handler meas = nonempty (filtered handler.raw_observation_system_mask meas)

-- No result is the use of the null pointer that the cast to a `GloEphem` gives.
unfoldable pub publish_ephemeris : RosHandler → Option Ephem → Option (List Publication)
publish_ephemeris handler none = some []
publish_ephemeris handler (some e) =
    let sys = (satsys e.sat).sys in
    if is_0 e.ttr.time
    then some []
    else if bit_and sys handler.ephemeris_system_mask == 0
    then some []
    else if sys == sys_glo
    then none
    else some (ephem e ∷ [])

unfoldable pub publish_iono_params : List Quantity → Gtime → List Publication
publish_iono_params params stamp =
    if not (length params == 8) then [] else iono_params params stamp ∷ []

unfoldable pub publish_time_pulse : Option TimePulseInfo → List Publication
publish_time_pulse none = []
publish_time_pulse (some info) = if is_0 info.time.time then [] else time_pulse_info info ∷ []

unfoldable pub publish_pvt : Option PvtSolution → List Publication
publish_pvt none = []
publish_pvt (some solution) = if is_0 solution.time.time then [] else receiver_pvt solution ∷ []

-- The state and what is published, or the end of the program by a null pointer.
pub data Processed : Type 0 where
  crashed : Processed
  processed : Processor → List Publication → Processed

abbrev pub no_handler : Option RosHandler → List Publication → List Publication
no_handler none published = []
no_handler (some handler) published = published

-- `if (ros_handler_) ...`, with the publications that follow it.
abbrev pub after : Processor → Option (List Publication) → List Publication → Processed
after p none more = crashed
after p (some published) more = processed p (published ++ more)

abbrev pub iono_of : Option Ephem → List Quantity → List Publication
iono_of none iono = []
iono_of (some e) iono = publish_iono_params iono e.ttr

abbrev pub publish_subframe : Option RosHandler → Parsed → Processed
publish_subframe h null_write = crashed
publish_subframe none (parsed p e iono) = processed p []
publish_subframe (some handler) (parsed p e iono) =
    after p (publish_ephemeris handler e) (iono_of e iono)

abbrev pub publish_meas : Option RosHandler → Processor × List Obs → Processed
publish_meas none (p, meas) = processed p []
publish_meas (some handler) (p, meas) = processed p (publish_observations handler meas)

unfoldable pub process_data : Option RosHandler → Processor → List ℕ → Processed
process_data handler p data' =
    let type = msg_type data' in
    if not (verify_msg data' (length data'))
    then processed p []
    else if type == 0x0215
    then publish_meas handler (parse_meas_msg p data')
    else if type == 0x0213
    then publish_subframe handler (parse_subframe p data')
    else if type == 0x0D01
    then processed p (no_handler handler (publish_time_pulse (parse_time_pulse data')))
    else if type == 0x0107
    then processed p (no_handler handler (publish_pvt (parse_pvt p data')))
    else processed p []
