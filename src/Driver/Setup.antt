-- ===== src/Driver/Setup.antt =====
-- The constructor, `setupSerialPipeline` and `setupRtcmPipeline` of
-- ublox_driver/src/gnss_communication_wrapper/ublox_driver.cpp, as the list of what they make, start
-- and register. The parsing and ROS objects, which are always made, and the log are left out.
pub mod Inputs
use gnss_parser.Prelude.{ℕ, Bool, true, false, not, ◌&&◌, List, [], ◌∷◌, ◌++◌, if◌then◌else◌}
use gnss_parser.Prelude.Int.{ℤ, word}
use gnss_parser.Prelude.Text.{Bytes}
use gnss_parser.Ntrip.{NtripClient}
use gnss_parser.Params.Load.{UbloxDriverParams}

-- A serial port with its baud rate as an `unsigned int`, the start-up configuration, the callback
-- that parses what the receiver sends and its reader; a client of corrections, the callback that
-- logs them and writes them to the receiver, its reader, and the timer of the GGA sentences.
pub data Action : Type 0 where
  open_serial : Bytes → ℕ → Action
  configure_receiver parse_serial_data start_serial : Action
  make_loopback : ℕ → Action
  make_ntrip : Bytes → ℕ → NtripClient → Action
  forward_corrections start_client start_gga_timer : Action

abbrev configuration : UbloxDriverParams → List Action
configuration p = if p.enable_config_bring then configure_receiver ∷ [] else []

-- `opens` is the result of `is_open` of the new port.
unfoldable pub setup_serial_pipeline : UbloxDriverParams → Bool → List Action
setup_serial_pipeline p opens =
    if not p.enable_serial
    then []
    else open_serial p.serial_port (word 32 p.serial_baud_rate)
      ∷ (if not opens then [] else configuration p ++ (parse_serial_data ∷ start_serial ∷ []))

abbrev client_of : UbloxDriverParams → Action
client_of p =
    if p.enable_rtcm_tcp_loopback
    then make_loopback p.rtcm_tcp_port
    else make_ntrip p.ntrip_server p.ntrip_port (record {
      mountpoint = p.ntrip_mountpoint;
      username = p.ntrip_username;
      password = p.ntrip_password;
    })

-- `is_open` is that of the port, which is there where the serial input is on.
unfoldable pub setup_rtcm_pipeline : UbloxDriverParams → Bool → List Action
setup_rtcm_pipeline p is_open =
    if not p.enable_rtcm_tcp_loopback && not p.enable_ntrip_rtcm
    then []
    else if not (p.enable_serial && is_open)
    then []
    else client_of p
      ∷ forward_corrections
      ∷ start_client
      ∷ (if p.enable_ntrip_rtcm then start_gga_timer ∷ [] else [])

unfoldable pub set_up : UbloxDriverParams → Bool → Bool → List Action
set_up p opens is_open = setup_serial_pipeline p opens ++ setup_rtcm_pipeline p is_open
