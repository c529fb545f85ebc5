-- ===== src/Driver/Setup/Inputs.antt =====
-- The inputs that the driver sets up for loaded parameters.
use gnss_parser.Prelude.{ℕ, suc, Bool, List, [], ◌∷◌, if◌then◌else◌}
use gnss_parser.Driver.Setup.{
  Action, open_serial, configure_receiver, parse_serial_data, start_serial, make_loopback,
  make_ntrip, forward_corrections, start_client, start_gga_timer,
}

-- How often the receiver is configured, the serial reader is started, a loopback client and an NTRIP
-- client are made, the reader of a client is started, and a timer is made.
pub record Counts : Type 0 where
  pub configures : ℕ
  pub serials : ℕ
  pub loopbacks : ℕ
  pub ntrips : ℕ
  pub clients : ℕ
  pub timers : ℕ

abbrev one_more : Action → Counts → Counts
one_more (open_serial port baud) n = n
one_more configure_receiver n = record n { configures = suc n.configures }
one_more parse_serial_data n = n
one_more start_serial n = record n { serials = suc n.serials }
one_more (make_loopback port) n = record n { loopbacks = suc n.loopbacks }
one_more (make_ntrip server port c) n = record n { ntrips = suc n.ntrips }
one_more forward_corrections n = n
one_more start_client n = record n { clients = suc n.clients }
one_more start_gga_timer n = record n { timers = suc n.timers }

abbrev pub count : List Action → Counts
count [] = record {
  configures = 0;
  serials = 0;
  loopbacks = 0;
  ntrips = 0;
  clients = 0;
  timers = 0;
}
count (a ∷ more) = one_more a (count more)

abbrev pub one_if : Bool → ℕ
one_if b = if b then 1 else 0
