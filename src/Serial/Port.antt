-- ===== src/Serial/Port.antt =====
-- The port of ublox_driver/src/serial/serial_handler.cpp: opening and configuring it, the callbacks,
-- and `startRead`, `stopRead` and `close`. What the calls of the system give is an argument.
use gnss_parser.Prelude.{
  ℕ, ◌+◌, ◌≡◌, refl, Bool, true, false, not, ◌&&◌, ◌||◌, List, [], ◌∷◌, ◌++◌, ◌==◌, if◌then◌else◌,
  arith,
}

-- The rates that `termios` is asked for; 0 for any other.
unfoldable pub get_baud_rate : ℕ → ℕ
get_baud_rate baud_rate =
    if baud_rate == 9600
      || baud_rate == 19200
      || baud_rate == 38400
      || baud_rate == 57600
      || baud_rate == 115200
      || baud_rate == 230400
      || baud_rate == 460800
      || baud_rate == 921600
    then baud_rate
    else 0

-- Whether `pipe`, `open`, `tcgetattr`, the setting of the two speeds and `tcsetattr` succeed.
pub record Calls : Type 0 where
  pub pipe_ok : Bool
  pub open_ok : Bool
  pub get_ok : Bool
  pub speed_ok : Bool
  pub set_ok : Bool

-- The flags of the line are set between the calls and do not change the result.
unfoldable pub configure_serial_port : Calls → ℕ → Bool
configure_serial_port s baud_rate =
    if not s.get_ok
    then false
    else if get_baud_rate baud_rate == 0
    then false
    else if not s.speed_ok
    then false
    else s.set_ok

-- The members but the name and the buffer; callbacks are numbers, `woken` counts the bytes in the
-- pipe.
pub record Port : Type 0 where
  pub is_open : Bool
  pub wake_pipe : Bool
  pub read_running : Bool
  pub read_thread : Bool
  pub shutting_down : Bool
  pub data_callbacks : List ℕ
  pub woken : ℕ

-- The constructor
unfoldable pub serial_handler : Calls → ℕ → Port
serial_handler s baud_rate = record {
  is_open = s.pipe_ok && (s.open_ok && configure_serial_port s baud_rate);
  wake_pipe = s.pipe_ok;
  read_running = false;
  read_thread = false;
  shutting_down = false;
  data_callbacks = [];
  woken = 0;
}

unfoldable pub add_data_callback : ℕ → Port → Port
add_data_callback callback p = record p { data_callbacks = p.data_callbacks ++ (callback ∷ []) }

unfoldable pub drop_data_callbacks : Port → Port
drop_data_callbacks p = record p { data_callbacks = [] }

unfoldable pub start_reader : Port → Port
start_reader p =
    if not p.is_open || p.read_running
    then p
    else record p { read_running = true; read_thread = true }

unfoldable pub wake : Port → Port
wake p = if p.wake_pipe then record p { woken = p.woken + 1 } else p

-- The reader has ended behind `join`.
unfoldable pub stop_reading : Port → Port
stop_reading p =
    if p.read_running
    then record (wake (record p { read_running = false })) { read_thread = false }
    else p

unfoldable pub close_port : Port → Port
close_port p =
    if p.shutting_down then p else record (stop_reading (record p { shutting_down = true })) {
      is_open = false;
      wake_pipe = false;
    }

-- A port is open after the constructor only at one of the eight rates.
serial_handler-rate :
    (s : Calls) (baud_rate : ℕ)
    → (serial_handler s baud_rate).is_open ≡ true
    → get_baud_rate baud_rate ≡ baud_rate
unfolding serial_handler configure_serial_port get_baud_rate
serial_handler-rate s baud_rate e = ground (arith, e)

-- A reader runs only while its thread does, and on a port that is open.
abbrev IsReading : Port → Type 0
IsReading p = (p.read_running ≡ true → p.is_open ≡ true) × (p.read_running ≡ p.read_thread)

serial_handler-IsReading : (s : Calls) (baud_rate : ℕ) → IsReading (serial_handler s baud_rate)
unfolding serial_handler
serial_handler-IsReading s baud_rate = (λ e. absurd (ground (arith, e)), refl)

start_reader-IsReading : (p : Port) → IsReading p → IsReading (start_reader p)
unfolding start_reader
start_reader-IsReading p good = ground (arith, good)

close_port-IsReading : (p : Port) → IsReading p → IsReading (close_port p)
unfolding close_port stop_reading wake
close_port-IsReading p good = ground (arith, good)
