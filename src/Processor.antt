-- ===== src/Processor.antt =====
-- The state of `UbloxMessageProcessor`
-- (ublox_driver/include/ublox_driver/gnss_message_parser/ublox_message_processor.hpp): the subframe
-- buffers, the flags of BeiDou D1, the current time and the tracks of the signals.
pub mod Subframes
pub mod Rows
pub mod Steps
pub mod Runs
pub mod Invariant
pub mod Beidou
mod Tests
pub mod Observations
pub mod Solutions
pub mod Publish
use gnss_parser.Prelude.{
  ℕ, suc, ◌+◌, ◌-◌, ◌*◌, Bool, false, ◌&&◌, List, [], ◌∷◌, ◌++◌, length, ltb, ◌==◌, if◌then◌else◌,
  Option, none, some, get_or, set, replicate, byte_at,
}
use gnss_parser.Prelude.Int.{ℤ, pos, negsuc}
use gnss_parser.Gnss.Time.{Gtime}
use gnss_parser.Gnss.Satellites.{max_sat}
use gnss_parser.Ephem.{Decoded, Quantity, Ephem, time_0}

-- An entry of `signal_track_lock_times_` and `signal_track_state_`, which are written together, at
-- a satellite and a signal. The lock time is in ms.
pub record Track : Type 0 where
  pub sat : ℕ
  pub sid : ℕ
  pub lock_time : ℕ
  pub state : ℕ

pub record Processor : Type 0 where
  pub subfrm : List (List ℕ)
  pub flags : List ℕ
  pub curr_time : Gtime
  pub tracks : List Track

-- `x == 0`
abbrev pub is_0 : ℤ → Bool
is_0 (pos n) = n == 0
is_0 (negsuc n) = false

-- The constructor
abbrev pub processor_0 : Processor
processor_0 = record {
  subfrm = replicate max_sat (replicate 380 0);
  flags = replicate max_sat 0;
  curr_time = time_0;
  tracks = [];
}

-- `subfrm[sat - 1]`
abbrev pub row : Processor → ℕ → List ℕ
row p sat = get_or p.subfrm (sat - 1) []

abbrev pub with_row : Processor → ℕ → List ℕ → Processor
with_row p sat buff = record p { subfrm = set p.subfrm (sat - 1) buff }

-- The bytes of a row that a write up to its byte `n` reaches. A write past the 380 bytes of a row,
-- which goes on in the row of the next satellite, leaves a longer row here.
abbrev pub reaching : ℕ → List ℕ → List ℕ
reaching n buff = buff ++ replicate (n - length buff) 0

-- The time that a decoder has set.
abbrev pub at_now : Option Gtime → Processor → Processor
at_now none p = p
at_now (some t) p = record p { curr_time = t }

-- What a subframe decoder leaves: its status, the state, the ephemeris that it has written to, and
-- the ionosphere parameters.
pub record Handled : Type 0 where
  pub status : ℤ
  pub state : Processor
  pub ephem : Ephem
  pub iono : List Quantity

-- An end of a decoder that leaves the ephemeris as it was.
abbrev pub ended : ℤ → Processor → Ephem → Handled
ended status p ephem = record { status = status; state = p; ephem = ephem; iono = [] }

-- `*reinterpret_cast<const uint32_t *>(data + i)` on a little-endian host
abbrev pub u32_at : List ℕ → ℕ → ℕ
u32_at data' i =
    byte_at data' i
    + 256 * byte_at data' (i + 1)
    + 65536 * byte_at data' (i + 2)
    + 16777216 * byte_at data' (i + 3)
