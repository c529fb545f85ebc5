-- ===== src/Processor/Observations.antt =====
-- `parse_meas_msg` and `sig_freq` of
-- ublox_driver/src/gnss_message_parser/ublox_message_processor_helper.cpp. A `double` or a `float`
-- of the message that the code hands on is the number of its bits; the time of week is taken in
-- ticks.
pub mod Epochs
use gnss_parser.Prelude.{
  ℕ, zero, suc, ◌+◌, ◌-◌, ◌*◌, ◌/◌, ◌%◌, ◌^◌, Bool, true, false, not, ◌||◌, ◌&&◌, List, [], ◌∷◌,
  ◌++◌, ltb, leb, ◌==◌, if◌then◌else◌, length, Option, none, some, bit_xor, bit_or, byte_at,
}
use gnss_parser.Prelude.Int.{ℤ, pos, negsuc, ◌+ℤ◌, difference}
use gnss_parser.Gnss.Time.{second, Gtime, gpst2time}
use gnss_parser.Gnss.Satellites.{sat_no, sys_glo, sys_bds}
use gnss_parser.Ubx.Signals.{n_freq, ubx_sys, ubx_sig, sig_idx}
use gnss_parser.Ubx.Frame.{u16_at}
use gnss_parser.Processor.{Processor, Track, u32_at}

-- `*reinterpret_cast<const double *>(data + i)`, as its bits, and those of -0.5
abbrev pub u64_at : List ℕ → ℕ → ℕ
u64_at data' i = u32_at data' i + 2 ^ 32 * u32_at data' (i + 4)

abbrev pub minus_half : ℕ
minus_half = 0xBFE0000000000000

-- A finite `double` in ticks, cut towards 0.
abbrev magnitude : ℕ → ℕ
magnitude bits =
    let exponent = bits / 2 ^ 52 % 2048 in
    let mantissa = (if exponent == 0 then bits % 2 ^ 52 * 2 else bits % 2 ^ 52 + 2 ^ 52) in
    if leb 1075 exponent
    then mantissa * 2 ^ (exponent - 1075) * second
    else mantissa * second / 2 ^ (1075 - exponent)

abbrev pub ticks_of_double : ℕ → ℤ
ticks_of_double bits =
    if bits / 2 ^ 63 == 0 then pos (magnitude bits) else difference 0 (magnitude bits)

-- The bit `i` of a byte.
abbrev pub bit : ℕ → ℕ → Bool
bit b i = b / 2 ^ i % 2 == 1

abbrev pub cpstd_valid : ℕ
cpstd_valid = 10

abbrev times : ℕ → ℤ → ℤ
times k (pos n) = pos (k * n)
times k (negsuc n) = difference 0 (k * suc n)

-- In Hz. `sid` is from 1 to 3; the carriers of the other systems are those of GPS.
unfoldable pub sig_freq : ℕ → ℕ → ℤ → ℤ
sig_freq sys sid fcn =
    if sys == sys_glo
    then (if sid == 1
        then pos 1602000000 +ℤ times 562500 fcn
        else if sid == 2
        then pos 1246000000 +ℤ times 437500 fcn
        else pos 1202025000)
    else if sys == sys_bds
    then pos (if sid == 1 then 1561098000 else if sid == 2 then 1207140000 else 1268520000)
    else pos (if sid == 1 then 1575420000 else if sid == 2 then 1227600000 else 1176450000)

-- The entries that one signal pushes to the vectors of `Obs`. `psr_std` is in cm, `cp_std` in
-- 0.004 cycles, `dopp_std` in 0.002 Hz.
pub record Signal : Type 0 where
  pub freq : ℤ
  pub cn0 : ℕ
  pub lli : ℕ
  pub code : ℕ
  pub psr : ℕ
  pub psr_std : ℕ
  pub cp : ℕ
  pub cp_std : ℕ
  pub dopp : ℕ
  pub dopp_std : ℕ
  pub status : ℕ

pub record Obs : Type 0 where
  pub time : Gtime
  pub sat : ℕ
  pub signals : List Signal

-- The entry of a satellite and a signal in the two maps of tracks.
unfoldable pub find_track : ℕ → ℕ → List Track → Option Track
find_track sat sid [] = none
find_track sat sid (t ∷ tracks) =
    if (t.sat == sat) && (t.sid == sid) then some t else find_track sat sid tracks

unfoldable pub put_track : Track → List Track → List Track
put_track new [] = new ∷ []
put_track new (t ∷ tracks) =
    if (t.sat == new.sat) && (t.sid == new.sid) then new ∷ tracks else t ∷ put_track new tracks

-- `slip` from the entry before the new one.
unfoldable pub slips : Option Track → ℕ → ℕ → Bool
slips none lock_time state = false
slips (some prev) lock_time state =
    (lock_time == 0)
    || ltb lock_time prev.lock_time
    || not (prev.state / 2 % 2 == state / 2 % 2)
    || not (bit_xor prev.state state / 8 % 2 == 0)

-- The signal goes to the observation of its satellite, or to a new one at the end, where `sat2idx`
-- has the place of each satellite.
unfoldable pub attach : Gtime → ℕ → Signal → List Obs → List Obs
attach time sat signal [] = record { time = time; sat = sat; signals = signal ∷ [] } ∷ []
attach time sat signal (o ∷ obs) =
    if o.sat == sat
    then record o { signals = o.signals ++ (signal ∷ []) } ∷ obs
    else o ∷ attach time sat signal obs

-- What a block says: its satellite, the index of its signal, and the code.
pub record Block : Type 0 where
  pub sys : ℕ
  pub sat : ℕ
  pub code : ℕ
  pub sid : ℕ

abbrev pub block_of : List ℕ → ℕ → Block
block_of data' i =
    let sys = ubx_sys (byte_at data' (i + 20)) in
    let code = ubx_sig sys (byte_at data' (i + 22)) in
    record {
      sys = sys;
      sat = sat_no sys (byte_at data' (i + 21));
      code = code;
      sid = sig_idx sys code;
    }

-- The block is passed over by `continue`.
unfoldable pub is_skipped : Block → Bool
is_skipped b = (b.sys == 0) || (b.sat == 0) || (b.sid == 0) || ltb n_freq b.sid

abbrev pub track_of : List ℕ → ℕ → Track
track_of data' i =
    let b = block_of data' i in
    record {
      sat = b.sat;
      sid = b.sid;
      lock_time = u16_at data' (i + 24);
      state = byte_at data' (i + 30) % 16;
    }

unfoldable pub signal_of : List ℕ → ℕ → Bool → Signal
signal_of data' i slip =
    let b = block_of data' i in
    let tck_sta = byte_at data' (i + 30) in
    let cp = u64_at data' (i + 8) in
    let cp_std = byte_at data' (i + 28) % 16 in
    record {
      freq = sig_freq b.sys b.sid (difference (byte_at data' (i + 23)) 7);
      cn0 = byte_at data' (i + 26);
      lli = bit_or (if slip then 1 else 0) (if bit tck_sta 2 then 0 else 2);
      code = b.code;
      psr = if bit tck_sta 0 then u64_at data' i else 0;
      psr_std = 2 ^ (byte_at data' (i + 27) % 16);
      cp = if not (bit tck_sta 1) || (cp == minus_half) || ltb cpstd_valid cp_std then 0 else cp;
      cp_std = cp_std;
      dopp = u32_at data' (i + 16);
      dopp_std = 2 ^ (byte_at data' (i + 29) % 16);
      status = tck_sta % 16;
    }

-- The loop over the blocks of 32 bytes, with `n` blocks left.
unfoldable pub meas_loop : Gtime → List ℕ → ℕ → ℕ → List Track → List Obs → List Track × List Obs
meas_loop time data' zero i tracks obs = (tracks, obs)
meas_loop time data' (suc n) i tracks obs =
    let b = block_of data' i in
    let t = track_of data' i in
    let slip = slips (find_track b.sat b.sid tracks) t.lock_time t.state in
    let skipped = is_skipped b in
    meas_loop time data' n (i + 32) (if skipped then tracks else put_track t tracks)
      (if skipped then obs else attach time b.sat (signal_of data' i slip) obs)

abbrev is_empty : List Obs → Bool
is_empty [] = true
is_empty (o ∷ obs) = false

abbrev pub num_meas : List ℕ → ℕ
num_meas data' = byte_at data' 17

unfoldable pub parse_meas_msg : Processor → List ℕ → Processor × List Obs
parse_meas_msg p data' =
    let week = u16_at data' 14 in
    let time = gpst2time week (ticks_of_double (u64_at data' 6)) in
    let (tracks, obs) = meas_loop time data' (num_meas data') 22 p.tracks [] in
    if leb (length data') 24
    then (p, [])
    else if ltb (length data') (24 + 32 * num_meas data')
    then (p, [])
    else if week == 0
    then (p, [])
    else (record p { tracks = tracks; curr_time = if is_empty obs then p.curr_time else time }, obs)
