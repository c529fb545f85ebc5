-- ===== src/Processor/Observations/Epochs.antt =====
-- The observations of one message: one for each satellite, with the signals of the message.
use gnss_parser.Prelude.{
  ℕ, zero, suc, ◌+◌, ◌≤◌, List, [], ◌∷◌, ◌≡◌, ◌≢◌, subst, inl, inr, Bool-cases, arith, ◌==◌,
  if◌then◌else◌, length, length-append, All, byte_at,
}
use gnss_parser.Gnss.Time.{Gtime, gpst2time}
use gnss_parser.Gnss.Satellites.{max_sat}
use gnss_parser.Gnss.Satellites.Numbering.{sat_no-le}
use gnss_parser.Ubx.Signals.{ubx_sys}
use gnss_parser.Ubx.Frame.{u16_at}
use gnss_parser.Processor.{Processor, Track}
use gnss_parser.Processor.Observations.{
  Signal, Obs, Block, attach, block_of, is_skipped, track_of, signal_of, slips, find_track,
  put_track, meas_loop, num_meas, parse_meas_msg, ticks_of_double, u64_at,
}

-- An observation of a satellite at a time, with signals.
abbrev pub IsObs : Gtime → Obs → Type 0
IsObs time o = (1 ≤ o.sat) × (o.sat ≤ max_sat) × (o.time ≡ time) × (1 ≤ length o.signals)

abbrev pub IsOther : ℕ → Obs → Type 0
IsOther sat o = o.sat ≢ sat

-- No two observations are of the same satellite.
abbrev pub IsDistinct : List Obs → Type 0
IsDistinct [] = Unit
IsDistinct (o ∷ obs) = All (IsOther o.sat) obs × IsDistinct obs

abbrev pub signal_count : List Obs → ℕ
signal_count [] = 0
signal_count (o ∷ obs) = length o.signals + signal_count obs

pub record IsEpoch (time : Gtime) (bound : ℕ) (obs : List Obs) : Type 0 where
  pub each : All (IsObs time) obs
  pub distinct : IsDistinct obs
  pub counted : signal_count obs ≤ bound

module _ (time : Gtime) (sat : ℕ) (signal : Signal) where
  attach-each :
      (obs : List Obs)
      → 1 ≤ sat
      → sat ≤ max_sat
      → All (IsObs time) obs
      → All (IsObs time) (attach time sat signal obs)
  unfolding attach
  attach-each [] l h a = ground arith
  attach-each (o ∷ obs) l h a =
      ground (arith, attach-each obs l h a.1, length-append o.signals (signal ∷ []))

  attach-IsOther :
      (obs : List Obs) (s : ℕ)
      → sat ≢ s
      → All (IsOther s) obs
      → All (IsOther s) (attach time sat signal obs)
  unfolding attach
  attach-IsOther [] s n a = ground arith
  attach-IsOther (o ∷ obs) s n a = ground (arith, attach-IsOther obs s n a.1)

  attach-IsDistinct : (obs : List Obs) → IsDistinct obs → IsDistinct (attach time sat signal obs)
  unfolding attach
  attach-IsDistinct [] d = ground arith
  attach-IsDistinct (o ∷ obs) d = elim (Bool-cases (o.sat == sat)) [
    | inl e ↦ rw e d
    | inr e ↦ rw e (attach-IsOther obs o.sat (λ c. ground arith) d.0, attach-IsDistinct obs d.1)
  ]

  attach-counted :
      (obs : List Obs) → signal_count (attach time sat signal obs) ≡ signal_count obs + 1
  unfolding attach
  attach-counted [] = ground arith
  attach-counted (o ∷ obs) =
      ground (arith, attach-counted obs, length-append o.signals (signal ∷ []))

-- One block, passed over or not.
block-IsEpoch :
    (time : Gtime) (bound : ℕ) (obs : List Obs) (b : Block) (signal : Signal)
    → b.sat ≤ max_sat
    → IsEpoch time bound obs
    → IsEpoch time (bound + 1) (if is_skipped b then obs else attach time b.sat signal obs)
unfolding is_skipped
block-IsEpoch time bound obs b signal h w =
    let passed : IsEpoch time (bound + 1) obs = record {
      each = w.each;
      distinct = w.distinct;
      counted = omega (arith, w.counted);
    } in
    let attached : 1 ≤ b.sat → IsEpoch time (bound + 1) (attach time b.sat signal obs) = λ l.
      record {
        each = attach-each time b.sat signal obs l h w.each;
        distinct = attach-IsDistinct time b.sat signal obs w.distinct;
        counted = omega (arith, attach-counted time b.sat signal obs, w.counted);
      } in
    ground (arith, passed, attached)

meas_loop-IsEpoch :
    (time : Gtime) (d : List ℕ) (n i bound : ℕ) (tracks : List Track) (obs : List Obs)
    → IsEpoch time bound obs
    → IsEpoch time (bound + n) (meas_loop time d n i tracks obs).1
unfolding meas_loop
meas_loop-IsEpoch time d zero i bound tracks obs w = ground arith
meas_loop-IsEpoch time d (suc n) i bound tracks obs w =
    let b = block_of d i in
    let t = track_of d i in
    let signal = signal_of d i (slips (find_track b.sat b.sid tracks) t.lock_time t.state) in
    let round =
      block-IsEpoch time bound obs b signal
        (sat_no-le (ubx_sys (byte_at d (i + 20))) (byte_at d (i + 21))) w in
    let tracks' = if is_skipped b then tracks else put_track t tracks in
    let obs' = if is_skipped b then obs else attach time b.sat signal obs in
    let rest = meas_loop-IsEpoch time d n (i + 32) (bound + 1) tracks' obs' round in
    subst (λ k. IsEpoch time k (meas_loop time d n (i + 32) tracks' obs').1) (omega arith) rest

-- The observations of a message are at its time and of different satellites, each numbered from 1
-- to MAX_SAT and with at least one signal, and there are at most as many signals as the message
-- announces.
pub parse_meas_msg-IsEpoch :
    (p : Processor) (d : List ℕ)
    → IsEpoch
        (gpst2time (u16_at d 14) (ticks_of_double (u64_at d 6)))
        (num_meas d)
        (parse_meas_msg p d).1
unfolding parse_meas_msg
parse_meas_msg-IsEpoch p d =
    let time = gpst2time (u16_at d 14) (ticks_of_double (u64_at d 6)) in
    let none_yet : (bound : ℕ) → IsEpoch time bound [] =
      λ bound. record { each = ground arith; distinct = ground arith; counted = omega arith } in
    let loop = meas_loop-IsEpoch time d (num_meas d) 22 0 p.tracks [] (none_yet 0) in
    let none_at = none_yet (num_meas d) in ground (arith, none_at, loop)
