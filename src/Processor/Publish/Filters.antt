-- ===== src/Processor/Publish/Filters.antt =====
-- What a message publishes, and the filters of the handler.
use gnss_parser.Prelude.{
  ℕ, ◌≤◌, List, [], ◌∷◌, ◌++◌, ◌≡◌, ◌≢◌, subst, arith, Option, none, some, length, All, bit_and,
}
use gnss_parser.Prelude.Int.{pos}
use gnss_parser.Gnss.Satellites.{satsys}
use gnss_parser.Ephem.{Ephem, Quantity}
use gnss_parser.Processor.{Processor}
use gnss_parser.Processor.Subframes.{Parsed, null_write, parsed, parse_subframe}
use gnss_parser.Processor.Observations.{Obs, parse_meas_msg}
use gnss_parser.Processor.Solutions.{TimePulseInfo, PvtSolution, parse_time_pulse, parse_pvt}
use gnss_parser.Processor.Publish.{
  RosHandler, Publication, range_meas, ephem, iono_params, time_pulse_info, receiver_pvt, filtered,
  publish_observations, publish_ephemeris, publish_iono_params, publish_time_pulse, publish_pvt,
  Processed, crashed, processed, publish_subframe, publish_meas, process_data, nonempty, iono_of,
}

-- The satellite is of a system in the mask.
abbrev pub IsIn : ℕ → ℕ → Type 0
IsIn mask sat = bit_and (satsys sat).sys mask ≢ 0

abbrev ObsIn : ℕ → Obs → Type 0
ObsIn mask o = IsIn mask o.sat

abbrev pub IsAllowed : RosHandler → Publication → Type 0
IsAllowed h (range_meas meas) = (1 ≤ length meas) × All (ObsIn h.raw_observation_system_mask) meas
IsAllowed h (ephem e) = (e.ttr.time ≢ pos 0) × IsIn h.ephemeris_system_mask e.sat
IsAllowed h (iono_params params stamp) = length params ≡ 8
IsAllowed h (time_pulse_info info) = info.time.time ≢ pos 0
IsAllowed h (receiver_pvt solution) = solution.time.time ≢ pos 0

filtered-in : (mask : ℕ) (meas : List Obs) → All (ObsIn mask) (filtered mask meas)
unfolding filtered
filtered-in mask [] = ground arith
filtered-in mask (o ∷ meas) = let rest = filtered-in mask meas in ground (arith, rest)

module _ (h : RosHandler) where
  nonempty-IsAllowed :
      (meas : List Obs)
      → All (ObsIn h.raw_observation_system_mask) meas
      → All (IsAllowed h) (nonempty meas)
  nonempty-IsAllowed [] a = ground arith
  nonempty-IsAllowed (o ∷ meas) a = ground arith

  append-IsAllowed :
      (xs ys : List Publication)
      → All (IsAllowed h) xs
      → All (IsAllowed h) ys
      → All (IsAllowed h) (xs ++ ys)
  append-IsAllowed [] ys a b = b
  append-IsAllowed (x ∷ xs) ys a b = (a.0, append-IsAllowed xs ys a.1 b)

  iono-IsAllowed : (e : Option Ephem) (iono : List Quantity) → All (IsAllowed h) (iono_of e iono)
  unfolding publish_iono_params
  iono-IsAllowed none iono = ground arith
  iono-IsAllowed (some e) iono = ground arith

  abbrev AllowedAfter : Processed → Type 0
  AllowedAfter crashed = Unit
  AllowedAfter (processed p out) = All (IsAllowed h) out

  subframe-allowed : (r : Parsed) → AllowedAfter (publish_subframe (some h) r)
  unfolding publish_ephemeris
  subframe-allowed null_write = ground arith
  subframe-allowed (parsed p none iono) = iono-IsAllowed none iono
  subframe-allowed (parsed p (some e) iono) =
      let i = iono-IsAllowed (some e) iono in ground (arith, i)

  pulse-IsAllowed : (t : Option TimePulseInfo) → All (IsAllowed h) (publish_time_pulse t)
  unfolding publish_time_pulse
  pulse-IsAllowed none = ground arith
  pulse-IsAllowed (some t) = ground arith

  pvt-IsAllowed : (t : Option PvtSolution) → All (IsAllowed h) (publish_pvt t)
  unfolding publish_pvt
  pvt-IsAllowed none = ground arith
  pvt-IsAllowed (some t) = ground arith

  meas-allowed : (m : Processor × List Obs) → AllowedAfter (publish_meas (some h) m)
  unfolding publish_observations
  meas-allowed (p, meas) =
      nonempty-IsAllowed (filtered h.raw_observation_system_mask meas)
        (filtered-in h.raw_observation_system_mask meas)

  message-allowed : (p : Processor) (d : List ℕ) → AllowedAfter (process_data (some h) p d)
  unfolding process_data
  message-allowed p d =
      let sub = subframe-allowed (parse_subframe p d) in
      let meas = meas-allowed (parse_meas_msg p d) in
      let pulse = pulse-IsAllowed (parse_time_pulse d) in
      let pvt = pvt-IsAllowed (parse_pvt p d) in ground (arith, sub, meas, pulse, pvt)

-- Whatever the message is, observations are published only in a set that is not empty and only of
-- systems of their mask, an ephemeris only with a time and of a system of its mask, ionosphere
-- parameters only as eight, and time pulses and solutions only with a time.
pub process_data-IsAllowed :
    (h : RosHandler) (p p' : Processor) (d : List ℕ) (out : List Publication)
    → process_data (some h) p d ≡ processed p' out
    → All (IsAllowed h) out
process_data-IsAllowed h p p' d out e = subst (AllowedAfter h) e (message-allowed h p d)
