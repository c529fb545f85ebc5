-- ===== src/Processor/Beidou/Stuck.antt =====
-- A stuck satellite over any further messages.
use gnss_parser.Prelude.{
  ℕ, ◌≤◌, List, [], ◌∷◌, ◌++◌, ◌≡◌, ◌≢◌, refl, subst, ◌∙◌, inl, inr, Bool-cases, ==_iff, arith,
  Option, none, some, ◌==◌, length, sym, All, true,
}
use gnss_parser.Ephem.{blank}
use gnss_parser.Processor.{Processor}
use gnss_parser.Processor.Invariant.{subject, IsWell, process_data-IsWell, parse_subframe-others}
use gnss_parser.Processor.Subframes.{Parsed, null_write, parsed, parse_subframe}
use gnss_parser.Processor.Observations.{parse_meas_msg}
use gnss_parser.Processor.Publish.{
  RosHandler, Publication, ephem, range_meas, iono_params, time_pulse_info, receiver_pvt, Processed,
  crashed, processed, process_data, publish_subframe, publish_meas, publish_ephemeris,
  publish_iono_params, publish_observations, publish_time_pulse, publish_pvt, no_handler,
}
use gnss_parser.Processor.Solutions.{TimePulseInfo, PvtSolution, parse_time_pulse, parse_pvt}
use gnss_parser.Ubx.Frame.{verify_msg, msg_type}
use gnss_parser.Processor.Publish.Faults.{gps-sat, bds-sat, gal-sat}
use gnss_parser.Processor.Runs.{Runs, stop, next}
use gnss_parser.Processor.Beidou.{IsD1, IsStuck, StuckAfter, own_subframe, IsLate, late_subframe}

-- The satellite of the ephemeris pointer.
abbrev Of : ℕ → Parsed → Type 0
Of n null_write = Unit
Of n (parsed p none iono) = Unit
Of n (parsed p (some e) iono) = e.sat ≡ n

parse_subframe-sat : (p : Processor) (d : List ℕ) → Of (subject d) (parse_subframe p d)
unfolding parse_subframe
parse_subframe-sat p d =
    let e = blank (subject d) in ground (arith, gps-sat p d e, bds-sat p d e, gal-sat p d e)

from_no_satellite :
    (p : Processor) (d : List ℕ) → subject d ≡ 0 → parse_subframe p d ≡ parsed p none []
unfolding parse_subframe
from_no_satellite p d z = ground arith

module _ (sat : ℕ) (one : 1 ≤ sat) (b : IsD1 sat) where
  other_subframe :
      (p : Processor) (d : List ℕ) (r : Parsed)
      → subject d ≢ 0
      → sat ≢ subject d
      → IsStuck p sat
      → parse_subframe p d ≡ r
      → StuckAfter sat r
  other_subframe p d null_write z n s e = ground arith
  other_subframe p d (parsed p' none iono) z n s e =
      let o = parse_subframe-others p p' d none iono sat e z (λ c. omega arith) n in
      (rw o.1 s, ground arith)
  other_subframe p d (parsed p' (some x) iono) z n s e =
      let o = parse_subframe-others p p' d (some x) iono sat e z (λ c. omega arith) n in
      let x_sat : x.sat ≡ subject d = subst (Of (subject d)) e (parse_subframe-sat p d) in
      (rw o.1 s, λ q. absurd (n (sym q ∙ x_sat)))

  subframe-stuck :
      (p : Processor) (d : List ℕ) → IsWell p → IsStuck p sat → StuckAfter sat (parse_subframe p d)
  subframe-stuck p d w s = elim (Bool-cases (subject d == 0)) [
    | inl u ↦ rw (from_no_satellite p d (ground arith)) (s, ground arith)
    | inr u ↦ elim (Bool-cases (subject d == sat)) [
      | inl v ↦
          let e = (==_iff (subject d) sat).0 v in
          subst (λ k. StuckAfter k (parse_subframe p d)) e
            (own_subframe p d w (λ c. ground arith) (subst IsD1 (sym e) b)
              (subst (IsStuck p) (sym e) s))
      | inr v ↦
          other_subframe p d (parse_subframe p d) (λ c. ground arith) (λ c. ground arith) s refl
    ]
  ]

-- Nothing that is published is an ephemeris of the satellite.
abbrev pub NotOf : ℕ → Publication → Type 0
NotOf sat (ephem e) = e.sat ≢ sat
NotOf sat (range_meas meas) = Unit
NotOf sat (iono_params params stamp) = Unit
NotOf sat (time_pulse_info info) = Unit
NotOf sat (receiver_pvt solution) = Unit

abbrev Silent : ℕ → Processed → Type 0
Silent sat crashed = Unit
Silent sat (processed p out) = IsStuck p sat × All (NotOf sat) out

All-append :
    (sat : ℕ) (xs ys : List Publication)
    → All (NotOf sat) xs
    → All (NotOf sat) ys
    → All (NotOf sat) (xs ++ ys)
All-append sat [] ys a b = b
All-append sat (x ∷ xs) ys a b = (a.0, All-append sat xs ys a.1 b)

published-Silent :
    (sat : ℕ) (h : Option RosHandler) (r : Parsed)
    → StuckAfter sat r
    → Silent sat (publish_subframe h r)
unfolding publish_ephemeris publish_iono_params
published-Silent sat h null_write s = ground arith
published-Silent sat none (parsed p e iono) s = ground arith
published-Silent sat (some h) (parsed p none iono) s = ground arith
published-Silent sat (some h) (parsed p (some e) iono) s = ground arith

meas-Silent :
    (sat : ℕ) (h : Option RosHandler) (p : Processor) (d : List ℕ)
    → IsStuck p sat
    → Silent sat (publish_meas h (parse_meas_msg p d))
unfolding parse_meas_msg publish_observations
meas-Silent sat none p d s = ground arith
meas-Silent sat (some h) p d s = let (tracks, obs) = parse_meas_msg p d in ground arith

pulse-Silent :
    (sat : ℕ) (h : Option RosHandler) (t : Option TimePulseInfo)
    → All (NotOf sat) (no_handler h (publish_time_pulse t))
unfolding publish_time_pulse
pulse-Silent sat none t = ground arith
pulse-Silent sat (some h) none = ground arith
pulse-Silent sat (some h) (some t) = ground arith

pvt-Silent :
    (sat : ℕ) (h : Option RosHandler) (t : Option PvtSolution)
    → All (NotOf sat) (no_handler h (publish_pvt t))
unfolding publish_pvt
pvt-Silent sat none t = ground arith
pvt-Silent sat (some h) none = ground arith
pvt-Silent sat (some h) (some t) = ground arith

message-Silent :
    (sat : ℕ) (h : Option RosHandler) (p : Processor) (d : List ℕ)
    → IsStuck p sat
    → StuckAfter sat (parse_subframe p d)
    → Silent sat (process_data h p d)
unfolding process_data
message-Silent sat h p d s after =
    let sub = published-Silent sat h (parse_subframe p d) after in
    let meas = meas-Silent sat h p d s in
    let pulse = pulse-Silent sat h (parse_time_pulse d) in
    let pvt = pvt-Silent sat h (parse_pvt p d) in ground (arith, sub, meas, pulse, pvt)

Runs-Silent :
    (sat : ℕ) (h : Option RosHandler) (p r : Processor) (ds : List (List ℕ))
    (out : List Publication)
    → 1 ≤ sat
    → IsD1 sat
    → IsWell p
    → IsStuck p sat
    → Runs h p ds r out
    → IsStuck r sat × All (NotOf sat) out
Runs-Silent sat h p r ds out one b w s stop = (s, ground arith)
Runs-Silent sat h p r ds out one b w s
      (next {q = q} {d = d} {ds = ds'} {out = o} {more = more} e rest) =
    let after = subframe-stuck sat one b p d w s in
    let here : Silent sat (processed q o) =
      subst (Silent sat) e (message-Silent sat h p d s after) in
    let later =
      Runs-Silent sat h q r ds' more one b (process_data-IsWell h p q d o w e) here.0 rest in
    (later.0, All-append sat o more here.1 later.1)

process-subframe :
    (h : Option RosHandler) (p : Processor) (d : List ℕ)
    → verify_msg d (length d) ≡ true
    → msg_type d ≡ 0x0213
    → process_data h p d ≡ publish_subframe h (parse_subframe p d)
unfolding process_data
process-subframe h p d v t = ground arith

-- From a verified subframe 4 or 5 of a BeiDou satellite of D1 on, no ephemeris of the satellite is
-- published, whatever the state is and whatever messages follow.
pub late-Silent :
    (h : Option RosHandler) (p r : Processor) (d : List ℕ) (ds : List (List ℕ))
    (out : List Publication)
    → IsWell p
    → verify_msg d (length d) ≡ true
    → msg_type d ≡ 0x0213
    → subject d ≢ 0
    → IsD1 (subject d)
    → IsLate d
    → Runs h p (d ∷ ds) r out
    → All (NotOf (subject d)) out
late-Silent h p r d ds out w v t z b l (next {q = q} {out = o} {more = more} e rest) =
    let sat = subject d in
    let first : Silent sat (processed q o) =
      subst (Silent sat) (sym (process-subframe h p d v t) ∙ e)
        (published-Silent sat h (parse_subframe p d) (late_subframe p d w z b l)) in
    let later =
      Runs-Silent sat h q r ds more (omega arith) b (process_data-IsWell h p q d o w e) first.0
        rest in
    All-append sat o more first.1 later.1
