-- ===== src/Processor/Invariant.antt =====
-- The invariant of the processor's tables under every message, and which of them a message of one
-- satellite can change.
use gnss_parser.Prelude.{
  ℕ, ◌-◌, ◌<◌, List, [], ◌≡◌, ◌≢◌, subst, ◌∙◌, inl, inr, Bool-cases, ==_iff, arith, Option, none,
  some, ◌==◌, length, get_or, byte_at, sym,
}
use gnss_parser.Gnss.Satellites.{sat_no, max_sat}
use gnss_parser.Gnss.Satellites.Numbering.{sat_no-le}
use gnss_parser.Ubx.Signals.{ubx_sys}
use gnss_parser.Ephem.{Ephem, Quantity, blank}
use gnss_parser.Processor.{Processor, row}
use gnss_parser.Processor.Rows.{IsRow}
use gnss_parser.Processor.Steps.{IsStep, no-IsStep}
use gnss_parser.Processor.Steps.Subframes.{decode_gps-Step, decode_gal-Step, decode_bds-Step}
use gnss_parser.Processor.Subframes.{Parsed, null_write, parsed, parse_subframe}
use gnss_parser.Processor.Observations.{parse_meas_msg}
use gnss_parser.Processor.Publish.{
  RosHandler, Publication, Processed, crashed, processed, process_data, publish_subframe,
  publish_meas, publish_ephemeris,
}

-- The number of the satellite that a subframe is from.
abbrev pub subject : List ℕ → ℕ
subject d = sat_no (ubx_sys (byte_at d 6)) (byte_at d 7)

abbrev StepTo : ℕ → Processor → Parsed → Type 0
StepTo k p null_write = Unit
StepTo k p (parsed p' e iono) = IsStep k p p'

parse_subframe-step : (p : Processor) (d : List ℕ) → StepTo (subject d - 1) p (parse_subframe p d)
unfolding parse_subframe
parse_subframe-step p d =
    let e = blank (subject d) in
    let n = no-IsStep (subject d - 1) p in
    let gps = decode_gps-Step p d e in
    let bds = decode_bds-Step p d e in
    let gal = decode_gal-Step p d e in ground (arith, n, gps, bds, gal)

-- In the lists of the state a subframe changes the entries of its own satellite alone.
pub parse_subframe-others :
    (p p' : Processor) (d : List ℕ) (e : Option Ephem) (iono : List Quantity) (sat : ℕ)
    → parse_subframe p d ≡ parsed p' e iono
    → subject d ≢ 0
    → sat ≢ 0
    → sat ≢ subject d
    → (row p' sat ≡ row p sat) × (get_or p'.flags (sat - 1) 0 ≡ get_or p.flags (sat - 1) 0)
parse_subframe-others p p' d e iono sat h s z n =
    let step : IsStep (subject d - 1) p p' =
      subst (StepTo (subject d - 1) p) h (parse_subframe-step p d) in
    (step.other_rows (sat - 1) (λ c. omega arith), step.other_flags (sat - 1) (λ c. omega arith))

-- A subframe is written inside the 380 bytes of the buffer of its satellite, and changes no buffer
-- and no flags of another satellite.
pub parse_subframe-inside :
    (p p' : Processor) (d : List ℕ) (e : Option Ephem) (iono : List Quantity) (sat : ℕ)
    → subject d - 1 < length p.subfrm
    → IsRow (row p (subject d))
    → parse_subframe p d ≡ parsed p' e iono
    → subject d ≢ 0
    → sat ≢ 0
    → sat ≢ subject d
    → IsRow (row p' (subject d))
      × (row p' sat ≡ row p sat)
      × (get_or p'.flags (sat - 1) 0 ≡ get_or p.flags (sat - 1) 0)
parse_subframe-inside p p' d e iono sat known well h s z n =
    let step : IsStep (subject d - 1) p p' =
      subst (StepTo (subject d - 1) p) h (parse_subframe-step p d) in
    let others = parse_subframe-others p p' d e iono sat h s z n in
    (step.own_row known well, others.0, others.1)

-- The tables have an entry for each satellite, the buffers are of 380 bytes, and the flags are
-- bytes.
pub record IsWell (p : Processor) : Type 0 where
  pub row_count : length p.subfrm ≡ max_sat
  pub flag_count : length p.flags ≡ max_sat
  pub rows : (i : ℕ) → i < max_sat → IsRow (get_or p.subfrm i [])
  pub flags : (i : ℕ) → i < max_sat → get_or p.flags i 0 < 256

step-IsWell : (k : ℕ) (p p' : Processor) → k < max_sat → IsStep k p p' → IsWell p → IsWell p'
step-IsWell k p p' h s w = record {
  row_count = s.rows ∙ w.row_count;
  flag_count = s.flag_count ∙ w.flag_count;
  rows = λ i l. elim (Bool-cases (i == k)) [
    | inl e ↦
        let i_k = (==_iff i k).0 e in
        subst (λ j. IsRow (get_or p'.subfrm j [])) (sym i_k)
          (s.own_row (omega (arith, w.row_count)) (w.rows k h))
    | inr e ↦ rw (s.other_rows i (λ c. ground arith)) (w.rows i l)
  ];
  flags = λ i l. elim (Bool-cases (i == k)) [
    | inl e ↦
        let i_k = (==_iff i k).0 e in
        subst (λ j. get_or p'.flags j 0 < 256) (sym i_k)
          (s.own_flags (omega (arith, w.flag_count)) (w.flags k h))
    | inr e ↦ rw (s.other_flags i (λ c. ground arith)) (w.flags i l)
  ];
}

-- What a message leaves, when the program goes on.
abbrev WellAfter : Processed → Type 0
WellAfter crashed = Unit
WellAfter (processed p published) = IsWell p

parsed-IsWell :
    (h : Option RosHandler) (k : ℕ) (p : Processor) (r : Parsed)
    → k < max_sat
    → StepTo k p r
    → IsWell p
    → WellAfter (publish_subframe h r)
unfolding publish_ephemeris
parsed-IsWell h k p null_write l s w = ground arith
parsed-IsWell none k p (parsed p' e iono) l s w = step-IsWell k p p' l s w
parsed-IsWell (some h) k p (parsed p' e iono) l s w =
    let w' = step-IsWell k p p' l s w in ground arith

meas-IsWell :
    (h : Option RosHandler) (p : Processor) (d : List ℕ)
    → IsWell p
    → WellAfter (publish_meas h (parse_meas_msg p d))
unfolding parse_meas_msg
meas-IsWell none p d w = ground arith
meas-IsWell (some h) p d w = ground arith

-- Every message that does not end the program keeps the tables of the processor well formed.
pub process_data-IsWell :
    (h : Option RosHandler) (p p' : Processor) (d : List ℕ) (published : List Publication)
    → IsWell p
    → process_data h p d ≡ processed p' published
    → IsWell p'
unfolding process_data
process_data-IsWell h p p' d published w e =
    let sub =
      parsed-IsWell h (subject d - 1) p (parse_subframe p d)
        (omega (arith, sat_no-le (ubx_sys (byte_at d 6)) (byte_at d 7))) (parse_subframe-step p d)
        w in
    let meas = meas-IsWell h p d w in
    let both : WellAfter (process_data h p d) = ground (arith, sub, meas) in subst WellAfter e both
