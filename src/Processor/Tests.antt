-- ===== src/Processor/Tests.antt =====
-- Runs of the message processor, and its theorems at concrete inputs.
use gnss_parser.Prelude.{
  subst, sym, ℕ, ◌+◌, ◌*◌, ◌≤◌, ◌^◌, ◌%◌, true, List, [], ◌∷◌, ◌++◌, ◌≡◌, ◌↔◌, refl, arith, inr,
  length, replicate, none, some, All, get_or,
}
use gnss_parser.Prelude.Int.{pos}
use gnss_parser.Gnss.Time.{second, gpst2time}
use gnss_parser.Gnss.Satellites.{sat_no, satsys, satsys_glo, satsys_gal, satsys_bds}
use gnss_parser.Ubx.Checksum.{check_checksum, sum_bytes, add_byte}
use gnss_parser.Ubx.Frame.{verify_msg, msg_type, u16_at}
use gnss_parser.Ubx.Frame.Spec.{total, running, frame}
use gnss_parser.Ubx.Signals.{ubx_sys}
use gnss_parser.Ubx.Bits.{getbitu}
use gnss_parser.Ephem.{blank, time_0}
use gnss_parser.Processor.{Processor, processor_0, row}
use gnss_parser.Processor.Subframes.{Parsed, parsed, null_write, parse_subframe}
use gnss_parser.Processor.Subframes.Gps.{gps_word, decode_gps_subframe}
use gnss_parser.Processor.Subframes.Gps.Stored.{IsTaken, gps_start, decode_gps_subframe-stores}
use gnss_parser.Processor.Observations.{parse_meas_msg, num_meas, ticks_of_double, u64_at}
use gnss_parser.Processor.Observations.Epochs.{IsEpoch, parse_meas_msg-IsEpoch}
use gnss_parser.Processor.Solutions.{pvt_week}
use gnss_parser.Processor.Solutions.Week.{since_epoch, pvt_week-nearest}
use gnss_parser.Processor.Publish.{
  RosHandler, Publication, Processed, crashed, processed, process_data,
}
use gnss_parser.Processor.Publish.Faults.{IsFatal, process_data-crashed_iff}
use gnss_parser.Processor.Publish.Filters.{IsAllowed, process_data-IsAllowed}
use gnss_parser.Processor.Invariant.{subject, IsWell, parse_subframe-inside}
use gnss_parser.Processor.Runs.{stop, next, reached-IsWell, processor_0-IsWell}
use gnss_parser.Processor.Rows.{IsRow}
use gnss_parser.Ubx.Bits.Write.{replicate-IsBytes}
use gnss_parser.Processor.Beidou.{IsD1, IsLate}
use gnss_parser.Processor.Beidou.Stuck.{NotOf, late-Silent}

pvt_week-nearest_example :
    (since_epoch (pvt_week (gpst2time 2300 (pos (604799 * second))) (pos second)) second
      ≤ since_epoch 2300 (604799 * second) + 302400 * second)
    × (since_epoch 2300 (604799 * second)
        ≤ since_epoch (pvt_week (gpst2time 2300 (pos (604799 * second))) (pos second)) second
          + 302400 * second)
pvt_week-nearest_example =
    pvt_week-nearest 2300 (604799 * second) second (omega arith) (omega arith) (omega arith)
      (omega arith)

-- A subframe message: the system, the satellite, and the first two words.
abbrev message : ℕ → ℕ → List ℕ → List ℕ → List ℕ
message sys prn first second_word =
    frame 0x02 0x13
      ((sys ∷ prn ∷ 0 ∷ 0 ∷ 10 ∷ 0 ∷ 2 ∷ 0 ∷ []) ++ first ++ second_word ++ replicate 32 0)

abbrev glonass : List ℕ
glonass = message 6 5 (replicate 4 0) (replicate 4 0)

process_data-crashed_iff_example :
    (process_data none processor_0 glonass ≡ crashed)
    ↔ ((verify_msg glonass (length glonass) ≡ true) × (msg_type glonass ≡ 0x0213) × IsFatal glonass)
process_data-crashed_iff_example = process_data-crashed_iff none processor_0 glonass

-- Two rows only, which the satellites 1 and 2 of GPS need.
abbrev small : Processor
small = record {
  subfrm = replicate 380 0 ∷ replicate 380 0 ∷ [];
  flags = 0 ∷ 0 ∷ [];
  curr_time = time_0;
  tracks = [];
}

-- Subframe 1 of GPS: the number 1 in the bits 8 to 10 of the second word.
abbrev gps_1 : List ℕ
gps_1 = message 0 1 (0 ∷ 0 ∷ 0 ∷ 0x22 ∷ []) (0 ∷ 1 ∷ 0 ∷ 0 ∷ [])

abbrev state_of : Parsed → Processor
state_of null_write = small
state_of (parsed p e iono) = p

gps_1_parsed :
    parse_subframe small gps_1 ≡ parsed (state_of (parse_subframe small gps_1)) (some (blank 1)) []
unfolding parse_subframe decode_gps_subframe frame total running sum_bytes add_byte ubx_sys sat_no
gps_1_parsed = refl

gps_1-subject : subject gps_1 ≡ 1
unfolding frame total running sum_bytes add_byte ubx_sys sat_no
gps_1-subject = refl

abbrev gps_1_state : Processor
gps_1_state = state_of (parse_subframe small gps_1)

row_0 : IsRow (row small 1)
row_0 = (refl, replicate-IsBytes 380)

parse_subframe-inside_example :
    IsRow (row gps_1_state (subject gps_1))
    × (row gps_1_state 2 ≡ row small 2)
    × (get_or gps_1_state.flags 1 0 ≡ get_or small.flags 1 0)
parse_subframe-inside_example =
    parse_subframe-inside small gps_1_state gps_1 (some (blank 1)) [] 2
      (omega (arith, gps_1-subject)) (subst (λ k. IsRow (row small k)) (sym gps_1-subject) row_0)
      gps_1_parsed (λ e. omega (arith, gps_1-subject)) (λ e. omega arith)
      (λ e. omega (arith, gps_1-subject))

gps_1_id : gps_start gps_1 ≡ 0
unfolding frame total running sum_bytes add_byte
gps_1_id = refl

gps_1-IsTaken : IsTaken gps_1
unfolding frame total running sum_bytes add_byte
gps_1-IsTaken = ground arith

decode_gps_subframe-stores_example :
    (getbitu (row (decode_gps_subframe small gps_1 (blank 1)).state 1) (gps_start gps_1 + 24 * 1) 24
      ≡ gps_word gps_1 1 % 2 ^ 24)
    × (getbitu (row (decode_gps_subframe small gps_1 (blank 1)).state 1) 480 17
        ≡ getbitu (row small 1) 480 17)
decode_gps_subframe-stores_example =
    decode_gps_subframe-stores small gps_1 (blank 1) row_0 (omega arith) gps_1-IsTaken 1 480 17
      (omega arith) (omega arith) (inr (omega (arith, gps_1_id)))

-- UBX-TIM-TP: a time of week of 1 s in week 2300.
abbrev pulse : List ℕ
pulse =
    frame 0x0D 0x01 (0xE8 ∷ 0x03 ∷ 0 ∷ 0 ∷ 0 ∷ 0 ∷ 0 ∷ 0 ∷ 0 ∷ 0 ∷ 0 ∷ 0 ∷ 0xFC ∷ 0x08 ∷ 0 ∷ 0 ∷ [])

abbrev left_by : Processed → Processor
left_by crashed = processor_0
left_by (processed p out) = p

abbrev out_of : Processed → List Publication
out_of crashed = []
out_of (processed p out) = out

abbrev handler : RosHandler
handler = record { raw_observation_system_mask = 0xFF; ephemeris_system_mask = 0xFF }

pulse_processed :
    process_data (some handler) processor_0 pulse
    ≡ processed processor_0 (out_of (process_data (some handler) processor_0 pulse))
unfolding process_data verify_msg check_checksum frame total running sum_bytes add_byte
pulse_processed = refl

process_data-IsAllowed_example :
    All (IsAllowed handler) (out_of (process_data (some handler) processor_0 pulse))
process_data-IsAllowed_example =
    process_data-IsAllowed handler processor_0 processor_0 pulse
      (out_of (process_data (some handler) processor_0 pulse)) pulse_processed

reached-IsWell_example : IsWell processor_0
reached-IsWell_example =
    reached-IsWell (some handler) processor_0 (pulse ∷ [])
      (out_of (process_data (some handler) processor_0 pulse) ++ []) (next pulse_processed stop)

-- UBX-RXM-RAWX: one signal of GPS satellite 3 in week 2300, with a valid pseudorange.
abbrev rawx : List ℕ
rawx = frame 0x02 0x15 (
    replicate 8 0
    ++ (0xFC ∷ 0x08 ∷ 18 ∷ 1 ∷ 0 ∷ 0 ∷ 0 ∷ 0 ∷ [])
    ++ replicate 20 0
    ++ (0 ∷ 3 ∷ 0 ∷ 0 ∷ 100 ∷ 0 ∷ 40 ∷ 0 ∷ 0 ∷ 0 ∷ 7 ∷ 0 ∷ []))

parse_meas_msg-IsEpoch_example :
    IsEpoch
      (gpst2time (u16_at rawx 14) (ticks_of_double (u64_at rawx 6)))
      (num_meas rawx)
      (parse_meas_msg processor_0 rawx).1
parse_meas_msg-IsEpoch_example = parse_meas_msg-IsEpoch processor_0 rawx

-- Subframe 4 of BeiDou satellite 6.
abbrev late : List ℕ
late = message 3 6 (0 ∷ 0x40 ∷ 0 ∷ 0 ∷ []) (replicate 4 0)

late_processed :
    process_data none processor_0 late ≡ processed (left_by (process_data none processor_0 late)) []
unfolding process_data verify_msg check_checksum frame total running sum_bytes add_byte
    parse_subframe ubx_sys sat_no
late_processed = refl

late_frame : (verify_msg late (length late) ≡ true) × (msg_type late ≡ 0x0213)
unfolding verify_msg check_checksum frame total running sum_bytes add_byte
late_frame = (refl, refl)

late-subject : subject late ≡ 103
unfolding frame total running sum_bytes add_byte ubx_sys sat_no
late-subject = refl

late-IsD1 : IsD1 (subject late)
unfolding satsys satsys_glo satsys_gal satsys_bds
late-IsD1 = rw late-subject (ground arith)

late-IsLate : IsLate late
unfolding frame total running sum_bytes add_byte
late-IsLate = ground arith

late-Silent_example : All (NotOf (subject late)) ([] ++ [])
late-Silent_example =
    late-Silent none processor_0 (left_by (process_data none processor_0 late)) late [] ([] ++ [])
      processor_0-IsWell late_frame.0 late_frame.1 (λ e. omega (arith, late-subject)) late-IsD1
      late-IsLate (next late_processed stop)
