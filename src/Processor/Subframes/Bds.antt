-- ===== src/Processor/Subframes/Bds.antt =====
-- `decode_BDS_subframe` of
-- ublox_driver/src/gnss_message_parser/ublox_message_processor_helper.cpp.
use gnss_parser.Prelude.{
  ℕ, zero, suc, ◌+◌, ◌-◌, ◌*◌, ◌/◌, ◌%◌, ◌^◌, ◌||◌, ◌&&◌, not, List, [], ◌++◌, ltb, ◌==◌,
  if◌then◌else◌, length, get_or, set, bit_or, replicate, drop,
}
use gnss_parser.Prelude.Int.{pos, negsuc}
use gnss_parser.Gnss.Satellites.{satsys}
use gnss_parser.Ubx.Bits.{setbitu}
use gnss_parser.Ephem.{Ephem}
use gnss_parser.Ephem.Bds.D1.{decode_bds_d1_ephem}
use gnss_parser.Ephem.Bds.D2.{decode_bds_d2_ephem}
use gnss_parser.Processor.{Processor, Handled, ended, row, reaching, with_row, at_now, u32_at, is_0}

-- `words[i]`, of 30 bits
abbrev pub bds_word : List ℕ → ℕ → ℕ
bds_word msg_data i = u32_at msg_data (14 + 4 * i) % 2 ^ 30

unfoldable pub bds_words : List ℕ → ℕ → ℕ → ℕ → List ℕ → List ℕ
bds_words msg_data zero i start buff = buff
bds_words msg_data (suc n) i start buff =
    bds_words msg_data n (i + 1) start (setbitu buff (start + i * 30) 30 (bds_word msg_data i))

-- `subfrm[sat - 1] + n * 38`, with the ten words written there
abbrev pub bds_stored : Processor → List ℕ → ℕ → ℕ → List ℕ
bds_stored p msg_data sat n = bds_words msg_data 10 0 (304 * n) (reaching (38 * n + 38) (row p sat))

-- `bds_d1_subfrm_flags_[sat_index] |= 1U << (id - 1)`
abbrev pub d1_flags : Processor → ℕ → ℕ → ℕ
d1_flags p sat id = bit_or (get_or p.flags (sat - 1) 0) (2 ^ (id - 1))

abbrev pub with_flags : Processor → ℕ → ℕ → Processor
with_flags p sat flags = record p { flags = set p.flags (sat - 1) flags }

-- `std::memset(buff, 0, 38 * 3)`
abbrev pub d1_cleared : List ℕ → List ℕ
d1_cleared buff = replicate 114 0 ++ drop 114 buff

-- The branch of IGSO and MEO satellites.
unfoldable pub bds_d1_subframe : Processor → List ℕ → Ephem → ℕ → Handled
bds_d1_subframe p msg_data ephem id =
    let buff = bds_stored p msg_data ephem.sat (id - 1) in
    let stored = with_row p ephem.sat buff in
    let flags = d1_flags p ephem.sat id in
    let (decoded, iono) = decode_bds_d1_ephem buff ephem in
    let rc = decoded.status in
    let state = with_flags (at_now decoded.now stored) ephem.sat 0 in
    if not (flags == 7) then ended (pos 0) (with_flags stored ephem.sat flags) ephem else record {
      status = rc;
      state = if is_0 rc then state else with_row state ephem.sat (d1_cleared buff);
      ephem = decoded.ephem;
      iono = iono;
    }

-- The branch of GEO satellites.
unfoldable pub bds_d2_subframe : Processor → List ℕ → Ephem → ℕ → Handled
bds_d2_subframe p msg_data ephem id =
    let pgn = bds_word msg_data 1 / 2 ^ 14 % 16 in
    let buff = bds_stored p msg_data ephem.sat (pgn - 1) in
    let stored = with_row p ephem.sat buff in
    let decoded = decode_bds_d2_ephem buff ephem in
    if not (id == 1)
    then ended (negsuc 0) p ephem
    else if ltb pgn 1 || ltb 10 pgn
    then ended (negsuc 0) p ephem
    else if not (pgn == 10)
    then ended (negsuc 0) stored ephem
    else record {
      status = decoded.status;
      state = at_now decoded.now stored;
      ephem = decoded.ephem;
      iono = [];
    }

unfoldable pub decode_bds_subframe : Processor → List ℕ → Ephem → Handled
decode_bds_subframe p msg_data ephem =
    let id = bds_word msg_data 0 / 2 ^ 12 % 8 in
    let prn = (satsys ephem.sat).prn in
    let d1 = bds_d1_subframe p msg_data ephem id in
    let d2 = bds_d2_subframe p msg_data ephem id in
    if ltb (length msg_data) 56
    then ended (negsuc 0) p ephem
    else if ltb id 1 || ltb 5 id
    then ended (negsuc 0) p ephem
    else if ltb 5 prn && ltb prn 59
    then d1
    else d2
