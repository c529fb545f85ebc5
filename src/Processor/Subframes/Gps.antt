-- ===== src/Processor/Subframes/Gps.antt =====
-- `decode_GPS_subframe` of
-- ublox_driver/src/gnss_message_parser/ublox_message_processor_helper.cpp.
pub mod Stored
use gnss_parser.Prelude.{
  ℕ, zero, suc, ◌+◌, ◌-◌, ◌*◌, ◌/◌, ◌%◌, ◌^◌, ◌||◌, List, [], ltb, ◌==◌, if◌then◌else◌, length,
}
use gnss_parser.Prelude.Int.{pos, negsuc}
use gnss_parser.Ubx.Bits.{setbitu}
use gnss_parser.Ephem.{Ephem, Decoded}
use gnss_parser.Ephem.Gps.{decode_gps_ephem}
use gnss_parser.Processor.{Processor, Handled, ended, row, reaching, with_row, at_now, u32_at}

abbrev pub preamb_cnav : ℕ
preamb_cnav = 0x8B

-- `words[i]`
abbrev pub gps_word : List ℕ → ℕ → ℕ
gps_word msg_data i = u32_at msg_data (14 + 4 * i) / 2 ^ 6

-- The loop that writes the words, with `n` rounds left, at bit `pos` of the buffer.
unfoldable pub gps_words : List ℕ → ℕ → ℕ → ℕ → List ℕ → List ℕ
gps_words msg_data zero i start buff = buff
gps_words msg_data (suc n) i start buff =
    gps_words msg_data n (i + 1) start (setbitu buff (start + 24 * i) 24 (gps_word msg_data i))

abbrev pub gps_subframe_id : List ℕ → ℕ
gps_subframe_id msg_data = gps_word msg_data 1 / 2 ^ 2 % 8

-- `subfrm[sat - 1] + n * 30`, with the ten words written there
abbrev pub gps_stored : Processor → List ℕ → ℕ → ℕ → List ℕ
gps_stored p msg_data sat n = gps_words msg_data 10 0 (240 * n) (reaching (30 * n + 30) (row p sat))

unfoldable pub decode_gps_subframe : Processor → List ℕ → Ephem → Handled
decode_gps_subframe p msg_data ephem =
    let id = gps_subframe_id msg_data in
    let buff = gps_stored p msg_data ephem.sat (id - 1) in
    let stored = with_row p ephem.sat buff in
    let decoded = decode_gps_ephem buff ephem in
    if ltb (length msg_data) 56
    then ended (negsuc 0) p ephem
    else if u32_at msg_data 14 / 2 ^ 24 == preamb_cnav
    then ended (negsuc 0) p ephem
    else if ltb id 1 || ltb 5 id
    then ended (negsuc 0) p ephem
    else if id == 3
    then record {
      status = pos 0;
      state = at_now decoded.now stored;
      ephem = decoded.ephem;
      iono = [];
    }
    else ended (pos 0) stored ephem
