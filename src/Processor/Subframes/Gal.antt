-- ===== src/Processor/Subframes/Gal.antt =====
-- `decode_GAL_subframe` of
-- ublox_driver/src/gnss_message_parser/ublox_message_processor_helper.cpp.
use gnss_parser.Prelude.{
  ℕ, zero, suc, ◌+◌, ◌*◌, ◌^◌, Bool, not, ◌||◌, List, [], ◌∷◌, ltb, ◌==◌, if◌then◌else◌, length,
  set, bit_or, replicate, take, byte_at,
}
use gnss_parser.Prelude.Int.{pos, negsuc}
use gnss_parser.Crc.{crc24q}
use gnss_parser.Ubx.Bits.{getbitu, setbitu}
use gnss_parser.Ephem.{Ephem}
use gnss_parser.Ephem.Gal.{decode_gal_ephem}
use gnss_parser.Processor.{Processor, Handled, ended, row, reaching, with_row, at_now}

-- `buff[k++] = p[3 - j]`: `n` words of four bytes, each in reverse.
unfoldable pub swapped : List ℕ → ℕ → ℕ → List ℕ
swapped msg_data start zero = []
swapped msg_data start (suc n) =
    byte_at msg_data (start + 3)
    ∷ byte_at msg_data (start + 2)
    ∷ byte_at msg_data (start + 1)
    ∷ byte_at msg_data start
    ∷ swapped msg_data (start + 4) n

-- `setbitu(crc_buff, j, 8, getbitu(buff, i * 8, 8))` and so on, with `n` rounds left.
unfoldable pub copy_bits : List ℕ → ℕ → ℕ → ℕ → List ℕ → List ℕ
copy_bits buff zero i j crc_buff = crc_buff
copy_bits buff (suc n) i j crc_buff =
    copy_bits buff n (i + 8) (j + 8) (setbitu crc_buff j 8 (getbitu buff i 8))

-- The 26 bytes that the check is computed on, of which it takes 25.
unfoldable pub gal_crc_buff : List ℕ → List ℕ
gal_crc_buff buff = copy_bits buff 11 128 118 (copy_bits buff 15 0 4 (replicate 26 0))

unfoldable pub gal_crc : List ℕ → Bool
gal_crc buff = crc24q (take 25 (gal_crc_buff buff)) == getbitu buff (128 + 82) 24

-- `subfrm[sat - 1][k++] = getbitu(buff, j, 8)`, with `n` rounds left
unfoldable pub save_page : List ℕ → ℕ → ℕ → ℕ → List ℕ → List ℕ
save_page buff zero j k rows = rows
save_page buff (suc n) j k rows = save_page buff n (j + 8) (k + 1) (set rows k (getbitu buff j 8))

-- The flags of the words that have come are kept in byte 112.
abbrev pub flags_at : ℕ
flags_at = 112

-- The row after the word `type` is saved in it and flagged.
unfoldable pub gal_stored : List ℕ → ℕ → List ℕ → List ℕ
gal_stored buff type row =
    let reached = reaching (type * 16 + 16) (reaching (flags_at + 1) row) in
    let cleared = if type == 2 then set reached flags_at 0 else reached in
    let saved = save_page buff 2 130 (type * 16 + 14) (save_page buff 14 2 (type * 16) cleared) in
    set saved flags_at (bit_or (byte_at saved flags_at) (2 ^ type))

unfoldable pub decode_gal_subframe : Processor → List ℕ → Ephem → Handled
decode_gal_subframe p msg_data ephem =
    let buff = swapped msg_data 14 8 in
    let type = getbitu buff 2 6 in
    let saved = gal_stored buff type (row p ephem.sat) in
    let (decoded, rest) = decode_gal_ephem saved ephem in
    if ltb (length msg_data) 48
    then ended (negsuc 0) p ephem
    else if (getbitu buff 1 1 == 1) || (getbitu buff 129 1 == 1)
    then ended (pos 0) p ephem
    else if not (getbitu buff 0 1 == 0) || not (getbitu buff 128 1 == 1)
    then ended (negsuc 0) p ephem
    else if not (gal_crc buff)
    then ended (negsuc 0) p ephem
    else if ltb 6 type
    then ended (pos 0) p ephem
    else if not (byte_at saved flags_at == 0x7F)
    then ended (pos 0) (with_row p ephem.sat saved) ephem
    else record {
      status = pos 0;
      state = at_now decoded.now (with_row p ephem.sat rest);
      ephem = decoded.ephem;
      iono = [];
    }
