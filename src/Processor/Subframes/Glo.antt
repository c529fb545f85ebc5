-- ===== src/Processor/Subframes/Glo.antt =====
-- `test_glostr` and `decode_GLO_subframe` of
-- ublox_driver/src/gnss_message_parser/ublox_message_processor_helper.cpp.
use gnss_parser.Prelude.{
  ℕ, zero, suc, ◌+◌, ◌-◌, ◌*◌, Bool, not, ◌||◌, ◌&&◌, List, [], ◌∷◌, ◌++◌, ltb, ◌==◌, if◌then◌else◌,
  length, set, bit_and, bit_xor, replicate, take, drop, get_or, byte_at,
}
use gnss_parser.Prelude.Int.{ℤ, pos, negsuc, difference}
use gnss_parser.Ubx.Bits.{getbitu}
use gnss_parser.Ephem.Glo.{GloEphem, decode_glo_ephem}
use gnss_parser.Processor.{Processor, row, with_row}
use gnss_parser.Processor.Subframes.Gal.{swapped}

abbrev pub xor_8bit : List ℕ
xor_8bit =
    0 ∷ 1 ∷ 1 ∷ 0 ∷ 1 ∷ 0 ∷ 0 ∷ 1 ∷ 1 ∷ 0 ∷ 0 ∷ 1 ∷ 0 ∷ 1 ∷ 1 ∷ 0 ∷ 1 ∷ 0 ∷ 0 ∷ 1 ∷ 0 ∷ 1 ∷ 1 ∷ 0
    ∷ 0 ∷ 1 ∷ 1 ∷ 0 ∷ 1 ∷ 0 ∷ 0 ∷ 1 ∷ 1 ∷ 0 ∷ 0 ∷ 1 ∷ 0 ∷ 1 ∷ 1 ∷ 0 ∷ 0 ∷ 1 ∷ 1 ∷ 0 ∷ 1 ∷ 0 ∷ 0 ∷ 1
    ∷ 0 ∷ 1 ∷ 1 ∷ 0 ∷ 1 ∷ 0 ∷ 0 ∷ 1 ∷ 1 ∷ 0 ∷ 0 ∷ 1 ∷ 0 ∷ 1 ∷ 1 ∷ 0 ∷ 1 ∷ 0 ∷ 0 ∷ 1 ∷ 0 ∷ 1 ∷ 1 ∷ 0
    ∷ 0 ∷ 1 ∷ 1 ∷ 0 ∷ 1 ∷ 0 ∷ 0 ∷ 1 ∷ 0 ∷ 1 ∷ 1 ∷ 0 ∷ 1 ∷ 0 ∷ 0 ∷ 1 ∷ 1 ∷ 0 ∷ 0 ∷ 1 ∷ 0 ∷ 1 ∷ 1 ∷ 0
    ∷ 0 ∷ 1 ∷ 1 ∷ 0 ∷ 1 ∷ 0 ∷ 0 ∷ 1 ∷ 1 ∷ 0 ∷ 0 ∷ 1 ∷ 0 ∷ 1 ∷ 1 ∷ 0 ∷ 1 ∷ 0 ∷ 0 ∷ 1 ∷ 0 ∷ 1 ∷ 1 ∷ 0
    ∷ 0 ∷ 1 ∷ 1 ∷ 0 ∷ 1 ∷ 0 ∷ 0 ∷ 1 ∷ 1 ∷ 0 ∷ 0 ∷ 1 ∷ 0 ∷ 1 ∷ 1 ∷ 0 ∷ 0 ∷ 1 ∷ 1 ∷ 0 ∷ 1 ∷ 0 ∷ 0 ∷ 1
    ∷ 0 ∷ 1 ∷ 1 ∷ 0 ∷ 1 ∷ 0 ∷ 0 ∷ 1 ∷ 1 ∷ 0 ∷ 0 ∷ 1 ∷ 0 ∷ 1 ∷ 1 ∷ 0 ∷ 0 ∷ 1 ∷ 1 ∷ 0 ∷ 1 ∷ 0 ∷ 0 ∷ 1
    ∷ 1 ∷ 0 ∷ 0 ∷ 1 ∷ 0 ∷ 1 ∷ 1 ∷ 0 ∷ 1 ∷ 0 ∷ 0 ∷ 1 ∷ 0 ∷ 1 ∷ 1 ∷ 0 ∷ 0 ∷ 1 ∷ 1 ∷ 0 ∷ 1 ∷ 0 ∷ 0 ∷ 1
    ∷ 0 ∷ 1 ∷ 1 ∷ 0 ∷ 1 ∷ 0 ∷ 0 ∷ 1 ∷ 1 ∷ 0 ∷ 0 ∷ 1 ∷ 0 ∷ 1 ∷ 1 ∷ 0 ∷ 1 ∷ 0 ∷ 0 ∷ 1 ∷ 0 ∷ 1 ∷ 1 ∷ 0
    ∷ 0 ∷ 1 ∷ 1 ∷ 0 ∷ 1 ∷ 0 ∷ 0 ∷ 1 ∷ 1 ∷ 0 ∷ 0 ∷ 1 ∷ 0 ∷ 1 ∷ 1 ∷ 0 ∷ 0 ∷ 1 ∷ 1 ∷ 0 ∷ 1 ∷ 0 ∷ 0 ∷ 1
    ∷ 0 ∷ 1 ∷ 1 ∷ 0 ∷ 1 ∷ 0 ∷ 0 ∷ 1 ∷ 1 ∷ 0 ∷ 0 ∷ 1 ∷ 0 ∷ 1 ∷ 1 ∷ 0 ∷ []

abbrev pub mask_hamming : List (List ℕ)
mask_hamming =
    (0x55 ∷ 0x55 ∷ 0x5A ∷ 0xAA ∷ 0xAA ∷ 0xAA ∷ 0xB5 ∷ 0x55 ∷ 0x6A ∷ 0xD8 ∷ 0x08 ∷ 0x00 ∷ [])
    ∷ (0x66 ∷ 0x66 ∷ 0x6C ∷ 0xCC ∷ 0xCC ∷ 0xCC ∷ 0xD9 ∷ 0x99 ∷ 0xB3 ∷ 0x68 ∷ 0x10 ∷ 0x00 ∷ [])
    ∷ (0x87 ∷ 0x87 ∷ 0x8F ∷ 0x0F ∷ 0x0F ∷ 0x0F ∷ 0x1E ∷ 0x1E ∷ 0x3C ∷ 0x70 ∷ 0x20 ∷ 0x00 ∷ [])
    ∷ (0x07 ∷ 0xF8 ∷ 0x0F ∷ 0xF0 ∷ 0x0F ∷ 0xF0 ∷ 0x1F ∷ 0xE0 ∷ 0x3F ∷ 0x80 ∷ 0x40 ∷ 0x00 ∷ [])
    ∷ (0xF8 ∷ 0x00 ∷ 0x0F ∷ 0xFF ∷ 0xF0 ∷ 0x00 ∷ 0x1F ∷ 0xFF ∷ 0xC0 ∷ 0x00 ∷ 0x80 ∷ 0x00 ∷ [])
    ∷ (0x00 ∷ 0x00 ∷ 0x0F ∷ 0xFF ∷ 0xFF ∷ 0xFF ∷ 0xE0 ∷ 0x00 ∷ 0x00 ∷ 0x01 ∷ 0x00 ∷ 0x00 ∷ [])
    ∷ (0xFF ∷ 0xFF ∷ 0xF0 ∷ 0x00 ∷ 0x00 ∷ 0x00 ∷ 0x00 ∷ 0x00 ∷ 0x00 ∷ 0x02 ∷ 0x00 ∷ 0x00 ∷ [])
    ∷ (0xFF ∷ 0xFF ∷ 0xFF ∷ 0xFF ∷ 0xFF ∷ 0xFF ∷ 0xFF ∷ 0xFF ∷ 0xFF ∷ 0xFF ∷ 0xF8 ∷ 0x00 ∷ [])
    ∷ []

-- The inner loop with `n` rounds left: `cs ^= xor_8bit[data[j] & mask_hamming[i][j]]`.
unfoldable pub hamming : List ℕ → List ℕ → ℕ → ℕ → ℕ → ℕ
hamming data' mask zero j cs = cs
hamming data' mask (suc n) j cs =
    hamming data' mask n (j + 1)
      (bit_xor cs (get_or xor_8bit (bit_and (byte_at data' j) (get_or mask j 0)) 0))

-- The `cs` that the inner loop declares hides the one that is tested after it: the loop's result is
-- given up.
abbrev hidden : ℕ → ℕ → ℕ
hidden cs inner = cs

unfoldable pub glo_rounds : List ℕ → List (List ℕ) → ℕ → ℕ → ℕ × ℕ
glo_rounds data' [] cs n = (cs, n)
glo_rounds data' (mask ∷ masks) cs n =
    let cs' = hidden cs (hamming data' mask 11 0 0) in
    glo_rounds data' masks cs' (if cs' == 0 then n else n + 1)

unfoldable pub test_glostr : List ℕ → Bool
test_glostr data' =
    let (cs, n) = glo_rounds data' mask_hamming 0 0 in (n == 0) || ((n == 2) && not (cs == 0))

-- `memset` of the four strings, and the frame id from the bytes 12 and 13 of the new string.
abbrev flushed : List ℕ → List ℕ → List ℕ
flushed buff rows =
    if not (byte_at rows 150 == byte_at buff 12) || not (byte_at rows 151 == byte_at buff 13)
    then set (set (replicate 40 0 ++ drop 40 rows) 150 (byte_at buff 12)) 151 (byte_at buff 13)
    else rows

-- The string `m` is copied to its place.
unfoldable pub glo_stored : List ℕ → ℕ → List ℕ → List ℕ
glo_stored buff m rows =
    let rows' = flushed buff rows in
    take ((m - 1) * 10) rows' ++ take 10 buff ++ drop (m * 10) rows'

pub record GloHandled : Type 0 where
  pub status : ℤ
  pub state : Processor
  pub ephem : GloEphem

-- For a `glo_ephem` that is not null.
unfoldable pub decode_glo_subframe : Processor → List ℕ → GloEphem → GloHandled
decode_glo_subframe p msg_data ephem =
    let ephem' = record ephem { freqo = difference (byte_at msg_data 9) 7 } in
    let buff = swapped msg_data 14 4 in
    let m = getbitu buff 1 4 in
    let saved = glo_stored buff m (row p ephem.sat) in
    let stored = with_row p ephem.sat saved in
    let decoded = (decode_glo_ephem p.curr_time saved ephem').1 in
    if ltb (length msg_data) 32
    then record { status = negsuc 0; state = p; ephem = ephem }
    else if not (test_glostr buff)
    then record { status = negsuc 0; state = p; ephem = ephem' }
    else if ltb m 1 || ltb 15 m
    then record { status = negsuc 0; state = p; ephem = ephem' }
    else if not (m == 4)
    then record { status = pos 0; state = stored; ephem = ephem' }
    else record { status = pos 0; state = stored; ephem = decoded }
