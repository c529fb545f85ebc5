-- ===== src/Crc/Tests.antt =====
-- Runs of the two CRC-24Q routines, and their theorem at a concrete input.
use gnss_parser.Prelude.{ℕ, ◌<◌, ◌^◌, List, [], ◌∷◌, ◌≡◌, refl, arith}
use gnss_parser.Crc.{
  crc24q, crc24q_from, crc_byte, compute_rtcm_crc24q, rtcm_from, rtcm_byte, shift_times, shift_once,
}
use gnss_parser.Crc.Table.{tbl_crc24q}
use gnss_parser.Crc.Agree.{crc24q-eq-compute_rtcm_crc24q}

-- The RTCM 1005 header and first bytes of the standard's example.
abbrev sample : List ℕ
sample =
    0xD3 ∷ 0x00 ∷ 0x13 ∷ 0x3E ∷ 0xD7 ∷ 0xD3 ∷ 0x02 ∷ 0x02 ∷ 0x98 ∷ 0x0E ∷ 0xDE ∷ 0xEF ∷ 0x34 ∷ 0xB4
    ∷ 0xBD ∷ 0x62 ∷ 0xAC ∷ 0x09 ∷ 0x41 ∷ 0x98 ∷ 0x6F ∷ 0x33 ∷ []

crc24q-sample : crc24q sample ≡ 0x360B98
unfolding crc24q crc24q_from crc_byte tbl_crc24q
crc24q-sample = refl

compute_rtcm_crc24q-sample : compute_rtcm_crc24q sample ≡ 0x360B98
unfolding compute_rtcm_crc24q rtcm_from rtcm_byte shift_times shift_once
compute_rtcm_crc24q-sample = refl

crc24q-eq-compute_rtcm_crc24q_example :
    (crc24q (0xD3 ∷ 0x13 ∷ []) ≡ compute_rtcm_crc24q (0xD3 ∷ 0x13 ∷ []))
    × (crc24q (0xD3 ∷ 0x13 ∷ []) < 2 ^ 24)
crc24q-eq-compute_rtcm_crc24q_example =
    crc24q-eq-compute_rtcm_crc24q (0xD3 ∷ 0x13 ∷ []) (omega arith, (omega arith, tt))
