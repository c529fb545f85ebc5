-- ===== src/Crc.antt =====
-- The two CRC-24Q routines: the table-driven `crc24q` of
-- ublox_driver/src/gnss_message_parser/ublox_message_processor_helper.cpp and the bitwise
-- `ComputeRtcmCrc24q` of ublox_driver/src/gnss_communication_wrapper/ublox_driver.cpp.
pub mod Table
pub mod Shift
pub mod Agree
mod Tests
use gnss_parser.Prelude.{
  ℕ, zero, suc, ◌+◌, ◌*◌, ◌/◌, ◌%◌, ◌^◌, List, [], ◌∷◌, bit_xor, ◌==◌, if◌then◌else◌, byte_at,
}
use gnss_parser.Crc.Table.{tbl_crc24q}

-- `crc = ((crc << 8) & 0xFFFFFF) ^ tbl_CRC24Q[(crc >> 16) ^ data[i]]` in `uint32_t`
unfoldable pub crc_byte : ℕ → ℕ → ℕ
crc_byte crc x =
    bit_xor (crc * 256 % 2 ^ 32 % 2 ^ 24) (byte_at tbl_crc24q (bit_xor (crc / 2 ^ 16) x))

unfoldable pub crc24q_from : ℕ → List ℕ → ℕ
crc24q_from crc [] = crc
crc24q_from crc (x ∷ xs) = crc24q_from (crc_byte crc x) xs

unfoldable pub crc24q : List ℕ → ℕ
crc24q = crc24q_from 0

abbrev pub polynomial : ℕ
polynomial = 0x1864CFB

-- `crc <<= 1; if (crc & 0x1000000) crc ^= kPolynomial;`
unfoldable pub shift_once : ℕ → ℕ
shift_once crc =
    let twice = crc * 2 % 2 ^ 32 in
    if twice / 2 ^ 24 % 2 == 1 then bit_xor twice polynomial else twice

unfoldable pub shift_times : ℕ → ℕ → ℕ
shift_times zero crc = crc
shift_times (suc n) crc = shift_times n (shift_once crc)

-- `crc ^= data[i] << 16` and the eight rounds of the inner loop
unfoldable pub rtcm_byte : ℕ → ℕ → ℕ
rtcm_byte crc x = shift_times 8 (bit_xor crc (x * 2 ^ 16))

unfoldable pub rtcm_from : ℕ → List ℕ → ℕ
rtcm_from crc [] = crc
rtcm_from crc (x ∷ xs) = rtcm_from (rtcm_byte crc x) xs

unfoldable pub compute_rtcm_crc24q : List ℕ → ℕ
compute_rtcm_crc24q data' = rtcm_from 0 data' % 2 ^ 24
