-- ===== src/Crc/Agree.antt =====
-- The table-driven routine computes what the bitwise one does.
use gnss_parser.Prelude.{
  ℕ, ◌*◌, ◌/◌, ◌%◌, ◌^◌, ◌<◌, true, bit_xor, List, [], ◌∷◌, ◌≡◌, refl, sym, ap, ap₂, ◌∙◌, arith,
  ◌==◌, ==_iff, all_below, all_below_sound, byte_at, All,
}
use gnss_parser.Prelude.Bits.Xor.{xor_comm, xor_fields, xor-shift_left, xor-lt}
use gnss_parser.Crc.{
  shift_once, shift_times, crc_byte, crc24q_from, crc24q, rtcm_byte, rtcm_from, compute_rtcm_crc24q,
}
use gnss_parser.Crc.Table.{tbl_crc24q}
use gnss_parser.Crc.Shift.{shift_times-lt, shift_times-xor, shift_times_low, xor_right}

table : all_below 256 (λ t. byte_at tbl_crc24q t == shift_times 8 (t * 2 ^ 16)) ≡ true
unfolding all_below tbl_crc24q shift_times shift_once
table = refl

-- Entry `t` of the table is the register after eight rounds on `t` as the top byte.
pub tbl_crc24q_lem : (t : ℕ) → t < 256 → byte_at tbl_crc24q t ≡ shift_times 8 (t * 2 ^ 16)
tbl_crc24q_lem t h = (==_iff _ _).0 (all_below_sound 256 _ t table h)

module _ (crc x : ℕ) (hc : crc < 2 ^ 24) (hx : x < 256) where
  high : ℕ
  high = crc / 2 ^ 16

  low : ℕ
  low = crc % 2 ^ 16

  split : bit_xor crc (x * 2 ^ 16) ≡ bit_xor (bit_xor high x * 2 ^ 16) low
  unfolding high low
  split =
      ap (λ t. bit_xor t (x * 2 ^ 16)) (sym (xor_fields 16 high low (omega arith) ∙ omega arith))
      ∙ xor_right (high * 2 ^ 16) low (x * 2 ^ 16)
      ∙ ap (λ t. bit_xor t low) (xor-shift_left 16 high x)

  byte_agrees : crc_byte crc x ≡ rtcm_byte crc x
  unfolding crc_byte rtcm_byte high low
  byte_agrees =
      let t : ℕ = bit_xor high x in
      let ht : t < 2 ^ 8 = xor-lt 8 high x (omega arith) hx in
      sym (
        ap (shift_times 8) split
        ∙ shift_times-xor 8 (t * 2 ^ 16) low (omega arith) (omega arith)
        ∙ ap₂ bit_xor (sym (tbl_crc24q_lem t ht))
            (shift_times_low 8 low (omega arith) ∙ omega arith)
        ∙ xor_comm (byte_at tbl_crc24q t) (crc * 256 % 2 ^ 32 % 2 ^ 24))

  rtcm_byte-lt : rtcm_byte crc x < 2 ^ 24
  unfolding rtcm_byte
  rtcm_byte-lt = shift_times-lt 8 _ (xor-lt 24 crc (x * 2 ^ 16) hc (omega arith))

from_agrees :
    (crc : ℕ) (xs : List ℕ)
    → crc < 2 ^ 24
    → All (λ x. x < 256) xs
    → (crc24q_from crc xs ≡ rtcm_from crc xs) × (rtcm_from crc xs < 2 ^ 24)
unfolding crc24q_from rtcm_from
from_agrees crc [] h k = (refl, h)
from_agrees crc (x ∷ xs) h k =
    let rest = from_agrees (rtcm_byte crc x) xs (rtcm_byte-lt crc x h k.0) k.1 in
    (ap (λ c. crc24q_from c xs) (byte_agrees crc x h k.0) ∙ rest.0, rest.1)

-- On every message of bytes the table-driven CRC-24Q of the u-blox decoder and the bitwise
-- CRC-24Q of the RTCM scanner are the same number, which fits 24 bits.
pub crc24q-eq-compute_rtcm_crc24q :
    (data' : List ℕ)
    → All (λ x. x < 256) data'
    → (crc24q data' ≡ compute_rtcm_crc24q data') × (crc24q data' < 2 ^ 24)
unfolding crc24q compute_rtcm_crc24q
crc24q-eq-compute_rtcm_crc24q data' bytes = omega (arith, from_agrees 0 data' (omega arith) bytes)
