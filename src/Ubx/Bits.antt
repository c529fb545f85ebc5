-- ===== src/Ubx/Bits.antt =====
-- Bit fields, most significant bit first: `setbitu` and `getbitu` of
-- ublox_driver/src/gnss_message_parser/ublox_message_processor_helper.cpp.
pub mod Byte
pub mod Write
pub mod Fields
pub mod Signed
pub mod Layout
use gnss_parser.Prelude.{
  ℕ, zero, suc, ◌+◌, ◌-◌, ◌*◌, ◌/◌, ◌%◌, ◌^◌, List, ◌||◌, bit_and, bit_or, ltb, ◌==◌, if◌then◌else◌,
  set, byte_at,
}

-- `(buff[i / 8] >> (7 - i % 8)) & 1u`
unfoldable pub bit_at : List ℕ → ℕ → ℕ
bit_at buff i = byte_at buff (i / 8) / 2 ^ (7 - i % 8) % 2

-- `for (; i < pos + len; ++i) bits = (bits << 1) + bit i;` with `n` rounds left, in `uint32_t`
unfoldable pub get_bits : List ℕ → ℕ → ℕ → ℕ → ℕ
get_bits buff zero i bits = bits
get_bits buff (suc n) i bits = get_bits buff n (i + 1) ((bits * 2 + bit_at buff i) % 2 ^ 32)

unfoldable pub getbitu : List ℕ → ℕ → ℕ → ℕ
getbitu buff pos len = get_bits buff len pos 0

-- One round of `setbitu`: `buff[i / 8] |= 1u << (7 - i % 8)`, or `&= ~(...)` with the cast to a byte.
unfoldable pub put_bit : List ℕ → ℕ → ℕ → List ℕ
put_bit buff i b =
    let byte = byte_at buff (i / 8) in
    let one = 2 ^ (7 - i % 8) in
    set buff (i / 8) (if b == 0 then bit_and byte (255 - one) else bit_or byte one)

-- The loop of `setbitu` with `n` rounds left, where `mask` is 2 ^ (n - 1).
unfoldable pub set_bits : List ℕ → ℕ → ℕ → ℕ → List ℕ
set_bits buff zero i value = buff
set_bits buff (suc n) i value = set_bits (put_bit buff i (value / 2 ^ n % 2)) n (i + 1) value

unfoldable pub setbitu : List ℕ → ℕ → ℕ → ℕ → List ℕ
setbitu buff pos len value = if len == 0 || ltb 32 len then buff else set_bits buff len pos value
