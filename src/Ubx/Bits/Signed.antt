-- ===== src/Ubx/Bits/Signed.antt =====
-- Signed and split bit fields: `getbits`, `getbitu2`, `getbits2`, `getbitu3`, `getbits3`, `getbitg`,
-- `merge_two_u` and `merge_two_s` of
-- ublox_driver/src/gnss_message_parser/ublox_message_processor_helper.cpp. An `int` is computed as
-- the 32-bit word that holds it.
pub mod Value
use gnss_parser.Prelude.{
  ℕ, zero, suc, ◌+◌, ◌-◌, ◌*◌, ◌/◌, ◌%◌, ◌^◌, List, ◌||◌, bit_or, leb, ◌==◌, if◌then◌else◌,
}
use gnss_parser.Prelude.Int.{ℤ, pos, negsuc, int32}
use gnss_parser.Ubx.Bits.{getbitu}

-- The result of `getbits` before the cast to `int`.
unfoldable pub sign_extended : ℕ → ℕ → ℕ
sign_extended bits len =
    if len == 0 || leb 32 len || bits / 2 ^ (len - 1) % 2 == 0
    then bits
    else bit_or bits (2 ^ 32 - 2 ^ len)

unfoldable pub getbits_word : List ℕ → ℕ → ℕ → ℕ
getbits_word buff start len = sign_extended (getbitu buff start len) len

unfoldable pub getbits : List ℕ → ℕ → ℕ → ℤ
getbits buff start len = int32 (getbits_word buff start len)

unfoldable pub getbitu2 : List ℕ → ℕ → ℕ → ℕ → ℕ → ℕ
getbitu2 buff p1 l1 p2 l2 = (getbitu buff p1 l1 * 2 ^ l2 % 2 ^ 32 + getbitu buff p2 l2) % 2 ^ 32

unfoldable pub getbits2 : List ℕ → ℕ → ℕ → ℕ → ℕ → ℤ
getbits2 buff p1 l1 p2 l2 =
    if getbitu buff p1 1 == 0
    then int32 (getbitu2 buff p1 l1 p2 l2)
    else int32 ((getbits_word buff p1 l1 * 2 ^ l2 % 2 ^ 32 + getbitu buff p2 l2) % 2 ^ 32)

unfoldable pub getbitu3 : List ℕ → ℕ → ℕ → ℕ → ℕ → ℕ → ℕ → ℕ
getbitu3 buff p1 l1 p2 l2 p3 l3 =
    (getbitu buff p1 l1 * 2 ^ (l2 + l3) % 2 ^ 32
      + getbitu buff p2 l2 * 2 ^ l3 % 2 ^ 32
      + getbitu buff p3 l3)
    % 2 ^ 32

unfoldable pub getbits3 : List ℕ → ℕ → ℕ → ℕ → ℕ → ℕ → ℕ → ℤ
getbits3 buff p1 l1 p2 l2 p3 l3 =
    if getbitu buff p1 1 == 0
    then int32 (getbitu3 buff p1 l1 p2 l2 p3 l3)
    else int32 (
        (getbits_word buff p1 l1 * 2 ^ (l2 + l3) % 2 ^ 32
          + getbitu buff p2 l2 * 2 ^ l3 % 2 ^ 32
          + getbitu buff p3 l3)
        % 2 ^ 32)

-- A sign bit and a magnitude. The double -0.0 is 0 here.
abbrev pub negated : ℕ → ℤ
negated zero = pos 0
negated (suc n) = negsuc n

unfoldable pub getbitg : List ℕ → ℕ → ℕ → ℤ
getbitg buff at len =
    let value = getbitu buff (at + 1) (len - 1) in
    if getbitu buff at 1 == 0 then pos value else negated value

unfoldable pub merge_two_u : ℕ → ℕ → ℕ → ℕ
merge_two_u a b n = (a * 2 ^ n % 2 ^ 32 + b) % 2 ^ 32

-- `b` is a `uint8_t`: only its low byte takes part. `a` is the word of an `int`.
unfoldable pub merge_two_s : ℕ → ℕ → ℕ → ℤ
merge_two_s a b n = int32 ((a * 2 ^ n % 2 ^ 32 + b % 256) % 2 ^ 32)
