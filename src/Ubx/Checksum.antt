-- ===== src/Ubx/Checksum.antt =====
-- The 8-bit Fletcher checksum of a UBX message: `check_checksum` and `set_checksum` of
-- ublox_driver/src/gnss_message_parser/ublox_message_processor_helper.cpp.
-- `size` is at least 4, as in every call: the C++ bound `size - 2` is unsigned.
pub mod Errors
pub mod Split
use gnss_parser.Prelude.{
  ℕ, ◌+◌, ◌-◌, ◌%◌, Bool, ◌&&◌, List, [], ◌∷◌, ◌==◌, set, take, drop, byte_at,
}

-- `uint8_t cka, ckb`
pub record Sums : Type 0 where
  pub cka : ℕ
  pub ckb : ℕ

abbrev pub zero_sums : Sums
zero_sums = record { cka = 0; ckb = 0 }

-- `cka += data[i]; ckb += cka;`
unfoldable pub add_byte : Sums → ℕ → Sums
add_byte s x = let a = (s.cka + x) % 256 in record { cka = a; ckb = (s.ckb + a) % 256 }

-- The loop over the bytes of `data[2 .. size - 2)`.
unfoldable pub sum_bytes : Sums → List ℕ → Sums
sum_bytes s [] = s
sum_bytes s (x ∷ xs) = sum_bytes (add_byte s x) xs

-- The bytes that the loop `for (i = 2; i < size - 2; ++i)` visits.
abbrev pub summed : List ℕ → ℕ → List ℕ
summed data' size = take (size - 4) (drop 2 data')

unfoldable pub check_checksum : List ℕ → ℕ → Bool
check_checksum data' size =
    let s = sum_bytes zero_sums (summed data' size) in
    s.cka == byte_at data' (size - 2) && s.ckb == byte_at data' (size - 1)

unfoldable pub set_checksum : List ℕ → ℕ → List ℕ
set_checksum data' size =
    let s = sum_bytes zero_sums (summed data' size) in
    set (set data' (size - 2) s.cka) (size - 1) s.ckb
