-- ===== src/Ubx/Bits/Byte.antt =====
-- One bit of one byte, by a table of all bytes.
use gnss_parser.Prelude.{
  ℕ, ◌-◌, ◌/◌, ◌%◌, ◌^◌, ◌<◌, Bool, true, ◌&&◌, bit_and, bit_or, ◌≡◌, refl, arith, ltb, ltb→lt,
  all_below, all_below_sound, ◌==◌, ==_iff, if◌then◌else◌,
}

-- Bit `k` of a byte written, bit `j` of it read.
abbrev pub write_bit : ℕ → ℕ → ℕ → ℕ
write_bit b k x = if b == 0 then bit_and x (255 - 2 ^ k) else bit_or x (2 ^ k)

abbrev row : ℕ → ℕ → ℕ → Bool
row b k x =
    ltb (write_bit b k x) 256
    && all_below 8 (λ j. (write_bit b k x / 2 ^ j % 2) == (if j == k then b else x / 2 ^ j % 2))

table : all_below 2 (λ b. all_below 8 (λ k. all_below 256 (row b k))) ≡ true
unfolding all_below
table = refl

row_of : (b k x : ℕ) → b < 2 → k < 8 → x < 256 → row b k x ≡ true
row_of b k x hb hk hx =
    all_below_sound 256 (row b k) x
      (all_below_sound 8 (λ k. all_below 256 (row b k)) k
        (all_below_sound 2 (λ b. all_below 8 (λ k. all_below 256 (row b k))) b table hb) hk)
      hx

and_parts : (p q : Bool) → (p && q) ≡ true → (p ≡ true) × (q ≡ true)
and_parts p q h = ground arith

-- The written byte is a byte.
pub write_bit-lt : (b k x : ℕ) → b < 2 → k < 8 → x < 256 → write_bit b k x < 256
write_bit-lt b k x hb hk hx = ltb→lt _ _ (and_parts _ _ (row_of b k x hb hk hx)).0

-- Bit `k` is `b`, and the others are as they were.
pub write_bit_read :
    (b k x j : ℕ)
    → b < 2
    → k < 8
    → x < 256
    → j < 8
    → write_bit b k x / 2 ^ j % 2 ≡ (if j == k then b else x / 2 ^ j % 2)
write_bit_read b k x j hb hk hx hj = (==_iff _ _).0 (
    all_below_sound 8 (λ j. (write_bit b k x / 2 ^ j % 2) == (if j == k then b else x / 2 ^ j % 2))
      j (and_parts _ _ (row_of b k x hb hk hx)).1 hj)
