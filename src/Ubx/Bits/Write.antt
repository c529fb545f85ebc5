-- ===== src/Ubx/Bits/Write.antt =====
-- What `setbitu` writes, bit by bit.
use gnss_parser.Prelude.{
  ℕ, zero, suc, ◌+◌, ◌-◌, ◌*◌, ◌/◌, ◌%◌, ◌^◌, ◌≤◌, ◌<◌, ◌&&◌, List, ◌≡◌, refl, ◌∙◌, ap, arith, ltb,
  leb, ◌==◌, if◌then◌else◌, Bool-cases, inl, inr, length, replicate, length-set, get_or-set,
  get_or-set_any, byte_at, ==_iff,
}
use gnss_parser.Ubx.Bits.{bit_at, put_bit, set_bits}
use gnss_parser.Ubx.Bits.Byte.{write_bit, write_bit-lt, write_bit_read}

-- Every element is a byte; a read past the end gives 0.
abbrev pub IsBytes : List ℕ → Type 0
IsBytes buff = (i : ℕ) → byte_at buff i < 256

pub replicate-IsBytes : (n : ℕ) → IsBytes (replicate n 0)
replicate-IsBytes zero i = omega arith
replicate-IsBytes (suc n) zero = omega arith
replicate-IsBytes (suc n) (suc i) = replicate-IsBytes n i

pub bit_at-lt : (buff : List ℕ) (i : ℕ) → bit_at buff i < 2
unfolding bit_at
bit_at-lt buff i = omega arith

module _ (buff : List ℕ) (bytes : IsBytes buff) (i b : ℕ) (hb : b < 2) where
  abbrev written : ℕ
  written = write_bit b (7 - i % 8) (byte_at buff (i / 8))

  pub put_bit-IsBytes : IsBytes (put_bit buff i b)
  unfolding put_bit
  put_bit-IsBytes k = ground (
    arith,
    bytes k,
    bytes (i / 8),
    get_or-set_any buff (i / 8) k written 0,
    write_bit-lt b (7 - i % 8) (byte_at buff (i / 8)) hb,
  )

  pub length-put_bit : length (put_bit buff i b) ≡ length buff
  unfolding put_bit
  length-put_bit = length-set buff (i / 8) written

  pub bit_at-put_bit :
      (j : ℕ)
      → i < 8 * length buff
      → bit_at (put_bit buff i b) j ≡ (if j == i then b else bit_at buff j)
  unfolding bit_at put_bit
  bit_at-put_bit j h = ground (
    arith,
    bytes (i / 8),
    get_or-set buff (i / 8) (j / 8) written 0,
    write_bit_read b (7 - i % 8) (byte_at buff (i / 8)) (7 - j % 8) hb,
  )

pub set_bits-IsBytes :
    (n : ℕ) (buff : List ℕ) (i v : ℕ) → IsBytes buff → IsBytes (set_bits buff n i v)
unfolding set_bits
set_bits-IsBytes zero buff i v bytes = bytes
set_bits-IsBytes (suc n) buff i v bytes =
    set_bits-IsBytes n (put_bit buff i (v / 2 ^ n % 2)) (i + 1) v
      (put_bit-IsBytes buff bytes i (v / 2 ^ n % 2) (omega arith))

pub length-set_bits :
    (n : ℕ) (buff : List ℕ) (i v : ℕ) → IsBytes buff → length (set_bits buff n i v) ≡ length buff
unfolding set_bits
length-set_bits zero buff i v bytes = refl
length-set_bits (suc n) buff i v bytes =
    length-set_bits n (put_bit buff i (v / 2 ^ n % 2)) (i + 1) v
      (put_bit-IsBytes buff bytes i (v / 2 ^ n % 2) (omega arith))
    ∙ length-put_bit buff bytes i (v / 2 ^ n % 2) (omega arith)

-- The bit of `v` that lands at `j`, where the field ends at `stop`.
abbrev pub field_bit : ℕ → ℕ → ℕ → ℕ
field_bit v stop j = v / 2 ^ (stop - 1 - j) % 2

pub bit_at-set_bits :
    (n : ℕ) (buff : List ℕ) (i stop v j : ℕ)
    → IsBytes buff
    → i + n ≡ stop
    → stop ≤ 8 * length buff
    → bit_at (set_bits buff n i v) j
      ≡ (if leb i j && ltb j stop then field_bit v stop j else bit_at buff j)
unfolding set_bits
bit_at-set_bits zero buff i stop v j bytes e h = ground arith
bit_at-set_bits (suc n) buff i stop v j bytes e h =
    let b : ℕ = v / 2 ^ n % 2 in
    let hb : b < 2 = omega arith in
    let rest =
      bit_at-set_bits n (put_bit buff i b) (i + 1) stop v j (put_bit-IsBytes buff bytes i b hb)
        (omega arith) (rw (length-put_bit buff bytes i b hb) h) in
    let here = bit_at-put_bit buff bytes i b hb j (omega arith) in
    elim (Bool-cases (j == i)) [
      | inl same ↦
          let k : n ≡ stop - 1 - j = omega (arith, (==_iff j i).0 same) in
          ground (arith, rest, here, ap (λ t. v / 2 ^ t % 2) k)
      | inr other ↦ ground (arith, rest, here)
    ]
