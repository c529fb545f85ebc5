-- ===== src/Ubx/Bits/Signed/Value.antt =====
-- Signed fields are two's complement numbers, and are read back as they were written.
use native.Mathlib.Nat.{
  pow-suc, mod-eq_of_lt, one-le-pow, pow-le-pow_right, mod-lt, mul-add-mod_self_right, div-add-mod',
}
use gnss_parser.Prelude.{
  ℕ, zero, suc, ◌+◌, ◌-◌, ◌*◌, ◌/◌, ◌%◌, ◌^◌, ◌≤◌, ◌<◌, List, ◌≡◌, refl, ◌∙◌, ap, ap₂, arith, ltb,
  leb, ◌==◌, bit_or, if◌then◌else◌, length, Bool-cases, inl, inr, true, false, all_below,
  all_below_sound, ==_iff,
}
use gnss_parser.Prelude.Bits.{or_low}
use gnss_parser.Prelude.Int.{ℤ, pos, negsuc, word, signed, int32}
use gnss_parser.Ubx.Bits.{getbitu, setbitu}
use gnss_parser.Ubx.Bits.Write.{IsBytes}
use gnss_parser.Ubx.Bits.Fields.{value-lt, getbitu-value, getbitu-setbitu}
use gnss_parser.Ubx.Bits.Signed.{sign_extended, getbits_word, getbits}

-- Bits below those of a multiple of a power of two are added by `|`.
or_zero_upto : (n a : ℕ) → a ≤ n → bit_or a 0 ≡ a
or_zero_upto zero zero h = refl
or_zero_upto zero (suc a) h = absurd (omega arith)
or_zero_upto (suc n) a h = omega (arith, or_low a 0, or_zero_upto n (a / 2) (omega arith))

zero_or_upto : (n a : ℕ) → a ≤ n → bit_or 0 a ≡ a
zero_or_upto zero zero h = refl
zero_or_upto zero (suc a) h = absurd (omega arith)
zero_or_upto (suc n) a h = omega (arith, or_low 0 a, zero_or_upto n (a / 2) (omega arith))

-- Fields that do not meet add up.
or_fields : (k q r : ℕ) → r < 2 ^ k → bit_or r (q * 2 ^ k) ≡ q * 2 ^ k + r
or_fields zero q r h =
    let one : q * 2 ^ 0 ≡ q = omega arith in
    let none_left : r ≡ 0 = omega arith in
    omega (arith, ap₂ bit_or none_left one, zero_or_upto q q (omega arith))
or_fields (suc k) q r h =
    let doubled : q * 2 ^ suc k ≡ 2 * (q * 2 ^ k) =
      omega (arith, ap (λ (t : ℕ). q * t) (pow-suc 2 k)) in
    let halved : q * 2 ^ suc k / 2 ≡ q * 2 ^ k = omega (arith, doubled) in
    omega (
      arith,
      or_low r (q * 2 ^ suc k),
      ap (λ t. bit_or (r / 2) t) halved,
      or_fields k q (r / 2) (omega (arith, pow-suc 2 k)),
      doubled,
    )

-- The bits above a field are a multiple of its range.
table : all_below 33 (λ len. 2 ^ 32 - 2 ^ len == (2 ^ (32 - len) - 1) * 2 ^ len) ≡ true
unfolding all_below
table = refl

ones : (len : ℕ) → len ≤ 32 → 2 ^ 32 - 2 ^ len ≡ (2 ^ (32 - len) - 1) * 2 ^ len
ones len h = (==_iff _ _).0 (all_below_sound 33 _ len table (omega arith))

half_test : (q r p v : ℕ) → v ≡ q * p + r → r < p → v < p * 2 → (q % 2 == 0) ≡ ltb (v * 2) (p * 2)
half_test zero r p v e h l = ground arith
half_test (suc zero) r p v e h l = ground arith
half_test (suc (suc q)) r p v e h l = absurd (omega arith)

-- The top bit tells whether the upper half is meant.
top_bit : (n v : ℕ) → v < 2 ^ suc n → (v / 2 ^ n % 2 == 0) ≡ ltb (v * 2) (2 ^ suc n)
top_bit n v h =
    let p = pow-suc 2 n in
    rw p (
      half_test (v / 2 ^ n) (v % 2 ^ n) (2 ^ n) v (omega (arith, div-add-mod' v (2 ^ n)))
        (mod-lt v (one-le-pow n 2 (omega arith))) (omega (arith, p)))

two_pow_mono : (n m : ℕ) → n ≤ m → 2 ^ n ≤ 2 ^ m
two_pow_mono n m h = pow-le-pow_right (omega arith) h

narrow :
    (v n : ℕ)
    → n < 31
    → v < 2 ^ suc n
    → int32 (if v / 2 ^ n % 2 == 0 then v else bit_or v (2 ^ 32 - 2 ^ suc n)) ≡ signed (suc n) v
unfolding signed
narrow v n h l =
    let small = two_pow_mono (suc n) 31 (omega arith) in
    let high = or_fields (suc n) (2 ^ (32 - suc n) - 1) v l in
    let o = ones (suc n) (omega arith) in rw (top_bit n v l, o, high, ← o) (ground (arith, small))

not_zero : (n : ℕ) → (suc n == 0) ≡ false
not_zero n = ground arith

before : (n : ℕ) → suc n - 1 ≡ n
before n = omega arith

whole : (n : ℕ) → suc n ≤ 32 → leb 32 (suc n) ≡ true → 32 ≡ suc n
whole n k e = ground arith

-- What the cast makes of a field of 1 to 32 bits is its two's complement number.
int32-sign_extended :
    (v len : ℕ) → 0 < len → len ≤ 32 → v < 2 ^ len → int32 (sign_extended v len) ≡ signed len v
unfolding sign_extended
int32-sign_extended v zero h k l = absurd (omega arith)
int32-sign_extended v (suc n) h k l = elim (Bool-cases (leb 32 (suc n))) [
  | inl e ↦ rw (not_zero n, e) (ap (λ w. signed w v) (whole n k e))
  | inr e ↦ rw (not_zero n, e, before n) (narrow v n (ground arith) l)
]

-- `getbits` over 1 to 32 bits is the two's complement number of the bits that `getbitu` reads.
pub getbits-signed :
    (buff : List ℕ) (at len : ℕ)
    → 0 < len
    → len ≤ 32
    → getbits buff at len ≡ signed len (getbitu buff at len)
unfolding getbits getbits_word
getbits-signed buff at len h k =
    int32-sign_extended (getbitu buff at len) len h k
      (omega (arith, getbitu-value buff at len k, value-lt buff len at))

-- The numbers of a signed field of `suc n` bits.
abbrev pub IsWithin : ℕ → ℤ → Type 0
IsWithin n (pos v) = v < 2 ^ n
IsWithin n (negsuc v) = v < 2 ^ n

pub mod_small : (a m : ℕ) → a < m → a % m ≡ a
mod_small a m h = mod-eq_of_lt h

pub signed-word :
    (n : ℕ) (z : ℤ) → n < 32 → IsWithin n z → signed (suc n) (word 32 z % 2 ^ suc n) ≡ z
unfolding signed word
signed-word n (pos v) h w =
    let p = pow-suc 2 n in
    let small = two_pow_mono (suc n) 32 (omega arith) in
    let same : v % 2 ^ 32 % 2 ^ suc n ≡ v =
      ap (λ x. x % 2 ^ suc n) (mod_small v (2 ^ 32) (omega arith)) ∙ mod-eq_of_lt (omega arith) in
    rw same (ground (arith, p))
signed-word n (negsuc v) h w =
    let p = pow-suc 2 n in
    let small = two_pow_mono (suc n) 32 (omega arith) in
    let low = mod_small v (2 ^ 32) (omega arith) in
    let o = ones (suc n) (omega arith) in
    let parts : 2 ^ 32 - 1 - v % 2 ^ 32 ≡ (2 ^ (32 - suc n) - 1) * 2 ^ suc n + (2 ^ suc n - 1 - v) =
      omega (arith, low, o, p) in
    let same : (2 ^ 32 - 1 - v % 2 ^ 32) % 2 ^ suc n ≡ 2 ^ suc n - 1 - v =
      ap (λ x. x % 2 ^ suc n) parts
      ∙ mul-add-mod_self_right (2 ^ (32 - suc n) - 1) (2 ^ suc n) (2 ^ suc n - 1 - v)
      ∙ mod_small (2 ^ suc n - 1 - v) (2 ^ suc n) (omega (arith, p)) in
    rw same (ground (arith, p))

-- A signed field of 1 to 32 bits reads back the number that was written to it, when the number is
-- in its range and the field in the buffer.
pub getbits-setbitu :
    (buff : List ℕ) (at n : ℕ) (z : ℤ)
    → IsBytes buff
    → at + suc n ≤ 8 * length buff
    → n < 32
    → IsWithin n z
    → getbits (setbitu buff at (suc n) (word 32 z)) at (suc n) ≡ z
getbits-setbitu buff at n z bytes room h w =
    getbits-signed (setbitu buff at (suc n) (word 32 z)) at (suc n) (omega arith) (omega arith)
    ∙ ap (signed (suc n))
        (getbitu-setbitu buff bytes at (suc n) (word 32 z) room (omega arith) (omega arith))
    ∙ signed-word n z h w
