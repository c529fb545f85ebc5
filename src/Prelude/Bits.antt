-- ===== src/Prelude/Bits.antt =====
-- Laws of `^`, `|` and `&` at variables, from one equation for the lowest binary digit.
pub mod Xor
use Prim.Native.Nat.{
  ℕ, zero, suc, ◌+◌, ◌*◌, ◌/◌, ◌%◌, ◌≤◌, ◌<◌, min, max, digits, differ, bit_and, bit_or, bit_xor,
  bit_and-bitwise, bit_or-bitwise, bit_xor-bitwise,
}
use mathlib.Core.Path.{◌≡◌, refl, ap, ◌∙◌}
use native.Mathlib.Omega.{arith}

-- A count of digits that is not smaller than the first number is as good as any other.
enough_digits :
    (z : ℕ → ℕ) (f : ℕ → ℕ → ℕ) (a b n m : ℕ) → a ≤ n → a ≤ m → digits z f n a b ≡ digits z f m a b
enough_digits z f zero b zero zero h k = refl
enough_digits z f zero b zero (suc m) h k = refl
enough_digits z f zero b (suc n) zero h k = refl
enough_digits z f zero b (suc n) (suc m) h k = refl
enough_digits z f (suc a) b zero m h k = absurd (omega arith)
enough_digits z f (suc a) b (suc n) zero h k = absurd (omega arith)
enough_digits z f (suc a) b (suc n) (suc m) h k =
    ap (λ t. t * 2 + f (suc a % 2) (b % 2))
      (enough_digits z f (suc a / 2) (b / 2) n m (omega arith) (omega arith))

module _ (z : ℕ → ℕ) (f : ℕ → ℕ → ℕ) where
  digits_low :
      (a b : ℕ)
      → digits z f (suc a) (suc a) b
        ≡ digits z f (suc a / 2) (suc a / 2) (b / 2) * 2 + f (suc a % 2) (b % 2)
  digits_low a b =
      ap (λ t. t * 2 + f (suc a % 2) (b % 2))
        (enough_digits z f (suc a / 2) (b / 2) a (suc a / 2) (omega arith) (omega arith))

pub and_low : (a b : ℕ) → bit_and a b ≡ bit_and (a / 2) (b / 2) * 2 + min (a % 2) (b % 2)
and_low zero b = simp bit_and-bitwise (omega arith)
and_low (suc a) b = simp bit_and-bitwise (digits_low (λ y. 0) min a b)

pub or_low : (a b : ℕ) → bit_or a b ≡ bit_or (a / 2) (b / 2) * 2 + max (a % 2) (b % 2)
or_low zero b = simp bit_or-bitwise (omega arith)
or_low (suc a) b = simp bit_or-bitwise (digits_low (λ y. y) max a b)

differ_digits : (x y : ℕ) → x < 2 → y < 2 → differ x y ≡ (x + y) % 2
differ_digits zero y h k = omega arith
differ_digits (suc zero) zero h k = refl
differ_digits (suc zero) (suc zero) h k = refl
differ_digits (suc zero) (suc (suc y)) h k = absurd (omega arith)
differ_digits (suc (suc x)) y h k = absurd (omega arith)

xor_differ : (a b : ℕ) → bit_xor a b ≡ bit_xor (a / 2) (b / 2) * 2 + differ (a % 2) (b % 2)
xor_differ zero b = simp bit_xor-bitwise (omega (arith, differ_digits 0 (b % 2)))
xor_differ (suc a) b = simp bit_xor-bitwise (digits_low (λ y. y) differ a b)

pub xor_low : (a b : ℕ) → bit_xor a b ≡ bit_xor (a / 2) (b / 2) * 2 + (a % 2 + b % 2) % 2
xor_low a b =
    xor_differ a b
    ∙ ap (λ t. bit_xor (a / 2) (b / 2) * 2 + t)
        (differ_digits (a % 2) (b % 2) (omega arith) (omega arith))
