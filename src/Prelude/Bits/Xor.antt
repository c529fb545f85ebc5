-- ===== src/Prelude/Bits/Xor.antt =====
-- Exclusive or at variables.
use native.Mathlib.Nat.{
  pow-suc, one-le-pow, div-div-eq-div-mul, mul_comm, div-eq_of_lt, div-add-mod', mod-lt,
}
use Prim.Native.Nat.{ℕ, zero, suc, ◌+◌, ◌*◌, ◌/◌, ◌%◌, ◌^◌, ◌≤◌, ◌<◌, bit_xor}
use mathlib.Core.Path.{◌≡◌, refl, ap, ap₂, sym, ◌∙◌}
use native.Mathlib.Omega.{arith}
use gnss_parser.Prelude.Bits.{xor_low}

pub xor-half : (a b : ℕ) → bit_xor a b / 2 ≡ bit_xor (a / 2) (b / 2)
xor-half a b = omega (arith, xor_low a b)

pub xor-parity : (a b : ℕ) → bit_xor a b % 2 ≡ (a % 2 + b % 2) % 2
xor-parity a b = omega (arith, xor_low a b)

comm_upto : (n a b : ℕ) → a ≤ n → b ≤ n → bit_xor a b ≡ bit_xor b a
comm_upto zero zero zero h k = refl
comm_upto zero (suc a) b h k = absurd (omega arith)
comm_upto zero zero (suc b) h k = absurd (omega arith)
comm_upto (suc n) a b h k =
    omega (arith, xor_low a b, xor_low b a, comm_upto n (a / 2) (b / 2) (omega arith) (omega arith))

pub xor_comm : (a b : ℕ) → bit_xor a b ≡ bit_xor b a
xor_comm a b = comm_upto (a + b) a b (omega arith) (omega arith)

assoc_upto :
    (n a b c : ℕ) → a ≤ n → b ≤ n → c ≤ n → bit_xor (bit_xor a b) c ≡ bit_xor a (bit_xor b c)
assoc_upto zero zero zero zero h k l = refl
assoc_upto zero (suc a) b c h k l = absurd (omega arith)
assoc_upto zero zero (suc b) c h k l = absurd (omega arith)
assoc_upto zero zero zero (suc c) h k l = absurd (omega arith)
assoc_upto (suc n) a b c h k l = omega (
  arith,
  xor_low (bit_xor a b) c,
  xor_low a (bit_xor b c),
  ap (λ t. bit_xor t (c / 2)) (xor-half a b),
  ap (bit_xor (a / 2)) (xor-half b c),
  xor-parity a b,
  xor-parity b c,
  assoc_upto n (a / 2) (b / 2) (c / 2) (omega arith) (omega arith) (omega arith),
)

pub xor_assoc : (a b c : ℕ) → bit_xor (bit_xor a b) c ≡ bit_xor a (bit_xor b c)
xor_assoc a b c = assoc_upto (a + b + c) a b c (omega arith) (omega arith) (omega arith)

zero_upto : (n a : ℕ) → a ≤ n → bit_xor a 0 ≡ a
zero_upto zero zero h = refl
zero_upto zero (suc a) h = absurd (omega arith)
zero_upto (suc n) a h = omega (arith, xor_low a 0, zero_upto n (a / 2) (omega arith))

pub xor_zero : (a : ℕ) → bit_xor a 0 ≡ a
xor_zero a = zero_upto a a (omega arith)

pub zero_xor : (a : ℕ) → bit_xor 0 a ≡ a
zero_xor a = xor_comm 0 a ∙ xor_zero a

self_upto : (n a : ℕ) → a ≤ n → bit_xor a a ≡ 0
self_upto zero zero h = refl
self_upto zero (suc a) h = absurd (omega arith)
self_upto (suc n) a h = omega (arith, xor_low a a, self_upto n (a / 2) (omega arith))

pub xor_self : (a : ℕ) → bit_xor a a ≡ 0
xor_self a = self_upto a a (omega arith)

-- A shift to the left or to the right goes through.
pub xor-double : (a b : ℕ) → bit_xor (a * 2) (b * 2) ≡ bit_xor a b * 2
xor-double a b = omega (arith, xor_low (a * 2) (b * 2), ap₂ bit_xor (halve a) (halve b))
  where
    halve : (x : ℕ) → x * 2 / 2 ≡ x
    halve x = omega arith

pub xor-shift_left : (k a b : ℕ) → bit_xor (a * 2 ^ k) (b * 2 ^ k) ≡ bit_xor a b * 2 ^ k
xor-shift_left zero a b = omega (arith, ap₂ bit_xor (whole a) (whole b))
  where
    whole : (x : ℕ) → x * 2 ^ 0 ≡ x
    whole x = omega arith
xor-shift_left (suc k) a b =
    ap₂ bit_xor (twice a) (twice b)
    ∙ xor-double (a * 2 ^ k) (b * 2 ^ k)
    ∙ ap (λ t. t * 2) (xor-shift_left k a b)
    ∙ sym (twice (bit_xor a b))
  where
    twice : (x : ℕ) → x * 2 ^ suc k ≡ x * 2 ^ k * 2
    twice x = omega (arith, ap (λ (t : ℕ). x * t) (pow-suc 2 k))

pub xor-shift_right : (k a b : ℕ) → bit_xor a b / 2 ^ k ≡ bit_xor (a / 2 ^ k) (b / 2 ^ k)
xor-shift_right zero a b = omega (arith, ap₂ bit_xor (whole a) (whole b))
  where
    whole : (x : ℕ) → x / 1 ≡ x
    whole x = omega arith
xor-shift_right (suc k) a b =
    split (bit_xor a b)
    ∙ ap (λ t. t / 2 ^ k) (xor-half a b)
    ∙ xor-shift_right k (a / 2) (b / 2)
    ∙ ap₂ bit_xor (sym (split a)) (sym (split b))
  where
    split : (x : ℕ) → x / 2 ^ suc k ≡ x / 2 / 2 ^ k
    split x =
        ap (λ t. x / t) (pow-suc 2 k ∙ mul_comm (2 ^ k) 2) ∙ sym (div-div-eq-div-mul x 2 (2 ^ k))

-- Fields that do not meet add up.
pub xor_fields : (k q r : ℕ) → r < 2 ^ k → bit_xor (q * 2 ^ k) r ≡ q * 2 ^ k + r
xor_fields zero q r h = omega (arith, ap₂ bit_xor (one q) none_left, xor_zero q)
  where
    one : (x : ℕ) → x * 2 ^ 0 ≡ x
    one x = omega arith

    none_left : r ≡ 0
    none_left = omega arith
xor_fields (suc k) q r h = omega (
  arith,
  xor_low (q * 2 ^ suc k) r,
  ap (λ t. bit_xor t (r / 2)) halved,
  xor_fields k q (r / 2) (omega (arith, pow-suc 2 k)),
  doubled,
)
  where
    doubled : q * 2 ^ suc k ≡ 2 * (q * 2 ^ k)
    doubled = omega (arith, ap (λ (t : ℕ). q * t) (pow-suc 2 k))

    halved : q * 2 ^ suc k / 2 ≡ q * 2 ^ k
    halved = omega (arith, doubled)

pub xor-lt : (k a b : ℕ) → a < 2 ^ k → b < 2 ^ k → bit_xor a b < 2 ^ k
xor-lt k a b h l = below (xor-shift_right k a b ∙ ap₂ bit_xor (above a h) (above b l))
  where
    above : (x : ℕ) → x < 2 ^ k → x / 2 ^ k ≡ 0
    above x p = div-eq_of_lt p

    below : bit_xor a b / 2 ^ k ≡ 0 → bit_xor a b < 2 ^ k
    below e = omega (
      arith,
      div-add-mod' (bit_xor a b) (2 ^ k),
      mod-lt (bit_xor a b) {m = 2 ^ k} (one-le-pow k 2 (omega arith)),
      ap (λ (t : ℕ). t * 2 ^ k) e,
    )
