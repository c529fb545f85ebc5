-- ===== src/Crc/Shift.antt =====
-- The shift register of the bitwise routine: it keeps 24 bits and is linear over exclusive or.
use native.Mathlib.Nat.{pow-suc, one-le-pow}
use gnss_parser.Prelude.{
  ℕ, zero, suc, ◌*◌, ◌/◌, ◌^◌, ◌≤◌, ◌<◌, bit_xor, ◌≡◌, refl, sym, ap, ap₂, ◌∙◌, arith, ◌⊎◌, inl,
  inr,
}
use gnss_parser.Prelude.Bits.Xor.{
  xor_comm, xor_assoc, xor_zero, xor_self, xor-double, xor-shift_right, xor-lt,
}
use gnss_parser.Crc.{polynomial, shift_once, shift_times}

-- The register after one round, by its top bit.
shift_low : (x : ℕ) → x < 2 ^ 23 → shift_once x ≡ x * 2
unfolding shift_once
shift_low x h = ground arith

shift_high : (x : ℕ) → 2 ^ 23 ≤ x → x < 2 ^ 24 → shift_once x ≡ bit_xor (x * 2) polynomial
unfolding shift_once
shift_high x h k = ground arith

top_cases : (x : ℕ) → (x < 2 ^ 23) ⊎ (2 ^ 23 ≤ x)
top_cases x = omega arith

-- Clearing bit 24.
xor_clears : (x p : ℕ) → x / 2 ^ 24 ≡ 1 → p / 2 ^ 24 ≡ 1 → bit_xor x p < 2 ^ 24
xor_clears x p e f = omega (arith, xor-shift_right 24 x p, ap₂ bit_xor e f)

pub shift_once-lt : (x : ℕ) → x < 2 ^ 24 → shift_once x < 2 ^ 24
shift_once-lt x h = elim (top_cases x) [
  | inl low ↦ rw (shift_low x low) (omega arith)
  | inr high ↦ rw (shift_high x high h) (xor_clears (x * 2) polynomial (omega arith) refl)
]

-- The polynomial on one side, or on both.
pub xor_right : (x y p : ℕ) → bit_xor (bit_xor x y) p ≡ bit_xor (bit_xor x p) y
xor_right x y p = xor_assoc x y p ∙ ap (bit_xor x) (xor_comm y p) ∙ sym (xor_assoc x p y)

xor_both : (x y p : ℕ) → bit_xor x y ≡ bit_xor (bit_xor x p) (bit_xor y p)
xor_both x y p = sym (
    xor_right x p (bit_xor y p)
    ∙ ap (λ t. bit_xor t p) (sym (xor_assoc x y p))
    ∙ xor_assoc (bit_xor x y) p p
    ∙ ap (bit_xor (bit_xor x y)) (xor_self p)
    ∙ xor_zero (bit_xor x y))

module _ (a b : ℕ) (ha : a < 2 ^ 24) (hb : b < 2 ^ 24) where
  fits : bit_xor a b < 2 ^ 24
  fits = xor-lt 24 a b ha hb

  top : bit_xor a b / 2 ^ 23 ≡ bit_xor (a / 2 ^ 23) (b / 2 ^ 23)
  top = xor-shift_right 23 a b

  doubled : bit_xor a b * 2 ≡ bit_xor (a * 2) (b * 2)
  doubled = sym (xor-double a b)

  high_of : (x y : ℕ) → a / 2 ^ 23 ≡ x → b / 2 ^ 23 ≡ y → bit_xor x y ≡ 1 → 2 ^ 23 ≤ bit_xor a b
  high_of x y e f g = omega (arith, top, ap₂ bit_xor e f)

  both_high : 2 ^ 23 ≤ a → 2 ^ 23 ≤ b → bit_xor a b < 2 ^ 23
  both_high ga gb = omega (arith, top, ap₂ bit_xor one_a one_b)
    where
      one_a : a / 2 ^ 23 ≡ 1
      one_a = omega arith

      one_b : b / 2 ^ 23 ≡ 1
      one_b = omega arith

  -- The round on an exclusive or is the exclusive or of the rounds.
  pub shift_once-xor : shift_once (bit_xor a b) ≡ bit_xor (shift_once a) (shift_once b)
  shift_once-xor = elim (top_cases a) [
    | inl la ↦ elim (top_cases b) [
      | inl lb ↦
          shift_low _ (xor-lt 23 a b la lb)
          ∙ doubled
          ∙ ap₂ bit_xor (sym (shift_low a la)) (sym (shift_low b lb))
      | inr gb ↦
          shift_high _ (high_of 0 1 (omega arith) (omega arith) refl) fits
          ∙ ap (λ t. bit_xor t polynomial) doubled
          ∙ xor_assoc (a * 2) (b * 2) polynomial
          ∙ ap₂ bit_xor (sym (shift_low a la)) (sym (shift_high b gb hb))
    ]
    | inr ga ↦ elim (top_cases b) [
      | inl lb ↦
          shift_high _ (high_of 1 0 (omega arith) (omega arith) refl) fits
          ∙ ap (λ t. bit_xor t polynomial) doubled
          ∙ xor_right (a * 2) (b * 2) polynomial
          ∙ ap₂ bit_xor (sym (shift_high a ga ha)) (sym (shift_low b lb))
      | inr gb ↦
          shift_low _ (both_high ga gb)
          ∙ doubled
          ∙ xor_both (a * 2) (b * 2) polynomial
          ∙ ap₂ bit_xor (sym (shift_high a ga ha)) (sym (shift_high b gb hb))
    ]
  ]

pub shift_times-lt : (n x : ℕ) → x < 2 ^ 24 → shift_times n x < 2 ^ 24
unfolding shift_times
shift_times-lt zero x h = h
shift_times-lt (suc n) x h = shift_times-lt n (shift_once x) (shift_once-lt x h)

pub shift_times-xor :
    (n a b : ℕ)
    → a < 2 ^ 24
    → b < 2 ^ 24
    → shift_times n (bit_xor a b) ≡ bit_xor (shift_times n a) (shift_times n b)
unfolding shift_times
shift_times-xor zero a b h k = refl
shift_times-xor (suc n) a b h k =
    ap (shift_times n) (shift_once-xor a b h k)
    ∙ shift_times-xor n (shift_once a) (shift_once b) (shift_once-lt a h) (shift_once-lt b k)

-- Without a top bit in the way the rounds are a shift.
pub shift_times_low : (n x : ℕ) → x * 2 ^ n < 2 ^ 24 → shift_times n x ≡ x * 2 ^ n
unfolding shift_times
shift_times_low zero x h = omega arith
shift_times_low (suc n) x h =
    ap (shift_times n) (shift_low x (small n x h))
    ∙ shift_times_low n (x * 2) (omega (arith, regroup))
    ∙ regroup
  where
    regroup : x * 2 * 2 ^ n ≡ x * 2 ^ suc n
    regroup = omega (arith, ap (λ (t : ℕ). x * t) (pow-suc 2 n))

    small : (k y : ℕ) → y * 2 ^ suc k < 2 ^ 24 → y < 2 ^ 23
    small k y p = grind (arith, pow-suc 2 k, one-le-pow k 2)
