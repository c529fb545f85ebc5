-- ===== src/Ubx/Bits/Fields.antt =====
-- Fields of bits: what `getbitu` reads is the number that the bits spell, and `setbitu` writes it.
use native.Mathlib.Nat.{
  pow-suc, mul-add-mod_self_right, mod-eq_of_lt, mod-lt, one-le-pow, pow-le-pow_right, div-add-mod',
}
use gnss_parser.Prelude.{
  ℕ, zero, suc, ◌+◌, ◌-◌, ◌*◌, ◌/◌, ◌%◌, ◌^◌, ◌≤◌, ◌<◌, ◌&&◌, ◌⊎◌, List, ◌≡◌, refl, ◌∙◌, sym, ap,
  ap₂, arith, ltb, leb, if◌then◌else◌, length,
}
use gnss_parser.Ubx.Bits.{bit_at, get_bits, getbitu, setbitu}
use gnss_parser.Ubx.Bits.Write.{
  IsBytes, bit_at-lt, field_bit, set_bits-IsBytes, length-set_bits, bit_at-set_bits,
}

-- The number that `n` bits from `i` on spell.
unfoldable pub value : List ℕ → ℕ → ℕ → ℕ
value buff zero i = 0
value buff (suc n) i = bit_at buff i * 2 ^ n + value buff n (i + 1)

pub value-lt : (buff : List ℕ) (n i : ℕ) → value buff n i < 2 ^ n
unfolding value
value-lt buff zero i = omega arith
value-lt buff (suc n) i = grind (arith, pow-suc 2 n, bit_at-lt buff i, value-lt buff n (i + 1))

two_pow_mono : (n : ℕ) → n ≤ 32 → 2 ^ n ≤ 2 ^ 32
two_pow_mono n h = pow-le-pow_right (omega arith) h

bit_mul_le : (b p : ℕ) → b < 2 → b * p ≤ p
bit_mul_le zero p h = omega arith
bit_mul_le (suc zero) p h = omega arith
bit_mul_le (suc (suc b)) p h = absurd (omega arith)

-- One round keeps the value below the word size.
round_fits :
    (bits b p m : ℕ)
    → 1 ≤ p
    → b < 2
    → (bits + 1) * (p * 2) ≤ m
    → (bits * 2 + b < m) × ((bits * 2 + b + 1) * p ≤ m)
round_fits bits b zero m hp hb h = absurd (omega arith)
round_fits bits b (suc p) m hp hb h = (omega arith, omega (arith, bit_mul_le b (suc p) hb))

get_bits-value :
    (buff : List ℕ) (n i bits : ℕ)
    → (bits + 1) * 2 ^ n ≤ 2 ^ 32
    → get_bits buff n i bits ≡ bits * 2 ^ n + value buff n i
unfolding get_bits value
get_bits-value buff zero i bits h = omega arith
get_bits-value buff (suc n) i bits h =
    let b = bit_at buff i in
    let fits =
      round_fits bits b (2 ^ n) (2 ^ 32) (one-le-pow n 2 (omega arith)) (bit_at-lt buff i)
        (rw (← pow-suc 2 n) h) in
    rw (mod-eq_of_lt fits.0) (
      get_bits-value buff n (i + 1) (bits * 2 + b) fits.1
      ∙ omega (arith, pow-suc 2 n, ap (λ (t : ℕ). bits * t) (pow-suc 2 n)))

mod_two_pow_suc : (v n : ℕ) → v % 2 ^ suc n ≡ v / 2 ^ n % 2 * 2 ^ n + v % 2 ^ n
mod_two_pow_suc v n =
    let p : ℕ = 2 ^ n in
    let q : ℕ = v / p in
    let whole : v ≡ q / 2 * 2 ^ suc n + (q % 2 * p + v % p) = omega (
      arith,
      div-add-mod' v p,
      ap (λ (t : ℕ). t * p) (div-add-mod' q 2),
      pow-suc 2 n,
      ap (λ (t : ℕ). q / 2 * t) (pow-suc 2 n),
    ) in
    let small : q % 2 * p + v % p < 2 ^ suc n = omega (
      arith,
      mod-lt v {m = p} (one-le-pow n 2 (omega arith)),
      bit_mul_le (q % 2) p (omega arith),
      pow-suc 2 n,
    ) in
    ap (λ t. t % 2 ^ suc n) whole
    ∙ mul-add-mod_self_right (q / 2) (2 ^ suc n) _
    ∙ mod-eq_of_lt small

-- `getbitu` over at most 32 bits does not wrap: it is the number that the bits spell.
pub getbitu-value :
    (buff : List ℕ) (pos len : ℕ) → len ≤ 32 → getbitu buff pos len ≡ value buff len pos
unfolding getbitu
getbitu-value buff pos len h =
    get_bits-value buff len pos 0 (omega (arith, two_pow_mono len h)) ∙ omega arith

value_of_field :
    (buff : List ℕ) (n i stop v : ℕ)
    → i + n ≡ stop
    → ((j : ℕ) → i ≤ j → j < stop → bit_at buff j ≡ field_bit v stop j)
    → value buff n i ≡ v % 2 ^ n
unfolding value
value_of_field buff zero i stop v e h = omega arith
value_of_field buff (suc n) i stop v e h =
    let last : stop - 1 - i ≡ n = omega arith in
    omega (
      arith,
      value_of_field buff n (i + 1) stop v (omega arith) (λ j p q. h j (omega arith) q),
      ap (λ (t : ℕ). t * 2 ^ n) (h i (omega arith) (omega arith) ∙ ap (λ t. v / 2 ^ t % 2) last),
      mod_two_pow_suc v n,
    )

value_ext :
    (a b : List ℕ) (n i stop : ℕ)
    → i + n ≡ stop
    → ((j : ℕ) → i ≤ j → j < stop → bit_at a j ≡ bit_at b j)
    → value a n i ≡ value b n i
unfolding value
value_ext a b zero i stop e h = refl
value_ext a b (suc n) i stop e h =
    ap₂ (λ x y. x * 2 ^ n + y) (h i (omega arith) (omega arith))
      (value_ext a b n (i + 1) stop (omega arith) (λ j p q. h j (omega arith) q))

module _ (buff : List ℕ) (bytes : IsBytes buff) (pos len v : ℕ)
    (room : pos + len ≤ 8 * length buff) where
  -- The bits of the buffer after `setbitu`: those of the value in the field, the old ones outside.
  pub bit_at-setbitu :
      (j : ℕ)
      → 0 < len
      → len ≤ 32
      → bit_at (setbitu buff pos len v) j
        ≡ (if leb pos j && ltb j (pos + len) then field_bit v (pos + len) j else bit_at buff j)
  unfolding setbitu
  bit_at-setbitu j h k =
      ground (arith, bit_at-set_bits len buff pos (pos + len) v j bytes refl room)

  -- `getbitu` reads back what `setbitu` wrote, cut to the width of the field, when the field has
  -- 1 to 32 bits and lies in the buffer.
  pub getbitu-setbitu : 0 < len → len ≤ 32 → getbitu (setbitu buff pos len v) pos len ≡ v % 2 ^ len
  getbitu-setbitu h k =
      getbitu-value (setbitu buff pos len v) pos len k
      ∙ value_of_field (setbitu buff pos len v) len pos (pos + len) v refl
          (λ j p q. ground (arith, bit_at-setbitu j h k))

  -- `setbitu` leaves every field that does not meet the written one as it was.
  pub getbitu-setbitu_apart :
      (at width : ℕ)
      → 0 < len
      → len ≤ 32
      → width ≤ 32
      → (at + width ≤ pos) ⊎ (pos + len ≤ at)
      → getbitu (setbitu buff pos len v) at width ≡ getbitu buff at width
  getbitu-setbitu_apart at width h k w apart =
      getbitu-value (setbitu buff pos len v) at width w
      ∙ value_ext (setbitu buff pos len v) buff width at (at + width) refl
          (λ j p q. ground (arith, bit_at-setbitu j h k))
      ∙ sym (getbitu-value buff at width w)

  -- `setbitu` writes inside the buffer only, and only bytes.
  pub setbitu_keeps :
      IsBytes (setbitu buff pos len v) × (length (setbitu buff pos len v) ≡ length buff)
  unfolding setbitu
  setbitu_keeps = (
    λ i. ground (arith, bytes i, set_bits-IsBytes len buff pos v bytes i),
    ground (arith, length-set_bits len buff pos v bytes),
  )
