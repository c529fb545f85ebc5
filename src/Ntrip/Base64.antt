-- ===== src/Ntrip/Base64.antt =====
-- `Base64Encode` of ublox_driver/src/rtcm/ntrip_client.cpp against a decoder.
use gnss_parser.Prelude.{
  ℕ, suc, ◌+◌, ◌-◌, ◌*◌, ◌/◌, ◌%◌, ◌^◌, ◌<◌, ◌≡◌, refl, ap, ap₂, ◌∙◌, Bool, true, false, not, ◌&&◌,
  [], ◌∷◌, ◌++◌, leb, ◌==◌, if◌then◌else◌, length, all_below, all_below_sound, arith, All,
}
use gnss_parser.Prelude.Text.{Bytes}
use gnss_parser.Ntrip.{
  digit, padding, padding_of, sextet, accumulate, push_sextets, push_all, padded, base64_encode,
}

-- The value of a character of the alphabet of RFC 4648.
abbrev pub value_of : ℕ → ℕ
value_of c =
    if leb 97 c
    then c - 71
    else if leb 65 c
    then c - 65
    else if leb 48 c
    then c + 4
    else if c == 43
    then 62
    else 63

-- The bytes of a group of four characters.
abbrev group : ℕ → ℕ → ℕ → ℕ → Bytes
group p q r s =
    let first = value_of p * 4 + value_of q / 16 in
    let second = value_of q % 16 * 16 + value_of r / 4 in
    if r == 61
    then first ∷ []
    else if s == 61
    then first ∷ second ∷ []
    else first ∷ second ∷ (value_of r % 4 * 64 + value_of s) ∷ []

-- A decoder, which reads the characters in groups of four.
unfoldable pub base64_decode : Bytes → Bytes
base64_decode (p ∷ q ∷ r ∷ s ∷ rest) = group p q r s ++ base64_decode rest
base64_decode [] = []
base64_decode (p ∷ []) = []
base64_decode (p ∷ q ∷ []) = []
base64_decode (p ∷ q ∷ r ∷ []) = []

abbrev is_read : ℕ → Bool
is_read v = value_of (digit v) == v && not (digit v == 61)

table : all_below 64 is_read ≡ true
unfolding all_below digit
table = refl

value_of-digit : (v : ℕ) → v < 64 → value_of (digit v) ≡ v
value_of-digit v lt = let t = all_below_sound 64 is_read v table lt in ground arith

digit-value : (v : ℕ) → v < 64 → (digit v == 61) ≡ false
digit-value v lt = let t = all_below_sound 64 is_read v table lt in ground arith

-- The characters of a group.
push_group :
    (a b c acc : ℕ) (rest : Bytes)
    → push_all (a ∷ b ∷ c ∷ rest) acc 0
      ≡ sextet (accumulate acc a / 2 ^ 2)
        ∷ sextet (accumulate (accumulate acc a) b / 2 ^ 4)
        ∷ sextet (accumulate (accumulate (accumulate acc a) b) c / 2 ^ 6)
        ∷ sextet (accumulate (accumulate (accumulate acc a) b) c / 2 ^ 0)
        ∷ push_all rest (accumulate (accumulate (accumulate acc a) b) c) 0
unfolding push_all push_sextets
push_group a b c acc rest = refl

group_3 :
    (p q r s : ℕ)
    → p < 64
    → q < 64
    → r < 64
    → s < 64
    → group (digit p) (digit q) (digit r) (digit s)
      ≡ (p * 4 + q / 16) ∷ (q % 16 * 16 + r / 4) ∷ (r % 4 * 64 + s) ∷ []
group_3 p q r s hp hq hr hs =
    rw
      (
        value_of-digit p hp,
        value_of-digit q hq,
        value_of-digit r hr,
        value_of-digit s hs,
        digit-value r hr,
        digit-value s hs,
      )
      refl

padding-4 : (n : ℕ) → padding (suc (suc (suc (suc n)))) ≡ padding n
padding-4 n = let e : suc (suc (suc (suc n))) % 4 ≡ n % 4 = omega arith in ap padding_of e

-- The sextets of three bytes, whatever stood in the accumulator.
three_bytes :
    (a b c acc : ℕ)
    → a < 256
    → b < 256
    → c < 256
    → (accumulate acc a / 2 ^ 2 % 64 ≡ a / 4)
      × (accumulate (accumulate acc a) b / 2 ^ 4 % 64 ≡ a % 4 * 16 + b / 16)
      × (accumulate (accumulate (accumulate acc a) b) c / 2 ^ 6 % 64 ≡ b % 16 * 4 + c / 64)
      × (accumulate (accumulate (accumulate acc a) b) c / 2 ^ 0 % 64 ≡ c % 64)
three_bytes a b c acc ha hb hc = (omega arith, omega arith, omega arith, omega arith)

cons_3 :
    {a b c x y z : ℕ} {r s : Bytes} → x ≡ a → y ≡ b → z ≡ c → r ≡ s → x ∷ y ∷ z ∷ r ≡ a ∷ b ∷ c ∷ s
cons_3 ex ey ez er = rw (ex, ey, ez, er) refl

decode-padded :
    (input : Bytes) (acc : ℕ)
    → All (λ b. b < 256) input
    → base64_decode (padded (push_all input acc 0)) ≡ input
unfolding push_all push_sextets base64_decode
decode-padded [] acc small = refl
decode-padded (a ∷ []) acc small =
    let ha = small.0 in
    let x : ℕ = accumulate acc a / 2 ^ 2 % 64 in
    let y : ℕ = accumulate acc a * 2 ^ 4 % 2 ^ 32 % 64 in
    rw (value_of-digit x (omega arith), value_of-digit y (omega arith))
      (ap (λ v. v ∷ []) (omega arith))
decode-padded (a ∷ b ∷ []) acc small =
    let ha = small.0 in
    let hb = small.1.0 in
    let acc2 : ℕ = accumulate (accumulate acc a) b in
    let x : ℕ = accumulate acc a / 2 ^ 2 % 64 in
    let y : ℕ = acc2 / 2 ^ 4 % 64 in
    let z : ℕ = acc2 * 2 ^ 2 % 2 ^ 32 % 64 in
    rw
      (
        value_of-digit x (omega arith),
        value_of-digit y (omega arith),
        value_of-digit z (omega arith),
        digit-value z (omega arith),
      )
      (ap₂ (λ v w. v ∷ w ∷ []) (omega arith) (omega arith))
decode-padded (a ∷ b ∷ c ∷ rest) acc small =
    let ha = small.0 in
    let hb = small.1.0 in
    let hc = small.1.1.0 in
    let acc2 : ℕ = accumulate (accumulate acc a) b in
    let acc3 : ℕ = accumulate acc2 c in
    let out = push_all rest acc3 0 in
    let t = three_bytes a b c acc ha hb hc in
    let p : ℕ = accumulate acc a / 2 ^ 2 % 64 in
    let q : ℕ = acc2 / 2 ^ 4 % 64 in
    let r : ℕ = acc3 / 2 ^ 6 % 64 in
    let s : ℕ = acc3 / 2 ^ 0 % 64 in
    ap (λ pad. group (digit p) (digit q) (digit r) (digit s) ++ base64_decode (out ++ pad))
      (padding-4 (length out))
    ∙ ap (◌++ base64_decode (padded out))
        (group_3 p q r s (omega arith) (omega arith) (omega arith) (omega arith))
    ∙ cons_3 (omega (arith, t.0, t.1)) (omega (arith, t.1, t.2)) (omega (arith, t.2, t.3))
        (decode-padded rest acc3 small.1.1.1)

-- Base64 as it is decoded by RFC 4648 gives back the input of `base64_encode`, for any bytes: the
-- overflow of its 32-bit accumulator is without effect.
pub base64_decode-base64_encode :
    (input : Bytes) → All (λ b. b < 256) input → base64_decode (base64_encode input) ≡ input
unfolding base64_encode
base64_decode-base64_encode input small = decode-padded input 0 small
