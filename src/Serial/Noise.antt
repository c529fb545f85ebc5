-- ===== src/Serial/Noise.antt =====
-- Bytes without a preamble, which the header search passes over.
use gnss_parser.Prelude.{
  ℕ, ◌≤◌, ◌<◌, ◌≡◌, ◌∙◌, true, false, List, [], ◌∷◌, ◌++◌, length, arith, byte_at,
}
use gnss_parser.Serial.Sync.{is_pair, skip, skip_found, skip_next}

-- No B5 62 stands in `g`.
abbrev pub IsNoise : List ℕ → Type 0
IsNoise [] = Unit
IsNoise (a ∷ []) = Unit
IsNoise (a ∷ b ∷ g) = (is_pair a b ≡ false) × IsNoise (b ∷ g)

pub skip-noise_end : (g : List ℕ) → IsNoise g → length (skip g) ≤ 1
unfolding skip
skip-noise_end [] n = omega arith
skip-noise_end (a ∷ []) n = omega arith
skip-noise_end (a ∷ b ∷ g) n = rw n.0 (skip-noise_end (b ∷ g) n.1)

not_pair : (a b c : ℕ) → is_pair b c ≡ true → is_pair a b ≡ false
not_pair a b c e = ground arith

pub skip-noise :
    (g m s : List ℕ)
    → IsNoise g
    → 1 < length m
    → is_pair (byte_at m 0) (byte_at m 1) ≡ true
    → skip (g ++ (m ++ s)) ≡ m ++ s
skip-noise g [] s n lt e = absurd (omega arith)
skip-noise g (x ∷ []) s n lt e = absurd (omega arith)
skip-noise [] (x ∷ y ∷ m) s n lt e = skip_found x y (m ++ s) e
skip-noise (a ∷ []) (x ∷ y ∷ m) s n lt e =
    skip_next a x (y ∷ (m ++ s)) (not_pair a x y e) ∙ skip-noise [] (x ∷ y ∷ m) s tt lt e
skip-noise (a ∷ b ∷ g) (x ∷ y ∷ m) s n lt e =
    skip_next a b (g ++ (x ∷ y ∷ (m ++ s))) n.0 ∙ skip-noise (b ∷ g) (x ∷ y ∷ m) s n.1 lt e
