-- ===== src/Serial/Sync.antt =====
-- The header search of `read_loop`: it finds the first preamble of what arrives.
use gnss_parser.Prelude.{
  ℕ, zero, suc, ◌+◌, ◌-◌, ◌≤◌, ◌<◌, ◌≡◌, refl, sym, ap, ap₂, subst, ◌∙◌, Bool, true, false, ◌&&◌,
  List, [], ◌∷◌, ◌++◌, leb, ◌==◌, Bool-cases, if◌then◌else◌, length, take, drop, length-append,
  length-take, length-drop, take-append, drop-append, append_assoc, append-nil, arith, inl, inr,
  byte_at, take-append-drop,
}
use gnss_parser.Ubx.Frame.{sync_1, sync_2}
use gnss_parser.Serial.{
  Event, done, stopped, Synced, read_exact, bytes_of, is_preamble, find_preamble, refill, sync,
}
use gnss_parser.Serial.Exact.{IsLive, read_exact-IsExact}

abbrev pub is_pair : ℕ → ℕ → Bool
is_pair a b = a == sync_1 && b == sync_2

-- The bytes from the first B5 62 on; without one, the last byte.
unfoldable pub skip : List ℕ → List ℕ
skip [] = []
skip (a ∷ []) = a ∷ []
skip (a ∷ b ∷ s) = let later = skip (b ∷ s) in if is_pair a b then a ∷ b ∷ s else later

pub skip_found : (a b : ℕ) (s : List ℕ) → is_pair a b ≡ true → skip (a ∷ b ∷ s) ≡ a ∷ b ∷ s
unfolding skip
skip_found a b s e = rw e refl

pub skip_next : (a b : ℕ) (s : List ℕ) → is_pair a b ≡ false → skip (a ∷ b ∷ s) ≡ skip (b ∷ s)
unfolding skip
skip_next a b s e = rw e refl

pub length-skip : (s : List ℕ) → length (skip s) ≤ length s
unfolding skip
length-skip [] = omega arith
length-skip (a ∷ []) = omega arith
length-skip (a ∷ b ∷ s) = ground (arith, length-skip (b ∷ s))

drop_byte : (h : List ℕ) (i j : ℕ) → i < length h → j ≡ i + 1 → drop i h ≡ byte_at h i ∷ drop j h
drop_byte [] i j lt e = absurd (omega arith)
drop_byte (a ∷ h) i zero lt e = absurd (omega arith)
drop_byte (a ∷ h) zero (suc zero) lt e = refl
drop_byte (a ∷ h) zero (suc (suc j)) lt e = absurd (omega arith)
drop_byte (a ∷ h) (suc i) (suc j) lt e = drop_byte h i j (omega arith) (omega arith)

-- The search passes over no preamble.
skip-find_preamble :
    (n i : ℕ) (h s : List ℕ)
    → i + n < length h
    → skip (drop i h ++ s) ≡ skip (drop (find_preamble n i h) h ++ s)
unfolding find_preamble
skip-find_preamble zero i h s lt = refl
skip-find_preamble (suc n) i h s lt = elim (Bool-cases (is_preamble h i)) [
  | inl e ↦ rw e refl
  | inr e ↦
      let first = drop_byte h i (i + 1) (omega arith) refl in
      let second = drop_byte h (i + 1) (i + 2) (omega arith) (omega arith) in
      rw e (
        ap (λ l. skip (l ++ s)) (first ∙ ap (◌∷◌ (byte_at h i)) second)
        ∙ skip_next (byte_at h i) (byte_at h (i + 1)) (drop (i + 2) h ++ s) e
        ∙ ap (λ l. skip (l ++ s)) (sym second)
        ∙ skip-find_preamble n (i + 1) h s (omega arith))
]

find_preamble-le : (n i : ℕ) (h : List ℕ) → find_preamble n i h ≤ i + n
unfolding find_preamble
find_preamble-le zero i h = omega arith
find_preamble-le (suc n) i h = ground (arith, find_preamble-le n (i + 1) h)

find_preamble-ge : (n i : ℕ) (h : List ℕ) → i ≤ find_preamble n i h
unfolding find_preamble
find_preamble-ge zero i h = omega arith
find_preamble-ge (suc n) i h = ground (arith, find_preamble-ge n (i + 1) h)

find_preamble_zero : (h : List ℕ) → (find_preamble 5 0 h == 0) ≡ true → is_preamble h 0 ≡ true
unfolding find_preamble
find_preamble_zero h e = ground (arith, find_preamble-ge 4 1 h)

skip-preamble : (h s : List ℕ) → 1 < length h → is_preamble h 0 ≡ true → skip (h ++ s) ≡ h ++ s
skip-preamble [] s lt e = absurd (omega arith)
skip-preamble (a ∷ []) s lt e = absurd (omega arith)
skip-preamble (a ∷ b ∷ h) s lt e = skip_found a b (h ++ s) e

-- What the header search promises, by the bytes from the first preamble on.
abbrev pub IsSynced : List ℕ → Synced → Type 0
IsSynced t r =
    (r.status ≡ (if leb 6 (length t) then done else stopped))
    × (r.status ≡ done → (r.header ≡ take 6 t) × (bytes_of r.rest ≡ drop 6 t))
    × IsLive r.rest

drop_all : (h : List ℕ) (n : ℕ) → length h ≤ n → drop n h ≡ []
drop_all [] zero le = refl
drop_all [] (suc n) le = refl
drop_all (x ∷ h) zero le = absurd (omega arith)
drop_all (x ∷ h) (suc n) le = drop_all h n (omega arith)

refill-append :
    (h got : List ℕ) (idx : ℕ)
    → length h ≡ 6
    → idx ≤ 6
    → length got ≡ idx
    → refill idx h got ≡ drop idx h ++ got
refill-append h got idx len le full =
    ap (λ l. drop idx h ++ (got ++ l)) (drop_all h (6 - idx + length got) (omega arith))
    ∙ ap (◌++◌ (drop idx h)) (append-nil got)

-- The round of the search that reads `idx` bytes more.
skip-refill :
    (h xs : List ℕ) (idx : ℕ)
    → length h ≡ 6
    → idx ≤ 6
    → idx ≤ length xs
    → refill idx h (take idx xs) ++ drop idx xs ≡ drop idx h ++ xs
skip-refill h xs idx len le fit =
    ap (λ l. l ++ drop idx xs)
      (refill-append h (take idx xs) idx len le (omega (arith, length-take idx xs)))
    ∙ append_assoc (drop idx h) (take idx xs) (drop idx xs)
    ∙ ap (◌++◌ (drop idx h)) (take-append-drop idx xs)

length-refill :
    (h xs : List ℕ) (idx : ℕ)
    → length h ≡ 6
    → idx ≤ 6
    → idx ≤ length xs
    → length (refill idx h (take idx xs)) ≡ 6
length-refill h xs idx len le fit =
    ap length (refill-append h (take idx xs) idx len le (omega (arith, length-take idx xs)))
    ∙ omega (arith, length-append (drop idx h) (take idx xs), length-take idx xs, length-drop idx h)

found_now :
    (h : List ℕ) (es : List Event)
    → IsLive es
    → length h ≡ 6
    → is_preamble h 0 ≡ true
    → IsSynced (skip (h ++ bytes_of es)) (record { header = h; status = done; rest = es })
found_now h es live len e = rw (skip-preamble h (bytes_of es) (omega arith) e) (
  ground (arith, length-append h (bytes_of es)),
  λ d. (
    sym (take-append h (bytes_of es) 6 (sym len)),
    sym (drop-append h (bytes_of es) 6 (sym len)),
  ),
  live,
)

-- Too few bytes arrive to complete the header.
length-skip_short :
    (h xs : List ℕ) → length h ≡ 6 → length xs < find_preamble 5 0 h → length (skip (h ++ xs)) < 6
length-skip_short h xs len lt =
    let idx = find_preamble 5 0 h in
    let passed = skip-find_preamble 5 0 h xs (omega arith) in
    let bound = length-skip (drop idx h ++ xs) in
    let le = find_preamble-le 5 0 h in
    omega (arith, ap length passed, length-append (drop idx h) xs, length-drop idx h)

stopped_not_done : ¬ (stopped ≡ done)
stopped_not_done d = ground arith

fewer :
    (fuel idx : ℕ) (xs ys : List ℕ)
    → (idx == 0) ≡ false
    → idx ≤ length xs
    → length xs < suc fuel
    → ys ≡ drop idx xs
    → length ys < fuel
fewer fuel idx xs ys e fit lt q = ground (arith, ap length q, length-drop idx xs)

-- With fuel for every byte, the header search ends at the first preamble.
pub sync-IsSynced :
    (fuel : ℕ) (h : List ℕ) (es : List Event)
    → IsLive es
    → length h ≡ 6
    → length (bytes_of es) < fuel
    → IsSynced (skip (h ++ bytes_of es)) (sync fuel h es)
unfolding sync
sync-IsSynced zero h es live len lt = absurd (omega arith)
sync-IsSynced (suc fuel) h es live len lt = elim (Bool-cases (find_preamble 5 0 h == 0)) [
  | inl e ↦ rw (e, sync) (found_now h es live len (find_preamble_zero h e))
  | inr e ↦
      let idx = find_preamble 5 0 h in
      let le = find_preamble-le 5 0 h in
      let r = read_exact-IsExact idx es live in
      elim (Bool-cases (leb (find_preamble 5 0 h) (length (bytes_of es)))) [
        | inl fits ↦
            let fit : idx ≤ length (bytes_of es) = ground arith in
            let step =
              subst
                (λ t.
                  IsSynced t
                    (sync fuel (refill idx h (read_exact idx es).got) (read_exact idx es).rest))
                (ap₂ (λ g t. skip (refill idx h g ++ t)) r.0 r.1
                  ∙ ap skip (skip-refill h (bytes_of es) idx len (omega arith) fit)
                  ∙ sym (skip-find_preamble 5 0 h (bytes_of es) (omega arith)))
                (sync-IsSynced fuel (refill idx h (read_exact idx es).got) (read_exact idx es).rest
                  r.3
                  (ap (λ g. length (refill idx h g)) r.0
                    ∙ length-refill h (bytes_of es) idx len (omega arith) fit)
                  (fewer fuel idx (bytes_of es) (bytes_of (read_exact idx es).rest) e fit lt
                    r.1)) in
            rw (e, r.2 ∙ ap (λ b. if b then done else stopped) fits, sync) step
        | inr short ↦
            let few = length-skip_short h (bytes_of es) len (ground arith) in
            rw (e, r.2 ∙ ap (λ b. if b then done else stopped) short, sync)
              (ground (arith, few), λ d. absurd (stopped_not_done d), r.3)
      ]
]
