-- ===== src/Gnss/Time/Leaps.antt =====
-- Leap seconds: the way from UTC to GPS time and back.
use gnss_parser.Prelude.{
  ℕ, ◌*◌, ◌≤◌, ◌<◌, ◌≡◌, refl, sym, ap, ◌∙◌, List, [], ◌∷◌, Bool-cases, inl, inr, true, false,
  arith,
}
use gnss_parser.Prelude.Int.{ℤ, pos, ◌+ℤ◌, ◌-ℤ◌, less_ℤ, difference}
use gnss_parser.Gnss.Time.{
  second, Gtime, Epoch, epoch2time, days_and_two, time_add, time_diff, Leap, leaps, is_before,
  to_utc, to_gpst, gpst2utc, utc2gpst,
}

-- The rest is less than a second.
abbrev pub at_time : ℤ → ℕ → Gtime
at_time t s = record { time = t; sec = pos s }

time_add-ahead :
    (t : ℤ) (s n : ℕ)
    → s < second
    → time_add (at_time t s) (pos (n * second)) ≡ at_time (t +ℤ pos n) s
unfolding time_add
time_add-ahead t s n h = ground arith

time_add-back :
    (t : ℤ) (s n : ℕ)
    → s < second
    → time_add (at_time t s) (difference 0 (n * second)) ≡ at_time (t -ℤ pos n) s
unfolding time_add
time_add-back t s n h = ground arith

back_again : (t : ℤ) (n : ℕ) → (t +ℤ pos n) -ℤ pos n ≡ t
back_again t n = ground arith

-- A midnight has no rest.
IsMidnight : Epoch → Type 0
IsMidnight ep = (epoch2time ep).sec ≡ pos 0

is_before-lt :
    (t : ℤ) (s : ℕ) (ep : Epoch)
    → s < second
    → IsMidnight ep
    → is_before (at_time t s) ep ≡ less_ℤ t (epoch2time ep).time
unfolding IsMidnight time_diff
is_before-lt t s ep h m = rw m (ground arith)

-- Rows that begin at midnight and are ahead by at most `n`, with the largest first.
abbrev IsTable : ℕ → List Leap → Type 0
IsTable n [] = Unit
IsTable n (l ∷ ls) = (l.ahead ≤ n) × IsMidnight l.from × IsTable l.ahead ls

-- UTC is at most as far behind GPS time as the first row says.
gained :
    (n : ℕ) (ls : List Leap) (u : ℤ) (s : ℕ)
    → s < second
    → IsTable n ls
    → (k : ℕ) × (k ≤ n) × (to_gpst ls (at_time u s) ≡ at_time (u +ℤ pos k) s)
unfolding to_gpst
gained n [] u s h t = (0, omega arith, ground arith)
gained n (l ∷ ls) u s h t = elim (Bool-cases (is_before (at_time u s) l.from)) [
  | inl e ↦ let (k, le, eq) = gained l.ahead ls u s h t.2 in (k, omega arith, rw e eq)
  | inr e ↦ (l.ahead, t.0, rw e (time_add-ahead u s l.ahead h))
]

still_before :
    (u f : ℤ) (k n : ℕ) → k ≤ n → less_ℤ u f ≡ true → less_ℤ ((u +ℤ pos k) -ℤ pos n) f ≡ true
still_before u f k n le e = ground arith

module _ (l : Leap) (ls : List Leap) (t : Gtime) where
  gpst_older : is_before t l.from ≡ true → to_gpst (l ∷ ls) t ≡ to_gpst ls t
  unfolding to_gpst
  gpst_older e = rw e refl

  gpst_here : is_before t l.from ≡ false → to_gpst (l ∷ ls) t ≡ time_add t (pos (l.ahead * second))
  unfolding to_gpst
  gpst_here e = rw e refl

  utc_older :
      is_before (time_add t (difference 0 (l.ahead * second))) l.from ≡ true
      → to_utc (l ∷ ls) t ≡ to_utc ls t
  unfolding to_utc
  utc_older e = rw e refl

  utc_here :
      is_before (time_add t (difference 0 (l.ahead * second))) l.from ≡ false
      → to_utc (l ∷ ls) t ≡ time_add t (difference 0 (l.ahead * second))
  unfolding to_utc
  utc_here e = rw e refl

to_utc-to_gpst :
    (n : ℕ) (ls : List Leap) (u : ℤ) (s : ℕ)
    → s < second
    → IsTable n ls
    → to_utc ls (to_gpst ls (at_time u s)) ≡ at_time u s
unfolding to_utc to_gpst
to_utc-to_gpst n [] u s h t = refl
to_utc-to_gpst n (l ∷ ls) u s h t = elim (Bool-cases (is_before (at_time u s) l.from)) [
  | inl e ↦
      let g = gained l.ahead ls u s h t.2 in
      let gps = to_gpst ls (at_time u s) in
      let back =
        ap (λ x. time_add x (difference 0 (l.ahead * second))) g.2
        ∙ time_add-back (u +ℤ pos g.0) s l.ahead h in
      let late =
        ap (λ x. is_before x l.from) back
        ∙ is_before-lt ((u +ℤ pos g.0) -ℤ pos l.ahead) s l.from h t.1
        ∙ still_before u (epoch2time l.from).time g.0 l.ahead g.1
            (sym (is_before-lt u s l.from h t.1) ∙ e) in
      ap (to_utc (l ∷ ls)) (gpst_older l ls (at_time u s) e)
      ∙ utc_older l ls gps late
      ∙ to_utc-to_gpst l.ahead ls u s h t.2
  | inr e ↦
      let gps = time_add (at_time u s) (pos (l.ahead * second)) in
      let back =
        ap (λ x. time_add x (difference 0 (l.ahead * second))) (time_add-ahead u s l.ahead h)
        ∙ time_add-back (u +ℤ pos l.ahead) s l.ahead h
        ∙ ap (λ x. at_time x s) (back_again u l.ahead) in
      ap (to_utc (l ∷ ls)) (gpst_here l ls (at_time u s) e)
      ∙ utc_here l ls gps (ap (λ x. is_before x l.from) back ∙ e)
      ∙ back
]

leaps-IsTable : IsTable 18 leaps
unfolding IsMidnight epoch2time days_and_two
leaps-IsTable = ground arith

-- From UTC to GPS time and back is no change, at every time, also in and around a leap second.
pub gpst2utc-utc2gpst :
    (t : ℤ) (s : ℕ) → s < second → gpst2utc (utc2gpst (at_time t s)) ≡ at_time t s
unfolding gpst2utc utc2gpst
gpst2utc-utc2gpst t s h = to_utc-to_gpst 18 leaps t s h leaps-IsTable
