-- ===== src/Gnss/Time/Calendar.antt =====
-- Calendar dates and seconds since 1970.
use gnss_parser.Prelude.{
  ℕ, ◌+◌, ◌-◌, ◌*◌, ◌/◌, ◌%◌, ◌≤◌, ◌<◌, ◌≡◌, refl, ◌∙◌, Bool, ◌&&◌, ltb, ◌==◌, lt→ltb, true, false,
  all_below, all_below_sound, leb, if◌then◌else◌, get_or, arith,
}
use gnss_parser.Prelude.Int.{pos}
use gnss_parser.Gnss.Time.{
  second, day_of_year, Epoch, days_and_two, epoch2time, time2epoch, find_month, month_days,
}

-- The month as one of the 48 of a cycle of four years that begins in 1970.
abbrev pub month_index : ℕ → ℕ → ℕ
month_index year month = (year - 1970) % 4 * 12 + (month - 1)

pub record IsValid (e : Epoch) : Type 0 where
  pub year_in : (1970 ≤ e.year) × (e.year ≤ 2099)
  pub month_in : (1 ≤ e.month) × (e.month ≤ 12)
  pub day_in : (1 ≤ e.day) × (e.day ≤ get_or month_days (month_index e.year e.month) 0)
  pub hour_in : e.hour < 24
  pub minute_in : e.minute < 60
  pub sec_in : e.sec < 60 * second

abbrev start : ℕ → ℕ
start k = days_and_two (1970 + k / 12) (k % 12 + 1) 1 - 2

abbrev same_pair : ℕ × ℕ → ℕ → ℕ → Bool
same_pair (a, b) x y = a == x && b == y

-- Every day of the four years is found in its month.
abbrev found : ℕ → ℕ → Bool
found k d =
    if ltb d (get_or month_days k 0)
    then same_pair (find_month month_days 0 (start k + d)) k d
    else true

table : all_below 48 (λ k. all_below 31 (found k)) ≡ true
unfolding all_below find_month days_and_two
table = refl

same_pair_sound : (p : ℕ × ℕ) (x y : ℕ) → same_pair p x y ≡ true → p ≡ (x, y)
same_pair_sound (a, b) x y e = ground arith

test_holds : (t s : Bool) → t ≡ true → (if t then s else true) ≡ true → s ≡ true
test_holds true s e h = h
test_holds false s e h = absurd (ground arith)

find_month_lem :
    (k d : ℕ)
    → k < 48
    → d < 31
    → d < get_or month_days k 0
    → find_month month_days 0 (start k + d) ≡ (k, d)
find_month_lem k d hk hd h =
    let row = all_below_sound 48 (λ k. all_below 31 (found k)) k table hk in
    let cell = all_below_sound 31 (found k) d row hd in
    same_pair_sound (find_month month_days 0 (start k + d)) k d
      (test_holds (ltb d (get_or month_days k 0)) _ (lt→ltb d (get_or month_days k 0) h) cell)

months : all_below 12 (λ i. leb 1 (get_or day_of_year i 0)) ≡ true
unfolding all_below
months = refl

-- Four years are 1461 days.
days_lem :
    (y m d : ℕ)
    → 1970 ≤ y
    → 1 ≤ m
    → m ≤ 12
    → 1 ≤ d
    → days_and_two y m d ≡ (y - 1970) / 4 * 1461 + (start (month_index y m) + (d - 1)) + 2
unfolding days_and_two
days_lem y m d hy hm hm' hd =
    let k = month_index y m in
    let mon : k % 12 + 1 ≡ m = omega arith in
    let year : k / 12 ≡ (y - 1970) % 4 = omega arith in
    let first =
      all_below_sound 12 (λ i. leb 1 (get_or day_of_year i 0)) (m - 1) months (omega arith) in
    rw (mon, year) (ground (arith, first))

abbrev short : ℕ → Bool
short k = leb (get_or month_days k 0) 31 && leb (start k + get_or month_days k 0) 1461

short_table : all_below 48 short ≡ true
unfolding all_below days_and_two
short_table = refl

days_short : (k d : ℕ) → k < 48 → d < get_or month_days k 0 → (d < 31) × (start k + d < 1461)
days_short k d hk h = let row = all_below_sound 48 short k short_table hk in ground arith

-- `time2epoch` at the second `r` of the day `d` of the month `k` of the cycle `a`.
time2epoch_lem :
    (a k d r s : ℕ)
    → k < 48
    → d < get_or month_days k 0
    → r < 86400
    → time2epoch ((a * 1461 + (start k + d)) * 86400 + r) s ≡ record {
      year = 1970 + a * 4 + k / 12;
      month = k % 12 + 1;
      day = d + 1;
      hour = r / 3600;
      minute = r % 3600 / 60;
      sec = r % 60 * second + s;
    }
unfolding time2epoch
time2epoch_lem a k d r s hk hd hr =
    let n = start k + d in
    let range = days_short k d hk hd in
    let days : ((a * 1461 + n) * 86400 + r) / 86400 ≡ a * 1461 + n = omega arith in
    let rest : (a * 1461 + n) * 86400 + r - (a * 1461 + n) * 86400 ≡ r = omega arith in
    let cycle : (a * 1461 + n) / 1461 ≡ a = omega arith in
    let within : (a * 1461 + n) % 1461 ≡ n = omega arith in
    rw (days, rest, cycle, within, find_month_lem k d hk range.0 hd) refl

epoch_ext :
    {y y' m m' d d' h h' n n' s s' : ℕ}
    → y ≡ y'
    → m ≡ m'
    → d ≡ d'
    → h ≡ h'
    → n ≡ n'
    → s ≡ s'
    → ◌≡◌ {A = Epoch}
        (record { year = y; month = m; day = d; hour = h; minute = n; sec = s })
        (record { year = y'; month = m'; day = d'; hour = h'; minute = n'; sec = s' })
epoch_ext a b c d e f = cc

-- A valid date from 1970 to 2099 is a time from 1970 on, and `time2epoch` gives the date back.
pub time2epoch-epoch2time :
    (e : Epoch)
    → IsValid e
    → (t : ℕ) × (s : ℕ) × (epoch2time e ≡ record { time = pos t; sec = pos s })
      × (time2epoch t s ≡ e)
unfolding epoch2time
time2epoch-epoch2time e v =
    let k = month_index e.year e.month in
    let a = (e.year - 1970) / 4 in
    let r = e.hour * 3600 + e.minute * 60 + e.sec / second in
    let days = days_lem e.year e.month e.day v.year_in.0 v.month_in.0 v.month_in.1 v.day_in.0 in
    let t = (a * 1461 + (start k + (e.day - 1))) * 86400 + r in
    (
      t,
      e.sec % second,
      ground (arith, days),
      time2epoch_lem a k (e.day - 1) r (e.sec % second) (omega arith) (omega arith) (omega arith)
          ∙ epoch_ext (omega arith) (omega arith) (omega arith) (omega arith) (omega arith)
              (omega arith),
    )
