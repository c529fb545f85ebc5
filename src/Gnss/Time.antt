-- ===== src/Gnss/Time.antt =====
-- Time systems: the calendar, the weeks of GPS, Galileo and BeiDou time and the leap seconds of
-- gnss_comm/src/gnss_utility.cpp.
-- A `double` number of seconds is a number of ticks of 2^-32 ms, without the rounding of `double`.
pub mod Weeks
pub mod Calendar
pub mod Leaps
pub mod Seconds
use gnss_parser.Prelude.{
  ℕ, zero, suc, ◌+◌, ◌-◌, ◌*◌, ◌/◌, ◌%◌, ◌^◌, Bool, ◌||◌, ◌&&◌, List, [], ◌∷◌, ltb, leb, ◌==◌,
  if◌then◌else◌, get_or,
}
use gnss_parser.Prelude.Int.{ℤ, pos, negsuc, ◌+ℤ◌, ◌-ℤ◌, less_ℤ, difference, word, above, below}

abbrev pub second : ℕ
second = 1000 * 2 ^ 32

-- `gtime_t`: whole seconds since 1970 and a rest in ticks.
pub record Gtime : Type 0 where
  pub time : ℤ
  pub sec : ℤ

-- `(int) tow`, which cuts towards 0, and `floor`
abbrev negated : ℕ → ℤ
negated n = difference 0 n

abbrev pub truncate : ℤ → ℤ
truncate (pos n) = pos (n / second)
truncate (negsuc n) = negated (suc n / second)

abbrev pub floor : ℤ → ℤ
floor (pos n) = pos (n / second)
floor (negsuc n) = negsuc (n / second)

abbrev pub in_ticks : ℤ → ℤ
in_ticks (pos n) = pos (n * second)
in_ticks (negsuc n) = difference 0 (suc n * second)

-- `ep[6]`; the seconds are ticks.
pub record Epoch : Type 0 where
  pub year : ℕ
  pub month : ℕ
  pub day : ℕ
  pub hour : ℕ
  pub minute : ℕ
  pub sec : ℕ

abbrev pub day_of_year : List ℕ
day_of_year = 1 ∷ 32 ∷ 60 ∷ 91 ∷ 121 ∷ 152 ∷ 182 ∷ 213 ∷ 244 ∷ 274 ∷ 305 ∷ 335 ∷ []

-- The days since 1970-01-01, and two more.
unfoldable pub days_and_two : ℕ → ℕ → ℕ → ℕ
days_and_two year month day =
    (year - 1970) * 365
    + (year - 1969) / 4
    + get_or day_of_year (month - 1) 0
    + day
    + (if year % 4 == 0 && leb 3 month then 1 else 0)

unfoldable pub epoch2time : Epoch → Gtime
epoch2time ep =
    if ltb ep.year 1970 || ltb 2099 ep.year || ltb ep.month 1 || ltb 12 ep.month
    then record { time = pos 0; sec = pos 0 }
    else record {
      time =
          pos (
            days_and_two ep.year ep.month ep.day * 86400
            + ep.hour * 3600
            + ep.minute * 60
            + ep.sec / second)
          -ℤ pos (2 * 86400);
      sec = pos (ep.sec % second);
    }

-- The days of the months from 1970 to 1973, by which every four years go.
abbrev pub month_days : List ℕ
month_days =
    31 ∷ 28 ∷ 31 ∷ 30 ∷ 31 ∷ 30 ∷ 31 ∷ 31 ∷ 30 ∷ 31 ∷ 30 ∷ 31 ∷ 31 ∷ 28 ∷ 31 ∷ 30 ∷ 31 ∷ 30 ∷ 31
    ∷ 31 ∷ 30 ∷ 31 ∷ 30 ∷ 31 ∷ 31 ∷ 29 ∷ 31 ∷ 30 ∷ 31 ∷ 30 ∷ 31 ∷ 31 ∷ 30 ∷ 31 ∷ 30 ∷ 31 ∷ 31 ∷ 28
    ∷ 31 ∷ 30 ∷ 31 ∷ 30 ∷ 31 ∷ 31 ∷ 30 ∷ 31 ∷ 30 ∷ 31 ∷ []

-- The loop over the months: the month where it stops and the days that are left.
unfoldable pub find_month : List ℕ → ℕ → ℕ → ℕ × ℕ
find_month [] mon day = (mon, day)
find_month (m ∷ ms) mon day =
    let next = find_month ms (mon + 1) (day - m) in if leb m day then next else (mon, day)

-- For a time from 1970 on; the seconds are ticks.
unfoldable pub time2epoch : ℕ → ℕ → Epoch
time2epoch time sec =
    let days = time / 86400 in
    let rest = time - days * 86400 in
    let (mon, day) = find_month month_days 0 (days % 1461) in
    record {
      year = 1970 + days / 1461 * 4 + mon / 12;
      month = mon % 12 + 1;
      day = day + 1;
      hour = rest / 3600;
      minute = rest % 3600 / 60;
      sec = rest % 60 * second + sec;
    }

abbrev midnight : ℕ → ℕ → ℕ → Epoch
midnight y m d = record { year = y; month = m; day = d; hour = 0; minute = 0; sec = 0 }

abbrev pub gpst0 : Epoch
gpst0 = midnight 1980 1 6

abbrev pub gst0 : Epoch
gst0 = midnight 1999 8 22

abbrev pub bdt0 : Epoch
bdt0 = midnight 2006 1 1

abbrev pub week_seconds : ℕ
week_seconds = 86400 * 7

-- `if (tow < -1E9 || tow > 1E9) tow = 0.0`
abbrev pub bounded : ℤ → ℤ
bounded tow =
    if less_ℤ tow (difference 0 (10 ^ 9 * second)) || less_ℤ (pos (10 ^ 9 * second)) tow
    then pos 0
    else tow

-- The week is a `uint32_t`, and so are the product and the sum that are added to `t.time`.
unfoldable pub gpst2time : ℕ → ℤ → Gtime
gpst2time week tow =
    let t = epoch2time gpst0 in
    let whole = truncate (bounded tow) in
    record {
      time = t.time +ℤ pos ((week_seconds * week + word 32 whole) % 2 ^ 32);
      sec = bounded tow -ℤ in_ticks whole;
    }

-- `sec / (86400*7)` cuts towards 0.
abbrev pub weeks_of : ℤ → ℤ
weeks_of (pos n) = pos (n / week_seconds)
weeks_of (negsuc n) = difference 0 (suc n / week_seconds)

-- The time of week in ticks, and the week as a `uint32_t`.
unfoldable pub time2gpst : Gtime → ℤ × ℕ
time2gpst t =
    let sec = t.time -ℤ (epoch2time gpst0).time in
    let w = word 32 (weeks_of sec) in
    (in_ticks (sec -ℤ pos (w * week_seconds % 2 ^ 32)) +ℤ t.sec, w)

abbrev scaled : ℤ → ℕ → ℤ
scaled (pos n) k = pos (n * k)
scaled (negsuc n) k = difference 0 (suc n * k)

-- The week is an `int`.
abbrev pub weeks2time : Epoch → ℤ → ℤ → Gtime
weeks2time epoch week tow =
    let t = epoch2time epoch in
    let whole = truncate (bounded tow) in
    record {
      time = t.time +ℤ (scaled week week_seconds +ℤ whole);
      sec = bounded tow -ℤ in_ticks whole;
    }

abbrev pub time2weeks : Epoch → Gtime → ℤ × ℤ
time2weeks epoch t =
    let sec = t.time -ℤ (epoch2time epoch).time in
    let w = weeks_of sec in (in_ticks (sec -ℤ scaled w week_seconds) +ℤ t.sec, w)

unfoldable pub gst2time : ℤ → ℤ → Gtime
gst2time = weeks2time gst0

unfoldable pub time2gst : Gtime → ℤ × ℤ
time2gst = time2weeks gst0

unfoldable pub bdt2time : ℤ → ℤ → Gtime
bdt2time = weeks2time bdt0

unfoldable pub time2bdt : Gtime → ℤ × ℤ
time2bdt = time2weeks bdt0

unfoldable pub time_diff : Gtime → Gtime → ℤ
time_diff t1 t2 = in_ticks (t1.time -ℤ t2.time) +ℤ t1.sec -ℤ t2.sec

unfoldable pub time_add : Gtime → ℤ → Gtime
time_add t sec =
    let total = t.sec +ℤ sec in
    let tt = floor total in record { time = t.time +ℤ tt; sec = total -ℤ in_ticks tt }

-- A row of `leaps`: the date, and the seconds that GPS time is ahead of UTC from then on.
pub record Leap : Type 0 where
  pub from : Epoch
  pub ahead : ℕ

abbrev since : ℕ → ℕ → ℕ → Leap
since y m n = record { from = midnight y m 1; ahead = n }

abbrev pub leaps : List Leap
leaps =
    since 2017 1 18
    ∷ since 2015 7 17
    ∷ since 2012 7 16
    ∷ since 2009 1 15
    ∷ since 2006 1 14
    ∷ since 1999 1 13
    ∷ since 1997 7 12
    ∷ since 1996 1 11
    ∷ since 1994 7 10
    ∷ since 1993 7 9
    ∷ since 1992 7 8
    ∷ since 1991 1 7
    ∷ since 1990 1 6
    ∷ since 1988 1 5
    ∷ since 1985 7 4
    ∷ since 1983 7 3
    ∷ since 1982 7 2
    ∷ since 1981 7 1
    ∷ []

abbrev pub is_before : Gtime → Epoch → Bool
is_before t ep = less_ℤ (time_diff t (epoch2time ep)) (pos 0)

-- The loops of `gpst2utc` and `utc2gpst` over the rows.
unfoldable pub to_utc : List Leap → Gtime → Gtime
to_utc [] t = t
to_utc (l ∷ ls) t =
    let tu = time_add t (difference 0 (l.ahead * second)) in
    let older = to_utc ls t in if is_before tu l.from then older else tu

unfoldable pub to_gpst : List Leap → Gtime → Gtime
to_gpst [] t = t
to_gpst (l ∷ ls) t =
    let older = to_gpst ls t in
    if is_before t l.from then older else time_add t (pos (l.ahead * second))

unfoldable pub gpst2utc : Gtime → Gtime
gpst2utc = to_utc leaps

unfoldable pub utc2gpst : Gtime → Gtime
utc2gpst = to_gpst leaps
