-- ===== src/Driver/Gga/Degrees.antt =====
-- `FormatNmeaDegrees` of ublox_driver/src/gnss_communication_wrapper/ublox_driver.cpp, read back.
use gnss_parser.Prelude.{
  ℕ, zero, suc, ◌+◌, ◌-◌, ◌*◌, ◌/◌, ◌%◌, ◌^◌, ◌<◌, ◌≡◌, refl, Bool, true, false, [], ◌∷◌, ◌++◌, ltb,
  if◌then◌else◌, arith, length, length-append, ap, ◌∙◌,
}
use gnss_parser.Prelude.Int.{ℤ}
use gnss_parser.Prelude.Text.{Bytes}
use gnss_parser.Driver.Gga.{digits, print, magnitude, minutes_of, format_nmea_degrees}

-- The number that decimal digits mean.
abbrev pub number : Bytes → ℕ → ℕ
number [] v = v
number (c ∷ cs) v = number cs (v * 10 + (c - 48))

-- A reader of `ddmm.mmmmm`, in 1e-5 minutes; any other form is 0.
abbrev read_latitude : Bytes → ℕ
read_latitude (a ∷ b ∷ c ∷ d ∷ dot ∷ frac) =
    number (a ∷ b ∷ []) 0 * 6000000 + number (c ∷ d ∷ []) 0 * 100000 + number frac 0
read_latitude text = 0

-- A reader of `dddmm.mmmmm`
abbrev read_longitude : Bytes → ℕ
read_longitude (z ∷ a ∷ b ∷ c ∷ d ∷ dot ∷ frac) =
    number (z ∷ a ∷ b ∷ []) 0 * 6000000 + number (c ∷ d ∷ []) 0 * 100000 + number frac 0
read_longitude text = 0

pub print-digits : (w n : ℕ) → ltb n (10 ^ w) ≡ true → print w n ≡ digits w n
unfolding print
print-digits w n e = rw e refl

pub number_2 : (n : ℕ) → n < 100 → number (digits 2 n) 0 ≡ n
unfolding digits
number_2 n lt = omega arith

number_3 : (n : ℕ) → n < 1000 → number (digits 3 n) 0 ≡ n
unfolding digits
number_3 n lt = omega arith

number_5 : (n : ℕ) → n < 100000 → number (digits 5 n) 0 ≡ n
unfolding digits
number_5 n lt = omega arith

sum_3 :
    {a b c x y z : ℕ}
    → a ≡ x
    → b ≡ y
    → c ≡ z
    → a * 6000000 + b * 100000 + c ≡ x * 6000000 + y * 100000 + z
sum_3 ea eb ec = rw (ea, eb, ec) refl

read_latitude-digits :
    (d m f : ℕ)
    → d < 100
    → m < 100
    → f < 100000
    → read_latitude (digits 2 d ++ (digits 2 m ++ (46 ∷ digits 5 f))) ≡ d * 6000000 + m * 100000 + f
unfolding digits
read_latitude-digits d m f hd hm hf = sum_3 (number_2 d hd) (number_2 m hm) (number_5 f hf)

read_longitude-digits :
    (d m f : ℕ)
    → d < 1000
    → m < 100
    → f < 100000
    → read_longitude (digits 3 d ++ (digits 2 m ++ (46 ∷ digits 5 f)))
      ≡ d * 6000000 + m * 100000 + f
unfolding digits
read_longitude-digits d m f hd hm hf = sum_3 (number_3 d hd) (number_2 m hm) (number_5 f hf)

length-digits : (w n : ℕ) → length (digits w n) ≡ w
unfolding digits
length-digits zero n = refl
length-digits (suc w) n =
    omega (arith, length-append (digits w (n / 10)) ((n % 10 + 48) ∷ []), length-digits w (n / 10))

length-text : (w d m f : ℕ) → length (digits w d ++ (digits 2 m ++ (46 ∷ digits 5 f))) ≡ w + 8
length-text w d m f = omega (
  arith,
  length-append (digits w d) (digits 2 m ++ (46 ∷ digits 5 f)),
  length-append (digits 2 m) (46 ∷ digits 5 f),
  length-digits w d,
  length-digits 2 m,
  length-digits 5 f,
)

-- The minutes of an angle, rounded, stay below 60.
minutes-lt : (u : ℕ) → minutes_of u < 6000000
minutes-lt u = omega arith

whole_lem :
    (u : ℕ)
    → let m = minutes_of u in
      u / 10000000 * 6000000 + m / 100000 * 100000 + m % 100000 ≡ (u * 6 + 5) / 10
whole_lem u = omega arith

format-digits :
    (w u : ℕ) (is_latitude : Bool)
    → (if is_latitude then 2 else 3) ≡ w
    → ltb (u / 10000000) (10 ^ w) ≡ true
    → let m = minutes_of u in
      print (if is_latitude then 2 else 3) (u / 10000000)
        ++ (print 2 (m / 100000) ++ (46 ∷ digits 5 (m % 100000)))
      ≡ digits w (u / 10000000) ++ (digits 2 (m / 100000) ++ (46 ∷ digits 5 (m % 100000)))
format-digits w u is_latitude width fits =
    let lt = minutes-lt u in
    let m = minutes_of u in
    rw (width, print-digits w (u / 10000000) fits, print-digits 2 (m / 100000) (ground (arith, lt)))
      refl

-- A reader of either.
abbrev pub read_angle : Bool → Bytes → ℕ
read_angle true = read_latitude
read_angle false = read_longitude

pub read_angle-format_nmea_degrees :
    (value : ℤ) (is_latitude : Bool)
    → magnitude value < (if is_latitude then 1000000000 else 10000000000)
    → let u = magnitude value in
      (read_angle is_latitude (format_nmea_degrees value is_latitude) ≡ (u * 6 + 5) / 10)
      × (length (format_nmea_degrees value is_latitude) ≡ (if is_latitude then 10 else 11))
      × (minutes_of u < 6000000)
unfolding format_nmea_degrees
read_angle-format_nmea_degrees value true lt =
    let u = magnitude value in
    let m = minutes_of u in
    let small = minutes-lt u in
    let e = format-digits 2 u true refl (ground arith) in
    (
      ap read_latitude e
          ∙ read_latitude-digits (u / 10000000) (m / 100000) (m % 100000) (omega arith)
              (omega arith) (omega arith)
          ∙ whole_lem u,
      ap length e ∙ length-text 2 (u / 10000000) (m / 100000) (m % 100000),
      small,
    )
read_angle-format_nmea_degrees value false lt =
    let u = magnitude value in
    let m = minutes_of u in
    let small = minutes-lt u in
    let e = format-digits 3 u false refl (ground arith) in
    (
      ap read_longitude e
          ∙ read_longitude-digits (u / 10000000) (m / 100000) (m % 100000) (omega arith)
              (omega arith) (omega arith)
          ∙ whole_lem u,
      ap length e ∙ length-text 3 (u / 10000000) (m / 100000) (m % 100000),
      small,
    )
