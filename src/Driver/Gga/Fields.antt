-- ===== src/Driver/Gga/Fields.antt =====
-- Texts as fields between commas, and the bytes of the fields of `buildNmeaGgaSentence` of
-- ublox_driver/src/gnss_communication_wrapper/ublox_driver.cpp.
use gnss_parser.Prelude.{
  ℕ, zero, suc, ◌+◌, ◌/◌, ◌%◌, ◌^◌, ◌≡◌, refl, ap, sym, ◌∙◌, Bool, true, false, not, ◌&&◌, List, [],
  ◌∷◌, ◌++◌, ltb, ◌==◌, if◌then◌else◌, arith, if_both, All, map,
}
use gnss_parser.Prelude.Int.{ℤ, pos, negsuc}
use gnss_parser.Prelude.Text.{Bytes, joined}
use gnss_parser.Driver.Gga.{
  digits, count_digits, print, format_nmea_degrees, minutes_of, magnitude, signed_metres,
  hemisphere,
}
use gnss_parser.Driver.Gga.Receiver.{is_plain, first_with, split}

-- A text with no comma, or a comma.
pub data Part : Type 0 where
  text : Bytes → Part
  comma : Part

abbrev pub part_bytes : Part → Bytes
part_bytes (text p) = p
part_bytes comma = 44 ∷ []

-- The fields that parts make.
abbrev first_after : Bytes → List Bytes → List Bytes
first_after p [] = p ∷ []
first_after p (f ∷ fs) = (p ++ f) ∷ fs

abbrev pub fields_of : List Part → List Bytes
fields_of [] = [] ∷ []
fields_of (text p ∷ ps) = first_after p (fields_of ps)
fields_of (comma ∷ ps) = [] ∷ fields_of ps

-- A byte of a field.
abbrev is_field : ℕ → Bool
is_field b = is_plain b && not (b == 44)

abbrev pub all_field : Bytes → Bool
all_field [] = true
all_field (b ∷ bs) = is_field b && all_field bs

abbrev pub all_plain : Bytes → Bool
all_plain [] = true
all_plain (b ∷ bs) = is_plain b && all_plain bs

abbrev pub IsGood : Part → Type 0
IsGood (text p) = all_field p ≡ true
IsGood comma = Unit

all_plain-append :
    (xs ys : Bytes) → all_field xs ≡ true → all_plain ys ≡ true → all_plain (xs ++ ys) ≡ true
all_plain-append [] ys hx hy = hy
all_plain-append (x ∷ xs) ys hx hy = let rest = all_plain-append xs ys in ground (arith, hx, hy)

pub all_plain-joined :
    (ps : List Part) → All IsGood ps → all_plain (joined (map part_bytes ps)) ≡ true
all_plain-joined [] h = refl
all_plain-joined (text p ∷ ps) h =
    all_plain-append p (joined (map part_bytes ps)) h.0 (all_plain-joined ps h.1)
all_plain-joined (comma ∷ ps) h = all_plain-joined ps h.1

first_after-cons :
    (c : ℕ) (p : Bytes) (fs : List Bytes) → first_with c (first_after p fs) ≡ first_after (c ∷ p) fs
first_after-cons c p [] = refl
first_after-cons c p (f ∷ fs) = refl

nil_if :
    (b : Bool) (c : ℕ) (fs : List Bytes)
    → first_after [] (if b then [] ∷ fs else first_with c fs)
      ≡ (if b then [] ∷ fs else first_with c fs)
nil_if true c fs = refl
nil_if false c [] = refl
nil_if false c (f ∷ fs) = refl

first_after-nil : (q : Bytes) → first_after [] (split q) ≡ split q
unfolding split
first_after-nil [] = refl
first_after-nil (c ∷ cs) = nil_if (c == 44) c (split cs)

split-append : (p q : Bytes) → all_field p ≡ true → split (p ++ q) ≡ first_after p (split q)
unfolding split
split-append [] q h = sym (first_after-nil q)
split-append (c ∷ p) q h =
    let other : (c == 44) ≡ false = ground arith in
    rw other (ap (first_with c) (split-append p q (ground arith)) ∙ first_after-cons c p (split q))

-- A text is split into the fields of its parts.
pub split-joined :
    (ps : List Part) → All IsGood ps → split (joined (map part_bytes ps)) ≡ fields_of ps
unfolding split
split-joined [] h = refl
split-joined (text p ∷ ps) h =
    split-append p (joined (map part_bytes ps)) h.0 ∙ ap (first_after p) (split-joined ps h.1)
split-joined (comma ∷ ps) h = ap (◌∷◌ []) (split-joined ps h.1)

pub all_field-append :
    (xs ys : Bytes) → all_field xs ≡ true → all_field ys ≡ true → all_field (xs ++ ys) ≡ true
all_field-append [] ys hx hy = hy
all_field-append (x ∷ xs) ys hx hy = let rest = all_field-append xs ys in ground (arith, hx, hy)

pub digits-field : (w n : ℕ) → all_field (digits w n) ≡ true
unfolding digits
digits-field zero n = refl
digits-field (suc w) n =
    all_field-append (digits w (n / 10)) ((n % 10 + 48) ∷ []) (digits-field w (n / 10))
      (ground arith)

pub print-field : (w n : ℕ) → all_field (print w n) ≡ true
unfolding print
print-field w n =
    if_both (λ t. all_field t ≡ true) (ltb n (10 ^ w)) (digits w n) (digits (count_digits 20 n) n)
      (digits-field w n) (digits-field (count_digits 20 n) n)

pub metres-field : (v : ℤ) → all_field (signed_metres v) ≡ true
metres-field (pos n) =
    all_field-append (print 1 (n / 1000)) (46 ∷ digits 3 (n % 1000)) (print-field 1 (n / 1000))
      (digits-field 3 (n % 1000))
metres-field (negsuc n) =
    all_field-append (print 1 (suc n / 1000)) (46 ∷ digits 3 (suc n % 1000))
      (print-field 1 (suc n / 1000)) (digits-field 3 (suc n % 1000))

pub degrees-field : (v : ℤ) (b : Bool) → all_field (format_nmea_degrees v b) ≡ true
unfolding format_nmea_degrees
degrees-field v b =
    let m = minutes_of (magnitude v) in
    all_field-append (print (if b then 2 else 3) (magnitude v / 10000000))
      (print 2 (m / 100000) ++ (46 ∷ digits 5 (m % 100000)))
      (print-field (if b then 2 else 3) (magnitude v / 10000000))
      (all_field-append (print 2 (m / 100000)) (46 ∷ digits 5 (m % 100000))
        (print-field 2 (m / 100000)) (digits-field 5 (m % 100000)))

pub hemisphere-field :
    (v : ℤ) (p n : Bytes)
    → all_field p ≡ true
    → all_field n ≡ true
    → all_field (hemisphere v p n) ≡ true
hemisphere-field (pos v) p n hp hn = hp
hemisphere-field (negsuc v) p n hp hn = hn
