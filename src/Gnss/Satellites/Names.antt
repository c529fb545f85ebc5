-- ===== src/Gnss/Satellites/Names.antt =====
-- The RINEX names of satellites: `sat2str` and `str2sat` of gnss_comm/src/gnss_utility.cpp.
use gnss_parser.Prelude.{
  ℕ, ◌+◌, ◌/◌, ◌%◌, ◌^◌, ◌≤◌, ◌≡◌, refl, ap, Bool, true, false, [], ◌∷◌, ltb, ◌==◌, if◌then◌else◌,
  Option, none, some, length, take, arith, all_below, all_below_sound,
}
use gnss_parser.Prelude.Throws.{◌>>=◌}
use gnss_parser.Prelude.Text.{Bytes}
use gnss_parser.Config.{stoull, number, digits}
use gnss_parser.Gnss.Satellites.{
  sat_no, satsys, satsys_glo, satsys_gal, satsys_bds, max_sat, sys_gps, sys_glo, sys_bds, sys_gal,
  sys_sbs, sys_qzs,
}

-- The letter of a system, or nothing.
abbrev letter_of : ℕ → Bytes
letter_of sys =
    if sys == sys_gps
    then 71 ∷ []
    else if sys == sys_glo
    then 82 ∷ []
    else if sys == sys_bds
    then 67 ∷ []
    else if sys == sys_gal
    then 69 ∷ []
    else if sys == sys_sbs
    then 83 ∷ []
    else if sys == sys_qzs
    then 74 ∷ []
    else []

-- The PRN with a width of two; none that `satsys` gives has three digits.
abbrev with_prn : ℕ → Bytes → Bytes
with_prn prn [] = []
with_prn prn (c ∷ cs) = c ∷ (prn / 10 + 48) ∷ (prn % 10 + 48) ∷ []

unfoldable pub sat2str : ℕ → Bytes
sat2str sat = with_prn (satsys sat).prn (letter_of (satsys sat).sys)

abbrev by_letter : ℕ → ℕ → ℕ
by_letter c prn =
    if c == 71
    then sat_no sys_gps prn
    else if c == 82
    then sat_no sys_glo prn
    else if c == 67
    then sat_no sys_bds prn
    else if c == 69
    then sat_no sys_gal prn
    else if c == 83
    then sat_no sys_sbs prn
    else if c == 74
    then sat_no sys_qzs prn
    else 0

-- Nothing where `std::stoul` throws; the PRN is a `uint32_t`.
unfoldable pub str2sat : Bytes → Option ℕ
str2sat [] = some 0
str2sat (c ∷ cs) =
    if ltb (length cs) 2
    then some 0
    else (stoull (take 2 cs) >>= λ (prn : ℕ). some (by_letter c (prn % 2 ^ 32)))

abbrev is_value : ℕ → Option ℕ → Bool
is_value v none = false
is_value v (some w) = w == v

abbrev is_read : ℕ → Bool
is_read sat = is_value sat (str2sat (sat2str sat))

read_table : all_below (max_sat + 1) is_read ≡ true
unfolding all_below str2sat sat2str satsys satsys_glo satsys_gal satsys_bds sat_no stoull number
    digits
read_table = refl

is_value_lem : (v : ℕ) (o : Option ℕ) → is_value v o ≡ true → o ≡ some v
is_value_lem v none e = absurd (ground (arith, e))
is_value_lem v (some w) e = ap some (ground (arith, e))

-- The name of every satellite, of the four systems together, is read back as its number, and the
-- empty name of 0, which is no satellite, as 0.
pub str2sat-sat2str : (sat : ℕ) → sat ≤ max_sat → str2sat (sat2str sat) ≡ some sat
str2sat-sat2str sat le =
    is_value_lem sat (str2sat (sat2str sat))
      (all_below_sound (max_sat + 1) is_read sat read_table (omega arith))
