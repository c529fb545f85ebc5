-- ===== src/Driver/Gga/Receiver.antt =====
-- A receiver of GGA sentences, by NMEA 0183 and without the code: what a caster reads of the sentences
-- that ublox_driver/src/gnss_communication_wrapper/ublox_driver.cpp sends.
use gnss_parser.Prelude.{
  ℕ, ◌+◌, ◌-◌, ◌*◌, Bool, true, false, not, ◌&&◌, List, [], ◌∷◌, ltb, leb, ◌==◌, if◌then◌else◌,
  Option, none, some, bit_xor,
}
use gnss_parser.Prelude.Throws.{◌>>=◌, throw_if}
use gnss_parser.Prelude.Text.{Bytes, codes, bytes_eq}
use gnss_parser.Driver.Gga.Degrees.{read_angle, number}

-- A byte that may stand between `$` and `*`: a printable one but these two.
abbrev pub is_plain : ℕ → Bool
is_plain b = leb 32 b && (ltb b 127 && (not (b == 36) && not (b == 42)))

abbrev hex_value : ℕ → ℕ
hex_value c = if leb 65 c then c - 55 else c - 48

-- Two hexadecimal digits of the exclusive or, and the end of the line.
abbrev pub ends : Bytes → ℕ → Bool
ends [] checksum = false
ends (h ∷ []) checksum = false
ends (h ∷ l ∷ []) checksum = false
ends (h ∷ l ∷ r ∷ []) checksum = false
ends (h ∷ l ∷ r ∷ n ∷ []) checksum =
    hex_value h * 16 + hex_value l == checksum && (r == 13 && n == 10)
ends (h ∷ l ∷ r ∷ n ∷ x ∷ xs) checksum = false

abbrev pub prepend : ℕ → Option Bytes → Option Bytes
prepend c none = none
prepend c (some cs) = some (c ∷ cs)

-- The bytes before the first `*`, where the checksum behind it is theirs.
unfoldable pub scan : Bytes → ℕ → Option Bytes
scan [] checksum = none
scan (c ∷ cs) checksum =
    let rest = scan cs (bit_xor checksum c) in
    if c == 42
    then (if ends cs checksum then some [] else none)
    else if is_plain c
    then prepend c rest
    else none

abbrev pub sentence_of : Bytes → Option Bytes
sentence_of [] = none
sentence_of (c ∷ cs) = if c == 36 then scan cs 0 else none

abbrev pub first_with : ℕ → List Bytes → List Bytes
first_with c [] = (c ∷ []) ∷ []
first_with c (f ∷ fs) = (c ∷ f) ∷ fs

-- The fields between the commas.
unfoldable pub split : Bytes → List Bytes
split [] = [] ∷ []
split (c ∷ cs) = let fields = split cs in if c == 44 then [] ∷ fields else first_with c fields

-- Angles in 1e-5 minutes.
pub record Fix : Type 0 where
  pub latitude : ℕ
  pub north : Bool
  pub longitude : ℕ
  pub east : Bool
  pub quality : ℕ
  pub satellites : ℕ

unfoldable pub letter : Bytes → Bytes → Bytes → Option Bool
letter one two field =
    if bytes_eq field one then some true else if bytes_eq field two then some false else none

-- The fifteen fields of a GGA sentence, with heights in metres. The time, the dilution of precision
-- and the heights are not read.
abbrev pub read_fields : List Bytes → Option Fix
read_fields
      (name ∷ utc ∷ lat ∷ ns ∷ lon ∷ ew ∷ quality ∷ satellites ∷ hdop ∷ height ∷ unit ∷ separation
        ∷ unit_2 ∷ age ∷ station ∷ []) =
    do
      _ ← throw_if (not (bytes_eq name (codes "GPGGA")))
      _ ← throw_if (not (bytes_eq unit (codes "M") && bytes_eq unit_2 (codes "M")))
      north ← letter (codes "N") (codes "S") ns
      east ← letter (codes "E") (codes "W") ew
      some (record {
        latitude = read_angle true lat;
        north = north;
        longitude = read_angle false lon;
        east = east;
        quality = number quality 0;
        satellites = number satellites 0;
      })
read_fields _ = none

abbrev pub receive : Bytes → Option Fix
receive text = sentence_of text >>= λ (body : Bytes). read_fields (split body)
