-- ===== src/Driver/Gga/Sentence.antt =====
-- The sentences of `buildNmeaGgaSentence` of
-- ublox_driver/src/gnss_communication_wrapper/ublox_driver.cpp against a receiver of GGA sentences.
use gnss_parser.Prelude.{
  ℕ, ◌+◌, ◌*◌, ◌/◌, ◌%◌, ◌<◌, ◌≡◌, ◌≢◌, refl, ap, ap₂, ◌∙◌, Bool, true, false, [], ◌∷◌, ◌++◌, ◌==◌,
  if◌then◌else◌, arith, some, map, append-nil,
}
use gnss_parser.Prelude.Throws.{◌>>=◌}
use gnss_parser.Prelude.Int.{ℤ, pos, negsuc, ◌-ℤ◌}
use gnss_parser.Prelude.Text.{Bytes, codes, joined, bytes_eq}
use gnss_parser.Processor.Solutions.{PvtSolution}
use gnss_parser.Driver.Gga.{
  get_nmea_fix_quality, digits, print, format_nmea_degrees, magnitude, append_nmea_checksum,
  signed_metres, hemisphere, utc_epoch, build_nmea_gga_sentence,
}
use gnss_parser.Driver.Gga.Degrees.{
  number, number_2, print-digits, read_angle, read_angle-format_nmea_degrees,
}
use gnss_parser.Driver.Gga.Receiver.{sentence_of, split, Fix, letter, read_fields, receive}
use gnss_parser.Driver.Gga.Fields.{part_bytes, all_plain-joined, split-joined}
use gnss_parser.Driver.Gga.Framing.{sentence_of-append_nmea_checksum}
use gnss_parser.Driver.Gga.Parts.{dop, ms, parts, gga_body-parts, parts-IsGood}

abbrev pub is_positive : ℤ → Bool
is_positive (pos n) = true
is_positive (negsuc n) = false

letter-latitude :
    (v : ℤ)
    → letter (codes "N") (codes "S") (hemisphere v (codes "N") (codes "S") ++ [])
      ≡ some (is_positive v)
unfolding letter bytes_eq
letter-latitude (pos n) = refl
letter-latitude (negsuc n) = refl

letter-longitude :
    (v : ℤ)
    → letter (codes "E") (codes "W") (hemisphere v (codes "E") (codes "W") ++ [])
      ≡ some (is_positive v)
unfolding letter bytes_eq
letter-longitude (pos n) = refl
letter-longitude (negsuc n) = refl

quality-lt : (pvt : PvtSolution) → get_nmea_fix_quality pvt < 10
unfolding get_nmea_fix_quality
quality-lt pvt = ground arith

number_1 : (n : ℕ) → n < 10 → number (print 1 n ++ []) 0 ≡ n
unfolding digits
number_1 n lt =
    ap (λ t. number t 0) (append-nil (print 1 n) ∙ print-digits 1 n (ground arith)) ∙ omega arith

number_count : (n : ℕ) → n < 100 → number (print 2 n ++ []) 0 ≡ n
number_count n lt =
    ap (λ t. number t 0) (append-nil (print 2 n) ∙ print-digits 2 n (ground arith)) ∙ number_2 n lt

read_fields_lem :
    (utc lat ns lon ew quality satellites hdop height separation age station : Bytes) (n e : Bool)
    → letter (codes "N") (codes "S") ns ≡ some n
    → letter (codes "E") (codes "W") ew ≡ some e
    → read_fields (
        codes "GPGGA"
        ∷ utc
        ∷ lat
        ∷ ns
        ∷ lon
        ∷ ew
        ∷ quality
        ∷ satellites
        ∷ hdop
        ∷ height
        ∷ codes "M"
        ∷ separation
        ∷ codes "M"
        ∷ age
        ∷ station
        ∷ [])
      ≡ some (record {
        latitude = read_angle true lat;
        north = n;
        longitude = read_angle false lon;
        east = e;
        quality = number quality 0;
        satellites = number satellites 0;
      })
unfolding bytes_eq
read_fields_lem utc lat ns lon ew quality satellites hdop height separation age station n e hn he =
    rw (hn, he) refl

-- What a receiver should read: the angles to the nearest 1e-5 minutes.
abbrev pub fix_of : PvtSolution → Fix
fix_of pvt = record {
  latitude = (magnitude pvt.lat * 6 + 5) / 10;
  north = is_positive pvt.lat;
  longitude = (magnitude pvt.lon * 6 + 5) / 10;
  east = is_positive pvt.lon;
  quality = get_nmea_fix_quality pvt;
  satellites = pvt.num_sv;
}

angle_lem :
    (v : ℤ) (is_latitude : Bool)
    → magnitude v < (if is_latitude then 1000000000 else 10000000000)
    → read_angle is_latitude (format_nmea_degrees v is_latitude ++ []) ≡ (magnitude v * 6 + 5) / 10
angle_lem v is_latitude lt =
    ap (read_angle is_latitude) (append-nil (format_nmea_degrees v is_latitude))
    ∙ (read_angle-format_nmea_degrees v is_latitude lt).0

-- For a solution with a fix, whose quality is not 0, with a latitude below 100 degrees, a longitude
-- below 1000 degrees and at most 99 satellites, a receiver of GGA sentences takes the text: it starts
-- with `$`, has printable bytes up to its only `*`, the right checksum and the end of the line, and
-- fifteen fields with the unit of both heights. The receiver reads the latitude and the longitude with
-- their hemispheres, to the nearest 1e-5 minutes, the quality and the number of satellites back.
pub receive-build_nmea_gga_sentence :
    (tenths : ℕ → ℕ) (pvt_soln : PvtSolution)
    → get_nmea_fix_quality pvt_soln ≢ 0
    → magnitude pvt_soln.lat < 1000000000
    → magnitude pvt_soln.lon < 10000000000
    → pvt_soln.num_sv < 100
    → receive (build_nmea_gga_sentence tenths pvt_soln) ≡ some (fix_of pvt_soln)
unfolding build_nmea_gga_sentence
receive-build_nmea_gga_sentence tenths pvt fixed lat lon few =
    let nonzero : (get_nmea_fix_quality pvt == 0) ≡ false = ground (arith, fixed) in
    let good = parts-IsGood tenths pvt in
    let tenth = dop tenths pvt in
    let seconds = ms tenths pvt in
    let sentence =
      ap (λ t. sentence_of (append_nmea_checksum t)) (gga_body-parts tenths pvt)
      ∙ sentence_of-append_nmea_checksum (joined (map part_bytes (parts tenths pvt)))
          (all_plain-joined (parts tenths pvt) good) in
    let read =
      read_fields_lem
        (print 2 (utc_epoch pvt).hour
          ++ (print 2 (utc_epoch pvt).minute
              ++ (print 2 (seconds / 1000) ++ (codes "." ++ (digits 3 (seconds % 1000) ++ [])))))
        (format_nmea_degrees pvt.lat true ++ []) (hemisphere pvt.lat (codes "N") (codes "S") ++ [])
        (format_nmea_degrees pvt.lon false ++ []) (hemisphere pvt.lon (codes "E") (codes "W") ++ [])
        (print 1 (get_nmea_fix_quality pvt) ++ []) (print 2 pvt.num_sv ++ [])
        (print 1 (tenth / 10) ++ (codes "." ++ (digits 1 tenth ++ [])))
        (signed_metres pvt.hgt_msl ++ []) (signed_metres (pvt.hgt -ℤ pvt.hgt_msl) ++ []) [] []
        (is_positive pvt.lat) (is_positive pvt.lon) (letter-latitude pvt.lat)
        (letter-longitude pvt.lon) in
    let angles =
      ap₂ (λ (a b : ℕ). record (fix_of pvt) { latitude = a; longitude = b })
        (angle_lem pvt.lat true lat) (angle_lem pvt.lon false lon) in
    rw nonzero (
      ap (λ o. o >>= λ (body : Bytes). read_fields (split body)) sentence
      ∙ ap read_fields (split-joined (parts tenths pvt) good)
      ∙ read
      ∙ ap₂
          (λ (q n : ℕ). some (record {
            latitude = read_angle true (format_nmea_degrees pvt.lat true ++ []);
            north = is_positive pvt.lat;
            longitude = read_angle false (format_nmea_degrees pvt.lon false ++ []);
            east = is_positive pvt.lon;
            quality = q;
            satellites = n;
          }))
          (number_1 (get_nmea_fix_quality pvt) (quality-lt pvt)) (number_count pvt.num_sv few)
      ∙ ap some angles)
