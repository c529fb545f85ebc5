-- ===== src/Driver/Gga/Parts.antt =====
-- The sentence of `buildNmeaGgaSentence` of
-- ublox_driver/src/gnss_communication_wrapper/ublox_driver.cpp as texts and commas.
use gnss_parser.Prelude.{
  ℕ, ◌/◌, ◌%◌, ◌≡◌, refl, true, false, List, [], ◌∷◌, ltb, if◌then◌else◌, All, map,
}
use gnss_parser.Prelude.Int.{◌-ℤ◌}
use gnss_parser.Prelude.Text.{codes, joined}
use gnss_parser.Processor.Solutions.{PvtSolution}
use gnss_parser.Driver.Gga.{
  get_nmea_fix_quality, digits, print, format_nmea_degrees, signed_metres, hemisphere, gga_body,
  gga_fields, utc_epoch, millis,
}
use gnss_parser.Driver.Gga.Fields.{
  Part, text, comma, part_bytes, IsGood, digits-field, print-field, metres-field, degrees-field,
  hemisphere-field,
}

-- The parts of the sentence.
module _ (tenths : ℕ → ℕ) (pvt : PvtSolution) where
  abbrev pub dop : ℕ
  dop = if ltb 0 pvt.p_dop then tenths pvt.p_dop else 0

  abbrev pub ms : ℕ
  ms = millis (utc_epoch pvt).sec

  abbrev pub parts : List Part
  parts =
      text (codes "GPGGA")
      ∷ comma
      ∷ text (print 2 (utc_epoch pvt).hour)
      ∷ text (print 2 (utc_epoch pvt).minute)
      ∷ text (print 2 (ms / 1000))
      ∷ text (codes ".")
      ∷ text (digits 3 (ms % 1000))
      ∷ comma
      ∷ text (format_nmea_degrees pvt.lat true)
      ∷ comma
      ∷ text (hemisphere pvt.lat (codes "N") (codes "S"))
      ∷ comma
      ∷ text (format_nmea_degrees pvt.lon false)
      ∷ comma
      ∷ text (hemisphere pvt.lon (codes "E") (codes "W"))
      ∷ comma
      ∷ text (print 1 (get_nmea_fix_quality pvt))
      ∷ comma
      ∷ text (print 2 pvt.num_sv)
      ∷ comma
      ∷ text (print 1 (dop / 10))
      ∷ text (codes ".")
      ∷ text (digits 1 dop)
      ∷ comma
      ∷ text (signed_metres pvt.hgt_msl)
      ∷ comma
      ∷ text (codes "M")
      ∷ comma
      ∷ text (signed_metres (pvt.hgt -ℤ pvt.hgt_msl))
      ∷ comma
      ∷ text (codes "M")
      ∷ comma
      ∷ comma
      ∷ []

  pub gga_body-parts : gga_body tenths pvt ≡ joined (map part_bytes parts)
  unfolding gga_fields
  gga_body-parts = refl

  pub parts-IsGood : All IsGood parts
  parts-IsGood = (
    refl,
    (
      tt,
      (
        print-field 2 (utc_epoch pvt).hour,
        (
          print-field 2 (utc_epoch pvt).minute,
          (
            print-field 2 (ms / 1000),
            (
              refl,
              (
                digits-field 3 (ms % 1000),
                (
                  tt,
                  (
                    degrees-field pvt.lat true,
                    (
                      tt,
                      (
                        hemisphere-field pvt.lat (codes "N") (codes "S") refl refl,
                        (
                          tt,
                          (
                            degrees-field pvt.lon false,
                            (
                              tt,
                              (
                                hemisphere-field pvt.lon (codes "E") (codes "W") refl refl,
                                (
                                  tt,
                                  (
                                    print-field 1 (get_nmea_fix_quality pvt),
                                    (
                                      tt,
                                      (
                                        print-field 2 pvt.num_sv,
                                        (
                                          tt,
                                          (
                                            print-field 1 (dop / 10),
                                            (
                                              refl,
                                              (
                                                digits-field 1 dop,
                                                (
                                                  tt,
                                                  (
                                                    metres-field pvt.hgt_msl,
                                                    (
                                                      tt,
                                                      (
                                                        refl,
                                                        (
                                                          tt,
                                                          (
                                                            metres-field (pvt.hgt -ℤ pvt.hgt_msl),
                                                            (tt, (refl, (tt, (tt, tt)))),
                                                          ),
                                                        ),
                                                      ),
                                                    ),
                                                  ),
                                                ),
                                              ),
                                            ),
                                          ),
                                        ),
                                      ),
                                    ),
                                  ),
                                ),
                              ),
                            ),
                          ),
                        ),
                      ),
                    ),
                  ),
                ),
              ),
            ),
          ),
        ),
      ),
    ),
  )
