-- ===== src/Driver/Tests.antt =====
-- Runs of the driver manager's parts, and the theorems at concrete inputs.
use gnss_parser.Prelude.{some, ℕ, ◌≡◌, refl, true, List, [], ◌∷◌, ◌++◌, arith}
use gnss_parser.Prelude.Int.{pos, negsuc}
use gnss_parser.Prelude.Text.{Bytes, codes}
use gnss_parser.Processor.Solutions.{PvtSolution}
use gnss_parser.Driver.Gga.{
  format_nmea_degrees, digits, print, get_nmea_fix_quality, build_nmea_gga_sentence,
  append_nmea_checksum, xor_all,
}
use gnss_parser.Driver.Gga.Receiver.{receive}
use gnss_parser.Driver.Gga.Sentence.{fix_of, receive-build_nmea_gga_sentence}

-- 31 degrees 59.9999994 minutes
latitude-run : format_nmea_degrees (pos 319999999) true ≡ codes "3159.99999"
unfolding format_nmea_degrees print digits
latitude-run = refl

checksum-run : append_nmea_checksum (codes "GPGGA") ≡ codes "$GPGGA*56" ++ (13 ∷ 10 ∷ [])
unfolding append_nmea_checksum xor_all
checksum-run = refl

abbrev solution : PvtSolution
solution = record {
  time = record { time = pos 1700000000; sec = pos 0 };
  fix_type = 3;
  valid_fix = true;
  diff_soln = true;
  carr_soln = 2;
  num_sv = 17;
  lat = pos 319999999;
  lon = negsuc 1214999999;
  hgt = pos 25340;
  hgt_msl = pos 12340;
  h_acc = 0;
  v_acc = 0;
  p_dop = 130;
  vel_n = pos 0;
  vel_e = pos 0;
  vel_d = pos 0;
  vel_acc = 0;
}

quality-run : get_nmea_fix_quality solution ≡ 4
unfolding get_nmea_fix_quality
quality-run = refl

receive-build_nmea_gga_sentence_example :
    receive (build_nmea_gga_sentence (λ n. n) solution) ≡ some (fix_of solution)
receive-build_nmea_gga_sentence_example =
    receive-build_nmea_gga_sentence (λ n. n) solution (λ e. absurd (omega (arith, quality-run, e)))
      (omega arith) (omega arith) (omega arith)

-- CFG-RATE-MEAS
abbrev rate : ℕ × List ℕ
rate = (0x30210001, 100 ∷ 0 ∷ [])

-- UBX-ACK-ACK of UBX-CFG-VALSET
abbrev ack : Bytes
ack = 0xB5 ∷ 0x62 ∷ 0x05 ∷ 0x01 ∷ 0x02 ∷ 0x00 ∷ 0x06 ∷ 0x8A ∷ 0x98 ∷ 0xC1 ∷ []
