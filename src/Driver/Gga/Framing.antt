-- ===== src/Driver/Gga/Framing.antt =====
-- `AppendNmeaChecksum` of ublox_driver/src/gnss_communication_wrapper/ublox_driver.cpp against the
-- receiver's checksum and end of line.
use gnss_parser.Prelude.{
  ℕ, ◌/◌, ◌%◌, ◌^◌, ◌<◌, ◌≡◌, refl, true, [], ◌∷◌, ◌++◌, arith, bit_xor, some,
}
use gnss_parser.Prelude.Bits.Xor.{xor-lt}
use gnss_parser.Prelude.Text.{Bytes}
use gnss_parser.Driver.Gga.{xor_all, hex_upper, append_nmea_checksum}
use gnss_parser.Driver.Gga.Receiver.{ends, scan, sentence_of}
use gnss_parser.Driver.Gga.Fields.{all_plain}

scan-append :
    (body tail : Bytes) (s : ℕ)
    → all_plain body ≡ true
    → ends tail (xor_all body s) ≡ true
    → scan (body ++ (42 ∷ tail)) s ≡ some body
unfolding scan xor_all
scan-append [] tail s plain good = rw good refl
scan-append (c ∷ body) tail s plain good =
    let rest = scan-append body tail (bit_xor s c) (ground (arith, plain)) good in
    ground (arith, rest, plain)

xor_all-lt : (body : Bytes) (s : ℕ) → s < 2 ^ 8 → all_plain body ≡ true → xor_all body s < 2 ^ 8
unfolding xor_all
xor_all-lt [] s lt plain = lt
xor_all-lt (c ∷ body) s lt plain =
    xor_all-lt body (bit_xor s c) (xor-lt 8 s c lt (ground (arith, plain))) (ground (arith, plain))

ends_lem :
    (v : ℕ) → v < 256 → ends (hex_upper (v / 16) ∷ hex_upper (v % 16) ∷ 13 ∷ 10 ∷ []) v ≡ true
ends_lem v lt = ground arith

pub sentence_of-append_nmea_checksum :
    (body : Bytes) → all_plain body ≡ true → sentence_of (append_nmea_checksum body) ≡ some body
unfolding append_nmea_checksum
sentence_of-append_nmea_checksum body plain =
    let lt = xor_all-lt body 0 (omega arith) plain in
    scan-append body _ 0 plain (ends_lem (xor_all body 0) lt)
