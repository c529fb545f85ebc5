-- ===== src/Ephem/Bds/D2.antt =====
-- `decode_BDS_D2_ephem`: the ten pages of subframe 1 of the geostationary satellites.
use gnss_parser.Prelude.{
  ℕ, ◌+◌, ◌-◌, ◌*◌, ◌%◌, ◌^◌, Bool, ◌&&◌, List, ◌==◌, if◌then◌else◌, none, some,
}
use gnss_parser.Prelude.Int.{pos, negsuc, word}
use gnss_parser.Ubx.Bits.{getbitu}
use gnss_parser.Ubx.Bits.Signed.{
  getbits_word, getbits, getbits2, getbits3, getbitu2, getbitu3, merge_two_s,
}
use gnss_parser.Ephem.{Ephem, Decoded, ◌of◌, p2, p2_semicircles, tenth_nano, ura_of}
use gnss_parser.Ephem.Bds.{bdt_week_of, minus_one, bdt_times}

-- The first bit of page `n`.
abbrev pub page : ℕ → ℕ
page n = 8 * 38 * (n - 1)

-- Pages 1 to 5, but for what two pages share.
unfoldable pub d2_clock : List ℕ → Ephem → Ephem
d2_clock buff ephem = record ephem {
  health = getbitu buff 46 1;
  iodc = getbitu buff 47 5;
  ura = ura_of (getbitu buff 60 4);
  tgd0 = getbits buff 102 10 of tenth_nano;
  tgd1 = getbits buff 120 10 of tenth_nano;
  af0 = getbits2 buff (page 3 + 100) 12 (page 3 + 120) 12 of p2 33;
  af2 = getbits2 buff (page 4 + 72) 10 (page 4 + 90) 1 of p2 66;
  iode = getbitu buff (page 4 + 91) 5;
  delta_n = getbits buff (page 4 + 96) 16 of p2_semicircles 43;
  m0 = getbits3 buff (page 5 + 50) 2 (page 5 + 60) 22 (page 5 + 90) 8 of p2_semicircles 31;
  cus = getbits2 buff (page 5 + 98) 14 (page 5 + 120) 4 of p2 31;
}

-- Pages 6 to 10, but for what two pages share.
unfoldable pub d2_orbit : List ℕ → Ephem → Ephem
d2_orbit buff ephem = record ephem {
  sqrt_a = pos (getbitu3 buff (page 6 + 76) 6 (page 6 + 90) 22 (page 6 + 120) 4) of p2 19;
  cis = getbits buff (page 7 + 62) 18 of p2 31;
  crc = getbits2 buff (page 8 + 65) 17 (page 8 + 90) 1 of p2 6;
  crs = getbits buff (page 8 + 91) 18 of p2 6;
  omg0 = getbits3 buff (page 9 + 51) 1 (page 9 + 60) 22 (page 9 + 90) 9 of p2_semicircles 31;
  i_dot = getbits2 buff (page 10 + 51) 1 (page 10 + 60) 13 of p2_semicircles 43;
}

-- The parameters whose two parts stand on two pages.
unfoldable pub d2_merged : List ℕ → Ephem → Ephem
d2_merged buff ephem =
    let i0p7 = getbits2 buff (page 7 + 105) 7 (page 7 + 120) 14 in
    let omg_dot8 = getbits2 buff (page 8 + 109) 3 (page 8 + 120) 16 in
    let omg9 = getbits2 buff (page 9 + 99) 13 (page 9 + 120) 14 in
    record ephem {
      af1 =
          merge_two_s (getbits_word buff (page 3 + 132) 4)
            (getbitu2 buff (page 4 + 46) 6 (page 4 + 60) 12) 18
          of p2 50;
      cuc =
          merge_two_s (getbits_word buff (page 4 + 120) 14) (getbitu buff (page 5 + 46) 4) 4
          of p2 31;
      e =
          merge_two_s (getbits_word buff (page 5 + 124) 10)
            (getbitu2 buff (page 6 + 46) 6 (page 6 + 60) 16) 22
          of p2 33;
      cic =
          merge_two_s (getbits_word buff (page 6 + 124) 10)
            (getbitu2 buff (page 7 + 46) 6 (page 7 + 60) 2) 8
          of p2 31;
      i0 =
          merge_two_s (word 32 i0p7) (getbitu2 buff (page 8 + 46) 6 (page 8 + 60) 5) 11
          of p2_semicircles 31;
      omg_dot =
          merge_two_s (word 32 omg_dot8) (getbitu buff (page 9 + 46) 5) 5 of p2_semicircles 43;
      omg = merge_two_s (word 32 omg9) (getbitu buff (page 10 + 46) 5) 5 of p2_semicircles 31;
    }

abbrev pub d2_sow : List ℕ → ℕ → ℕ
d2_sow buff n = getbitu2 buff (page n + 18) 8 (page n + 30) 12

abbrev is_page : List ℕ → ℕ → Bool
is_page buff n = getbitu buff (page n + 42) 4 == n

abbrev later_by : List ℕ → ℕ → ℕ → ℕ → Bool
later_by buff seconds n m = d2_sow buff m == (d2_sow buff n + seconds) % 2 ^ 32

abbrev d2_toes : List ℕ → ℕ
d2_toes buff = getbitu2 buff (page 7 + 80) 2 (page 7 + 90) 15 * 8

abbrev d2_tocs : List ℕ → ℕ
d2_tocs buff = getbitu2 buff 77 5 90 12 * 8

unfoldable pub d2_consistent : List ℕ → Bool
d2_consistent buff =
    is_page buff 1
    && is_page buff 3
    && is_page buff 4
    && is_page buff 5
    && is_page buff 6
    && is_page buff 7
    && is_page buff 8
    && is_page buff 9
    && is_page buff 10
    && later_by buff 6 1 3
    && later_by buff 3 3 4
    && later_by buff 3 4 5
    && later_by buff 3 5 6
    && later_by buff 3 6 7
    && later_by buff 3 7 8
    && later_by buff 3 8 9
    && later_by buff 3 9 10
    && (d2_tocs buff == d2_toes buff)

unfoldable pub decode_bds_d2_ephem : List ℕ → Ephem → Decoded
decode_bds_d2_ephem buff ephem =
    let read = d2_orbit buff (d2_clock buff ephem) in
    let sow = d2_sow buff 1 in
    let week = getbitu buff 64 13 in
    let week' = bdt_week_of 1 minus_one week (d2_toes buff) sow in
    let done = bdt_times week week' sow (d2_toes buff) (d2_tocs buff) (d2_merged buff read) in
    if d2_consistent buff
    then record { status = pos 0; ephem = done; now = some done.ttr }
    else record { status = negsuc 0; ephem = read; now = none }
