-- ===== src/Ephem/Bds/D1.antt =====
-- `decode_BDS_D1_ephem`: subframes 1 to 3 of the satellites in inclined and medium orbits.
use gnss_parser.Prelude.{
  ℕ, ◌+◌, ◌*◌, ◌%◌, ◌^◌, Bool, ◌&&◌, List, [], ◌∷◌, ◌==◌, if◌then◌else◌, none, some,
}
use gnss_parser.Prelude.Int.{pos, negsuc}
use gnss_parser.Ubx.Bits.{getbitu}
use gnss_parser.Ubx.Bits.Signed.{getbits, getbits2, getbitu2, merge_two_u}
use gnss_parser.Ephem.{
  Ephem, Decoded, Quantity, ◌of◌, p2, p2_semicircles, tenth_nano, times_2, ura_of,
}
use gnss_parser.Ephem.Bds.{bdt_week_of, minus_one, bdt_times}

abbrev pub first : ℕ
first = 0

abbrev pub second_frame : ℕ
second_frame = 8 * 38

abbrev pub third : ℕ
third = 8 * 38 * 2

unfoldable pub d1_clock : List ℕ → Ephem → Ephem
d1_clock buff ephem = record ephem {
  health = getbitu buff 42 1;
  iodc = getbitu buff 43 5;
  ura = ura_of (getbitu buff 48 4);
  tgd0 = getbits buff 98 10 of tenth_nano;
  tgd1 = getbits2 buff 108 4 120 6 of tenth_nano;
  af2 = getbits buff 214 11 of p2 66;
  af0 = getbits2 buff 225 7 240 17 of p2 33;
  af1 = getbits2 buff 257 5 270 17 of p2 50;
  iode = getbitu buff 287 5;
}

unfoldable pub d1_iono : List ℕ → List Quantity
d1_iono buff =
    (getbits buff 126 8 of p2 30)
    ∷ (getbits buff 134 8 of p2 27)
    ∷ (getbits buff 150 8 of p2 24)
    ∷ (getbits buff 158 8 of p2 24)
    ∷ (getbits2 buff 166 6 180 2 of times_2 11)
    ∷ (getbits buff 182 8 of times_2 14)
    ∷ (getbits buff 190 8 of times_2 16)
    ∷ (getbits2 buff 198 4 210 4 of times_2 16)
    ∷ []

unfoldable pub d1_orbit : List ℕ → Ephem → Ephem
d1_orbit buff ephem =
    let i = second_frame in
    record ephem {
      delta_n = getbits2 buff (i + 42) 10 (i + 60) 6 of p2_semicircles 43;
      cuc = getbits2 buff (i + 66) 16 (i + 90) 2 of p2 31;
      m0 = getbits2 buff (i + 92) 20 (i + 120) 12 of p2_semicircles 31;
      e = pos (getbitu2 buff (i + 132) 10 (i + 150) 22) of p2 33;
      cus = getbits buff (i + 180) 18 of p2 31;
      crc = getbits2 buff (i + 198) 4 (i + 210) 14 of p2 6;
      crs = getbits2 buff (i + 224) 8 (i + 240) 10 of p2 6;
      sqrt_a = pos (getbitu2 buff (i + 250) 12 (i + 270) 20) of p2 19;
    }

unfoldable pub d1_plane : List ℕ → Ephem → Ephem
d1_plane buff ephem =
    let i = third in
    record ephem {
      i0 = getbits2 buff (i + 65) 17 (i + 90) 15 of p2_semicircles 31;
      cic = getbits2 buff (i + 105) 7 (i + 120) 11 of p2 31;
      omg_dot = getbits2 buff (i + 131) 11 (i + 150) 13 of p2_semicircles 43;
      cis = getbits2 buff (i + 163) 9 (i + 180) 9 of p2 31;
      i_dot = getbits2 buff (i + 189) 13 (i + 210) 1 of p2_semicircles 43;
      omg0 = getbits2 buff (i + 211) 21 (i + 240) 11 of p2_semicircles 31;
      omg = getbits2 buff (i + 251) 11 (i + 270) 21 of p2_semicircles 31;
    }

abbrev pub d1_sow : List ℕ → ℕ → ℕ
d1_sow buff i = getbitu2 buff (i + 18) 8 (i + 30) 12

abbrev d1_toes : List ℕ → ℕ
d1_toes buff =
    let toe1 = getbitu buff (second_frame + 290) 2 in
    let toe2 = getbitu2 buff (third + 42) 10 (third + 60) 5 in merge_two_u toe1 toe2 15 * 8

-- The checks of the subframe numbers, the times of week, and toe against toc.
unfoldable pub d1_consistent : List ℕ → Bool
d1_consistent buff =
    (getbitu buff (first + 15) 3 == 1)
    && (getbitu buff (second_frame + 15) 3 == 2)
    && (getbitu buff (third + 15) 3 == 3)
    && (d1_sow buff second_frame == (d1_sow buff first + 6) % 2 ^ 32)
    && (d1_sow buff third == (d1_sow buff second_frame + 6) % 2 ^ 32)
    && (getbitu2 buff 73 9 90 8 * 8 == d1_toes buff)

-- With the ionosphere parameters, which are handed on only when all is well.
unfoldable pub decode_bds_d1_ephem : List ℕ → Ephem → Decoded × List Quantity
decode_bds_d1_ephem buff ephem =
    let read = d1_plane buff (d1_orbit buff (d1_clock buff ephem)) in
    let sow = d1_sow buff first in
    let week = getbitu buff 60 13 in
    let toes = d1_toes buff in
    let week' = bdt_week_of minus_one 1 week toes sow in
    let done = bdt_times week week' sow toes (getbitu2 buff 73 9 90 8 * 8) read in
    if d1_consistent buff
    then (record { status = pos 0; ephem = done; now = some done.ttr }, d1_iono buff)
    else (record { status = negsuc 0; ephem = read; now = none }, [])
