-- ===== src/Ephem/Gps/Broadcast.antt =====
-- The clock and ephemeris parameters of the GPS navigation message: where the subframes 1 to 3 have
-- them, without parity, and what they mean. The table of the accuracies and the test for the value
-- -128 are those of the code.
use gnss_parser.Prelude.{
  ℕ, ◌+◌, ◌*◌, ◌/◌, ◌%◌, ◌^◌, ◌<◌, ◌≤◌, List, [], ◌∷◌, if◌then◌else◌, replicate,
}
use gnss_parser.Prelude.Int.{ℤ, pos, word}
use gnss_parser.Gnss.Time.{second, gpst2time, week_seconds}
use gnss_parser.Ubx.Bits.Layout.{Field, write}
use gnss_parser.Ubx.Bits.Signed.Value.{IsWithin}
use gnss_parser.Ephem.{Ephem, ◌of◌, p2, p2_semicircles, nothing, ura_of}
use gnss_parser.Ephem.Gps.{is_minus_128}

-- `count` is the time of week of subframe 1, in 6 s; `toe` and `toc` are in 16 s.
pub record Broadcast : Type 0 where
  pub count : ℕ
  pub week : ℕ
  pub urai : ℕ
  pub health : ℕ
  pub iodc : ℕ
  pub toc : ℕ
  pub toe : ℕ
  pub e : ℕ
  pub sqrt_a : ℕ
  pub tgd : ℤ
  pub af2 : ℤ
  pub af1 : ℤ
  pub af0 : ℤ
  pub crs : ℤ
  pub delta_n : ℤ
  pub m0 : ℤ
  pub cuc : ℤ
  pub cus : ℤ
  pub cic : ℤ
  pub omg0 : ℤ
  pub cis : ℤ
  pub i0 : ℤ
  pub crc : ℤ
  pub omg : ℤ
  pub omg_dot : ℤ
  pub i_dot : ℤ

-- Each parameter fits its field, and the times are of one week, near each other.
pub record IsBroadcast (b : Broadcast) : Type 0 where
  pub count : b.count + 2 < 2 ^ 17
  pub in_week : b.count * 6 < week_seconds
  pub week : b.week < 2 ^ 10
  pub urai : b.urai < 2 ^ 4
  pub health : b.health < 2 ^ 6
  pub iodc : b.iodc < 2 ^ 10
  pub toc : b.toc * 16 < week_seconds
  pub toe : b.toe * 16 < week_seconds
  pub near : (b.toe * 16 ≤ b.count * 6 + 302400) × (b.count * 6 ≤ b.toe * 16 + 302400)
  pub e : b.e < 2 ^ 32
  pub sqrt_a : b.sqrt_a < 2 ^ 32
  pub tgd : IsWithin 7 b.tgd
  pub af2 : IsWithin 7 b.af2
  pub af1 : IsWithin 15 b.af1
  pub af0 : IsWithin 21 b.af0
  pub crs : IsWithin 15 b.crs
  pub delta_n : IsWithin 15 b.delta_n
  pub m0 : IsWithin 31 b.m0
  pub cuc : IsWithin 15 b.cuc
  pub cus : IsWithin 15 b.cus
  pub cic : IsWithin 15 b.cic
  pub omg0 : IsWithin 31 b.omg0
  pub cis : IsWithin 15 b.cis
  pub i0 : IsWithin 31 b.i0
  pub crc : IsWithin 15 b.crc
  pub omg : IsWithin 31 b.omg
  pub omg_dot : IsWithin 23 b.omg_dot
  pub i_dot : IsWithin 13 b.i_dot

infix 60 ◌bits◌at◌
abbrev ◌bits◌at◌ : ℕ → ℕ → ℕ → Field
width bits v at start = record { at = start; width = width; value = v }

-- The three subframes have 240 bits each.
abbrev pub layout : Broadcast → List Field
layout b =
    (17 bits b.count at 24)
    ∷ (3 bits 1 at 43)
    ∷ (10 bits b.week at 48)
    ∷ (4 bits b.urai at 60)
    ∷ (6 bits b.health at 64)
    ∷ (2 bits (b.iodc / 256) at 70)
    ∷ (8 bits word 32 b.tgd at 160)
    ∷ (8 bits (b.iodc % 256) at 168)
    ∷ (16 bits b.toc at 176)
    ∷ (8 bits word 32 b.af2 at 192)
    ∷ (16 bits word 32 b.af1 at 200)
    ∷ (22 bits word 32 b.af0 at 216)
    ∷ (17 bits (b.count + 1) at 264)
    ∷ (3 bits 2 at 283)
    ∷ (8 bits (b.iodc % 256) at 288)
    ∷ (16 bits word 32 b.crs at 296)
    ∷ (16 bits word 32 b.delta_n at 312)
    ∷ (32 bits word 32 b.m0 at 328)
    ∷ (16 bits word 32 b.cuc at 360)
    ∷ (32 bits b.e at 376)
    ∷ (16 bits word 32 b.cus at 408)
    ∷ (32 bits b.sqrt_a at 424)
    ∷ (16 bits b.toe at 456)
    ∷ (17 bits (b.count + 2) at 504)
    ∷ (3 bits 3 at 523)
    ∷ (16 bits word 32 b.cic at 528)
    ∷ (32 bits word 32 b.omg0 at 544)
    ∷ (16 bits word 32 b.cis at 576)
    ∷ (32 bits word 32 b.i0 at 592)
    ∷ (16 bits word 32 b.crc at 624)
    ∷ (32 bits word 32 b.omg at 640)
    ∷ (24 bits word 32 b.omg_dot at 672)
    ∷ (8 bits (b.iodc % 256) at 696)
    ∷ (14 bits word 32 b.i_dot at 704)
    ∷ []

-- A buffer that has received the three subframes.
abbrev pub encoded : Broadcast → List ℕ
encoded b = write (layout b) (replicate 380 0)

-- The ephemeris that the parameters stand for; the weeks are those after the second rollover.
abbrev pub meant : Broadcast → Ephem → Ephem
meant b ephem =
    let week = b.week + 2048 in
    record ephem {
      ttr = gpst2time week (pos (b.count * 6 * second));
      toe = gpst2time week (pos (b.toe * 16 * second));
      toc = gpst2time week (pos (b.toc * 16 * second));
      health = b.health;
      ura = ura_of b.urai;
      iode = b.iodc % 256;
      iodc = b.iodc;
      toe_tow = pos (b.toe * 16 * second);
      week = week;
      sqrt_a = pos b.sqrt_a of p2 19;
      e = pos b.e of p2 33;
      i0 = b.i0 of p2_semicircles 31;
      omg = b.omg of p2_semicircles 31;
      omg0 = b.omg0 of p2_semicircles 31;
      m0 = b.m0 of p2_semicircles 31;
      delta_n = b.delta_n of p2_semicircles 43;
      omg_dot = b.omg_dot of p2_semicircles 43;
      i_dot = b.i_dot of p2_semicircles 43;
      cuc = b.cuc of p2 29;
      cus = b.cus of p2 29;
      crc = b.crc of p2 5;
      crs = b.crs of p2 5;
      cic = b.cic of p2 29;
      cis = b.cis of p2 29;
      af0 = b.af0 of p2 31;
      af1 = b.af1 of p2 43;
      af2 = b.af2 of p2 55;
      tgd0 = if is_minus_128 b.tgd then nothing else b.tgd of p2 31;
    }
