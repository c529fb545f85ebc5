-- ===== src/Ephem/Gps/Decode.antt =====
-- `decode_GPS_ephem` on the subframes of a broadcast.
use gnss_parser.Prelude.{
  ℕ, zero, suc, get_or, ◌+◌, ◌*◌, ◌/◌, ◌%◌, ◌^◌, ◌<◌, List, [], ◌∷◌, All, length-replicate, ◌≡◌,
  refl, ap, ◌∙◌, arith, none, some, true, false, not, ◌||◌, ◌==◌, length, replicate, if◌then◌else◌,
}
use gnss_parser.Prelude.Int.{ℤ, pos, word, signed}
use gnss_parser.Gnss.Time.{second, gpst2time}
use gnss_parser.Gnss.Time.Weeks.{time2gpst-gpst2time}
use gnss_parser.Ubx.Bits.{getbitu}
use gnss_parser.Ubx.Bits.Signed.{getbits}
use gnss_parser.Ubx.Bits.Signed.Value.{getbits-signed, signed-word, mod_small, IsWithin}
use gnss_parser.Ubx.Bits.Layout.{Field, IsRead, is_layout, write-IsRead}
use gnss_parser.Ubx.Bits.Write.{replicate-IsBytes}
use gnss_parser.Ephem.{Ephem, ◌of◌, p2, p2_semicircles, nothing, ura_of}
use gnss_parser.Ephem.Gps.{
  is_minus_128, gps_check, gps_clock, gps_orbit, gps_plane, gps_handover, gps_times, after_check,
  decode_gps_ephem,
}
use gnss_parser.Ephem.Gps.Broadcast.{Broadcast, IsBroadcast, layout, encoded, meant}

is_layout-layout : (b : Broadcast) → is_layout 720 (layout b) ≡ true
is_layout-layout b = refl

-- A field that holds its value.
unsigned :
    (buff : List ℕ) (at width v : ℕ)
    → getbitu buff at width ≡ v % 2 ^ width
    → v < 2 ^ width
    → getbitu buff at width ≡ v
unsigned buff at width v e h = e ∙ mod_small v (2 ^ width) h

twos_complement :
    (buff : List ℕ) (at n : ℕ) (z : ℤ)
    → getbitu buff at (suc n) ≡ word 32 z % 2 ^ suc n
    → n < 32
    → IsWithin n z
    → getbits buff at (suc n) ≡ z
twos_complement buff at n z e h w =
    getbits-signed buff at (suc n) (omega arith) (omega arith)
    ∙ ap (signed (suc n)) e
    ∙ signed-word n z h w

All-get_or :
    {A : Type 0} (P : A → Type 0) (xs : List A) (i : ℕ) (d : A)
    → i < length xs
    → All P xs
    → P (get_or xs i d)
All-get_or P [] i d h a = absurd (omega arith)
All-get_or P (x ∷ xs) zero d h a = a.0
All-get_or P (x ∷ xs) (suc i) d h a = All-get_or P xs i d (omega arith) a.1

abbrev nowhere : Field
nowhere = record { at = 0; width = 0; value = 0 }

module _ (b : Broadcast) (v : IsBroadcast b) where
  facts : All (IsRead (encoded b)) (layout b)
  facts =
      write-IsRead 720 (layout b) (replicate 380 0) (replicate-IsBytes 380)
        (omega (arith, length-replicate {A = ℕ} 380 0)) (is_layout-layout b)

  fact : (i : ℕ) → i < 34 → IsRead (encoded b) (get_or (layout b) i nowhere)
  fact i h = All-get_or (IsRead (encoded b)) (layout b) i nowhere h facts

  u :
      (at width value : ℕ)
      → getbitu (encoded b) at width ≡ value % 2 ^ width
      → value < 2 ^ width
      → getbitu (encoded b) at width ≡ value
  u at width value e h = unsigned (encoded b) at width value e h

  s :
      (at n : ℕ) (z : ℤ)
      → getbitu (encoded b) at (suc n) ≡ word 32 z % 2 ^ suc n
      → n < 32
      → IsWithin n z
      → getbits (encoded b) at (suc n) ≡ z
  s at n z e h w = twos_complement (encoded b) at n z e h w

  parts : b.iodc / 256 * 256 + b.iodc % 256 ≡ b.iodc
  parts = omega arith

  clock :
      (e : Ephem)
      → gps_clock (encoded b) e ≡ record e {
        ura = ura_of b.urai;
        health = b.health;
        af2 = b.af2 of p2 55;
        af1 = b.af1 of p2 43;
        af0 = b.af0 of p2 31;
        tgd0 = if is_minus_128 b.tgd then nothing else b.tgd of p2 31;
        iodc = b.iodc;
        week = b.week + 2048;
        ttr = gpst2time (b.week + 2048) (pos (b.count * 6 * second));
        toc = gpst2time (b.week + 2048) (pos (b.toc * 16 * second));
      }
  unfolding gps_clock
  clock e =
      rw
        (
          u 24 17 b.count (fact 0 (omega arith)) (omega (arith, v.count)),
          u 48 10 b.week (fact 2 (omega arith)) v.week,
          u 60 4 b.urai (fact 3 (omega arith)) v.urai,
          u 64 6 b.health (fact 4 (omega arith)) v.health,
          u 70 2 (b.iodc / 256) (fact 5 (omega arith)) (omega (arith, v.iodc)),
          s 160 7 b.tgd (fact 6 (omega arith)) (omega arith) v.tgd,
          u 168 8 (b.iodc % 256) (fact 7 (omega arith)) (omega arith),
          u 176 16 b.toc (fact 8 (omega arith)) (omega (arith, v.toc)),
          s 192 7 b.af2 (fact 9 (omega arith)) (omega arith) v.af2,
          s 200 15 b.af1 (fact 10 (omega arith)) (omega arith) v.af1,
          s 216 21 b.af0 (fact 11 (omega arith)) (omega arith) v.af0,
          parts,
        )
        refl

  orbit :
      (e : Ephem)
      → gps_orbit (encoded b) e ≡ record e {
        iode = b.iodc % 256;
        crs = b.crs of p2 5;
        delta_n = b.delta_n of p2_semicircles 43;
        m0 = b.m0 of p2_semicircles 31;
        cuc = b.cuc of p2 29;
        e = pos b.e of p2 33;
        cus = b.cus of p2 29;
        sqrt_a = pos b.sqrt_a of p2 19;
        toe_tow = pos (b.toe * 16 * second);
      }
  unfolding gps_orbit
  orbit e =
      rw
        (
          u 288 8 (b.iodc % 256) (fact 14 (omega arith)) (omega arith),
          s 296 15 b.crs (fact 15 (omega arith)) (omega arith) v.crs,
          s 312 15 b.delta_n (fact 16 (omega arith)) (omega arith) v.delta_n,
          s 328 31 b.m0 (fact 17 (omega arith)) (omega arith) v.m0,
          s 360 15 b.cuc (fact 18 (omega arith)) (omega arith) v.cuc,
          u 376 32 b.e (fact 19 (omega arith)) v.e,
          s 408 15 b.cus (fact 20 (omega arith)) (omega arith) v.cus,
          u 424 32 b.sqrt_a (fact 21 (omega arith)) v.sqrt_a,
          u 456 16 b.toe (fact 22 (omega arith)) (omega (arith, v.toe)),
        )
        refl

  plane :
      (e : Ephem)
      → gps_plane (encoded b) e ≡ record e {
        cic = b.cic of p2 29;
        omg0 = b.omg0 of p2_semicircles 31;
        cis = b.cis of p2 29;
        i0 = b.i0 of p2_semicircles 31;
        crc = b.crc of p2 5;
        omg = b.omg of p2_semicircles 31;
        omg_dot = b.omg_dot of p2_semicircles 43;
        i_dot = b.i_dot of p2_semicircles 43;
      }
  unfolding gps_plane
  plane e =
      rw
        (
          s 528 15 b.cic (fact 25 (omega arith)) (omega arith) v.cic,
          s 544 31 b.omg0 (fact 26 (omega arith)) (omega arith) v.omg0,
          s 576 15 b.cis (fact 27 (omega arith)) (omega arith) v.cis,
          s 592 31 b.i0 (fact 28 (omega arith)) (omega arith) v.i0,
          s 624 15 b.crc (fact 29 (omega arith)) (omega arith) v.crc,
          s 640 31 b.omg (fact 30 (omega arith)) (omega arith) v.omg,
          s 672 23 b.omg_dot (fact 31 (omega arith)) (omega arith) v.omg_dot,
          s 704 13 b.i_dot (fact 33 (omega arith)) (omega arith) v.i_dot,
        )
        refl

  checked : gps_check (encoded b) ≡ none
  unfolding gps_check
  checked =
      let z1 = u 24 17 b.count (fact 0 (omega arith)) (omega (arith, v.count)) in
      let z2 = u 264 17 (b.count + 1) (fact 12 (omega arith)) (omega (arith, v.count)) in
      let z3 = u 504 17 (b.count + 2) (fact 23 (omega arith)) (omega (arith, v.count)) in
      let n1 = u 43 3 1 (fact 1 (omega arith)) (omega arith) in
      let n2 = u 283 3 2 (fact 13 (omega arith)) (omega arith) in
      let n3 = u 523 3 3 (fact 24 (omega arith)) (omega arith) in ground arith

  issue : getbitu (encoded b) 696 8 ≡ b.iodc % 256
  issue = u 696 8 (b.iodc % 256) (fact 32 (omega arith)) (omega arith)

  no_handover :
      (week : ℕ)
      → gps_handover (pos (b.toe * 16 * second)) (pos (b.count * 6 * second)) week
        ≡ (week, pos (b.count * 6 * second))
  unfolding gps_handover
  no_handover week = let near = v.near in ground arith

  -- The ephemeris before its times are completed.
  abbrev read_from : Ephem → Ephem
  read_from e = record (meant b e) { toe = e.toe }

  read :
      (e : Ephem)
      → gps_plane (encoded b) (gps_orbit (encoded b) (gps_clock (encoded b) e)) ≡ read_from e
  read e =
      ap (λ x. gps_plane (encoded b) (gps_orbit (encoded b) x)) (clock e)
      ∙ ap (gps_plane (encoded b)) (orbit _)
      ∙ plane _

  times : (e : Ephem) → gps_times (read_from e) ≡ meant b e
  unfolding gps_times
  times e =
      let week = b.week + 2048 in
      let t =
        time2gpst-gpst2time week (b.count * 6 * second) (omega (arith, v.week))
          (omega (arith, v.in_week)) in
      let c =
        time2gpst-gpst2time week (b.toc * 16 * second) (omega (arith, v.week))
          (omega (arith, v.toc)) in
      rw (t, c, no_handover week) refl

  -- The last test passes.
  issues_agree :
      (not (getbitu (encoded b) 696 8 == b.iodc % 256)
        || not (getbitu (encoded b) 696 8 == b.iodc % 256))
      ≡ false
  issues_agree = let i = issue in ground arith

  -- When the parameters of a broadcast fit their fields and its times are near each other, the
  -- decoder makes of the three subframes that carry it the ephemeris that it means, sets the
  -- current time to its time of transmission, and returns 0.
  pub decode_gps_ephem-encoded :
      (e : Ephem)
      → decode_gps_ephem (encoded b) e
        ≡ record { status = pos 0; ephem = meant b e; now = some (meant b e).ttr }
  unfolding decode_gps_ephem after_check
  decode_gps_ephem-encoded e =
      ap (λ c. after_check c (encoded b) e) checked ∙ rw (read e, issues_agree, times e) refl
