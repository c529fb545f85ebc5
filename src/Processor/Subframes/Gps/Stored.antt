-- ===== src/Processor/Subframes/Gps/Stored.antt =====
-- What `decode_GPS_subframe` leaves in the buffer of its satellite.
use gnss_parser.Prelude.{
  ℕ, zero, suc, ◌+◌, ◌-◌, ◌*◌, ◌/◌, ◌%◌, ◌^◌, ◌≤◌, ◌<◌, List, [], ◌≡◌, ◌≢◌, refl, ap, sym, subst,
  ◌∙◌, ◌⊎◌, inl, inr, Bool-cases, ==_iff, ◌==◌, arith, length, Option, none, some, get_or-set_self,
}
use gnss_parser.Ubx.Bits.{getbitu, setbitu}
use gnss_parser.Ubx.Bits.Fields.{getbitu-setbitu, getbitu-setbitu_apart}
use gnss_parser.Gnss.Time.{Gtime}
use gnss_parser.Ephem.{Ephem}
use gnss_parser.Ephem.Gps.{decode_gps_ephem}
use gnss_parser.Processor.{Processor, row, with_row, at_now, u32_at}
use gnss_parser.Processor.Rows.{IsRow, setbitu-IsRow, reaching_lem}
use gnss_parser.Processor.Subframes.Gps.{
  preamb_cnav, gps_word, gps_words, gps_stored, gps_subframe_id, decode_gps_subframe,
}

module _ (d : List ℕ) (start : ℕ) where
  abbrev stored : ℕ → List ℕ → List ℕ
  stored i r = setbitu r (start + 24 * i) 24 (gps_word d i)

  -- A field before or behind the words is as it was.
  gps_words-apart :
      (n i : ℕ) (r : List ℕ) (at width : ℕ)
      → IsRow r
      → start + 24 * (i + n) ≤ 3040
      → width ≤ 32
      → (at + width ≤ start + 24 * i) ⊎ (start + 24 * (i + n) ≤ at)
      → getbitu (gps_words d n i start r) at width ≡ getbitu r at width
  unfolding gps_words
  gps_words-apart zero i r at width w room h a = refl
  gps_words-apart (suc n) i r at width w room h a =
      gps_words-apart n (i + 1) (stored i r) at width
        (setbitu-IsRow r (start + 24 * i) 24 (gps_word d i) w) (omega arith) h (ground arith)
      ∙ getbitu-setbitu_apart r w.1 (start + 24 * i) 24 (gps_word d i) (omega (arith, w.0)) at width
          (omega arith) (omega arith) h (ground arith)

  -- Each word is read back, cut to 24 bits.
  gps_words-read :
      (n i j : ℕ) (r : List ℕ)
      → IsRow r
      → start + 24 * (i + n) ≤ 3040
      → i ≤ j
      → j < i + n
      → getbitu (gps_words d n i start r) (start + 24 * j) 24 ≡ gps_word d j % 2 ^ 24
  unfolding gps_words
  gps_words-read zero i j r w room l h = absurd (omega arith)
  gps_words-read (suc n) i j r w room l h =
      let w' = setbitu-IsRow r (start + 24 * i) 24 (gps_word d i) w in
      elim (Bool-cases (j == i)) [
        | inl e ↦
            let j_i = (==_iff j i).0 e in
            gps_words-apart n (i + 1) (stored i r) (start + 24 * j) 24 w' (omega arith)
              (omega arith) (inl (omega arith))
            ∙ subst (λ k. getbitu (stored i r) (start + 24 * k) 24 ≡ gps_word d k % 2 ^ 24)
                (sym j_i)
                (getbitu-setbitu r w.1 (start + 24 * i) 24 (gps_word d i) (omega (arith, w.0))
                  (omega arith) (omega arith))
        | inr e ↦
            gps_words-read n (i + 1) j (stored i r) w' (omega arith) (ground arith) (omega arith)
      ]

row-at_now : (now : Option Gtime) (p : Processor) (sat : ℕ) → row (at_now now p) sat ≡ row p sat
row-at_now none p sat = refl
row-at_now (some t) p sat = refl

-- The subframe is one that the decoder takes.
abbrev pub IsTaken : List ℕ → Type 0
IsTaken d =
    (56 ≤ length d)
    × (u32_at d 14 / 2 ^ 24 ≢ preamb_cnav)
    × (1 ≤ gps_subframe_id d)
    × (gps_subframe_id d ≤ 5)

abbrev pub gps_start : List ℕ → ℕ
gps_start d = 240 * (gps_subframe_id d - 1)

module _ (p : Processor) (d : List ℕ) (e : Ephem) (well : IsRow (row p e.sat))
    (known : e.sat - 1 < length p.subfrm) (t : IsTaken d) where
  row_after :
      row (decode_gps_subframe p d e).state e.sat ≡ gps_words d 10 0 (gps_start d) (row p e.sat)
  unfolding decode_gps_subframe
  row_after =
      let n = gps_subframe_id d - 1 in
      let buff = gps_stored p d e.sat n in
      let now = (decode_gps_ephem buff e).now in
      let put = get_or-set_self p.subfrm (e.sat - 1) buff [] known in
      let later = row-at_now now (with_row p e.sat buff) e.sat ∙ put in
      let after : row (decode_gps_subframe p d e).state e.sat ≡ buff = ground (arith, put, later) in
      after
      ∙ ap (gps_words d 10 0 (240 * n))
          (reaching_lem (30 * n + 30) (row p e.sat) (omega (arith, well.0)))

  -- A subframe that the decoder takes, with a number from 1 to 5, stands word by word, each cut to
  -- 24 bits, at the place of its number in the buffer of its satellite, and every field of at most
  -- 32 bits outside that place is as it was.
  pub decode_gps_subframe-stores :
      (i at width : ℕ)
      → i < 10
      → width ≤ 32
      → (at + width ≤ gps_start d) ⊎ (gps_start d + 240 ≤ at)
      → (getbitu (row (decode_gps_subframe p d e).state e.sat) (gps_start d + 24 * i) 24
          ≡ gps_word d i % 2 ^ 24)
        × (getbitu (row (decode_gps_subframe p d e).state e.sat) at width
            ≡ getbitu (row p e.sat) at width)
  decode_gps_subframe-stores i at width h k a = rw row_after (
    gps_words-read d (gps_start d) 10 0 i (row p e.sat) well (omega arith) (omega arith)
        (omega arith),
    gps_words-apart d (gps_start d) 10 0 (row p e.sat) at width well (omega arith) k (ground arith),
  )
