-- ===== src/Processor/Steps/Subframes.antt =====
-- The subframe decoders as steps of one satellite.
use gnss_parser.Prelude.{ℕ, ◌-◌, ◌/◌, ◌%◌, ◌^◌, ◌≤◌, ◌<◌, List, subst, arith, get_or}
use gnss_parser.Ubx.Bits.{getbitu}
use gnss_parser.Ephem.{Ephem}
use gnss_parser.Ephem.Gps.{decode_gps_ephem}
use gnss_parser.Ephem.Gal.{decode_gal_ephem}
use gnss_parser.Ephem.Bds.D1.{decode_bds_d1_ephem}
use gnss_parser.Ephem.Bds.D2.{decode_bds_d2_ephem}
use gnss_parser.Processor.{Processor, Handled, row, with_row, at_now}
use gnss_parser.Processor.Rows.{
  IsRow, gps_stored-IsRow, bds_stored-IsRow, d1_cleared-IsRow, bit_or-byte, gal_stored-IsRow,
  decode_gal-IsRow,
}
use gnss_parser.Processor.Steps.{
  IsStep, no-IsStep, then-IsStep, at_now-IsStep, with_row-IsStep, with_flags-IsStep, row_kept,
}
use gnss_parser.Processor.Subframes.Gps.{gps_stored, gps_subframe_id, decode_gps_subframe}
use gnss_parser.Processor.Subframes.Bds.{
  bds_stored, bds_word, d1_flags, with_flags, d1_cleared, bds_d1_subframe, bds_d2_subframe,
  decode_bds_subframe,
}
use gnss_parser.Processor.Subframes.Gal.{swapped, gal_stored, decode_gal_subframe}

module _ (p : Processor) (d : List ℕ) (e : Ephem) where
  abbrev Step : Handled → Type 0
  Step h = IsStep (e.sat - 1) p h.state

  pub decode_gps-Step : Step (decode_gps_subframe p d e)
  unfolding decode_gps_subframe
  decode_gps-Step =
      let id = gps_subframe_id d in
      let buff = gps_stored p d e.sat (id - 1) in
      let stored = with_row p e.sat buff in
      let s : id ≤ 5 → IsStep (e.sat - 1) p stored = λ h.
        with_row-IsStep e.sat p buff (λ l. gps_stored-IsRow p d e.sat (id - 1) (omega arith)) in
      let t : id ≤ 5 → IsStep (e.sat - 1) p (at_now (decode_gps_ephem buff e).now stored) = λ h.
        then-IsStep (e.sat - 1) p stored (at_now (decode_gps_ephem buff e).now stored) (s h)
          (at_now-IsStep (e.sat - 1) (decode_gps_ephem buff e).now stored) in
      let n = no-IsStep (e.sat - 1) p in ground (arith, n, s, t)

  pub decode_gal-Step : Step (decode_gal_subframe p d e)
  unfolding decode_gal_subframe
  decode_gal-Step =
      let buff = swapped d 14 8 in
      let type = getbitu buff 2 6 in
      let saved = gal_stored buff type (row p e.sat) in
      let (decoded, rest) = decode_gal_ephem saved e in
      let stored = with_row p e.sat rest in
      let n = no-IsStep (e.sat - 1) p in
      let s : type < 8 → IsStep (e.sat - 1) p (with_row p e.sat saved) =
        λ h. with_row-IsStep e.sat p saved (λ l. gal_stored-IsRow buff type (row p e.sat) h) in
      let t : type < 8 → IsStep (e.sat - 1) p (at_now decoded.now stored) = λ h.
        then-IsStep (e.sat - 1) p stored (at_now decoded.now stored)
          (with_row-IsStep e.sat p rest
            (λ l w. decode_gal-IsRow saved e (gal_stored-IsRow buff type (row p e.sat) h w)))
          (at_now-IsStep (e.sat - 1) decoded.now stored) in
      ground (arith, n, s, t)

  d1-Step : (id : ℕ) → 1 ≤ id → id ≤ 5 → Step (bds_d1_subframe p d e id)
  unfolding bds_d1_subframe
  d1-Step id l h =
      let k = e.sat - 1 in
      let buff = bds_stored p d e.sat (id - 1) in
      let stored = with_row p e.sat buff in
      let w = bds_stored-IsRow p d e.sat (id - 1) (omega arith) in
      let flags = d1_flags p e.sat id in
      let (decoded, iono) = decode_bds_d1_ephem buff e in
      let state = with_flags (at_now decoded.now stored) e.sat 0 in
      let s = with_row-IsStep e.sat p buff (λ l. w) in
      let f = then-IsStep k p stored (with_flags stored e.sat flags) s (
        with_flags-IsStep e.sat stored flags
          (λ b. bit_or-byte (id - 1) (get_or p.flags k 0) (omega arith) b)) in
      let a =
        then-IsStep k p stored (at_now decoded.now stored) s (at_now-IsStep k decoded.now stored) in
      let z =
        then-IsStep k p (at_now decoded.now stored) state a
          (with_flags-IsStep e.sat (at_now decoded.now stored) 0 (λ b. omega arith)) in
      let c = then-IsStep k p state (with_row state e.sat (d1_cleared buff)) z (
        with_row-IsStep e.sat state (d1_cleared buff)
          (λ l r. d1_cleared-IsRow buff (subst IsRow (row_kept e.sat p buff decoded.now 0 l) r))) in
      ground (arith, f, z, c)

  d2-Step : (id : ℕ) → Step (bds_d2_subframe p d e id)
  unfolding bds_d2_subframe
  d2-Step id =
      let k = e.sat - 1 in
      let pgn = bds_word d 1 / 2 ^ 14 % 16 in
      let buff = bds_stored p d e.sat (pgn - 1) in
      let stored = with_row p e.sat buff in
      let now = (decode_bds_d2_ephem buff e).now in
      let s : pgn ≤ 10 → IsStep k p stored = λ h.
        with_row-IsStep e.sat p buff (λ l. bds_stored-IsRow p d e.sat (pgn - 1) (omega arith)) in
      let t : pgn ≤ 10 → IsStep k p (at_now now stored) =
        λ h. then-IsStep k p stored (at_now now stored) (s h) (at_now-IsStep k now stored) in
      let n = no-IsStep k p in ground (arith, n, s, t)

  pub decode_bds-Step : Step (decode_bds_subframe p d e)
  unfolding decode_bds_subframe
  decode_bds-Step =
      let id = bds_word d 0 / 2 ^ 12 % 8 in
      let n = no-IsStep (e.sat - 1) p in
      let d1 = d1-Step id in let d2 = d2-Step id in ground (arith, n, d1, d2)
