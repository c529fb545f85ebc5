-- ===== src/Processor/Steps.antt =====
-- Changes of the state that a message of one satellite makes: those that leave the buffers and the
-- flags of the other satellites and the sizes of the tables alone.
pub mod Subframes
use gnss_parser.Prelude.{
  ℕ, ◌+◌, ◌-◌, ◌*◌, ◌/◌, ◌%◌, ◌^◌, ◌≤◌, ◌<◌, List, [], ◌≡◌, ◌≢◌, refl, sym, ap, ◌∙◌, inl, inr,
  Bool-cases, arith, Option, none, some, length, length-set, get_or, get_or-set_self, get_or-set_ne,
  set,
}
use gnss_parser.Gnss.Time.{Gtime}
use gnss_parser.Gnss.Satellites.{max_sat}
use gnss_parser.Processor.{Processor, Track, row, with_row, at_now}
use gnss_parser.Processor.Rows.{IsRow}
use gnss_parser.Processor.Subframes.Bds.{with_flags}

-- `k` is the index of the satellite.
pub record IsStep (k : ℕ) (p p' : Processor) : Type 0 where
  pub rows : length p'.subfrm ≡ length p.subfrm
  pub flag_count : length p'.flags ≡ length p.flags
  pub other_rows : (j : ℕ) → j ≢ k → get_or p'.subfrm j [] ≡ get_or p.subfrm j []
  pub other_flags : (j : ℕ) → j ≢ k → get_or p'.flags j 0 ≡ get_or p.flags j 0
  pub own_row : k < length p.subfrm → IsRow (get_or p.subfrm k []) → IsRow (get_or p'.subfrm k [])
  pub own_flags : k < length p.flags → get_or p.flags k 0 < 256 → get_or p'.flags k 0 < 256

pub no-IsStep : (k : ℕ) (p : Processor) → IsStep k p p
no-IsStep k p = record {
  rows = refl;
  flag_count = refl;
  other_rows = λ j n. refl;
  other_flags = λ j n. refl;
  own_row = λ h w. w;
  own_flags = λ h b. b;
}

pub then-IsStep : (k : ℕ) (p q r : Processor) → IsStep k p q → IsStep k q r → IsStep k p r
then-IsStep k p q r s t = record {
  rows = t.rows ∙ s.rows;
  flag_count = t.flag_count ∙ s.flag_count;
  other_rows = λ j n. t.other_rows j n ∙ s.other_rows j n;
  other_flags = λ j n. t.other_flags j n ∙ s.other_flags j n;
  own_row = λ h w. t.own_row (omega (arith, s.rows)) (s.own_row h w);
  own_flags = λ h b. t.own_flags (omega (arith, s.flag_count)) (s.own_flags h b);
}

pub at_now-IsStep : (k : ℕ) (now : Option Gtime) (p : Processor) → IsStep k p (at_now now p)
at_now-IsStep k none p = no-IsStep k p
at_now-IsStep k (some t) p = record {
  rows = refl;
  flag_count = refl;
  other_rows = λ j n. refl;
  other_flags = λ j n. refl;
  own_row = λ h w. w;
  own_flags = λ h b. b;
}

ne_sym : (j k : ℕ) → j ≢ k → k ≢ j
ne_sym j k n e = n (sym e)

pub with_row-IsStep :
    (sat : ℕ) (p : Processor) (buff : List ℕ)
    → (sat - 1 < length p.subfrm → IsRow (row p sat) → IsRow buff)
    → IsStep (sat - 1) p (with_row p sat buff)
with_row-IsStep sat p buff w = record {
  rows = length-set p.subfrm (sat - 1) buff;
  flag_count = refl;
  other_rows = λ j n. get_or-set_ne p.subfrm (sat - 1) j buff [] (ne_sym j (sat - 1) n);
  other_flags = λ j n. refl;
  own_row = λ h v. rw (get_or-set_self p.subfrm (sat - 1) buff [] h) (w h v);
  own_flags = λ h b. b;
}

pub with_flags-IsStep :
    (sat : ℕ) (p : Processor) (v : ℕ)
    → (get_or p.flags (sat - 1) 0 < 256 → v < 256)
    → IsStep (sat - 1) p (with_flags p sat v)
with_flags-IsStep sat p v w = record {
  rows = refl;
  flag_count = length-set p.flags (sat - 1) v;
  other_rows = λ j n. refl;
  other_flags = λ j n. get_or-set_ne p.flags (sat - 1) j v 0 (ne_sym j (sat - 1) n);
  own_row = λ h w. w;
  own_flags = λ h b. rw (get_or-set_self p.flags (sat - 1) v 0 h) (w b);
}

-- The row that was written before the time and a flag.
pub row_kept :
    (sat : ℕ) (p : Processor) (buff : List ℕ) (now : Option Gtime) (flags : ℕ)
    → sat - 1 < length (with_flags (at_now now (with_row p sat buff)) sat flags).subfrm
    → row (with_flags (at_now now (with_row p sat buff)) sat flags) sat ≡ buff
row_kept sat p buff none flags h =
    get_or-set_self p.subfrm (sat - 1) buff [] (omega (arith, length-set p.subfrm (sat - 1) buff))
row_kept sat p buff (some t) flags h =
    get_or-set_self p.subfrm (sat - 1) buff [] (omega (arith, length-set p.subfrm (sat - 1) buff))
