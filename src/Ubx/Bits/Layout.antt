-- ===== src/Ubx/Bits/Layout.antt =====
-- Messages laid out as bit fields: what is written field by field is read back field by field.
use gnss_parser.Prelude.{
  ℕ, ◌+◌, ◌*◌, ◌%◌, ◌^◌, ◌≤◌, ◌<◌, Bool, true, ◌&&◌, ◌||◌, List, [], ◌∷◌, ◌≡◌, refl, ◌∙◌, arith,
  leb, ltb, length, All,
}
use gnss_parser.Ubx.Bits.{getbitu, setbitu}
use gnss_parser.Ubx.Bits.Write.{IsBytes}
use gnss_parser.Ubx.Bits.Fields.{getbitu-setbitu, getbitu-setbitu_apart, setbitu_keeps}

pub record Field : Type 0 where
  pub at : ℕ
  pub width : ℕ
  pub value : ℕ

unfoldable pub write : List Field → List ℕ → List ℕ
write [] buff = buff
write (f ∷ fs) buff = write fs (setbitu buff f.at f.width f.value)

-- The field has 1 to 32 bits and ends before the bit `stop`.
abbrev fits : ℕ → Field → Bool
fits stop f = ltb 0 f.width && leb f.width 32 && leb (f.at + f.width) stop

abbrev apart : Field → Field → Bool
apart f g = leb (f.at + f.width) g.at || leb (g.at + g.width) f.at

abbrev apart_all : Field → List Field → Bool
apart_all f [] = true
apart_all f (g ∷ gs) = apart f g && apart_all f gs

-- No two fields meet.
abbrev pub is_layout : ℕ → List Field → Bool
is_layout stop [] = true
is_layout stop (f ∷ fs) = fits stop f && apart_all f fs && is_layout stop fs

write-apart :
    (stop : ℕ) (f : Field) (fs : List Field) (buff : List ℕ)
    → IsBytes buff
    → stop ≤ 8 * length buff
    → f.width ≤ 32
    → apart_all f fs ≡ true
    → is_layout stop fs ≡ true
    → getbitu (write fs buff) f.at f.width ≡ getbitu buff f.at f.width
unfolding write
write-apart stop f [] buff bytes room h a l = refl
write-apart stop f (g ∷ gs) buff bytes room h a l =
    let kept = setbitu_keeps buff bytes g.at g.width g.value (ground arith) in
    write-apart stop f gs (setbitu buff g.at g.width g.value) kept.0 (rw kept.1 room) h
      (ground arith) (ground arith)
    ∙ getbitu-setbitu_apart buff bytes g.at g.width g.value (ground arith) f.at f.width
        (ground arith) (ground arith) h (ground arith)

abbrev pub IsRead : List ℕ → Field → Type 0
IsRead buff f = getbitu buff f.at f.width ≡ f.value % 2 ^ f.width

-- Every field of a layout is read back from what was written.
pub write-IsRead :
    (stop : ℕ) (fs : List Field) (buff : List ℕ)
    → IsBytes buff
    → stop ≤ 8 * length buff
    → is_layout stop fs ≡ true
    → All (IsRead (write fs buff)) fs
unfolding write
write-IsRead stop [] buff bytes room l = ground arith
write-IsRead stop (f ∷ fs) buff bytes room l =
    let fit : (0 < f.width) × (f.width ≤ 32) × (f.at + f.width ≤ stop) = ground arith in
    let kept = setbitu_keeps buff bytes f.at f.width f.value (omega arith) in
    (
      write-apart stop f fs (setbitu buff f.at f.width f.value) kept.0 (rw kept.1 room) fit.1
            (ground arith) (ground arith)
          ∙ getbitu-setbitu buff bytes f.at f.width f.value (omega arith) fit.0 fit.1,
      write-IsRead stop fs (setbitu buff f.at f.width f.value) kept.0 (rw kept.1 room)
          (ground arith),
    )
