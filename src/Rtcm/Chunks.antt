-- ===== src/Rtcm/Chunks.antt =====
-- The published frames do not depend on how the correction stream is cut into chunks.
use gnss_parser.Prelude.{
  ℕ, zero, suc, ◌+◌, ◌≤◌, ◌<◌, ◌≡◌, refl, sym, ap, ◌∙◌, List, [], ◌∷◌, ◌++◌, length, length-append,
  append_assoc, append-nil, arith,
}
use gnss_parser.Rtcm.{
  wait, discard, publish, Published, Drained, RtcmLog, Logged, from_preamble, round_at, round,
  cons_published, drain_rounds, drain, log_rtcm_frames,
}
use gnss_parser.Rtcm.Steps.{
  waits, drops, emits, round_at-IsSettled, from_preamble_again, from_preamble_stays,
  length-from_preamble,
}

pub drain_wait :
    (f : ℕ) (b r : List ℕ)
    → round b ≡ wait r
    → drain_rounds (suc f) b ≡ record { published = []; left = r }
unfolding drain_rounds
drain_wait f b r e = rw (e, drain_rounds) refl

drain_discard :
    (f : ℕ) (b r : List ℕ) → round b ≡ discard r → drain_rounds (suc f) b ≡ drain_rounds f r
unfolding drain_rounds
drain_discard f b r e = rw (e, drain_rounds) refl

pub drain_publish :
    (f : ℕ) (b : List ℕ) (p : Published) (r : List ℕ)
    → round b ≡ publish p r
    → drain_rounds (suc f) b ≡ cons_published p (drain_rounds f r)
unfolding drain_rounds
drain_publish f b p r e = rw (e, drain_rounds) refl

drain_same :
    (f : ℕ) (b c : List ℕ) → round b ≡ round c → drain_rounds (suc f) b ≡ drain_rounds (suc f) c
unfolding drain_rounds
drain_same f b c e = rw (e, drain_rounds) refl

-- The same of the whole round, with the search for the preamble.
pub data IsStable (b : List ℕ) (xs : List ℕ) : Type 0 where
  rests :
      (r : List ℕ)
      → round b ≡ wait r
      → round (b ++ xs) ≡ round (r ++ xs)
      → length r ≤ length b
      → IsStable b xs
  skips :
      (r : List ℕ)
      → round b ≡ discard r
      → round (b ++ xs) ≡ discard (r ++ xs)
      → length r < length b
      → IsStable b xs
  takes :
      (p : Published) (r : List ℕ)
      → round b ≡ publish p r
      → round (b ++ xs) ≡ publish p (r ++ xs)
      → length r < length b
      → IsStable b xs

round-IsStable : (b xs : List ℕ) → IsStable b xs
unfolding round
round-IsStable b xs =
    let le = length-from_preamble b in
    elim (round_at-IsSettled (from_preamble b) xs) [
      | waits e ↦ rests (from_preamble b) e (ap round_at (from_preamble_again b xs)) le
      | drops r e e' lt ↦
          skips r e (ap round_at (from_preamble_stays b xs (omega arith)) ∙ e') (omega arith)
      | emits p r e e' lt ↦
          takes p r e (ap round_at (from_preamble_stays b xs (omega arith)) ∙ e') (omega arith)
    ]

-- Enough rounds are given: more change nothing.
pub drain_rounds_enough :
    (f g : ℕ) (b : List ℕ) → length b < f → length b < g → drain_rounds f b ≡ drain_rounds g b
drain_rounds_enough zero g b lt lt' = absurd (omega arith)
drain_rounds_enough (suc f) zero b lt lt' = absurd (omega arith)
drain_rounds_enough (suc f) (suc g) b lt lt' = elim (round-IsStable b []) [
  | rests r e e' le ↦ drain_wait f b r e ∙ sym (drain_wait g b r e)
  | skips r e e' le ↦
      drain_discard f b r e
      ∙ drain_rounds_enough f g r (omega arith) (omega arith)
      ∙ sym (drain_discard g b r e)
  | takes p r e e' le ↦
      drain_publish f b p r e
      ∙ ap (cons_published p) (drain_rounds_enough f g r (omega arith) (omega arith))
      ∙ sym (drain_publish g b p r e)
]

abbrev pub after_published : List Published → Drained → Drained
after_published ps d = record d { published = ps ++ d.published }

drain_rounds-append :
    (f g k : ℕ) (b xs : List ℕ)
    → length b < f
    → length b + length xs < g
    → length b + length xs < k
    → drain_rounds g (b ++ xs)
      ≡ after_published
          (drain_rounds f b).published
          (drain_rounds k ((drain_rounds f b).left ++ xs))
drain_rounds-append zero g k b xs lt lt' lk = absurd (omega arith)
drain_rounds-append (suc f) zero k b xs lt lt' lk = absurd (omega arith)
drain_rounds-append (suc f) (suc g) k b xs lt lt' lk = elim (round-IsStable b xs) [
  | rests r e e' le ↦ rw (drain_wait f b r e) (
      drain_same g (b ++ xs) (r ++ xs) e'
      ∙ drain_rounds_enough (suc g) k (r ++ xs) (omega (arith, length-append r xs))
          (omega (arith, length-append r xs)))
  | skips r e e' le ↦
      rw (drain_discard f b r e, drain_discard g (b ++ xs) (r ++ xs) e')
        (drain_rounds-append f g k r xs (omega arith) (omega arith) (omega arith))
  | takes p r e e' le ↦
      rw (drain_publish f b p r e, drain_publish g (b ++ xs) p (r ++ xs) e')
        (ap (cons_published p)
          (drain_rounds-append f g k r xs (omega arith) (omega arith) (omega arith)))
]

length-left : (f : ℕ) (b : List ℕ) → length (drain_rounds f b).left ≤ length b
unfolding drain_rounds
length-left zero b = omega arith
length-left (suc f) b = elim (round-IsStable b []) [
  | rests r e e' le ↦ omega (arith, ap (λ d. length d.left) (drain_wait f b r e))
  | skips r e e' le ↦
      omega (arith, ap (λ d. length d.left) (drain_discard f b r e), length-left f r)
  | takes p r e e' le ↦
      omega (arith, ap (λ d. length d.left) (drain_publish f b p r e), length-left f r)
]

drain-append :
    (b xs : List ℕ)
    → drain (b ++ xs) ≡ after_published (drain b).published (drain ((drain b).left ++ xs))
unfolding drain
drain-append b xs =
    let left = (drain_rounds (suc (length b)) b).left in
    let le = length-left (suc (length b)) b in
    let k = suc (length b + length xs) in
    drain_rounds-append (suc (length b)) (suc (length (b ++ xs))) k b xs (omega arith)
      (omega (arith, length-append b xs)) (omega arith)
    ∙ ap (after_published (drain_rounds (suc (length b)) b).published) (
        drain_rounds_enough k (suc (length (left ++ xs))) (left ++ xs)
          (omega (arith, length-append left xs)) (omega arith))

-- `cs` one after the other
abbrev pub concat : List (List ℕ) → List ℕ
concat [] = []
concat (c ∷ cs) = c ++ concat cs

abbrev pub log_chunks : RtcmLog → List (List ℕ) → Logged
log_chunks log [] = record { log = log; published = [] }
log_chunks log (c ∷ cs) =
    let first = log_rtcm_frames log c in
    let later = log_chunks first.log cs in
    record { log = later.log; published = first.published ++ later.published }

-- Two runs that differ at most in the number of chunks.
abbrev pub IsSameLog : Logged → Logged → Type 0
IsSameLog a b =
    (a.published ≡ b.published)
    × (a.log.buffer ≡ b.log.buffer)
    × (a.log.input_total_bytes ≡ b.log.input_total_bytes)
    × (a.log.frame_count ≡ b.log.frame_count)

abbrev in_two : RtcmLog → List ℕ → List ℕ → Logged
in_two log a b =
    let first = log_rtcm_frames log a in
    let second = log_rtcm_frames first.log b in
    record { log = second.log; published = first.published ++ second.published }

log_rtcm_frames-append :
    (log : RtcmLog) (a b : List ℕ) → IsSameLog (in_two log a b) (log_rtcm_frames log (a ++ b))
unfolding log_rtcm_frames
log_rtcm_frames-append log [] b = (refl, refl, refl, refl)
log_rtcm_frames-append log (x ∷ a) [] =
    rw (append-nil a) (append-nil (drain (log.buffer ++ x ∷ a)).published, refl, refl, refl)
log_rtcm_frames-append log (x ∷ a) (y ∷ b) =
    let first = drain (log.buffer ++ (x ∷ a)) in
    let second = drain (first.left ++ (y ∷ b)) in
    let e : drain (log.buffer ++ (x ∷ (a ++ (y ∷ b)))) ≡ after_published first.published second =
      ap drain (sym (append_assoc log.buffer (x ∷ a) (y ∷ b)))
      ∙ drain-append (log.buffer ++ (x ∷ a)) (y ∷ b) in
    rw e (
      refl,
      refl,
      omega (arith, length-append a (y ∷ b)),
      omega (arith, length-append first.published second.published),
    )

-- However the correction stream is cut into chunks, `logRtcmFrames` publishes the same frames in
-- the same order and leaves the same buffer, number of bytes and number of frames as if it came in
-- one chunk; from any state.
pub log_chunks-concat :
    (log : RtcmLog) (cs : List (List ℕ))
    → IsSameLog (log_chunks log cs) (log_rtcm_frames log (concat cs))
unfolding log_rtcm_frames
log_chunks-concat log [] = (refl, refl, refl, refl)
log_chunks-concat log (c ∷ cs) =
    let first = log_rtcm_frames log c in
    let ih = log_chunks-concat first.log cs in
    let two = log_rtcm_frames-append log c (concat cs) in
    (ap (◌++◌ first.published) ih.0 ∙ two.0, ih.1 ∙ two.1, ih.2 ∙ two.2, ih.3 ∙ two.3)
