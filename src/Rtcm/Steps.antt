-- ===== src/Rtcm/Steps.antt =====
-- The rounds of the drain loop: they shorten the buffer, and bytes that arrive later change none
-- of the rounds that continue.
use gnss_parser.Prelude.{
  take-append_left, drop-append_left, ℕ, ◌+◌, ◌-◌, ◌≤◌, ◌<◌, ◌%◌, ◌/◌, ◌≡◌, refl, ap, ap₂, ◌∙◌, not,
  Bool, true, false, List, [], ◌∷◌, ◌++◌, ltb, ◌==◌, Bool-cases, length, take, drop, length-append,
  length-drop, get_or-append_left, arith, inl, inr, byte_at,
}
use gnss_parser.Crc.{compute_rtcm_crc24q}
use gnss_parser.Rtcm.{
  wait, discard, publish, Published, from_preamble, round_at, payload_length, message_type,
  expected_crc, rtcm_preamble, rtcm_max_payload_length,
}

pub from_preamble_again :
    (b xs : List ℕ) → from_preamble (b ++ xs) ≡ from_preamble (from_preamble b ++ xs)
unfolding from_preamble
from_preamble_again [] xs = refl
from_preamble_again (x ∷ b) xs = elim (Bool-cases (x == rtcm_preamble)) [
  | inl t ↦ rw t (rw t refl)
  | inr f ↦ rw f (from_preamble_again b xs)
]

-- Where the preamble stands, it stays.
pub from_preamble_stays :
    (b xs : List ℕ) → 0 < length (from_preamble b) → from_preamble (b ++ xs) ≡ from_preamble b ++ xs
unfolding from_preamble
from_preamble_stays [] xs lt = absurd (omega arith)
from_preamble_stays (x ∷ b) xs lt = elim (Bool-cases (x == rtcm_preamble)) [
  | inl t ↦ rw t refl
  | inr f ↦ rw f (from_preamble_stays b xs (ground arith))
]

pub length-from_preamble : (b : List ℕ) → length (from_preamble b) ≤ length b
unfolding from_preamble
length-from_preamble [] = omega arith
length-from_preamble (x ∷ b) = ground (arith, length-from_preamble b)

abbrev pub is_reserved : List ℕ → Bool
is_reserved b = not (byte_at b 1 / 4 % 64 == 0)

abbrev pub frame_length : List ℕ → ℕ
frame_length b = payload_length b + 6

abbrev pub crc_fits : List ℕ → Bool
crc_fits b = compute_rtcm_crc24q (take (frame_length b - 3) b) == expected_crc b (frame_length b)

abbrev pub frame_of : List ℕ → Published
frame_of b = record {
  frame = take (frame_length b) b;
  message_type = message_type b (payload_length b);
  payload_length = payload_length b;
}

round_short : (b : List ℕ) → ltb (length b) 3 ≡ true → round_at b ≡ wait b
unfolding round_at
round_short b e = rw e refl

module _ (b : List ℕ) (long : ltb (length b) 3 ≡ false) where
  round_reserved : is_reserved b ≡ true → round_at b ≡ discard (drop 1 b)
  unfolding round_at
  round_reserved e = rw (long, e) refl

  module _ (plain : is_reserved b ≡ false) where
    round_over :
        ltb rtcm_max_payload_length (payload_length b) ≡ true → round_at b ≡ discard (drop 1 b)
    unfolding round_at
    round_over e = rw (long, plain, e) refl

    module _ (fits : ltb rtcm_max_payload_length (payload_length b) ≡ false) where
      round_partial : ltb (length b) (frame_length b) ≡ true → round_at b ≡ wait b
      unfolding round_at
      round_partial e = rw (long, plain, fits, e) refl

      module _ (whole : ltb (length b) (frame_length b) ≡ false) where
        round_broken : crc_fits b ≡ false → round_at b ≡ discard (drop 1 b)
        unfolding round_at
        round_broken e = rw (long, plain, fits, whole, e) refl

        pub round_frame :
            crc_fits b ≡ true → round_at b ≡ publish (frame_of b) (drop (frame_length b) b)
        unfolding round_at
        round_frame e = rw (long, plain, fits, whole, e) refl

-- The round on `b` stands whatever arrives behind it.
pub data IsSettled (b : List ℕ) (xs : List ℕ) : Type 0 where
  waits : round_at b ≡ wait b → IsSettled b xs
  drops :
      (r : List ℕ)
      → round_at b ≡ discard r
      → round_at (b ++ xs) ≡ discard (r ++ xs)
      → length r < length b
      → IsSettled b xs
  emits :
      (p : Published) (r : List ℕ)
      → round_at b ≡ publish p r
      → round_at (b ++ xs) ≡ publish p (r ++ xs)
      → length r < length b
      → IsSettled b xs

module _ (b xs : List ℕ) (long : ltb (length b) 3 ≡ false) where
  same_byte : (i : ℕ) → i < length b → byte_at (b ++ xs) i ≡ byte_at b i
  same_byte i lt = get_or-append_left b xs i 0 lt

  same_reserved : is_reserved (b ++ xs) ≡ is_reserved b
  same_reserved = ap (λ x. not (x / 4 % 64 == 0)) (same_byte 1 (ground arith))

  same_length : payload_length (b ++ xs) ≡ payload_length b
  unfolding payload_length
  same_length = omega (arith, same_byte 1 (ground arith), same_byte 2 (ground arith))

  same_long : ltb (length (b ++ xs)) 3 ≡ false
  same_long = ground (arith, length-append b xs)

  shorter : (n : ℕ) → 0 < n → length (drop n b) < length b
  shorter n lt = ground (arith, length-drop n b)

  same_type :
      frame_length b ≤ length b
      → message_type (b ++ xs) (payload_length b) ≡ message_type b (payload_length b)
  unfolding message_type
  same_type whole = elim (Bool-cases (ltb (payload_length b) 2)) [
    | inl e ↦ rw (e) refl
    | inr e ↦ rw e (omega (arith, same_byte 3 (ground arith), same_byte 4 (ground arith)))
  ]

  same_frame : frame_length b ≤ length b → frame_of (b ++ xs) ≡ frame_of b
  same_frame whole = rw same_length (
      ap₂ (λ f t. record { frame = f; message_type = t; payload_length = payload_length b })
        (take-append_left (frame_length b) b xs whole) (same_type whole))

  same_crc : frame_length b ≤ length b → crc_fits (b ++ xs) ≡ crc_fits b
  same_crc whole =
      let n = frame_length b in
      rw
        (
          same_length,
          take-append_left (n - 3) b xs (omega arith),
          same_byte (n - 3) (omega arith),
          same_byte (n - 2) (omega arith),
          same_byte (n - 1) (omega arith),
        )
        refl

  drop_stays :
      round_at b ≡ discard (drop 1 b)
      → round_at (b ++ xs) ≡ discard (drop 1 (b ++ xs))
      → IsSettled b xs
  drop_stays e e' =
      drops (drop 1 b) e (e' ∙ ap discard (drop-append_left 1 b xs (ground arith)))
        (shorter 1 (omega arith))

  whole_stays :
      is_reserved b ≡ false
      → ltb rtcm_max_payload_length (payload_length b) ≡ false
      → ltb (length b) (frame_length b) ≡ false
      → IsSettled b xs
  whole_stays plain fits whole =
      let n = frame_length b in
      let le : n ≤ length b = ground arith in
      let plain' = same_reserved ∙ plain in
      let fits' = ap (λ l. ltb rtcm_max_payload_length l) same_length ∙ fits in
      let whole' : ltb (length (b ++ xs)) (frame_length (b ++ xs)) ≡ false =
        ground (arith, same_length, length-append b xs) in
      elim (Bool-cases (crc_fits b)) [
        | inl ok ↦
            emits (frame_of b) (drop n b) (round_frame b long plain fits whole ok)
              (round_frame (b ++ xs) same_long plain' fits' whole' (same_crc le ∙ ok)
                ∙ ap₂ publish (same_frame le)
                    (ap (λ k. drop (k + 6) (b ++ xs)) same_length ∙ drop-append_left n b xs le))
              (shorter n (omega arith))
        | inr bad ↦
            drop_stays (round_broken b long plain fits whole bad)
              (round_broken (b ++ xs) same_long plain' fits' whole' (same_crc le ∙ bad))
      ]

-- A round that continues is the same round when bytes stand behind the buffer.
pub round_at-IsSettled : (b xs : List ℕ) → IsSettled b xs
round_at-IsSettled b xs = elim (Bool-cases (ltb (length b) 3)) [
  | inl short ↦ waits (round_short b short)
  | inr long ↦ elim (Bool-cases (is_reserved b)) [
    | inl bad ↦
        drop_stays b xs long (round_reserved b long bad)
          (round_reserved (b ++ xs) (same_long b xs long) (same_reserved b xs long ∙ bad))
    | inr plain ↦ elim (Bool-cases (ltb rtcm_max_payload_length (payload_length b))) [
      | inl over ↦ drop_stays b xs long (round_over b long plain over) (
          round_over (b ++ xs) (same_long b xs long) (same_reserved b xs long ∙ plain)
            (ap (λ l. ltb rtcm_max_payload_length l) (same_length b xs long) ∙ over))
      | inr fits ↦ elim (Bool-cases (ltb (length b) (frame_length b))) [
        | inl short ↦ waits (round_partial b long plain fits short)
        | inr whole ↦ whole_stays b xs long plain fits whole
      ]
    ]
  ]
]
