-- ===== src/Rtcm/Frames.antt =====
-- The RTCM3 transport frame, and that the drain loop publishes a stream of such frames.
use gnss_parser.Prelude.{
  ℕ, zero, suc, ◌+◌, ◌-◌, ◌*◌, ◌^◌, ◌%◌, ◌/◌, ◌≤◌, ◌<◌, ◌≡◌, refl, ap, ap₂, ◌∙◌, ltb, true, false,
  List, [], ◌∷◌, ◌++◌, length, take, map, byte_at, length-append, append_assoc, take-append,
  drop-append, get_or-append, arith, if◌then◌else◌, All,
}
use gnss_parser.Crc.{compute_rtcm_crc24q}
use gnss_parser.Rtcm.{
  wait, publish, Published, from_preamble, round_at, round, cons_published, drain_rounds, drain,
  payload_length, message_type,
}
use gnss_parser.Rtcm.Steps.{is_reserved, frame_length, crc_fits, round_frame}
use gnss_parser.Rtcm.Chunks.{drain_publish, drain_wait}

-- The preamble, six reserved bits and ten of the length, and the payload.
abbrev pub contents : List ℕ → List ℕ
contents payload = 0xD3 ∷ (length payload / 256) ∷ (length payload % 256) ∷ payload

abbrev crc_bytes : ℕ → List ℕ
crc_bytes c = (c / 2 ^ 16) ∷ (c / 2 ^ 8 % 256) ∷ (c % 256) ∷ []

-- The frame of a payload of at most 1023 bytes.
unfoldable pub rtcm_frame : List ℕ → List ℕ
rtcm_frame payload = contents payload ++ crc_bytes (compute_rtcm_crc24q (contents payload))

-- DF002, the first twelve bits of the payload.
abbrev pub rtcm_type : List ℕ → ℕ
rtcm_type payload =
    if ltb (length payload) 2 then 0 else byte_at payload 0 * 16 + byte_at payload 1 / 16

crc_split :
    (data' : List ℕ)
    → let c = compute_rtcm_crc24q data' in
      c / 2 ^ 16 * 2 ^ 16 + c / 2 ^ 8 % 256 * 2 ^ 8 + c % 256 ≡ c
crc_split data' = omega arith

length-rtcm_frame : (payload : List ℕ) → length (rtcm_frame payload) ≡ length payload + 6
unfolding rtcm_frame
length-rtcm_frame payload =
    omega (arith, length-append payload (crc_bytes (compute_rtcm_crc24q (contents payload))))

none_left : round [] ≡ wait []
unfolding round round_at from_preamble
none_left = refl

plain :
    (payload xs : List ℕ) → length payload ≤ 1023 → is_reserved (rtcm_frame payload ++ xs) ≡ false
unfolding rtcm_frame
plain payload xs fits = ground arith

type_bytes :
    (payload xs : List ℕ)
    → (if ltb (length payload) 2
        then 0
        else byte_at (rtcm_frame payload ++ xs) 3 * 16 + byte_at (rtcm_frame payload ++ xs) 4 / 16)
      ≡ rtcm_type payload
unfolding rtcm_frame
type_bytes [] xs = refl
type_bytes (a ∷ []) xs = refl
type_bytes (a ∷ b ∷ p) xs = ground arith

module _ (payload xs : List ℕ) (fits : length payload ≤ 1023) where
  abbrev stream : List ℕ
  stream = rtcm_frame payload ++ xs

  payload_length_lem : payload_length stream ≡ length payload
  unfolding payload_length rtcm_frame
  payload_length_lem = omega arith

  long_lem : length stream ≡ length payload + 6 + length xs
  long_lem = omega (arith, length-append (rtcm_frame payload) xs, length-rtcm_frame payload)

  from_preamble_lem : from_preamble stream ≡ stream
  unfolding from_preamble rtcm_frame
  from_preamble_lem = refl

  stream_split :
      stream ≡ contents payload ++ (crc_bytes (compute_rtcm_crc24q (contents payload)) ++ xs)
  unfolding rtcm_frame
  stream_split =
      append_assoc (contents payload) (crc_bytes (compute_rtcm_crc24q (contents payload))) xs

  crc_byte_at :
      (n i : ℕ)
      → n ≡ length payload + 3 + i
      → byte_at stream n ≡ byte_at (crc_bytes (compute_rtcm_crc24q (contents payload)) ++ xs) i
  crc_byte_at n i e =
      ap (λ s. byte_at s n) stream_split
      ∙ get_or-append (contents payload) (crc_bytes (compute_rtcm_crc24q (contents payload)) ++ xs)
          n i 0 (omega arith)

  crc_lem : crc_fits stream ≡ true
  crc_lem =
      let n = frame_length stream in
      let len = payload_length_lem in
      let part =
        ap (take (n - 3)) stream_split
        ∙ take-append (contents payload) (crc_bytes (compute_rtcm_crc24q (contents payload)) ++ xs)
            (n - 3) (omega arith) in
      rw part (
        ground (
          arith,
          crc_byte_at (n - 3) 0 (omega arith),
          crc_byte_at (n - 2) 1 (omega arith),
          crc_byte_at (n - 1) 2 (omega arith),
          crc_split (contents payload),
        ))

  type_lem : message_type stream (payload_length stream) ≡ rtcm_type payload
  unfolding message_type
  type_lem = rw payload_length_lem (type_bytes payload xs)

-- The frame as `publishRtcm` gets it.
abbrev pub sent : List ℕ → Published
sent payload = record {
  frame = rtcm_frame payload;
  message_type = rtcm_type payload;
  payload_length = length payload;
}

round-rtcm_frame :
    (payload xs : List ℕ)
    → length payload ≤ 1023
    → round (rtcm_frame payload ++ xs) ≡ publish (sent payload) xs
unfolding round
round-rtcm_frame payload xs fits =
    let s = rtcm_frame payload ++ xs in
    let len = payload_length_lem payload xs fits in
    let size = long_lem payload xs fits in
    let whole = length-rtcm_frame payload in
    ap round_at (from_preamble_lem payload xs fits)
    ∙ round_frame s (ground arith) (plain payload xs fits) (ground arith) (ground arith)
        (crc_lem payload xs fits)
    ∙ ap₂ publish
        (ap₂ (λ f t. record { frame = f; message_type = t; payload_length = payload_length s })
            (take-append (rtcm_frame payload) xs (frame_length s) (omega arith))
            (type_lem payload xs fits)
          ∙ ap
              (λ l. record {
                frame = rtcm_frame payload;
                message_type = rtcm_type payload;
                payload_length = l;
              })
              len)
        (drop-append (rtcm_frame payload) xs (frame_length s) (omega arith))

abbrev pub frames : List (List ℕ) → List ℕ
frames [] = []
frames (p ∷ ps) = rtcm_frame p ++ frames ps

drain_rounds-frames :
    (f : ℕ) (ps : List (List ℕ))
    → All (λ p. length p ≤ 1023) ps
    → length (frames ps) < f
    → drain_rounds f (frames ps) ≡ record { published = map sent ps; left = [] }
drain_rounds-frames zero ps fit lt = absurd (omega arith)
drain_rounds-frames (suc f) [] fit lt = drain_wait f [] [] none_left
drain_rounds-frames (suc f) (p ∷ ps) fit lt =
    drain_publish f (frames (p ∷ ps)) (sent p) (frames ps) (round-rtcm_frame p (frames ps) fit.0)
    ∙ ap (cons_published (sent p)) (
        drain_rounds-frames f ps fit.1
          (omega (arith, length-append (rtcm_frame p) (frames ps), length-rtcm_frame p)))

-- The drain loop publishes exactly the frames of a stream of RTCM3 frames, in order, each with its
-- message type and payload length, and leaves an empty buffer, for payloads of at most 1023 bytes.
pub drain-frames :
    (ps : List (List ℕ))
    → All (λ p. length p ≤ 1023) ps
    → drain (frames ps) ≡ record { published = map sent ps; left = [] }
unfolding drain
drain-frames ps fit = drain_rounds-frames (suc (length (frames ps))) ps fit (omega arith)
