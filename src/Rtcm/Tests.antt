-- ===== src/Rtcm/Tests.antt =====
-- Runs of the RTCM frame reader, and its theorems at concrete streams.
use gnss_parser.Prelude.{ℕ, List, [], ◌∷◌, ◌≡◌, refl, map, arith}
use gnss_parser.Crc.{compute_rtcm_crc24q, rtcm_from, rtcm_byte, shift_times, shift_once}
use gnss_parser.Rtcm.{
  RtcmLog, drain, drain_rounds, round, round_at, from_preamble, payload_length, message_type,
  log_rtcm_frames,
}
use gnss_parser.Rtcm.Chunks.{log_chunks, concat, IsSameLog, log_chunks-concat}
use gnss_parser.Rtcm.Frames.{rtcm_frame, frames, sent, drain-frames}

abbrev payload : List ℕ
payload = 0x3E ∷ 0xD7 ∷ []

-- Noise, then a frame of type 1005 with a broken one before it.
drain-run :
    drain (0x24 ∷ 0xD3 ∷ 0x00 ∷ 0x02 ∷ 0x3E ∷ 0xD7 ∷ 1 ∷ 2 ∷ 3 ∷ rtcm_frame payload)
    ≡ record { published = sent payload ∷ []; left = [] }
unfolding drain drain_rounds round round_at from_preamble payload_length message_type rtcm_frame
    compute_rtcm_crc24q rtcm_from rtcm_byte shift_times shift_once
drain-run = refl

drain-frames_example :
    drain (frames (payload ∷ [] ∷ []))
    ≡ record { published = map sent (payload ∷ [] ∷ []); left = [] }
drain-frames_example = drain-frames (payload ∷ [] ∷ []) (omega arith, (omega arith, tt))

abbrev log : RtcmLog
log = record { buffer = 0xD3 ∷ []; input_chunk_count = 1; input_total_bytes = 1; frame_count = 0 }

abbrev chunks : List (List ℕ)
chunks = (0x00 ∷ 0x02 ∷ []) ∷ (0x3E ∷ []) ∷ (0xD7 ∷ 0x01 ∷ 0x02 ∷ 0x03 ∷ 0xD3 ∷ []) ∷ []

log_chunks-concat_example : IsSameLog (log_chunks log chunks) (log_rtcm_frames log (concat chunks))
log_chunks-concat_example = log_chunks-concat log chunks
