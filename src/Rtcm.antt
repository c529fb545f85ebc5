-- ===== src/Rtcm.antt =====
-- The RTCM3 frames of the correction stream: `logRtcmFrames`, `drainRtcmLogBuffer`,
-- `GetRtcmPayloadLength` and `GetRtcmMessageType` of
-- ublox_driver/src/gnss_communication_wrapper/ublox_driver.cpp. The log lines are left out, and
-- what `publishRtcm` is handed is the output.
pub mod Steps
pub mod Chunks
pub mod Frames
mod Tests
use gnss_parser.Prelude.{
  ℕ, zero, suc, ◌+◌, ◌-◌, ◌*◌, ◌/◌, ◌%◌, ◌^◌, Bool, not, List, [], ◌∷◌, ◌++◌, ltb, ◌==◌,
  if◌then◌else◌, length, take, drop, byte_at,
}
use gnss_parser.Crc.{compute_rtcm_crc24q}

-- kRtcmPreamble and kRtcmMaxPayloadLength
abbrev pub rtcm_preamble : ℕ
rtcm_preamble = 0xD3

abbrev pub rtcm_max_payload_length : ℕ
rtcm_max_payload_length = 1023

-- `((frame[1] & 0x03) << 8) | frame[2]`
unfoldable pub payload_length : List ℕ → ℕ
payload_length frame = byte_at frame 1 % 4 * 256 + byte_at frame 2

-- `(frame[3] << 4) | (frame[4] >> 4)`
unfoldable pub message_type : List ℕ → ℕ → ℕ
message_type frame len = if ltb len 2 then 0 else byte_at frame 3 * 16 + byte_at frame 4 / 16

-- The three bytes before `frame_length`.
abbrev pub expected_crc : List ℕ → ℕ → ℕ
expected_crc buffer n =
    byte_at buffer (n - 3) * 2 ^ 16 + byte_at buffer (n - 2) * 2 ^ 8 + byte_at buffer (n - 1)

-- The arguments of `publishRtcm`.
pub record Published : Type 0 where
  pub frame : List ℕ
  pub message_type : ℕ
  pub payload_length : ℕ

-- A round of `while (true)`: return with the buffer that is left, drop one byte and continue, or
-- publish a frame and continue behind it.
pub data Round : Type 0 where
  wait discard : List ℕ → Round
  publish : Published → List ℕ → Round

-- `std::find` of the preamble and the `erase` before it.
unfoldable pub from_preamble : List ℕ → List ℕ
from_preamble [] = []
from_preamble (x ∷ xs) =
    let later = from_preamble xs in if x == rtcm_preamble then x ∷ xs else later

-- The round on a buffer that starts with the preamble.
unfoldable pub round_at : List ℕ → Round
round_at buffer =
    let len = payload_length buffer in
    let n = len + 6 in
    if ltb (length buffer) 3
    then wait buffer
    else if not (byte_at buffer 1 / 4 % 64 == 0)
    then discard (drop 1 buffer)
    else if ltb rtcm_max_payload_length len
    then discard (drop 1 buffer)
    else if ltb (length buffer) n
    then wait buffer
    else if not (compute_rtcm_crc24q (take (n - 3) buffer) == expected_crc buffer n)
    then discard (drop 1 buffer)
    else publish
        (record {
          frame = take n buffer;
          message_type = message_type buffer len;
          payload_length = len;
        })
        (drop n buffer)

unfoldable pub round : List ℕ → Round
round buffer = round_at (from_preamble buffer)

-- The buffer that the loop leaves and what it publishes.
pub record Drained : Type 0 where
  pub published : List Published
  pub left : List ℕ

abbrev pub cons_published : Published → Drained → Drained
cons_published p d = record d { published = p ∷ d.published }

unfoldable pub drain_rounds : ℕ → List ℕ → Drained
drain_rounds zero buffer = record { published = []; left = buffer }
drain_rounds (suc fuel) buffer = elim (round buffer) [
  | wait rest ↦ record { published = []; left = rest }
  | discard rest ↦ drain_rounds fuel rest
  | publish p rest ↦ cons_published p (drain_rounds fuel rest)
]

-- Each round that continues drops a byte.
unfoldable pub drain : List ℕ → Drained
drain buffer = drain_rounds (suc (length buffer)) buffer

-- The members that `logRtcmFrames` updates; the counters are `uint64_t`.
pub record RtcmLog : Type 0 where
  pub buffer : List ℕ
  pub input_chunk_count : ℕ
  pub input_total_bytes : ℕ
  pub frame_count : ℕ

pub record Logged : Type 0 where
  pub log : RtcmLog
  pub published : List Published

-- `logRtcmFrames`, with `logRtcmInputChunk`
unfoldable pub log_rtcm_frames : RtcmLog → List ℕ → Logged
log_rtcm_frames log [] = record { log = log; published = [] }
log_rtcm_frames log (x ∷ xs) =
    let d = drain (log.buffer ++ (x ∷ xs)) in
    record {
      log = record {
        buffer = d.left;
        input_chunk_count = (log.input_chunk_count + 1) % 2 ^ 64;
        input_total_bytes = (log.input_total_bytes + length (x ∷ xs)) % 2 ^ 64;
        frame_count = (log.frame_count + length d.published) % 2 ^ 64;
      };
      published = d.published;
    }
