-- ===== src/Serial.antt =====
-- The serial reader: `read_exact` and `read_loop` of ublox_driver/src/serial/serial_handler.cpp.
-- What the operating system answers is a list of events, one for each wait and read. A stop of the
-- reader, which clears `read_running_` and writes to the wake pipe, is seen at the next wait.
pub mod Exact
pub mod Sync
pub mod Noise
pub mod Rounds
pub mod Frames
pub mod Write
pub mod Port
mod Tests
use gnss_parser.Prelude.{
  ℕ, zero, suc, ◌+◌, ◌-◌, Bool, true, false, ◌&&◌, List, [], ◌∷◌, ◌++◌, ltb, leb, ◌==◌,
  if◌then◌else◌, length, take, drop, byte_at,
}
use gnss_parser.Ubx.Frame.{sync_1, sync_2, msg_header_len, u16_at}

-- The answer to `wait_for_event(POLLIN, -1)` and the `read` after it. `chunk bs` holds the bytes at
-- hand, of which a read takes as many as fit; `chunk []` is a read of 0 bytes. `interrupted` is
-- EINTR, EAGAIN or EWOULDBLOCK, `failed` any other error of the wait or the read, and `woken` a
-- byte in the wake pipe.
pub data Event : Type 0 where
  chunk : List ℕ → Event
  interrupted failed woken : Event

-- How `read_exact` returned: true, false by a stop, or false by an error or the end of the input.
pub data Status : Type 0 where
  done stopped broken : Status

-- The bytes that were written to the buffer, also those before a failure.
pub record Read : Type 0 where
  pub got : List ℕ
  pub status : Status
  pub rest : List Event

abbrev after : List ℕ → Read → Read
after bs r = record r { got = bs ++ r.got }

-- `read_exact` with `n` bytes left. With no event left the wait does not return.
unfoldable pub read_exact : ℕ → List Event → Read
read_exact zero es = record { got = []; status = done; rest = es }
read_exact (suc n) [] = record { got = []; status = stopped; rest = [] }
read_exact (suc n) (chunk [] ∷ es) = record { got = []; status = broken; rest = es }
read_exact (suc n) (chunk (b ∷ bs) ∷ es) =
    let more = read_exact (n - length bs) es in
    if leb (length bs) n
    then after (b ∷ bs) more
    else record { got = b ∷ take n bs; status = done; rest = chunk (drop n bs) ∷ es }
read_exact (suc n) (interrupted ∷ es) = read_exact (suc n) es
read_exact (suc n) (failed ∷ es) = record { got = []; status = broken; rest = es }
read_exact (suc n) (woken ∷ es) = record { got = []; status = stopped; rest = es }

abbrev is_preamble : List ℕ → ℕ → Bool
is_preamble h i = byte_at h i == sync_1 && byte_at h (i + 1) == sync_2

-- `for (; pream_idx < MSG_HEADER_LEN - 1; ++pream_idx)` with `n` rounds left
unfoldable pub find_preamble : ℕ → ℕ → List ℕ → ℕ
find_preamble zero i h = i
find_preamble (suc n) i h =
    let next = find_preamble n (i + 1) h in if is_preamble h i then i else next

-- The header after `memmove` by `idx` and a read of `got` behind it; where the read was short the
-- old bytes stay.
abbrev pub refill : ℕ → List ℕ → List ℕ → List ℕ
refill idx h got = drop idx h ++ (got ++ drop (msg_header_len - idx + length got) h)

pub record Synced : Type 0 where
  pub header : List ℕ
  pub status : Status
  pub rest : List Event

-- The loop `while (header_remains != 0 && read_running_)`. A failed read leaves it as a good one
-- does, unless the reader was stopped.
unfoldable pub sync : ℕ → List ℕ → List Event → Synced
sync zero h es = record { header = h; status = stopped; rest = es }
sync (suc fuel) h es =
    let idx = find_preamble 5 0 h in
    let r = read_exact idx es in
    let h' = refill idx h r.got in
    elim (idx == 0) [
      | true ↦ record { header = h; status = done; rest = es }
      | false ↦ elim r.status [
        | done ↦ sync fuel h' r.rest
        | stopped ↦ record { header = h'; status = stopped; rest = r.rest }
        | broken ↦ record { header = h'; status = broken; rest = r.rest }
      ]
    ]

-- How `read_loop` ended: its reads failed, or more bytes of a message arrived than `data_buf_` holds.
-- The code does not test that: it writes past the buffer.
pub data End : Type 0 where
  ended overflow : End

pub record Run : Type 0 where
  pub messages : List (List ℕ)
  pub end : End

abbrev pub quit : End → Run
quit e = record { messages = []; end = e }

abbrev pub cons_message : List ℕ → Run → Run
cons_message m r = record r { messages = m ∷ r.messages }

-- The bytes at hand, which bound the rounds of both loops.
unfoldable pub bytes_of : List Event → List ℕ
bytes_of [] = []
bytes_of (chunk bs ∷ es) = bs ++ bytes_of es
bytes_of (interrupted ∷ es) = bytes_of es
bytes_of (failed ∷ es) = bytes_of es
bytes_of (woken ∷ es) = bytes_of es

-- `read_loop`: the messages that it hands to the callbacks, in order.
module _ (buf_size : ℕ) where
  unfoldable pub read_loop : ℕ → List Event → Run
  read_loop zero es = quit ended
  read_loop (suc fuel) es =
      let head = read_exact msg_header_len es in
      let s = sync (suc (length (bytes_of head.rest))) head.got head.rest in
      let n = u16_at s.header 4 + 2 in
      let body = read_exact n s.rest in
      let finish : Run =
        (if ltb buf_size (msg_header_len + length body.got)
          then quit overflow
          else elim body.status [
            | done ↦ cons_message (s.header ++ body.got) (read_loop fuel body.rest)
            | stopped ↦ quit ended
            | broken ↦ quit ended
          ]) in
      elim head.status [
        | done ↦ elim s.status [ done ↦ finish | stopped ↦ quit ended | broken ↦ finish ]
        | stopped ↦ quit ended
        | broken ↦ quit ended
      ]
