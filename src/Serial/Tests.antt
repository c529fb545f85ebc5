-- ===== src/Serial/Tests.antt =====
-- Runs of the serial reader, and its theorems at concrete streams.
use gnss_parser.Prelude.{true, drop, ℕ, ◌++◌, List, [], ◌∷◌, ◌≡◌, refl, map, take, arith}
use gnss_parser.Serial.{
  Event, chunk, interrupted, failed, ended, overflow, read_exact, find_preamble, sync, read_loop,
  bytes_of,
}
use gnss_parser.Serial.Exact.{IsExact, read_exact-IsExact}
use gnss_parser.Serial.Frames.{Piece, read_loop-stream, read_loop-overflow}
use gnss_parser.Serial.Write.{Answer, accepted, again, refused, write_all}
use gnss_parser.Serial.Write.Complete.{write_all_complete}

abbrev ack : List ℕ
ack = 0xB5 ∷ 0x62 ∷ 0x05 ∷ 0x01 ∷ 2 ∷ 0 ∷ 0x06 ∷ 0x8A ∷ 0x98 ∷ 0xC1 ∷ []

-- An acknowledgement behind two bytes of noise, cut in the middle of its header.
abbrev port : List Event
port =
    chunk (0x24 ∷ 0xB5 ∷ 0xB5 ∷ 0x62 ∷ 0x05 ∷ [])
    ∷ interrupted
    ∷ chunk (0x01 ∷ 2 ∷ 0 ∷ 0x06 ∷ 0x8A ∷ 0x98 ∷ 0xC1 ∷ 0x0A ∷ [])
    ∷ []

abbrev pieces : List Piece
pieces = record { noise = 0x24 ∷ 0xB5 ∷ []; message = ack } ∷ []

read_loop-run : read_loop 8192 3 port ≡ record { messages = ack ∷ []; end = ended }
unfolding read_loop read_exact sync find_preamble bytes_of
read_loop-run = refl

-- An error while a message is read: it is lost.
read_loop-failed :
    read_loop 8192 3 (chunk ack ∷ chunk (take 9 ack) ∷ failed ∷ [])
    ≡ record { messages = ack ∷ []; end = ended }
unfolding read_loop read_exact sync find_preamble bytes_of
read_loop-failed = refl

port_bytes : bytes_of port ≡ (0x24 ∷ 0xB5 ∷ []) ++ (ack ++ (0x0A ∷ []))
unfolding bytes_of
port_bytes = refl

read_exact-IsExact_example : IsExact 7 (bytes_of port) (read_exact 7 port)
read_exact-IsExact_example = read_exact-IsExact 7 port tt

read_loop-stream_example :
    read_loop 8192 2 port ≡ record { messages = map (λ p. p.message) pieces; end = ended }
read_loop-stream_example =
    read_loop-stream 8192 2 pieces (0x0A ∷ []) port tt ((refl, tt), (refl, refl, omega arith), tt)
      tt port_bytes (omega arith)

read_loop-overflow_example : read_loop 9 1 port ≡ record { messages = []; end = overflow }
read_loop-overflow_example =
    read_loop-overflow 9 0 (0x24 ∷ 0xB5 ∷ []) ack (0x0A ∷ []) port tt (refl, tt) refl refl
      (omega arith) port_bytes

abbrev answers : List Answer
answers = accepted 4 ∷ again ∷ accepted 9 ∷ accepted 1 ∷ []

write_all-run : (write_all ack (accepted 4 ∷ again ∷ refused ∷ [])).left ≡ drop 4 ack
unfolding write_all
write_all-run = refl

write_all_complete_example :
    write_all (0xB5 ∷ 0x62 ∷ 5 ∷ []) answers
    ≡ record { sent = 0xB5 ∷ 0x62 ∷ 5 ∷ []; left = []; result = true }
write_all_complete_example = write_all_complete (0xB5 ∷ 0x62 ∷ 5 ∷ []) answers tt (omega arith)
