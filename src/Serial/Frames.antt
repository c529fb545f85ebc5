-- ===== src/Serial/Frames.antt =====
-- `read_loop` on an open port delivers the messages of the stream and skips what stands between.
use gnss_parser.Prelude.{
  ℕ, zero, suc, ◌+◌, ◌<◌, ◌≡◌, sym, ap, subst, ◌∙◌, true, List, [], ◌∷◌, ◌++◌, map, length, arith,
  byte_at,
}
use gnss_parser.Ubx.Frame.{u16_at}
use gnss_parser.Serial.{Event, ended, overflow, bytes_of, read_loop, cons_message}
use gnss_parser.Serial.Exact.{IsLive}
use gnss_parser.Serial.Sync.{is_pair, skip}
use gnss_parser.Serial.Noise.{IsNoise, skip-noise}
use gnss_parser.Serial.Rounds.{
  IsMessage, body, header_lem, length-got, body-IsExact, round_message, round_noise, round_overflow,
}

-- A message and the noise before it.
pub record Piece : Type 0 where
  pub noise : List ℕ
  pub message : List ℕ

abbrev pub AreClean : ℕ → List Piece → Type 0
AreClean buf_size [] = Unit
AreClean buf_size (p ∷ ps) = IsNoise p.noise × IsMessage buf_size p.message × AreClean buf_size ps

abbrev pub stream : List Piece → List ℕ → List ℕ
stream [] tail = tail
stream (p ∷ ps) tail = p.noise ++ (p.message ++ stream ps tail)

-- On an open port, `read_loop` hands on exactly the messages of the stream, in order and whole,
-- for messages with the length of their length field that fit the buffer and with any bytes
-- without a preamble before, between and after them, however the input is cut into chunks; a round
-- for each message and one more are enough.
pub read_loop-stream :
    (buf_size fuel : ℕ) (ps : List Piece) (tail : List ℕ) (es : List Event)
    → IsLive es
    → AreClean buf_size ps
    → IsNoise tail
    → bytes_of es ≡ stream ps tail
    → length ps < fuel
    → read_loop buf_size fuel es ≡ record { messages = map (λ p. p.message) ps; end = ended }
read_loop-stream buf_size zero ps tail es live clean noise e lt = absurd (omega arith)
read_loop-stream buf_size (suc fuel) [] tail es live clean noise e lt =
    round_noise buf_size fuel es live (subst IsNoise (sym e) noise)
read_loop-stream buf_size (suc fuel) (p ∷ ps) tail es live clean noise e lt =
    let msg = clean.1 in
    let at =
      ap skip e
      ∙ skip-noise p.noise p.message (stream ps tail) clean.0 (omega (arith, msg.1)) msg.0 in
    let b = body-IsExact es p.message (stream ps tail) live msg.1 at in
    round_message buf_size fuel es p.message (stream ps tail) live msg at
    ∙ ap (cons_message p.message)
        (read_loop-stream buf_size fuel ps tail (body es).rest b.3 clean.2 noise b.2 (omega arith))

-- A message whose length field asks for more than the buffer holds is written past its end: on an
-- open port, the round that meets such a message behind bytes without a preamble ends in `overflow`.
pub read_loop-overflow :
    (buf_size fuel : ℕ) (noise m tail : List ℕ) (es : List Event)
    → IsLive es
    → IsNoise noise
    → is_pair (byte_at m 0) (byte_at m 1) ≡ true
    → length m ≡ 6 + (u16_at m 4 + 2)
    → buf_size < length m
    → bytes_of es ≡ noise ++ (m ++ tail)
    → read_loop buf_size (suc fuel) es ≡ record { messages = []; end = overflow }
read_loop-overflow buf_size fuel noise m tail es live clean pair len over e =
    let at = ap skip e ∙ skip-noise noise m tail clean (omega arith) pair in
    let h = header_lem es m tail live len at in
    round_overflow buf_size fuel es h.0 h.1 (ground (arith, length-got es m tail live len at))
