-- ===== src/Ubx/Frame/Spec.antt =====
-- The UBX wire format: sync bytes, class, id, payload length with the low byte first, payload, and the
-- Fletcher checksum over all between, whose sums are written out here without the code's.
use gnss_parser.Prelude.{ℕ, ◌+◌, ◌/◌, ◌%◌, ◌^◌, ◌<◌, List, [], ◌∷◌, ◌≡◌, length, All}
use gnss_parser.Ubx.Checksum.Split.{closed}

abbrev pub IsByte : ℕ → Type 0
IsByte x = x < 256

abbrev pub frame_body : ℕ → ℕ → List ℕ → List ℕ
frame_body cls id payload = cls ∷ id ∷ (length payload % 256) ∷ (length payload / 256) ∷ payload

-- The sum of the bytes, from `t` on.
unfoldable pub total : ℕ → List ℕ → ℕ
total t [] = t
total t (x ∷ xs) = total (t + x) xs

-- The sum of the sums after each byte, from `t` on.
unfoldable pub running : ℕ → List ℕ → ℕ
running t [] = 0
running t (x ∷ xs) = t + x + running (t + x) xs

unfoldable pub frame : ℕ → ℕ → List ℕ → List ℕ
frame cls id payload =
    let body = frame_body cls id payload in
    closed 0xB5 0x62 body (total 0 body % 256) (running 0 body % 256)

-- `data'` is the frame of some message.
pub record IsFrame (data' : List ℕ) : Type 0 where
  pub cls : ℕ
  pub id : ℕ
  pub payload : List ℕ
  pub cls_byte : IsByte cls
  pub id_byte : IsByte id
  pub payload_bytes : All IsByte payload
  pub short : length payload < 2 ^ 16
  pub framed : data' ≡ frame cls id payload
