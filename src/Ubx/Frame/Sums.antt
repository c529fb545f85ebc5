-- ===== src/Ubx/Frame/Sums.antt =====
-- `check_checksum` and `set_checksum` compute the sums of the wire format.
use gnss_parser.Prelude.{ℕ, ◌+◌, ◌%◌, List, [], ◌∷◌, ◌≡◌, refl, sym, ap₂, ◌∙◌, arith}
use gnss_parser.Ubx.Checksum.{Sums, zero_sums, add_byte, sum_bytes}
use gnss_parser.Ubx.Checksum.Split.{closed}
use gnss_parser.Ubx.Frame.Spec.{frame, frame_body, total, running}

-- The loop from sums that stand for `t` and `u`.
sum_bytes-running :
    (s : Sums) (t u : ℕ) (xs : List ℕ)
    → s.cka ≡ t % 256
    → s.ckb ≡ u % 256
    → ((sum_bytes s xs).cka ≡ total t xs % 256) × ((sum_bytes s xs).ckb ≡ (u + running t xs) % 256)
unfolding sum_bytes add_byte total running
sum_bytes-running s t u [] a b = (a, b ∙ omega arith)
sum_bytes-running s t u (x ∷ xs) a b =
    let more =
      sum_bytes-running (add_byte s x) (t + x) (u + (t + x)) xs (omega arith) (omega arith) in
    (more.0, more.1 ∙ omega arith)

pub frame_lem :
    (cls id : ℕ) (payload : List ℕ)
    → let s = sum_bytes zero_sums (frame_body cls id payload) in
      frame cls id payload ≡ closed 0xB5 0x62 (frame_body cls id payload) s.cka s.ckb
unfolding frame
frame_lem cls id payload =
    let sums = sum_bytes-running zero_sums 0 0 (frame_body cls id payload) refl refl in
    sym (ap₂ (closed 0xB5 0x62 (frame_body cls id payload)) sums.0 (sums.1 ∙ omega arith))
