-- ===== src/Ubx/Checksum/Split.antt =====
-- `check_checksum` and `set_checksum` on a message written as two sync bytes, a body and two
-- checksum bytes.
use gnss_parser.Prelude.{
  ℕ, ◌+◌, ◌-◌, ◌&&◌, List, [], ◌∷◌, ◌++◌, ◌≡◌, ◌∙◌, ap, arith, ◌==◌, length, set, byte_at,
  take-append, get_or-append, set-append,
}
use gnss_parser.Ubx.Checksum.{zero_sums, sum_bytes, summed, check_checksum, set_checksum}

-- A message with its checksum in the last two bytes.
abbrev pub closed : ℕ → ℕ → List ℕ → ℕ → ℕ → List ℕ
closed h0 h1 body a b = h0 ∷ h1 ∷ (body ++ (a ∷ b ∷ []))

module _ (h0 h1 : ℕ) (body : List ℕ) (a b size : ℕ) (e : size ≡ length body + 4) where
  summed-closed : summed (closed h0 h1 body a b) size ≡ body
  summed-closed = take-append body (a ∷ b ∷ []) (size - 4) (omega arith)

  byte_at-closed_fst : byte_at (closed h0 h1 body a b) (size - 2) ≡ a
  byte_at-closed_fst = get_or-append (h0 ∷ h1 ∷ body) (a ∷ b ∷ []) (size - 2) 0 0 (omega arith)

  byte_at-closed_snd : byte_at (closed h0 h1 body a b) (size - 1) ≡ b
  byte_at-closed_snd = get_or-append (h0 ∷ h1 ∷ body) (a ∷ b ∷ []) (size - 1) 1 0 (omega arith)

  pub check-closed :
      check_checksum (closed h0 h1 body a b) size
      ≡ ((sum_bytes zero_sums body).cka == a && (sum_bytes zero_sums body).ckb == b)
  unfolding check_checksum
  check-closed = rw (summed-closed, byte_at-closed_fst, byte_at-closed_snd)

  pub set-closed :
      set_checksum (closed h0 h1 body a b) size
      ≡ closed h0 h1 body (sum_bytes zero_sums body).cka (sum_bytes zero_sums body).ckb
  unfolding set_checksum
  set-closed =
      let s = sum_bytes zero_sums body in
      rw summed-closed (
        ap (λ l. set l (size - 1) s.ckb)
          (set-append (h0 ∷ h1 ∷ body) (a ∷ b ∷ []) (size - 2) 0 s.cka (omega arith))
        ∙ set-append (h0 ∷ h1 ∷ body) (s.cka ∷ b ∷ []) (size - 1) 1 s.ckb (omega arith))
