-- ===== src/Ubx/Checksum/Errors.antt =====
-- What the checksum of a message body detects.
use gnss_parser.Prelude.{
  ℕ, ◌+◌, ◌-◌, ◌%◌, ◌<◌, Bool, true, false, List, [], ◌∷◌, ◌++◌, ◌≡◌, ◌≢◌, refl, arith, length,
  length-append,
}
use gnss_parser.Ubx.Checksum.Split.{closed, check-closed}
use gnss_parser.Ubx.Checksum.{Sums, zero_sums, add_byte, sum_bytes, check_checksum}

-- Both sums are bytes.
pub sum_bytes-lt :
    (s : Sums) (xs : List ℕ)
    → s.cka < 256
    → s.ckb < 256
    → ((sum_bytes s xs).cka < 256) × ((sum_bytes s xs).ckb < 256)
unfolding sum_bytes add_byte
sum_bytes-lt s [] h k = (h, k)
sum_bytes-lt s (x ∷ xs) h k = sum_bytes-lt (add_byte s x) xs (omega arith) (omega arith)

pub sum_bytes-append :
    (s : Sums) (xs ys : List ℕ) → sum_bytes s (xs ++ ys) ≡ sum_bytes (sum_bytes s xs) ys
unfolding sum_bytes
sum_bytes-append s [] ys = refl
sum_bytes-append s (x ∷ xs) ys = sum_bytes-append (add_byte s x) xs ys

-- The first sum is a difference of the start carried along.
sum_bytes_cka :
    (s t : Sums) (d : ℕ) (xs : List ℕ)
    → (s.cka + d) % 256 ≡ t.cka % 256
    → ((sum_bytes s xs).cka + d) % 256 ≡ (sum_bytes t xs).cka % 256
unfolding sum_bytes add_byte
sum_bytes_cka s t d [] h = h
sum_bytes_cka s t d (x ∷ xs) h = sum_bytes_cka (add_byte s x) (add_byte t x) d xs (omega arith)

-- Two bodies that differ in one byte have different first sums.
one_byte_sums :
    (s : Sums) (x y : ℕ) (post : List ℕ)
    → x < 256
    → y < 256
    → (sum_bytes (add_byte s x) post).cka ≡ (sum_bytes (add_byte s y) post).cka
    → x ≡ y
unfolding add_byte
one_byte_sums s x y post hx hy e =
    omega (arith, sum_bytes_cka (add_byte s x) (add_byte s y) (y + 256 - x) post (omega arith))

sum_bytes_ckb :
    (s t : Sums) (d : ℕ) (xs : List ℕ)
    → s.cka ≡ t.cka
    → (s.ckb + d) % 256 ≡ t.ckb % 256
    → ((sum_bytes s xs).ckb + d) % 256 ≡ (sum_bytes t xs).ckb % 256
unfolding sum_bytes add_byte
sum_bytes_ckb s t d [] e h = h
sum_bytes_ckb s t d (x ∷ xs) e h =
    sum_bytes_ckb (add_byte s x) (add_byte t x) d xs (omega arith) (omega arith)

-- Two bodies that differ in the order of two neighbours have different second sums.
swapped_sums :
    (s : Sums) (x y : ℕ) (post : List ℕ)
    → x < 256
    → y < 256
    → (sum_bytes (add_byte (add_byte s x) y) post).ckb
      ≡ (sum_bytes (add_byte (add_byte s y) x) post).ckb
    → x ≡ y
unfolding add_byte
swapped_sums s x y post hx hy e = omega (
  arith,
  sum_bytes_ckb (add_byte (add_byte s x) y) (add_byte (add_byte s y) x) (y + 256 - x) post
      (omega arith) (omega arith),
)

refuted : (b : Bool) → ¬ (b ≡ true) → b ≡ false
refuted true h = absurd (h refl)
refuted false h = refl

module _ (h0 h1 a b size : ℕ) (pre post : List ℕ) (x y : ℕ) (hx : x < 256) (hy : y < 256) where
  one_byte :
      size ≡ length (pre ++ (x ∷ post)) + 4
      → check_checksum (closed h0 h1 (pre ++ (x ∷ post)) a b) size ≡ true
      → check_checksum (closed h0 h1 (pre ++ (y ∷ post)) a b) size ≡ true
      → x ≡ y
  unfolding sum_bytes
  one_byte e p q = one_byte_sums (sum_bytes zero_sums pre) x y post hx hy (
      ground (
        arith,
        check-closed h0 h1 (pre ++ (x ∷ post)) a b size,
        check-closed h0 h1 (pre ++ (y ∷ post)) a b size,
        length-append pre (x ∷ post),
        length-append pre (y ∷ post),
        sum_bytes-append zero_sums pre (x ∷ post),
        sum_bytes-append zero_sums pre (y ∷ post),
      ))

  swapped :
      size ≡ length (pre ++ (x ∷ y ∷ post)) + 4
      → check_checksum (closed h0 h1 (pre ++ (x ∷ y ∷ post)) a b) size ≡ true
      → check_checksum (closed h0 h1 (pre ++ (y ∷ x ∷ post)) a b) size ≡ true
      → x ≡ y
  unfolding sum_bytes
  swapped e p q = swapped_sums (sum_bytes zero_sums pre) x y post hx hy (
      ground (
        arith,
        check-closed h0 h1 (pre ++ (x ∷ y ∷ post)) a b size,
        check-closed h0 h1 (pre ++ (y ∷ x ∷ post)) a b size,
        length-append pre (x ∷ y ∷ post),
        length-append pre (y ∷ x ∷ post),
        sum_bytes-append zero_sums pre (x ∷ y ∷ post),
        sum_bytes-append zero_sums pre (y ∷ x ∷ post),
      ))

  -- A message that passes `check_checksum` no longer passes it when one byte between the sync bytes
  -- and the checksum is changed to another byte.
  pub check_checksum-one_byte :
      size ≡ length (pre ++ (x ∷ post)) + 4
      → x ≢ y
      → check_checksum (closed h0 h1 (pre ++ (x ∷ post)) a b) size ≡ true
      → check_checksum (closed h0 h1 (pre ++ (y ∷ post)) a b) size ≡ false
  check_checksum-one_byte e ne p = refuted _ (λ q. ne (one_byte e p q))

  -- A message that passes `check_checksum` no longer passes it when two different neighbouring
  -- bytes between the sync bytes and the checksum are swapped.
  check_checksum-swapped :
      size ≡ length (pre ++ (x ∷ y ∷ post)) + 4
      → x ≢ y
      → check_checksum (closed h0 h1 (pre ++ (x ∷ y ∷ post)) a b) size ≡ true
      → check_checksum (closed h0 h1 (pre ++ (y ∷ x ∷ post)) a b) size ≡ false
  check_checksum-swapped e ne p = refuted _ (λ q. ne (swapped e p q))
