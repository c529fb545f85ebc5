-- ===== src/Serial/Exact.antt =====
-- `read_exact` does not see how the input is cut into chunks.
use gnss_parser.Prelude.{
  take-append_left, drop-append_left, ℕ, zero, suc, ◌-◌, ◌≤◌, ◌<◌, ◌≡◌, refl, sym, ap, ◌∙◌, true,
  false, List, [], ◌∷◌, ◌++◌, leb, Bool-cases, if◌then◌else◌, length, take, drop, length-append,
  arith, inl, inr,
}
use gnss_parser.Serial.{
  Event, chunk, interrupted, failed, woken, done, stopped, Read, read_exact, bytes_of,
}

-- An open port: no error, no end of the input, and no stop.
abbrev pub IsLive : List Event → Type 0
IsLive [] = Unit
IsLive (chunk [] ∷ es) = ⊥
IsLive (chunk (b ∷ bs) ∷ es) = IsLive es
IsLive (interrupted ∷ es) = IsLive es
IsLive (failed ∷ es) = ⊥
IsLive (woken ∷ es) = ⊥

take-append_long :
    (xs ys : List ℕ) (n : ℕ) → length xs ≤ n → take n (xs ++ ys) ≡ xs ++ take (n - length xs) ys
take-append_long [] ys n le = ap (λ k. take k ys) (omega arith)
take-append_long (x ∷ xs) ys zero le = absurd (omega arith)
take-append_long (x ∷ xs) ys (suc n) le =
    ap (◌∷◌ x) (take-append_long xs ys n (omega arith) ∙ ap (λ k. xs ++ take k ys) (omega arith))

drop-append_long :
    (xs ys : List ℕ) (n : ℕ) → length xs ≤ n → drop n (xs ++ ys) ≡ drop (n - length xs) ys
drop-append_long [] ys n le = ap (λ k. drop k ys) (omega arith)
drop-append_long (x ∷ xs) ys zero le = absurd (omega arith)
drop-append_long (x ∷ xs) ys (suc n) le =
    drop-append_long xs ys n (omega arith) ∙ ap (λ k. drop k ys) (omega arith)

drop-IsLive :
    (n : ℕ) (bs : List ℕ) (es : List Event)
    → n < length bs
    → IsLive es
    → IsLive (chunk (drop n bs) ∷ es)
drop-IsLive n [] es lt live = absurd (omega arith)
drop-IsLive zero (b ∷ bs) es lt live = live
drop-IsLive (suc n) (b ∷ bs) es lt live = drop-IsLive n bs es (omega arith) live

leb_fit : (bs : List ℕ) (n : ℕ) → leb (length bs) n ≡ true → length bs ≤ n
leb_fit bs n e = ground arith

leb_over : (bs : List ℕ) (n : ℕ) → leb (length bs) n ≡ false → n < length bs
leb_over bs n e = ground arith

-- What `read_exact` of `n` bytes promises, by the bytes at hand alone.
abbrev pub IsExact : ℕ → List ℕ → Read → Type 0
IsExact n s r =
    (r.got ≡ take n s)
    × (bytes_of r.rest ≡ drop n s)
    × (r.status ≡ (if leb n (length s) then done else stopped))
    × IsLive r.rest

-- On an open port, `read_exact` of `n` bytes delivers the first `n` bytes that arrive and leaves
-- the others, and succeeds exactly if `n` bytes arrive, however they are cut into chunks and
-- however often a read is interrupted.
pub read_exact-IsExact :
    (n : ℕ) (es : List Event) → IsLive es → IsExact n (bytes_of es) (read_exact n es)
unfolding read_exact bytes_of
read_exact-IsExact zero es live = (refl, refl, ground arith, live)
read_exact-IsExact (suc n) [] live = (refl, refl, ground arith, tt)
read_exact-IsExact (suc n) (chunk [] ∷ es) live = absurd live
read_exact-IsExact (suc n) (chunk (b ∷ bs) ∷ es) live = elim (Bool-cases (leb (length bs) n)) [
  | inl le ↦
      let ih = read_exact-IsExact (n - length bs) es live in
      let fit = leb_fit bs n le in
      let long = length-append bs (bytes_of es) in
      rw le (
        ap (◌∷◌ b) (ap (◌++◌ bs) ih.0 ∙ sym (take-append_long bs (bytes_of es) n fit)),
        ih.1 ∙ sym (drop-append_long bs (bytes_of es) n fit),
        ih.2 ∙ ground (arith, long),
        ih.3,
      )
  | inr gt ↦
      let lt = leb_over bs n gt in
      let long = length-append bs (bytes_of es) in
      rw gt (
        ap (◌∷◌ b) (sym (take-append_left n bs (bytes_of es) (omega arith))),
        sym (drop-append_left n bs (bytes_of es) (omega arith)),
        ground (arith, long),
        drop-IsLive n bs es lt live,
      )
]
read_exact-IsExact (suc n) (interrupted ∷ es) live = read_exact-IsExact (suc n) es live
read_exact-IsExact (suc n) (failed ∷ es) live = absurd live
read_exact-IsExact (suc n) (woken ∷ es) live = absurd live
