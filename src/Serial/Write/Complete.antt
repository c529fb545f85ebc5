-- ===== src/Serial/Write/Complete.antt =====
-- What `write_all` wrote, and when it writes everything.
use gnss_parser.Prelude.{
  ℕ, zero, suc, ◌≤◌, ◌≡◌, ◌↔◌, refl, ap, ◌∙◌, true, List, [], ◌∷◌, ◌++◌, length, take, drop,
  append_assoc, take-append-drop, length-drop, arith,
}
use gnss_parser.Serial.Write.{Answer, accepted, again, refused, closed, write_all}

-- The bytes written and those left are the buffer, in order and each once, whatever the operating
-- system answers; and the result is true exactly if none is left.
write_all-split :
    (bs : List ℕ) (ans : List Answer)
    → ((write_all bs ans).sent ++ (write_all bs ans).left ≡ bs)
      × (((write_all bs ans).result ≡ true) ↔ (length (write_all bs ans).left ≡ 0))
unfolding write_all
write_all-split [] ans = (refl, ground arith)
write_all-split (b ∷ bs) [] = (refl, ground arith)
write_all-split (b ∷ bs) (accepted zero ∷ ans) = (refl, ground arith)
write_all-split (b ∷ bs) (accepted (suc n) ∷ ans) =
    let ih = write_all-split (drop n bs) ans in
    (
      ap (◌∷◌ b) (
          append_assoc (take n bs) (write_all (drop n bs) ans).sent (write_all (drop n bs) ans).left
          ∙ ap (◌++◌ (take n bs)) ih.0
          ∙ take-append-drop n bs),
      ih.1,
    )
write_all-split (b ∷ bs) (again ∷ ans) = write_all-split (b ∷ bs) ans
write_all-split (b ∷ bs) (refused ∷ ans) = (refl, ground arith)
write_all-split (b ∷ bs) (closed ∷ ans) = (refl, ground arith)

-- No refusal, no close and no empty write.
abbrev pub IsWilling : List Answer → Type 0
IsWilling [] = Unit
IsWilling (accepted zero ∷ ans) = ⊥
IsWilling (accepted (suc n) ∷ ans) = IsWilling ans
IsWilling (again ∷ ans) = IsWilling ans
IsWilling (refused ∷ ans) = ⊥
IsWilling (closed ∷ ans) = ⊥

abbrev pub writes : List Answer → ℕ
writes [] = 0
writes (accepted n ∷ ans) = suc (writes ans)
writes (again ∷ ans) = writes ans
writes (refused ∷ ans) = writes ans
writes (closed ∷ ans) = writes ans

-- On a port that is not closed and takes at least one byte of each write, as many writes as there
-- are bytes are enough: `write_all` writes the whole buffer, in order, and returns true, however
-- the writes cut it and however often one is interrupted.
pub write_all_complete :
    (bs : List ℕ) (ans : List Answer)
    → IsWilling ans
    → length bs ≤ writes ans
    → write_all bs ans ≡ record { sent = bs; left = []; result = true }
unfolding write_all
write_all_complete [] ans willing enough = refl
write_all_complete (b ∷ bs) [] willing enough = absurd (omega arith)
write_all_complete (b ∷ bs) (accepted zero ∷ ans) willing enough = absurd willing
write_all_complete (b ∷ bs) (accepted (suc n) ∷ ans) willing enough =
    rw (write_all_complete (drop n bs) ans willing (omega (arith, length-drop n bs)))
      (ap (λ l. record { sent = b ∷ l; left = []; result = true }) (take-append-drop n bs))
write_all_complete (b ∷ bs) (again ∷ ans) willing enough =
    write_all_complete (b ∷ bs) ans willing enough
write_all_complete (b ∷ bs) (refused ∷ ans) willing enough = absurd willing
write_all_complete (b ∷ bs) (closed ∷ ans) willing enough = absurd willing
