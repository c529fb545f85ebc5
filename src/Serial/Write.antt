-- ===== src/Serial/Write.antt =====
-- The writer: `write_all` of ublox_driver/src/serial/serial_handler.cpp, against what the operating
-- system answers.
pub mod Complete
use gnss_parser.Prelude.{ℕ, zero, suc, ◌+◌, Bool, true, false, List, [], ◌∷◌, ◌++◌, take, drop}

-- What a round of the loop meets: the port closed at its head; `accepted n`, a `write` that takes
-- `n` bytes, or all that are left where they are fewer; `again`, a `write` that fails with EINTR,
-- EAGAIN or EWOULDBLOCK; `refused`, a wait that times out or fails, or a `write` with another error.
pub data Answer : Type 0 where
  accepted : ℕ → Answer
  again refused closed : Answer

-- The bytes that were written, those that were not, and the result.
pub record Written : Type 0 where
  pub sent : List ℕ
  pub left : List ℕ
  pub result : Bool

abbrev gave_up : List ℕ → Written
gave_up bs = record { sent = []; left = bs; result = false }

abbrev after_sent : List ℕ → Written → Written
after_sent bs w = record w { sent = bs ++ w.sent }

-- With no answer left the wait times out.
unfoldable pub write_all : List ℕ → List Answer → Written
write_all [] ans = record { sent = []; left = []; result = true }
write_all (b ∷ bs) [] = gave_up (b ∷ bs)
write_all (b ∷ bs) (accepted zero ∷ ans) = gave_up (b ∷ bs)
write_all (b ∷ bs) (accepted (suc n) ∷ ans) = after_sent (b ∷ take n bs) (write_all (drop n bs) ans)
write_all (b ∷ bs) (again ∷ ans) = write_all (b ∷ bs) ans
write_all (b ∷ bs) (refused ∷ ans) = gave_up (b ∷ bs)
write_all (b ∷ bs) (closed ∷ ans) = gave_up (b ∷ bs)
