-- ===== src/Tcp/Until.antt =====
-- `readUntil` of ublox_driver/src/rtcm/tcp_client.cpp.
use gnss_parser.Prelude.{
  ℕ, zero, suc, ◌+◌, ◌≤◌, ◌<◌, ◌≡◌, refl, sym, ap, ◌∙◌, Bool, true, false, not, List, [], ◌∷◌, ◌++◌,
  append_assoc, append-nil, Option, none, some, if◌then◌else◌, length, leb, arith, length-append,
  length-take, take,
}
use gnss_parser.Prelude.Text.{Bytes}
use gnss_parser.Prelude.Text.Search.{contains}
use gnss_parser.Tcp.{
  Poll, polled, timed_out, interrupted, failed, append_data, read_ready, unless_full, unless_found,
  Recv, received, again, broken, Client, Step, continue, ◌>>=◌, give, poll_until, wait_for_event,
  recv_from, recv_some, read_until_in, read_until, temp_size,
}
use gnss_parser.Tcp.Data.{all_handed}

poll_until-recvs : (ps : List Poll) (c : Client) → (poll_until ps c).client.recvs ≡ c.recvs
unfolding poll_until
poll_until-recvs [] c = refl
poll_until-recvs (polled true e r ∷ ps) c = refl
poll_until-recvs (polled false true r ∷ ps) c = refl
poll_until-recvs (polled false false true ∷ ps) c = refl
poll_until-recvs (polled false false false ∷ ps) c = poll_until-recvs ps c
poll_until-recvs (timed_out ∷ ps) c = refl
poll_until-recvs (interrupted ∷ ps) c = poll_until-recvs ps c
poll_until-recvs (failed ∷ ps) c = refl

if-recvs :
    (b : Bool) (s t : Step Bool) (rs : List Recv)
    → s.client.recvs ≡ rs
    → t.client.recvs ≡ rs
    → (if b then s else t).client.recvs ≡ rs
if-recvs true s t rs hs ht = hs
if-recvs false s t rs hs ht = ht

wait_for_event-recvs : (c : Client) → (wait_for_event c).client.recvs ≡ c.recvs
unfolding wait_for_event
wait_for_event-recvs c =
    if-recvs (not c.is_open) (give false c) (poll_until c.polls c) c.recvs refl
      (poll_until-recvs c.polls c)

module _ (delimiter : Bytes) (max_bytes : ℕ) (total : Bytes) where
  -- The buffer and the data to come are `total`.
  abbrev pub IsPart : Bytes → List Recv → Type 0
  IsPart buffer rs = buffer ++ all_handed temp_size rs ≡ total

  abbrev pub IsRightResult : Option (Bool × Bytes) → Client → Type 0
  IsRightResult none c = Unit
  IsRightResult (some (ok, out)) c =
      (ok ≡ contains delimiter out) × (length out ≤ max_bytes + 1023) × IsPart out c.recvs

  -- A result with a buffer of the allowed size, which holds the delimiter exactly on success.
  abbrev pub IsRight : Step (Bool × Bytes) → Type 0
  IsRight s = IsRightResult s.result s.client

  -- What the rounds behind this one promise.
  abbrev AreRight : (Bytes → Client → Step (Bool × Bytes)) → Type 0
  AreRight more =
      (buffer : Bytes) (c : Client)
      → length buffer ≤ max_bytes + 1023
      → IsPart buffer c.recvs
      → IsRight (more buffer c)

  append-IsRight :
      (more : Bytes → Client → Step (Bool × Bytes)) (buffer got : Bytes) (c : Client)
      → AreRight more
      → contains delimiter buffer ≡ false
      → length buffer + length got ≤ max_bytes + 1023
      → IsPart (buffer ++ got) c.recvs
      → IsRight (append_data more buffer (received got) c)
  append-IsRight more buffer [] c h absent le part = (
    sym absent,
    omega arith,
    ap (λ x. x ++ all_handed temp_size c.recvs) (sym (append-nil buffer)) ∙ part,
  )
  append-IsRight more buffer (b ∷ bs) c h absent le part =
      h (buffer ++ (b ∷ bs)) c (omega (arith, length-append buffer (b ∷ bs))) part

  recv-IsRight :
      (more : Bytes → Client → Step (Bool × Bytes)) (buffer : Bytes) (rs : List Recv) (c : Client)
      → AreRight more
      → contains delimiter buffer ≡ false
      → length buffer < max_bytes
      → c.recvs ≡ rs
      → IsPart buffer rs
      → IsRight ((recv_from rs temp_size >>= append_data more buffer) c)
  unfolding recv_from
  recv-IsRight more buffer [] c h absent le e part = tt
  recv-IsRight more buffer (received bs ∷ rs) c h absent le e part =
      append-IsRight more buffer (take temp_size bs) (record c { recvs = rs }) h absent
        (omega (arith, length-take temp_size bs))
        (append_assoc buffer (take temp_size bs) (all_handed temp_size rs) ∙ part)
  recv-IsRight more buffer (again ∷ rs) c h absent le e part =
      h buffer (record c { recvs = rs }) (omega arith) part
  recv-IsRight more buffer (broken ∷ rs) c h absent le e part = (sym absent, omega arith, part)

  ready_if :
      (closed : Bool) (more : Bytes → Client → Step (Bool × Bytes)) (buffer : Bytes) (c : Client)
      → AreRight more
      → contains delimiter buffer ≡ false
      → length buffer < max_bytes
      → IsPart buffer c.recvs
      → IsRight (
          ((λ d. if closed then give Recv.broken d else recv_from c.recvs temp_size d)
              >>= append_data more buffer)
            c)
  ready_if true more buffer c h absent le part = (sym absent, omega arith, part)
  ready_if false more buffer c h absent le part =
      recv-IsRight more buffer c.recvs c h absent le refl part

  ready-IsRight :
      (more : Bytes → Client → Step (Bool × Bytes)) (buffer : Bytes) (ok : Option Bool) (c : Client)
      → AreRight more
      → contains delimiter buffer ≡ false
      → length buffer < max_bytes
      → IsPart buffer c.recvs
      → IsRight (continue ok c (read_ready more buffer))
  unfolding recv_some
  ready-IsRight more buffer none c h absent le part = tt
  ready-IsRight more buffer (some true) c h absent le part =
      ready_if (not c.is_open) more buffer c h absent le part
  ready-IsRight more buffer (some false) c h absent le part = (sym absent, omega arith, part)

  full-IsRight :
      (more : Bytes → Client → Step (Bool × Bytes)) (buffer : Bytes) (full : Bool) (c : Client)
      → AreRight more
      → contains delimiter buffer ≡ false
      → leb max_bytes (length buffer) ≡ full
      → length buffer ≤ max_bytes + 1023
      → IsPart buffer c.recvs
      → IsRight (unless_full more buffer full c)
  full-IsRight more buffer true c h absent e le part = (sym absent, le, part)
  full-IsRight more buffer false c h absent e le part =
      ready-IsRight more buffer (wait_for_event c).result (wait_for_event c).client h absent
        (ground (arith, e))
        (ap (λ x. buffer ++ all_handed temp_size x) (wait_for_event-recvs c) ∙ part)

  found-IsRight :
      (more : Bytes → Client → Step (Bool × Bytes)) (buffer : Bytes) (found : Bool) (c : Client)
      → AreRight more
      → contains delimiter buffer ≡ found
      → length buffer ≤ max_bytes + 1023
      → IsPart buffer c.recvs
      → IsRight (unless_found more max_bytes buffer found c)
  found-IsRight more buffer true c h e le part = (sym e, le, part)
  found-IsRight more buffer false c h e le part =
      full-IsRight more buffer (leb max_bytes (length buffer)) c h e refl le part

  read_until_in-IsRight : (n : ℕ) → AreRight (read_until_in n delimiter max_bytes)
  unfolding read_until_in
  read_until_in-IsRight zero buffer c le part = tt
  read_until_in-IsRight (suc n) buffer c le part =
      found-IsRight (read_until_in n delimiter max_bytes) buffer (contains delimiter buffer) c
        (read_until_in-IsRight n) refl le part

-- Where `read_until` returns, it succeeds exactly if its buffer holds the delimiter; the buffer has
-- at most 1023 bytes more than `max_bytes`, if it had no more at the start; and it is followed by
-- the data that are still to come as the buffer of the start was by the data then: nothing that was
-- read is lost, also behind the delimiter.
pub read_until-IsRight :
    (delimiter : Bytes) (max_bytes : ℕ) (buffer : Bytes) (c : Client)
    → length buffer ≤ max_bytes + 1023
    → IsRight delimiter max_bytes
        (buffer ++ all_handed temp_size c.recvs)
        (read_until delimiter max_bytes buffer c)
unfolding read_until
read_until-IsRight delimiter max_bytes buffer c le =
    read_until_in-IsRight delimiter max_bytes (buffer ++ all_handed temp_size c.recvs)
      (suc (length c.recvs)) buffer c le refl
