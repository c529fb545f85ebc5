-- ===== src/Tcp/Stops.antt =====
-- How a stop ends `readLoop` of ublox_driver/src/rtcm/tcp_client.cpp.
use gnss_parser.Prelude.{
  ℕ, suc, ◌≡◌, refl, ap, ◌∙◌, Bool, true, false, List, [], ◌∷◌, ◌++◌, some, length, arith,
}
use gnss_parser.Tcp.{
  Poll, polled, timed_out, interrupted, failed, Flags, Client, Step, continue, give, see_flags,
  poll_until, wait_for_event, close_socket,
}
use gnss_parser.Tcp.Loop.{
  connect, is_stopped, after_wait, unless_stopped, lose, round, after_round, read_loop_in,
  read_loop,
}

-- The wait goes on after such an answer.
abbrev pub AreIdle : List Poll → Type 0
AreIdle [] = Unit
AreIdle (polled false false false ∷ ps) = AreIdle ps
AreIdle (interrupted ∷ ps) = AreIdle ps
AreIdle (polled false false true ∷ ps) = ⊥
AreIdle (polled false true r ∷ ps) = ⊥
AreIdle (polled true e r ∷ ps) = ⊥
AreIdle (timed_out ∷ ps) = ⊥
AreIdle (failed ∷ ps) = ⊥

poll_until-woken :
    (qs : List Poll) (e r : Bool) (ps : List Poll) (c : Client)
    → AreIdle qs
    → poll_until (qs ++ (polled true e r ∷ ps)) c ≡ give false (record c { polls = ps })
unfolding poll_until
poll_until-woken [] e r ps c idle = refl
poll_until-woken (polled false false false ∷ qs) e r ps c idle = poll_until-woken qs e r ps c idle
poll_until-woken (interrupted ∷ qs) e r ps c idle = poll_until-woken qs e r ps c idle
poll_until-woken (polled false false true ∷ qs) e r ps c idle = absurd idle
poll_until-woken (polled false true r' ∷ qs) e r ps c idle = absurd idle
poll_until-woken (polled true e' r' ∷ qs) e r ps c idle = absurd idle
poll_until-woken (timed_out ∷ qs) e r ps c idle = absurd idle
poll_until-woken (failed ∷ qs) e r ps c idle = absurd idle

-- `read_running_` holds at the head of the loop.
abbrev pub running : Flags
running = record { read_running = true; shutting_down = false }

-- A connected reader, with the answers that it meets.
abbrev pub waiting : Client → List Poll → List Flags → Client
waiting c ps fs = record c { is_open = true; polls = ps; flags = fs }

unless_stopped-true :
    (on_connected : Client → Step Bool) (buf_size : ℕ) (stopped : Bool) (c : Client)
    → stopped ≡ true
    → unless_stopped on_connected buf_size lose stopped c ≡ give false c
unless_stopped-true on_connected buf_size true c e = refl
unless_stopped-true on_connected buf_size false c e = absurd (ground (arith, e))

round-stop :
    (on_connected : Client → Step Bool) (buf_size : ℕ) (c : Client) (qs ps : List Poll) (e r : Bool)
    (down : Flags) (fs : List Flags)
    → AreIdle qs
    → is_stopped down ≡ true
    → round on_connected buf_size (waiting c (qs ++ (polled true e r ∷ ps)) (down ∷ fs))
      ≡ give false (waiting c ps fs)
unfolding round connect see_flags wait_for_event
round-stop on_connected buf_size c qs ps e r down fs idle stop =
    ap (λ s. continue s.result s.client (after_wait on_connected buf_size))
      (poll_until-woken qs e r ps (waiting c (qs ++ (polled true e r ∷ ps)) (down ∷ fs)) idle)
    ∙ unless_stopped-true on_connected buf_size (is_stopped down) (waiting c ps fs) stop

-- A connected reader that waits for data ends at once when a stop wakes it, however often the wait
-- was interrupted before: for any flags with `read_running_` cleared or `shutting_down_` set,
-- `read_loop` returns, without a read or a sleep, and the socket is closed.
pub read_loop-stop :
    (on_connected : Client → Step Bool) (buf_size : ℕ) (c : Client) (qs ps : List Poll) (e r : Bool)
    (down : Flags) (fs : List Flags)
    → AreIdle qs
    → is_stopped down ≡ true
    → read_loop on_connected buf_size
        (waiting c (qs ++ (polled true e r ∷ ps)) (running ∷ down ∷ fs))
      ≡ record { result = some tt; client = close_socket (waiting c ps fs) }
unfolding read_loop read_loop_in see_flags
read_loop-stop on_connected buf_size c qs ps e r down fs idle stop =
    ap
      (λ s. continue s.result s.client (
        after_round on_connected buf_size
          (read_loop_in on_connected buf_size (suc (suc (length fs))))))
      (round-stop on_connected buf_size c qs ps e r down fs idle stop)
