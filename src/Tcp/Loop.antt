-- ===== src/Tcp/Loop.antt =====
-- `connect`, `readLoop`, `startRead` and `close` of ublox_driver/src/rtcm/tcp_client.cpp.
use gnss_parser.Prelude.{
  ℕ, zero, suc, Bool, true, false, not, ◌&&◌, ◌||◌, List, [], ◌∷◌, if◌then◌else◌, length,
}
use gnss_parser.Tcp.{
  Poll, polled, timed_out, interrupted, failed, Recv, received, again, broken, Flags, Client, Step,
  ◌>>=◌, give, wait, see_flags, wait_for_event, recv_some, notify_connection_state, close_socket,
  dispatch_data_callbacks, open_connection,
}

-- The poll of the wake pipe in `sleepInterruptibly`. The flags are read when the time is over.
abbrev may_go_on : Flags → Bool
may_go_on f = f.read_running && not f.shutting_down

abbrev pub look : Client → Step Bool
look = see_flags >>= λ f. give (may_go_on f)

unfoldable pub sleep_until : List Poll → Client → Step Bool
sleep_until [] c = wait (record c { polls = [] })
sleep_until (polled woken has_error is_ready ∷ ps) c = give false (record c { polls = ps })
sleep_until (timed_out ∷ ps) c = look (record c { polls = ps })
sleep_until (interrupted ∷ ps) c = sleep_until ps c
sleep_until (failed ∷ ps) c = give false (record c { polls = ps })

unfoldable pub sleep_interruptibly : Client → Step Bool
sleep_interruptibly c = if c.has_pipe then sleep_until c.polls c else look c

-- `close_socket` as a step.
abbrev pub closing : Client → Step {0} Unit
closing c = give tt (close_socket c)

-- `closeSocket(); if (!sleepInterruptibly(...)) break; continue;`
unfoldable pub lose : Client → Step Bool
lose = closing >>= λ _. sleep_interruptibly

-- `!read_running_ || shutting_down_`
abbrev pub is_stopped : Flags → Bool
is_stopped f = not f.read_running || f.shutting_down

-- `onConnected` is virtual: a parameter.
module _ (on_connected : Client → Step Bool) (buf_size : ℕ) where
  abbrev pub finish_connect : Bool → Client → Step Bool
  finish_connect true = λ c. give true (notify_connection_state true c)
  finish_connect false = λ c. give false (close_socket c)

  abbrev pub attach : Bool → Client → Step Bool
  attach true = on_connected >>= finish_connect
  attach false = give false

  unfoldable pub connect : Client → Step Bool
  connect c = if c.is_open then give true c else (open_connection >>= attach) c

  -- What a read does: true for the next round, false for `break`.
  unfoldable pub handle_read : Recv → Client → Step Bool
  handle_read (received []) = lose
  handle_read (received (b ∷ bs)) = λ c. give true (dispatch_data_callbacks (b ∷ bs) c)
  handle_read again = give true
  handle_read broken = lose

  abbrev pub unless_stopped : (Client → Step Bool) → Bool → Client → Step Bool
  unless_stopped go true = give false
  unless_stopped go false = go

  abbrev pub after_wait : Bool → Client → Step Bool
  after_wait true = recv_some buf_size >>= handle_read
  after_wait false = see_flags >>= λ f. unless_stopped lose (is_stopped f)

  abbrev pub after_connect : Bool → Client → Step Bool
  after_connect true = wait_for_event >>= after_wait
  after_connect false = see_flags >>= λ f. unless_stopped sleep_interruptibly (is_stopped f)

  -- The body of the loop.
  unfoldable pub round : Client → Step Bool
  round = connect >>= after_connect

  -- `readLoop`. Each round takes an answer of the flags, so that one round more than there are
  -- answers is enough.
  abbrev pub after_round : (Client → Step {0} Unit) → Bool → Client → Step {0} Unit
  after_round more true = more
  after_round more false = closing

  abbrev pub while_running : (Client → Step {0} Unit) → Bool → Client → Step {0} Unit
  while_running more true = round >>= after_round more
  while_running more false = closing

  unfoldable pub read_loop_in : ℕ → Client → Step {0} Unit
  read_loop_in zero = wait
  read_loop_in (suc n) = see_flags >>= λ f. while_running (read_loop_in n) f.read_running

  unfoldable pub read_loop : Client → Step {0} Unit
  read_loop c = read_loop_in (suc (length c.flags)) c

-- `TcpClient::onConnected`
abbrev pub accept_connection : Client → Step Bool
accept_connection = give true
