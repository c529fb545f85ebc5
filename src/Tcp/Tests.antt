-- ===== src/Tcp/Tests.antt =====
-- Runs of the TCP client, and the theorems at concrete inputs.
use gnss_parser.Prelude.{◌≡◌, refl, true, false, [], ◌∷◌, ◌++◌, some, arith}
use gnss_parser.Prelude.Text.{joined}
use gnss_parser.Tcp.{
  Poll, polled, timed_out, interrupted, received, Flags, Client, read_until, close_socket,
  see_flags, open_connection, try_entries, wait_for_event, notify_connection_state, poll_until,
  recv_some, recv_from, dispatch_data_callbacks,
}
use gnss_parser.Tcp.Loop.{
  accept_connection, read_loop, read_loop_in, round, connect, handle_read, lose,
  sleep_interruptibly, sleep_until,
}
use gnss_parser.Tcp.Data.{all_handed, read_loop-joined}
use gnss_parser.Tcp.Until.{IsRight, read_until-IsRight}
use gnss_parser.Tcp.Stops.{running, waiting, read_loop-stop}

abbrev stopped : Flags
stopped = record { read_running = false; shutting_down = true }

abbrev ready : Poll
ready = polled false false true

-- The first address refuses. Three bytes arrive, of which the buffer takes two; then the peer closes,
-- and after a sleep the client connects again, reads one byte and is stopped.
abbrev session : Client
session = record {
  is_open = false;
  connection_active = false;
  has_pipe = true;
  polls = ready ∷ ready ∷ timed_out ∷ interrupted ∷ ready ∷ polled true false false ∷ [];
  recvs = received (1 ∷ 2 ∷ 3 ∷ []) ∷ received [] ∷ received (4 ∷ []) ∷ received (5 ∷ []) ∷ [];
  sends = [];
  lookups =
      some (
        record { makes_socket = true; accepts = false }
        ∷ record { makes_socket = true; accepts = true }
        ∷ [])
      ∷ some (record { makes_socket = true; accepts = true } ∷ [])
      ∷ [];
  flags = running ∷ running ∷ running ∷ running ∷ running ∷ stopped ∷ [];
  sent = [];
  dispatched = [];
  states = [];
}

session-dispatched :
    (read_loop accept_connection 2 session).client.dispatched ≡ (1 ∷ 2 ∷ []) ∷ (4 ∷ []) ∷ []
unfolding read_loop read_loop_in see_flags round connect open_connection try_entries wait_for_event
    notify_connection_state poll_until recv_some recv_from handle_read dispatch_data_callbacks lose
    sleep_interruptibly close_socket sleep_until
session-dispatched = refl

session-states :
    (read_loop accept_connection 2 session).client.states ≡ true ∷ false ∷ true ∷ false ∷ []
unfolding read_loop read_loop_in see_flags round connect open_connection try_entries wait_for_event
    notify_connection_state poll_until recv_some recv_from handle_read dispatch_data_callbacks lose
    sleep_interruptibly close_socket sleep_until
session-states = refl

read_loop-joined_example :
    let d = (read_loop accept_connection 2 session).client in
    joined d.dispatched ++ all_handed 2 d.recvs
    ≡ joined session.dispatched ++ all_handed 2 session.recvs
read_loop-joined_example = read_loop-joined 2 session

abbrev open_session : Client
open_session = record session { is_open = true }

read_until-IsRight_example : IsRight (3 ∷ 4 ∷ []) 100 (1 ∷ 2 ∷ 3 ∷ 4 ∷ 5 ∷ []) (
    read_until
      (3 ∷ 4 ∷ [])
      100
      []
      (record open_session { recvs = received (1 ∷ 2 ∷ 3 ∷ []) ∷ received (4 ∷ 5 ∷ []) ∷ [] }))
read_until-IsRight_example =
    read_until-IsRight (3 ∷ 4 ∷ []) 100 []
      (record open_session { recvs = received (1 ∷ 2 ∷ 3 ∷ []) ∷ received (4 ∷ 5 ∷ []) ∷ [] })
      (omega arith)

read_loop-stop_example :
    read_loop accept_connection 2
      (waiting session (interrupted ∷ polled true false true ∷ []) (running ∷ stopped ∷ []))
    ≡ record { result = some tt; client = close_socket (waiting session [] []) }
read_loop-stop_example =
    read_loop-stop accept_connection 2 session (interrupted ∷ []) [] false true stopped [] tt refl
