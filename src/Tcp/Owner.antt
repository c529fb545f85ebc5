-- ===== src/Tcp/Owner.antt =====
-- `startRead`, `close`, `wakeReader` and the registration of callbacks of
-- ublox_driver/src/rtcm/tcp_client.cpp, which the owner of the client calls.
use gnss_parser.Prelude.{
  ◌≡◌, refl, arith, ℕ, ◌+◌, Bool, true, false, List, [], ◌∷◌, ◌++◌, if◌then◌else◌,
}
use gnss_parser.Tcp.{Client, close_socket}

-- The flags as the owner sets them, the pipe, the reader thread, the numbers of the callbacks, the
-- bytes in the pipe, and the client.
pub record Owner : Type 0 where
  pub read_running : Bool
  pub shutting_down : Bool
  pub wake_pipe : Bool
  pub read_thread : Bool
  pub callbacks : List ℕ
  pub connection_state_callbacks : List ℕ
  pub woken : ℕ
  pub client : Client

-- The constructor; `pipe_ok` is the result of `pipe`.
unfoldable pub new_client : Bool → Client → Owner
new_client pipe_ok c = record {
  read_running = false;
  shutting_down = false;
  wake_pipe = pipe_ok;
  read_thread = false;
  callbacks = [];
  connection_state_callbacks = [];
  woken = 0;
  client = record c { is_open = false; connection_active = false; has_pipe = pipe_ok };
}

unfoldable pub register_data_callback : ℕ → Owner → Owner
register_data_callback callback o = record o { callbacks = o.callbacks ++ (callback ∷ []) }

unfoldable pub clear_data_callbacks : Owner → Owner
clear_data_callbacks o = record o { callbacks = [] }

unfoldable pub register_connection_state_callback : ℕ → Owner → Owner
register_connection_state_callback callback o = record o {
  connection_state_callbacks = o.connection_state_callbacks ++ (callback ∷ []);
}

unfoldable pub start_read : Owner → Owner
start_read o = if o.read_running then o else record o { read_running = true; read_thread = true }

-- A full pipe is passed over.
unfoldable pub wake_reader : Owner → Owner
wake_reader o = if o.wake_pipe then record o { woken = o.woken + 1 } else o

-- `join` gives the client as the reader leaves it.
abbrev stop_reader : (Client → Client) → Owner → Owner
stop_reader join o =
    if o.read_running
    then (let stopped = wake_reader (record o { read_running = false }) in
        if o.read_thread
        then record stopped { read_thread = false; client = join o.client }
        else stopped)
    else o

abbrev close_pipe : Owner → Owner
close_pipe o = record o {
  client = record (close_socket o.client) { has_pipe = false };
  wake_pipe = false;
}

unfoldable pub close : (Client → Client) → Owner → Owner
close join o =
    if o.shutting_down then o else close_pipe (stop_reader join (record o { shutting_down = true }))

shut-close : (join : Client → Client) (o : Owner) → (close join o).shutting_down ≡ true
unfolding close wake_reader
shut-close join o = ground arith

if-closed : (b : Bool) (o p : Owner) → b ≡ true → (if b then o else p) ≡ o
if-closed true o p e = refl
if-closed false o p e = absurd (ground (arith, e))

-- A client that has been closed is left as it is by `close`, whatever was done before, so that the
-- destructor may call it again.
close-close : (join : Client → Client) (o : Owner) → close join (close join o) ≡ close join o
unfolding close
close-close join o = if-closed (close join o).shutting_down (close join o) _ (shut-close join o)
