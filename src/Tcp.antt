-- ===== src/Tcp.antt =====
-- `TcpClient` of ublox_driver/src/rtcm/tcp_client.cpp. What the operating system answers is a list
-- for each kind of call. The reader thread reads `read_running_` and `shutting_down_`, which another
-- thread sets; what it sees is a list as well.
pub mod Loop
pub mod Keeps
pub mod States
pub mod Data
pub mod Until
pub mod Stops
pub mod Owner
mod Tests
use gnss_parser.Prelude.{
  ℕ, zero, suc, ◌+◌, ◌-◌, ◌≡◌, Bool, true, false, not, ◌&&◌, ◌||◌, List, [], ◌∷◌, ◌++◌, ltb, leb,
  ◌==◌, if◌then◌else◌, Option, none, some, length, take, drop,
}
use gnss_parser.Prelude.Text.{Bytes}
use gnss_parser.Prelude.Text.Search.{contains}

-- The answer to `poll`: whether the wake pipe has a byte, whether the socket has an error, and
-- whether it has the event that was asked for; or a timeout, EINTR, another error.
pub data Poll : Type 0 where
  polled : (woken has_error is_ready : Bool) → Poll
  timed_out interrupted failed : Poll

-- The answer to `recv`. It gives the first bytes of `bs`, as many as the buffer takes; 0 bytes are
-- the end of the stream. `again` is EINTR, EAGAIN or EWOULDBLOCK.
pub data Recv : Type 0 where
  received : List ℕ → Recv
  again broken : Recv

-- The answer to `send`, which takes no more bytes than it is given.
pub data Send : Type 0 where
  taken : ℕ → Send
  again broken : Send

-- An address of the host: whether `socket` and then `connect` succeed.
pub record Entry : Type 0 where
  pub makes_socket : Bool
  pub accepts : Bool

-- What the reader sees of the two flags.
pub record Flags : Type 0 where
  pub read_running : Bool
  pub shutting_down : Bool

-- The members that the reader uses, the answers to come, and what was done: the bytes that `send`
-- took, the data handed to the callbacks, and the calls of the connection state callbacks.
pub record Client : Type 0 where
  pub is_open : Bool
  pub connection_active : Bool
  pub has_pipe : Bool
  pub polls : List Poll
  pub recvs : List Recv
  pub sends : List Send
  pub lookups : List (Option (List Entry))
  pub flags : List Flags
  pub sent : Bytes
  pub dispatched : List Bytes
  pub states : List Bool

-- A step of the reader. It has no result where the thread waits in a call that has no answer yet.
pub record Step {ℓ} (A : Type ℓ) : Type ℓ where
  pub result : Option A
  pub client : Client

abbrev pub continue {ℓ κ} :
    {A : Type ℓ} {B : Type κ} → Option A → Client → (A → Client → Step B) → Step B
continue none c f = record { result = none; client = c }
continue (some a) c f = f a c

infixl 5 ◌>>=◌ ◌>>◌
abbrev pub ◌>>=◌ {ℓ κ} :
    {A : Type ℓ} {B : Type κ} → (Client → Step A) → (A → Client → Step B) → Client → Step B
(m >>= f) c = continue (m c).result (m c).client f

abbrev pub ◌>>◌ {ℓ κ} :
    {A : Type ℓ} {B : Type κ} → (Client → Step A) → (Client → Step B) → Client → Step B
m >> k = m >>= λ _. k

abbrev pub give {ℓ} : {A : Type ℓ} → A → Client → Step A
give a c = record { result = some a; client = c }

abbrev pub wait {ℓ} : {A : Type ℓ} → Client → Step A
wait c = record { result = none; client = c }

-- `if (read_running_ ...)`
abbrev pub flags_from : List Flags → Client → Step Flags
flags_from [] c = wait c
flags_from (f ∷ fs) c = give f (record c { flags = fs })

unfoldable pub see_flags : Client → Step Flags
see_flags c = flags_from c.flags c

-- The loop of `waitForEvent`.
unfoldable pub poll_until : List Poll → Client → Step Bool
poll_until [] c = wait (record c { polls = [] })
poll_until (polled woken has_error is_ready ∷ ps) c =
    let rest = poll_until ps c in
    if woken
    then give false (record c { polls = ps })
    else if has_error
    then give false (record c { polls = ps })
    else if is_ready
    then give true (record c { polls = ps })
    else rest
poll_until (timed_out ∷ ps) c = give false (record c { polls = ps })
poll_until (interrupted ∷ ps) c = poll_until ps c
poll_until (failed ∷ ps) c = give false (record c { polls = ps })

unfoldable pub wait_for_event : Client → Step Bool
wait_for_event c = if not c.is_open then give false c else poll_until c.polls c

-- What `recvSome` returns, with errno where that is negative.
unfoldable pub recv_from : List Recv → ℕ → Client → Step Recv
recv_from [] len c = wait c
recv_from (received bs ∷ rs) len c = give (received (take len bs)) (record c { recvs = rs })
recv_from (again ∷ rs) len c = give Recv.again (record c { recvs = rs })
recv_from (broken ∷ rs) len c = give Recv.broken (record c { recvs = rs })

unfoldable pub recv_some : ℕ → Client → Step Recv
recv_some len c = if not c.is_open then give Recv.broken c else recv_from c.recvs len c

-- `callback(connected)` where the state changed.
unfoldable pub notify_connection_state : Bool → Client → Client
notify_connection_state true c =
    if c.connection_active
    then c
    else record c { connection_active = true; states = c.states ++ (true ∷ []) }
notify_connection_state false c =
    if c.connection_active
    then record c { connection_active = false; states = c.states ++ (false ∷ []) }
    else c

unfoldable pub close_socket : Client → Client
close_socket c =
    if c.is_open then record (notify_connection_state false c) { is_open = false } else c

unfoldable pub dispatch_data_callbacks : Bytes → Client → Client
dispatch_data_callbacks data_bytes c = record c { dispatched = c.dispatched ++ (data_bytes ∷ []) }

-- The loop over the addresses: whether the socket is open after it.
unfoldable pub try_entries : List Entry → Bool
try_entries [] = false
try_entries (e ∷ es) =
    let rest = try_entries es in if e.makes_socket && e.accepts then true else rest

abbrev pub entries_of : Option (List Entry) → Bool
entries_of none = false
entries_of (some es) = try_entries es

abbrev pub open_from : List (Option (List Entry)) → Client → Step Bool
open_from [] c = wait c
open_from (l ∷ ls) c = give (entries_of l) (record c { is_open = entries_of l; lookups = ls })

unfoldable pub open_connection : Client → Step Bool
open_connection c = open_from c.lookups c

-- The loop of `writeAll` with `rest` left of the data. A closed socket ends it as it ends the wait.
abbrev pub sent_to : ℕ → Bytes → List Send → Client → Client
sent_to n rest ss c = record c { sent = c.sent ++ take n rest; sends = ss }

abbrev pub wait_to_send : Bool → Client → Step Bool
wait_to_send true = wait
wait_to_send false = give false

-- `send` and what follows it, with the rounds behind it.
abbrev pub send_now :
    (Bytes → Client → Step Bool) → Send → List Send → Bytes → Bool → Client → Step Bool
send_now more s ss data_bytes false c = give false c
send_now more (taken zero) ss data_bytes true c = give false (record c { sends = ss })
send_now more (taken (suc n)) ss data_bytes true c =
    more (drop (suc n) data_bytes) (sent_to (suc n) data_bytes ss c)
send_now more again ss data_bytes true c = more data_bytes (record c { sends = ss })
send_now more broken ss data_bytes true c = give false (record c { sends = ss })

unfoldable pub write_rest : List Send → Bytes → Client → Step Bool
write_rest ss [] = give true
write_rest [] (b ∷ rest) = wait_for_event >>= wait_to_send
write_rest (s ∷ ss) (b ∷ rest) = wait_for_event >>= send_now (write_rest ss) s ss (b ∷ rest)

unfoldable pub write_all : Bytes → Client → Step Bool
write_all data_bytes c = write_rest c.sends data_bytes c

-- The size of `temp`
abbrev pub temp_size : ℕ
temp_size = 1024

-- The loop of `readUntil`: its result and the buffer. Each round that goes on takes an answer of
-- `recv`, so that one round more than there are answers is enough.
abbrev pub append_data :
    (Bytes → Client → Step (Bool × Bytes)) → Bytes → Recv → Client → Step (Bool × Bytes)
append_data more buffer (received []) = give (false, buffer)
append_data more buffer (received (b ∷ bs)) = more (buffer ++ (b ∷ bs))
append_data more buffer again = more buffer
append_data more buffer broken = give (false, buffer)

abbrev pub read_ready :
    (Bytes → Client → Step (Bool × Bytes)) → Bytes → Bool → Client → Step (Bool × Bytes)
read_ready more buffer true = recv_some temp_size >>= append_data more buffer
read_ready more buffer false = give (false, buffer)

abbrev pub unless_full :
    (Bytes → Client → Step (Bool × Bytes)) → Bytes → Bool → Client → Step (Bool × Bytes)
unless_full more buffer true = give (false, buffer)
unless_full more buffer false = wait_for_event >>= read_ready more buffer

abbrev pub unless_found :
    (Bytes → Client → Step (Bool × Bytes)) → ℕ → Bytes → Bool → Client → Step (Bool × Bytes)
unless_found more max_bytes buffer true = give (true, buffer)
unless_found more max_bytes buffer false = unless_full more buffer (leb max_bytes (length buffer))

unfoldable pub read_until_in : ℕ → Bytes → ℕ → Bytes → Client → Step (Bool × Bytes)
read_until_in zero delimiter max_bytes buffer = wait
read_until_in (suc n) delimiter max_bytes buffer =
    unless_found (read_until_in n delimiter max_bytes) max_bytes buffer (contains delimiter buffer)

unfoldable pub read_until : Bytes → ℕ → Bytes → Client → Step (Bool × Bytes)
read_until delimiter max_bytes buffer c =
    read_until_in (suc (length c.recvs)) delimiter max_bytes buffer c
