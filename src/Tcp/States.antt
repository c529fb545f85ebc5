-- ===== src/Tcp/States.antt =====
-- The connection state callbacks of ublox_driver/src/rtcm/tcp_client.cpp.
use gnss_parser.Prelude.{
  ℕ, zero, suc, ◌≡◌, ◌⊎◌, inl, inr, refl, sym, subst, Bool, true, false, not, List, [], ◌∷◌, ◌++◌,
  Option, none, some, arith, length, if◌then◌else◌,
}
use gnss_parser.Tcp.{
  Entry, Client, Step, ◌>>=◌, give, continue, entries_of, open_from, open_connection,
  notify_connection_state, close_socket, dispatch_data_callbacks, see_flags,
}
use gnss_parser.Tcp.Loop.{
  connect, attach, finish_connect, closing, round, after_round, while_running, read_loop_in,
  read_loop,
}
use gnss_parser.Tcp.Keeps.{Keeps, read_loop-Keeps}

-- Each state differs from the one before it, the first from `a`; the last one is `b`.
abbrev pub IsRun : Bool → List Bool → Bool → Type 0
IsRun a [] b = a ≡ b
IsRun a (x ∷ xs) b = (x ≡ not a) × IsRun x xs b

IsRun-append :
    (a : Bool) (xs : List Bool) (b : Bool) → IsRun a xs b → IsRun a (xs ++ (not b ∷ [])) (not b)
IsRun-append a [] b run = (subst (λ x. not b ≡ not x) (sym run) refl, refl)
IsRun-append a (x ∷ xs) b run = (run.0, IsRun-append x xs b run.1)

-- The states so far end with the one at hand, and only an open socket counts as connected.
abbrev pub IsSound : Client → Type 0
IsSound c =
    IsRun false c.states c.connection_active × ((c.connection_active ≡ true) → c.is_open ≡ true)

-- `onConnected` neither opens nor closes the socket nor reports a state.
abbrev pub IsQuiet : (Client → Step Bool) → Type 0
IsQuiet on_connected =
    (c : Client)
    → ((on_connected c).client.is_open ≡ c.is_open)
      × ((on_connected c).client.connection_active ≡ c.connection_active)
      × ((on_connected c).client.states ≡ c.states)

IsSound-eq :
    (c d : Client)
    → d.is_open ≡ c.is_open
    → d.connection_active ≡ c.connection_active
    → d.states ≡ c.states
    → IsSound c
    → IsSound d
IsSound-eq c d e1 e2 e3 good = rw (e1, e2, e3) good

notify_if :
    (b : Bool) (c : Client)
    → c.connection_active ≡ b
    → c.is_open ≡ true
    → IsSound c
    → IsSound
        (if b then c else record c { connection_active = true; states = c.states ++ (true ∷ []) })
notify_if true c e o good = good
notify_if false c e o good =
    (IsRun-append false c.states false (subst (IsRun false c.states) e good.0), λ h. o)

notify_true-IsSound :
    (c : Client) → c.is_open ≡ true → IsSound c → IsSound (notify_connection_state true c)
unfolding notify_connection_state
notify_true-IsSound c o good = notify_if c.connection_active c refl o good

close_if :
    (b : Bool) (c : Client)
    → c.connection_active ≡ b
    → IsSound c
    → IsSound
        (record (if b
          then record c { connection_active = false; states = c.states ++ (false ∷ []) }
          else c) { is_open = false })
close_if true c e good = (
  IsRun-append false c.states true (subst (IsRun false c.states) e good.0),
  λ h. absurd (ground arith),
)
close_if false c e good = (good.0, λ h. absurd (ground (arith, e, h)))

close_open_if :
    (b : Bool) (c : Client)
    → IsSound c
    → IsSound (if b then record (notify_connection_state false c) { is_open = false } else c)
unfolding notify_connection_state
close_open_if true c good = close_if c.connection_active c refl good
close_open_if false c good = good

close_socket-IsSound : (c : Client) → IsSound c → IsSound (close_socket c)
unfolding close_socket
close_socket-IsSound c good = close_open_if c.is_open c good

module _ (on_connected : Client → Step Bool) (buf_size : ℕ) (quiet : IsQuiet on_connected) where
  finish-IsSound :
      (ok : Option Bool) (c : Client)
      → c.is_open ≡ true
      → IsSound c
      → IsSound (continue ok c (finish_connect on_connected buf_size)).client
  finish-IsSound none c o good = good
  finish-IsSound (some true) c o good = notify_true-IsSound c o good
  finish-IsSound (some false) c o good = close_socket-IsSound c good

  attach-IsSound :
      (b : Bool) (c : Client)
      → c.connection_active ≡ false
      → IsSound c
      → IsSound (attach on_connected buf_size b (record c { is_open = b })).client
  attach-IsSound true c e good =
      let d = record c { is_open = true } in
      let q = quiet d in
      finish-IsSound (on_connected d).result (on_connected d).client q.0
        (IsSound-eq d (on_connected d).client q.0 q.1 q.2 (good.0, λ h. refl))
  attach-IsSound false c e good = (good.0, λ h. absurd (ground (arith, e, h)))

  open-IsSound :
      (ls : List (Option (List Entry))) (c : Client)
      → c.connection_active ≡ false
      → IsSound c
      → IsSound ((open_from ls >>= attach on_connected buf_size) c).client
  open-IsSound [] c e good = good
  open-IsSound (l ∷ ls) c e good = attach-IsSound (entries_of l) (record c { lookups = ls }) e good

  connect_if :
      (b : Bool) (c : Client)
      → c.is_open ≡ b
      → IsSound c
      → IsSound
          (if b then give true c else (open_connection >>= attach on_connected buf_size) c).client
  unfolding open_connection
  connect_if true c e good = good
  connect_if false c e good = open-IsSound c.lookups c (ground (arith, e, good.1)) good

  connect-IsSound : Keeps IsSound (connect on_connected buf_size)
  unfolding connect
  connect-IsSound c good = connect_if c.is_open c refl good

  read_loop-IsSound : Keeps IsSound (read_loop on_connected buf_size)
  unfolding dispatch_data_callbacks
  read_loop-IsSound =
      read_loop-Keeps IsSound on_connected buf_size (λ c ps good. good) (λ c fs good. good)
        close_socket-IsSound connect-IsSound (λ c r rs e h good. good)
        (λ c r rs b bs e h good. good)

closed_if :
    (b : Bool) (c d : Client)
    → c.is_open ≡ b
    → (if b then record d { is_open = false } else c).is_open ≡ false
closed_if true c d e = refl
closed_if false c d e = e

-- A step that returns leaves the socket closed.
abbrev IsClosing : Step {0} Unit → Type 0
IsClosing s = s.result ≡ some tt → s.client.is_open ≡ false

closing-IsClosing : (c : Client) → IsClosing (closing c)
unfolding close_socket
closing-IsClosing c h = closed_if c.is_open c (notify_connection_state false c) refl

continue-IsClosing {ℓ} :
    {A : Type ℓ} (o : Option A) (c : Client) (f : A → Client → Step {0} Unit)
    → ((a : A) (d : Client) → IsClosing (f a d))
    → IsClosing (continue o c f)
continue-IsClosing none c f h e = cc
continue-IsClosing (some a) c f h e = h a c e

module _ (on_connected : Client → Step Bool) (buf_size : ℕ) where
  while_running-IsClosing :
      (more : Client → Step {0} Unit) (running : Bool) (c : Client)
      → ((d : Client) → IsClosing (more d))
      → IsClosing (while_running on_connected buf_size more running c)
  while_running-IsClosing more true c h =
      continue-IsClosing (round on_connected buf_size c).result
        (round on_connected buf_size c).client (after_round on_connected buf_size more)
        (λ go. λ d. elim go as (λ x. IsClosing (after_round on_connected buf_size more x d)) [
          | true ↦ h d
          | false ↦ closing-IsClosing d
        ])
  while_running-IsClosing more false c h = closing-IsClosing c

  read_loop_in-IsClosing : (n : ℕ) (c : Client) → IsClosing (read_loop_in on_connected buf_size n c)
  unfolding read_loop_in
  read_loop_in-IsClosing zero c = λ e. cc
  read_loop_in-IsClosing (suc n) c =
      continue-IsClosing (see_flags c).result (see_flags c).client _ (λ f. λ d.
        while_running-IsClosing (read_loop_in on_connected buf_size n) f.read_running d
          (read_loop_in-IsClosing n))

  ended :
      (s : Step {0} Unit)
      → IsSound s.client
      → IsClosing s
      → (o : Option {0} Unit) → s.result ≡ o
      → (s.result ≡ none) ⊎ ((s.client.is_open ≡ false) × IsRun false s.client.states false)
  ended s good closes none e = inl e
  ended s good closes (some t) e =
      let shut = closes e in
      inr (shut, subst (IsRun false s.client.states) (ground (arith, good.1, shut)) good.0)

  -- The calls of a connection state callback by `read_loop` of a closed client alternate, from
  -- `true` on, whatever the system answers and at any time, where `onConnected` neither opens nor
  -- closes the socket nor reports a state; and `read_loop` has not returned, or the socket is closed
  -- and the last call, if there is one, was `false`.
  pub read_loop-states :
      (c : Client)
      → IsQuiet on_connected
      → c.is_open ≡ false
      → c.connection_active ≡ false
      → c.states ≡ []
      → let s = read_loop on_connected buf_size c in
        IsRun false s.client.states s.client.connection_active
        × ((s.result ≡ none) ⊎ ((s.client.is_open ≡ false) × IsRun false s.client.states false))
  unfolding read_loop
  read_loop-states c quiet closed idle fresh =
      let s = read_loop on_connected buf_size c in
      let good =
        read_loop-IsSound on_connected buf_size quiet c
          (rw (fresh, idle, closed) (refl, λ h. absurd (ground (arith, h)))) in
      (good.0, ended s good (read_loop_in-IsClosing (suc (length c.flags)) c) s.result refl)
