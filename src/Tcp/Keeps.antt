-- ===== src/Tcp/Keeps.antt =====
-- Predicates on the client that every step of the reader keeps, by parts of the step.
use gnss_parser.Prelude.{
  ℕ, zero, suc, ◌≡◌, refl, Bool, true, false, not, List, [], ◌∷◌, if◌then◌else◌, Option, none, some,
  length, take,
}
use gnss_parser.Prelude.Text.{Bytes}
use gnss_parser.Tcp.{
  Poll, polled, timed_out, interrupted, failed, Recv, received, again, broken, Flags, Client, Step,
  continue, ◌>>=◌, give, see_flags, flags_from, poll_until, wait_for_event, recv_from, recv_some,
  close_socket, dispatch_data_callbacks,
}
use gnss_parser.Tcp.Loop.{
  look, sleep_until, sleep_interruptibly, lose, connect, handle_read, round, read_loop_in,
  read_loop, is_stopped, unless_stopped, after_wait, after_connect, after_round, while_running,
}

-- The data of an answer of `recv` to a buffer of `n` bytes.
abbrev pub handed : ℕ → Recv → Bytes
handed n (received bs) = take n bs
handed n again = []
handed n broken = []

module _ (IsGood : Client → Type 0) where
  abbrev pub Keeps {ℓ} : {A : Type ℓ} → (Client → Step A) → Type 0
  Keeps m = (c : Client) → IsGood c → IsGood (m c).client

  continue-Keeps {ℓ κ} :
      {A : Type ℓ} {B : Type κ} (o : Option A) (f : A → Client → Step B)
      → ((a : A) → Keeps (f a))
      → (c : Client) → IsGood c
      → IsGood (continue o c f).client
  continue-Keeps none f h c good = good
  continue-Keeps (some a) f h c good = h a c good

  pub bind-Keeps {ℓ κ} :
      {A : Type ℓ} {B : Type κ} (m : Client → Step A) (f : A → Client → Step B)
      → Keeps m
      → ((a : A) → Keeps (f a))
      → Keeps (m >>= f)
  bind-Keeps m f hm hf c good = continue-Keeps (m c).result f hf (m c).client (hm c good)

  pub if-Keeps {ℓ} :
      {A : Type ℓ} (b : Bool) (m n : Client → Step A) (c : Client)
      → IsGood (m c).client
      → IsGood (n c).client
      → IsGood (if b then m c else n c).client
  if-Keeps true m n c hm hn = hm
  if-Keeps false m n c hm hn = hn

  -- A wait for the socket only takes answers of `poll`.
  module _
      (polls_keep : (c : Client) (ps : List Poll)
        → IsGood c
        → IsGood (record c { polls = ps })) where
    poll_until-Keeps : (ps : List Poll) → Keeps (poll_until ps)
    unfolding poll_until
    poll_until-Keeps [] c good = polls_keep c [] good
    poll_until-Keeps (polled true e r ∷ ps) c good = polls_keep c ps good
    poll_until-Keeps (polled false true r ∷ ps) c good = polls_keep c ps good
    poll_until-Keeps (polled false false true ∷ ps) c good = polls_keep c ps good
    poll_until-Keeps (polled false false false ∷ ps) c good = poll_until-Keeps ps c good
    poll_until-Keeps (timed_out ∷ ps) c good = polls_keep c ps good
    poll_until-Keeps (interrupted ∷ ps) c good = poll_until-Keeps ps c good
    poll_until-Keeps (failed ∷ ps) c good = polls_keep c ps good

    pub wait_for_event-Keeps : Keeps wait_for_event
    unfolding wait_for_event
    wait_for_event-Keeps c good =
        if-Keeps (not c.is_open) (give false) (poll_until c.polls) c good
          (poll_until-Keeps c.polls c good)

  -- What a predicate must bear: the answers that are used up, the close of the socket, `connect`,
  -- and the data that are read and handed on.
  module _ (on_connected : Client → Step Bool) (buf_size : ℕ)
      (polls_keep : (c : Client) (ps : List Poll) → IsGood c → IsGood (record c { polls = ps }))
      (flags_keep : (c : Client) (fs : List Flags) → IsGood c → IsGood (record c { flags = fs }))
      (close_keeps : (c : Client) → IsGood c → IsGood (close_socket c))
      (connect_keeps : Keeps (connect on_connected buf_size))
      (nothing_keeps : (c : Client) (r : Recv) (rs : List Recv)
        → c.recvs ≡ r ∷ rs
        → handed buf_size r ≡ []
        → IsGood c
        → IsGood (record c { recvs = rs }))
      (data_keeps : (c : Client) (r : Recv) (rs : List Recv) (b : ℕ) (bs : Bytes)
        → c.recvs ≡ r ∷ rs
        → handed buf_size r ≡ b ∷ bs
        → IsGood c
        → IsGood (dispatch_data_callbacks (b ∷ bs) (record c { recvs = rs }))) where
    flags_from-Keeps : (fs : List Flags) → Keeps (flags_from fs)
    flags_from-Keeps [] c good = good
    flags_from-Keeps (f ∷ fs) c good = flags_keep c fs good

    flags-Keeps : Keeps see_flags
    unfolding see_flags
    flags-Keeps c good = flags_from-Keeps c.flags c good

    sleep_until-Keeps : (ps : List Poll) → Keeps (sleep_until ps)
    unfolding sleep_until
    sleep_until-Keeps [] c good = polls_keep c [] good
    sleep_until-Keeps (polled w e r ∷ ps) c good = polls_keep c ps good
    sleep_until-Keeps (timed_out ∷ ps) c good =
        bind-Keeps see_flags _ flags-Keeps (λ f d h. h) (record c { polls = ps })
          (polls_keep c ps good)
    sleep_until-Keeps (interrupted ∷ ps) c good = sleep_until-Keeps ps c good
    sleep_until-Keeps (failed ∷ ps) c good = polls_keep c ps good

    sleep-Keeps : Keeps sleep_interruptibly
    unfolding sleep_interruptibly
    sleep-Keeps c good =
        if-Keeps c.has_pipe (sleep_until c.polls) look c (sleep_until-Keeps c.polls c good)
          (bind-Keeps see_flags _ flags-Keeps (λ f d h. h) c good)

    lose-Keeps : Keeps lose
    unfolding lose
    lose-Keeps c good = sleep-Keeps (close_socket c) (close_keeps c good)

    handle_read-Keeps :
        (c : Client) (r : Recv) (rs : List Recv) (got : Bytes)
        → c.recvs ≡ r ∷ rs
        → handed buf_size r ≡ got
        → IsGood c
        → IsGood (handle_read on_connected buf_size (received got) (record c { recvs = rs })).client
    unfolding handle_read
    handle_read-Keeps c r rs [] e h good =
        lose-Keeps (record c { recvs = rs }) (nothing_keeps c r rs e h good)
    handle_read-Keeps c r rs (b ∷ bs) e h good = data_keeps c r rs b bs e h good

    read_from-Keeps :
        (rs : List Recv) (c : Client)
        → c.recvs ≡ rs
        → IsGood c
        → IsGood ((recv_from rs buf_size >>= handle_read on_connected buf_size) c).client
    unfolding recv_from handle_read
    read_from-Keeps [] c e good = good
    read_from-Keeps (received bs ∷ rs) c e good =
        handle_read-Keeps c (received bs) rs (take buf_size bs) e refl good
    read_from-Keeps (again ∷ rs) c e good = nothing_keeps c Recv.again rs e refl good
    read_from-Keeps (broken ∷ rs) c e good =
        lose-Keeps (record c { recvs = rs }) (nothing_keeps c Recv.broken rs e refl good)

    read_if-Keeps :
        (closed : Bool) (c : Client)
        → IsGood c
        → IsGood
            (((λ d. if closed then give Recv.broken d else recv_from c.recvs buf_size d)
                >>= handle_read on_connected buf_size)
              c).client
    unfolding handle_read
    read_if-Keeps true c good = lose-Keeps c good
    read_if-Keeps false c good = read_from-Keeps c.recvs c refl good

    read-Keeps : Keeps (recv_some buf_size >>= handle_read on_connected buf_size)
    unfolding recv_some
    read-Keeps c good = read_if-Keeps (not c.is_open) c good

    unless_stopped-Keeps :
        (go : Client → Step Bool) (stopped : Bool)
        → Keeps go
        → Keeps (unless_stopped on_connected buf_size go stopped)
    unless_stopped-Keeps go true h = λ c good. good
    unless_stopped-Keeps go false h = h

    after_wait-Keeps : (b : Bool) → Keeps (after_wait on_connected buf_size b)
    after_wait-Keeps true = read-Keeps
    after_wait-Keeps false =
        bind-Keeps see_flags _ flags-Keeps
          (λ f. unless_stopped-Keeps lose (is_stopped f) lose-Keeps)

    after_connect-Keeps : (b : Bool) → Keeps (after_connect on_connected buf_size b)
    after_connect-Keeps true =
        bind-Keeps wait_for_event _ (wait_for_event-Keeps polls_keep) after_wait-Keeps
    after_connect-Keeps false =
        bind-Keeps see_flags _ flags-Keeps
          (λ f. unless_stopped-Keeps sleep_interruptibly (is_stopped f) sleep-Keeps)

    round-Keeps : Keeps (round on_connected buf_size)
    unfolding round
    round-Keeps = bind-Keeps (connect on_connected buf_size) _ connect_keeps after_connect-Keeps

    after_round-Keeps :
        (more : Client → Step {0} Unit) (go : Bool)
        → Keeps more
        → Keeps (after_round on_connected buf_size more go)
    after_round-Keeps more true h = h
    after_round-Keeps more false h = close_keeps

    while_running-Keeps :
        (more : Client → Step {0} Unit) (running : Bool)
        → Keeps more
        → Keeps (while_running on_connected buf_size more running)
    while_running-Keeps more true h =
        bind-Keeps (round on_connected buf_size) _ round-Keeps (λ go. after_round-Keeps more go h)
    while_running-Keeps more false h = close_keeps

    read_loop_in-Keeps : (n : ℕ) → Keeps (read_loop_in on_connected buf_size n)
    unfolding read_loop_in
    read_loop_in-Keeps zero = λ c good. good
    read_loop_in-Keeps (suc n) = bind-Keeps see_flags _ flags-Keeps (λ f.
        while_running-Keeps (read_loop_in on_connected buf_size n) f.read_running
          (read_loop_in-Keeps n))

    pub read_loop-Keeps : Keeps (read_loop on_connected buf_size)
    unfolding read_loop
    read_loop-Keeps c good = read_loop_in-Keeps (suc (length c.flags)) c good
