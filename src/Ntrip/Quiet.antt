-- ===== src/Ntrip/Quiet.antt =====
-- What `onConnected` of ublox_driver/src/rtcm/ntrip_client.cpp leaves alone, and with it the
-- connection state callbacks of a reconnecting NTRIP client.
use gnss_parser.Prelude.{
  ◌⊎◌, ℕ, zero, suc, ◌≡◌, refl, Bool, true, false, List, [], ◌∷◌, ◌++◌, Option, none, some, length,
  leb, not, take, drop,
}
use gnss_parser.Prelude.Text.{Bytes}
use gnss_parser.Prelude.Text.Search.{contains}
use gnss_parser.Tcp.{
  Poll, Recv, received, again, broken, Send, taken, send_now, sent_to, wait_to_send, Client, Step,
  give, wait_for_event, recv_from, recv_some, write_rest, write_all, read_until_in, read_until,
  append_data, read_ready, unless_full, unless_found, temp_size, dispatch_data_callbacks,
}
use gnss_parser.Tcp.Keeps.{Keeps, bind-Keeps, if-Keeps, wait_for_event-Keeps}
use gnss_parser.Tcp.Loop.{read_loop}
use gnss_parser.Tcp.States.{IsRun, IsQuiet, read_loop-states}
use gnss_parser.Ntrip.{
  crlf_2, lf_2, max_ntrip_header_bytes, NtripClient, build_request, check_header, split_response,
  is_accepted, first_line, hand_payload, parse_response, after_second, after_first, after_request,
  on_connected,
}

module _ (IsGood : Client → Type 0)
    (polls_keep : (c : Client) (ps : List Poll) → IsGood c → IsGood (record c { polls = ps }))
    (sends_keep : (c : Client) (ss : List Send) (bs : Bytes)
      → IsGood c
      → IsGood (record c { sends = ss; sent = bs }))
    (recvs_keep : (c : Client) (rs : List Recv) → IsGood c → IsGood (record c { recvs = rs })) where
  wait-Keeps : Keeps IsGood wait_for_event
  wait-Keeps = wait_for_event-Keeps IsGood polls_keep

  wait_to_send-Keeps : (ok : Bool) → Keeps IsGood (wait_to_send ok)
  wait_to_send-Keeps true c good = good
  wait_to_send-Keeps false c good = good

  send_now-Keeps :
      (more : Bytes → Client → Step Bool) (s : Send) (ss : List Send) (bs : Bytes) (ok : Bool)
      → ((bs : Bytes) → Keeps IsGood (more bs))
      → Keeps IsGood (send_now more s ss bs ok)
  send_now-Keeps more s ss bs false h c good = good
  send_now-Keeps more (taken zero) ss bs true h c good = sends_keep c ss c.sent good
  send_now-Keeps more (taken (suc n)) ss bs true h c good =
      h (drop (suc n) bs) (sent_to (suc n) bs ss c)
        (sends_keep c ss (c.sent ++ take (suc n) bs) good)
  send_now-Keeps more again ss bs true h c good =
      h bs (record c { sends = ss }) (sends_keep c ss c.sent good)
  send_now-Keeps more broken ss bs true h c good = sends_keep c ss c.sent good

  write_rest-Keeps : (ss : List Send) (bs : Bytes) → Keeps IsGood (write_rest ss bs)
  unfolding write_rest
  write_rest-Keeps [] [] = λ c good. good
  write_rest-Keeps (s ∷ ss) [] = λ c good. good
  write_rest-Keeps [] (b ∷ bs) = bind-Keeps IsGood wait_for_event _ wait-Keeps wait_to_send-Keeps
  write_rest-Keeps (s ∷ ss) (b ∷ bs) =
      bind-Keeps IsGood wait_for_event _ wait-Keeps
        (λ ok. send_now-Keeps (write_rest ss) s ss (b ∷ bs) ok (write_rest-Keeps ss))

  recv_from-Keeps : (rs : List Recv) (n : ℕ) → Keeps IsGood (recv_from rs n)
  unfolding recv_from
  recv_from-Keeps [] n c good = good
  recv_from-Keeps (received bs ∷ rs) n c good = recvs_keep c rs good
  recv_from-Keeps (again ∷ rs) n c good = recvs_keep c rs good
  recv_from-Keeps (broken ∷ rs) n c good = recvs_keep c rs good

  recv_some-Keeps : (n : ℕ) → Keeps IsGood (recv_some n)
  unfolding recv_some
  recv_some-Keeps n c good =
      if-Keeps IsGood (not c.is_open) (give Recv.broken) (recv_from c.recvs n) c good
        (recv_from-Keeps c.recvs n c good)

  append_data-Keeps :
      (more : Bytes → Client → Step (Bool × Bytes)) (buffer : Bytes) (r : Recv)
      → ((bs : Bytes) → Keeps IsGood (more bs))
      → Keeps IsGood (append_data more buffer r)
  append_data-Keeps more buffer (received []) h = λ c good. good
  append_data-Keeps more buffer (received (b ∷ bs)) h = h (buffer ++ (b ∷ bs))
  append_data-Keeps more buffer again h = h buffer
  append_data-Keeps more buffer broken h = λ c good. good

  read_ready-Keeps :
      (more : Bytes → Client → Step (Bool × Bytes)) (buffer : Bytes) (ok : Bool)
      → ((bs : Bytes) → Keeps IsGood (more bs))
      → Keeps IsGood (read_ready more buffer ok)
  read_ready-Keeps more buffer true h =
      bind-Keeps IsGood (recv_some temp_size) _ (recv_some-Keeps temp_size)
        (λ r. append_data-Keeps more buffer r h)
  read_ready-Keeps more buffer false h = λ c good. good

  unless_full-Keeps :
      (more : Bytes → Client → Step (Bool × Bytes)) (buffer : Bytes) (full : Bool)
      → ((bs : Bytes) → Keeps IsGood (more bs))
      → Keeps IsGood (unless_full more buffer full)
  unless_full-Keeps more buffer true h = λ c good. good
  unless_full-Keeps more buffer false h =
      bind-Keeps IsGood wait_for_event _ wait-Keeps (λ ok. read_ready-Keeps more buffer ok h)

  unless_found-Keeps :
      (more : Bytes → Client → Step (Bool × Bytes)) (max_bytes : ℕ) (buffer : Bytes) (found : Bool)
      → ((bs : Bytes) → Keeps IsGood (more bs))
      → Keeps IsGood (unless_found more max_bytes buffer found)
  unless_found-Keeps more max_bytes buffer true h = λ c good. good
  unless_found-Keeps more max_bytes buffer false h =
      unless_full-Keeps more buffer (leb max_bytes (length buffer)) h

  read_until_in-Keeps :
      (n : ℕ) (delimiter : Bytes) (max_bytes : ℕ) (buffer : Bytes)
      → Keeps IsGood (read_until_in n delimiter max_bytes buffer)
  unfolding read_until_in
  read_until_in-Keeps zero delimiter max_bytes buffer = λ c good. good
  read_until_in-Keeps (suc n) delimiter max_bytes buffer =
      unless_found-Keeps (read_until_in n delimiter max_bytes) max_bytes buffer
        (contains delimiter buffer) (read_until_in-Keeps n delimiter max_bytes)

  pub read_until-Keeps :
      (delimiter : Bytes) (max_bytes : ℕ) (buffer : Bytes)
      → Keeps IsGood (read_until delimiter max_bytes buffer)
  unfolding read_until
  read_until-Keeps delimiter max_bytes buffer c good =
      read_until_in-Keeps (suc (length c.recvs)) delimiter max_bytes buffer c good

  write_all-Keeps : (bs : Bytes) → Keeps IsGood (write_all bs)
  unfolding write_all
  write_all-Keeps bs c good = write_rest-Keeps c.sends bs c good

  module _
      (data_keep : (c : Client) (bs : List Bytes)
        → IsGood c
        → IsGood (record c { dispatched = bs })) where
    payload-Keeps : (payload : Bytes) (c : Client) → IsGood c → IsGood (hand_payload payload c)
    unfolding dispatch_data_callbacks
    payload-Keeps [] c good = good
    payload-Keeps (b ∷ bs) c good = data_keep c (c.dispatched ++ ((b ∷ bs) ∷ [])) good

    check_header-Keeps : (o : Option (Bytes × Bytes)) → Keeps IsGood (check_header o)
    check_header-Keeps none c good = good
    check_header-Keeps (some (header, payload)) c good =
        if-Keeps IsGood (is_accepted (first_line header)) (λ d. give true (hand_payload payload d))
          (give false) c (payload-Keeps payload c good) good

    parse_response-Keeps : (response : Bytes) → Keeps IsGood (parse_response response)
    unfolding parse_response
    parse_response-Keeps response = check_header-Keeps (split_response response)

    after_second-Keeps : (r : Bool × Bytes) → Keeps IsGood (after_second r)
    after_second-Keeps (true, response) = parse_response-Keeps response
    after_second-Keeps (false, response) = λ c good. good

    after_first-Keeps : (r : Bool × Bytes) → Keeps IsGood (after_first r)
    after_first-Keeps (true, response) = parse_response-Keeps response
    after_first-Keeps (false, response) =
        bind-Keeps IsGood (read_until lf_2 max_ntrip_header_bytes response) _
          (read_until-Keeps lf_2 max_ntrip_header_bytes response) after_second-Keeps

    after_request-Keeps : (ok : Bool) → Keeps IsGood (after_request ok)
    after_request-Keeps true =
        bind-Keeps IsGood (read_until crlf_2 max_ntrip_header_bytes []) _
          (read_until-Keeps crlf_2 max_ntrip_header_bytes []) after_first-Keeps
    after_request-Keeps false = λ c good. good

    on_connected-Keeps : (client : NtripClient) → Keeps IsGood (on_connected client)
    unfolding on_connected
    on_connected-Keeps client =
        bind-Keeps IsGood (write_all (build_request client)) _
          (write_all-Keeps (build_request client)) after_request-Keeps

abbrev IsLike : Client → Client → Type 0
IsLike c d =
    (d.is_open ≡ c.is_open) × (d.connection_active ≡ c.connection_active) × (d.states ≡ c.states)

on_connected-IsQuiet : (client : NtripClient) → IsQuiet (on_connected client)
on_connected-IsQuiet client c =
    on_connected-Keeps (IsLike c) (λ d ps h. h) (λ d ss bs h. h) (λ d rs h. h) (λ d bs h. h) client
      c (refl, refl, refl)

-- The calls of a connection state callback by `read_loop` of a closed NTRIP client, the handshake
-- with the caster included, alternate, from `true` on, whatever the system answers and at any time;
-- and `read_loop` has not returned, or the socket is closed and the last call, if there is one, was
-- `false`.
pub on_connected-states :
    (client : NtripClient) (buf_size : ℕ) (c : Client)
    → c.is_open ≡ false
    → c.connection_active ≡ false
    → c.states ≡ []
    → let s = read_loop (on_connected client) buf_size c in
      IsRun false s.client.states s.client.connection_active
      × ((s.result ≡ none) ⊎ ((s.client.is_open ≡ false) × IsRun false s.client.states false))
on_connected-states client buf_size c closed idle fresh =
    read_loop-states (on_connected client) buf_size c (on_connected-IsQuiet client) closed idle
      fresh
