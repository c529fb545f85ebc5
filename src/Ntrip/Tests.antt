-- ===== src/Ntrip/Tests.antt =====
-- Runs of the NTRIP client, and the theorems at concrete inputs.
use gnss_parser.Prelude.{◌⊎◌, none, ◌≡◌, refl, true, false, [], ◌∷◌, ◌++◌, some, arith}
use gnss_parser.Prelude.Text.{Bytes, codes, joined, starts_with}
use gnss_parser.Prelude.Text.Search.{cut}
use gnss_parser.Tcp.{
  polled, received, Client, temp_size, read_until, read_until_in, wait_for_event, poll_until,
  recv_some, recv_from, dispatch_data_callbacks,
}
use gnss_parser.Tcp.Loop.{read_loop}
use gnss_parser.Tcp.States.{IsRun}
use gnss_parser.Tcp.Data.{all_handed}
use gnss_parser.Ntrip.{
  NtripClient, base64_encode, crlf_2, lf_2, parse_response, split_response, first_line, push_all,
  push_sextets, digit, after_request, on_connected,
}
use gnss_parser.Ntrip.Base64.{base64_decode, base64_decode-base64_encode}
use gnss_parser.Ntrip.Quiet.{on_connected-states}
use gnss_parser.Ntrip.Handshake.{after_request-payload}

base64-run : base64_encode (codes "user:pass1") ≡ codes "dXNlcjpwYXNzMQ=="
unfolding base64_encode push_all push_sextets digit
base64-run = refl

base64_decode-base64_encode_example :
    base64_decode (base64_encode (255 ∷ 0 ∷ 58 ∷ 7 ∷ [])) ≡ 255 ∷ 0 ∷ 58 ∷ 7 ∷ []
base64_decode-base64_encode_example =
    base64_decode-base64_encode (255 ∷ 0 ∷ 58 ∷ 7 ∷ [])
      (omega arith, (omega arith, (omega arith, (omega arith, tt))))

abbrev caster : NtripClient
caster = record { mountpoint = codes "MOUNT"; username = codes "u"; password = [] }

abbrev header : Bytes
header = codes "ICY 200 OK"

abbrev answered : Client
answered = record {
  is_open = true;
  connection_active = false;
  has_pipe = true;
  polls = polled false false true ∷ polled false false true ∷ [];
  recvs =
      received (codes "ICY 200")
      ∷ received (codes " OK" ++ (13 ∷ 10 ∷ 13 ∷ 10 ∷ 0xD3 ∷ []))
      ∷ received (0 ∷ 19 ∷ [])
      ∷ [];
  sends = [];
  lookups = [];
  flags = [];
  sent = [];
  dispatched = [];
  states = [];
}

after_request-payload_example :
    let s = after_request true answered in
    (s.result ≡ some true)
    × (joined s.client.dispatched ++ all_handed temp_size s.client.recvs ≡ 0xD3 ∷ 0 ∷ 19 ∷ [])
unfolding cut starts_with first_line read_until read_until_in wait_for_event poll_until recv_some
    recv_from
after_request-payload_example =
    after_request-payload header (0xD3 ∷ 0 ∷ 19 ∷ []) (header ++ (crlf_2 ++ (0xD3 ∷ []))) answered
      refl refl refl refl refl

-- A header that ends in two line feeds, and a payload that has the other end in it: what is before
-- that is not handed on.
abbrev mixed : Bytes
mixed = header ++ (lf_2 ++ (1 ∷ 2 ∷ 3 ∷ (crlf_2 ++ (4 ∷ 5 ∷ []))))

mixed-run : (parse_response mixed answered).client.dispatched ≡ (4 ∷ 5 ∷ []) ∷ []
unfolding parse_response split_response cut starts_with first_line dispatch_data_callbacks
mixed-run = refl

abbrev fresh : Client
fresh = record answered {
  is_open = false;
  lookups = some (record { makes_socket = true; accepts = true } ∷ []) ∷ [];
  flags = record { read_running = true; shutting_down = false } ∷ [];
}

on_connected-states_example :
    let s = read_loop (on_connected caster) 4096 fresh in
    IsRun false s.client.states s.client.connection_active
    × ((s.result ≡ none) ⊎ ((s.client.is_open ≡ false) × IsRun false s.client.states false))
on_connected-states_example = on_connected-states caster 4096 fresh refl refl refl
