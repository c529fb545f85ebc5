-- ===== src/Ntrip/Handshake.antt =====
-- The payload that arrives with the response of a caster, over `readUntil` and `parseResponse` of
-- ublox_driver/src/rtcm.
use gnss_parser.Prelude.{
  drop-append_left, ◌==◌, ◌&&◌, ℕ, ◌≤◌, ◌≡◌, refl, sym, ap, subst, ◌∙◌, Bool, true, false, [], ◌∷◌,
  ◌++◌, Option, none, some, if◌then◌else◌, arith, Bool-cases, inl, inr, length, append-nil,
}
use gnss_parser.Prelude.Text.{joined, Bytes, starts_with}
use gnss_parser.Prelude.Text.Search.{cut, before, is_there}
use gnss_parser.Tcp.{Client, Step, give, continue, temp_size, read_until, dispatch_data_callbacks}
use gnss_parser.Tcp.Data.{all_handed}
use gnss_parser.Tcp.Until.{read_until-IsRight, IsRightResult}
use gnss_parser.Ntrip.Quiet.{read_until-Keeps}
use gnss_parser.Ntrip.{
  crlf_2, first_line, is_accepted, split_response, hand_payload, parse_response,
  max_ntrip_header_bytes, after_first, after_request,
}
use gnss_parser.Ntrip.Header.{cut-crlf_2}

starts_with-append_long :
    (needle xs ys : Bytes)
    → length needle ≤ length xs
    → starts_with (xs ++ ys) needle ≡ starts_with xs needle
unfolding starts_with
starts_with-append_long [] [] [] le = refl
starts_with-append_long [] [] (y ∷ ys) le = refl
starts_with-append_long [] (x ∷ xs) ys le = refl
starts_with-append_long (n ∷ needle) [] ys le = absurd (omega arith)
starts_with-append_long (n ∷ needle) (x ∷ xs) ys le =
    ap (λ t. x == n && t) (starts_with-append_long needle xs ys (omega arith))

starts_with-length : (needle xs : Bytes) → starts_with xs needle ≡ true → length needle ≤ length xs
unfolding starts_with
starts_with-length [] xs e = omega arith
starts_with-length (n ∷ needle) [] e = absurd (ground arith)
starts_with-length (n ∷ needle) (x ∷ xs) e = let ih = starts_with-length needle xs in ground arith

is_there_deeper :
    (b : Bool) (x : ℕ) (p : Bytes × Bytes) (o : Option (Bytes × Bytes))
    → b ≡ false
    → is_there (if b then some p else before x o) ≡ true
    → is_there o ≡ true
is_there_deeper true x p o no_place e = absurd (ground (arith, no_place))
is_there_deeper false x p none no_place e = e
is_there_deeper false x p (some q) no_place e = refl

-- A place that was found leaves room for the needle.
cut-length : (needle xs : Bytes) → is_there (cut needle xs) ≡ true → length needle ≤ length xs
unfolding cut
cut-length needle [] e = absurd (ground arith)
cut-length needle (x ∷ xs) e =
    let ih = cut-length needle xs in
    let found = starts_with-length needle (x ∷ xs) in
    elim (Bool-cases (starts_with (x ∷ xs) needle)) [
      | inl b ↦ found b
      | inr b ↦
          omega (arith, ih (is_there_deeper (starts_with (x ∷ xs) needle) x _ (cut needle xs) b e))
    ]

abbrev extended : Option (Bytes × Bytes) → Bytes → Option (Bytes × Bytes)
extended none ys = none
extended (some (a, b)) ys = some (a, b ++ ys)

before-extended :
    (c : ℕ) (o : Option (Bytes × Bytes)) (ys : Bytes)
    → before c (extended o ys) ≡ extended (before c o) ys
before-extended c none ys = refl
before-extended c (some (a, b)) ys = refl

-- A place that was found is found as well when more follows.
cut-append :
    (needle xs ys : Bytes)
    → is_there (cut needle xs) ≡ true
    → cut needle (xs ++ ys) ≡ extended (cut needle xs) ys
unfolding cut
cut-append needle [] ys e = absurd (ground arith)
cut-append needle (x ∷ xs) ys e =
    let le : length needle ≤ length (x ∷ xs) = cut-length needle (x ∷ xs) e in
    let same = starts_with-append_long needle (x ∷ xs) ys le in
    elim (Bool-cases (starts_with (x ∷ xs) needle)) [
      | inl b ↦
          rw (same, b) (ap (λ t. some ([], t)) (drop-append_left (length needle) (x ∷ xs) ys le))
      | inr b ↦
          rw (same, b)
            (ap (before x) (
                cut-append needle xs ys
                  (is_there_deeper (starts_with (x ∷ xs) needle) x _ (cut needle xs) b e))
              ∙ before-extended x (cut needle xs) ys)
    ]

-- The response that was read, with the data to come, is the header, the blank line and the payload.
split-payload :
    (o : Option (Bytes × Bytes)) (rest h payload : Bytes)
    → extended o rest ≡ some (h, payload)
    → (b : Bytes) × (o ≡ some (h, b)) × (b ++ rest ≡ payload)
split-payload none rest h payload e = cc
split-payload (some (a, b)) rest h payload e = (b, cc, cc)

joined-hand_payload :
    (b rest : Bytes) (c : Client)
    → c.dispatched ≡ []
    → joined (hand_payload b c).dispatched ++ rest ≡ b ++ rest
unfolding dispatch_data_callbacks
joined-hand_payload [] rest c e = rw e refl
joined-hand_payload (x ∷ b) rest c e = rw e (ap (◌++ rest) (append-nil (x ∷ b)))

hand_payload-recvs : (b : Bytes) (c : Client) → (hand_payload b c).recvs ≡ c.recvs
unfolding dispatch_data_callbacks
hand_payload-recvs [] c = refl
hand_payload-recvs (x ∷ b) c = refl

parse_response-found :
    (out h b : Bytes) (c : Client)
    → cut crlf_2 out ≡ some (h, b)
    → is_accepted (first_line h) ≡ true
    → parse_response out c ≡ give true (hand_payload b c)
unfolding parse_response split_response
parse_response-found out h b c e ok = rw (e, ok) refl

abbrev pub read_header : Client → Step (Bool × Bytes)
read_header = read_until crlf_2 max_ntrip_header_bytes []

read_header-parts :
    (h payload out : Bytes) (c : Client)
    → cut crlf_2 (h ++ (13 ∷ 10 ∷ 13 ∷ [])) ≡ none
    → all_handed temp_size c.recvs ≡ h ++ (crlf_2 ++ payload)
    → (read_header c).result ≡ some (true, out)
    → (b : Bytes) × (cut crlf_2 out ≡ some (h, b))
      × (b ++ all_handed temp_size (read_header c).client.recvs ≡ payload)
read_header-parts h payload out c plain arrives e =
    let d = (read_header c).client in
    let rest = all_handed temp_size d.recvs in
    let right =
      subst (λ o. IsRightResult crlf_2 max_ntrip_header_bytes (all_handed temp_size c.recvs) o d) e
        (read_until-IsRight crlf_2 max_ntrip_header_bytes [] c (omega arith)) in
    split-payload (cut crlf_2 out) rest h payload (
      sym (cut-append crlf_2 out rest (sym right.0))
      ∙ ap (cut crlf_2) (right.2 ∙ arrives)
      ∙ cut-crlf_2 h payload plain)

-- Where a caster sends an accepted header with no blank line in it, a blank line and then any
-- bytes, and the header has been read, however the bytes are cut up, `onConnected` succeeds, and
-- what it hands to the callbacks, with what is still to come, is exactly those bytes: none of the
-- corrections that arrive with the header is lost, and nothing of the header is handed on.
pub after_request-payload :
    (h payload out : Bytes) (c : Client)
    → cut crlf_2 (h ++ (13 ∷ 10 ∷ 13 ∷ [])) ≡ none
    → is_accepted (first_line h) ≡ true
    → c.dispatched ≡ []
    → all_handed temp_size c.recvs ≡ h ++ (crlf_2 ++ payload)
    → (read_header c).result ≡ some (true, out)
    → let s = after_request true c in
      (s.result ≡ some true)
      × (joined s.client.dispatched ++ all_handed temp_size s.client.recvs ≡ payload)
after_request-payload h payload out c plain ok fresh arrives e =
    let d = (read_header c).client in
    let parts = read_header-parts h payload out c plain arrives e in
    let empty =
      read_until-Keeps (λ x. x.dispatched ≡ []) (λ x ps q. q) (λ x ss bs q. q) (λ x rs q. q) crlf_2
        max_ntrip_header_bytes [] c fresh in
    let handed : after_request true c ≡ give true (hand_payload parts.0 d) =
      ap (λ o. continue o d after_first) e ∙ parse_response-found out h parts.0 d parts.1 ok in
    rw handed (
      refl,
      ap (λ rs. joined (hand_payload parts.0 d).dispatched ++ all_handed temp_size rs)
            (hand_payload-recvs parts.0 d)
          ∙ joined-hand_payload parts.0 (all_handed temp_size d.recvs) d empty
          ∙ parts.2,
    )
