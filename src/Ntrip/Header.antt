-- ===== src/Ntrip/Header.antt =====
-- The response of a caster: `parseResponse` of ublox_driver/src/rtcm/ntrip_client.cpp.
use gnss_parser.Prelude.{
  ℕ, ◌≡◌, refl, ap, Bool, true, false, [], ◌∷◌, ◌++◌, Option, none, some, if◌then◌else◌,
}
use gnss_parser.Prelude.Text.{Bytes, starts_with}
use gnss_parser.Prelude.Text.Search.{cut, before}
use gnss_parser.Tcp.{Client, give}
use gnss_parser.Ntrip.{
  crlf_2, first_line, is_accepted, split_response, hand_payload, parse_response,
}

-- What follows the first four bytes does not matter.
starts_with-crlf_2 :
    (x : ℕ) (h tail : Bytes)
    → starts_with (x ∷ (h ++ (crlf_2 ++ tail))) crlf_2
      ≡ starts_with (x ∷ (h ++ (13 ∷ 10 ∷ 13 ∷ []))) crlf_2
unfolding starts_with
starts_with-crlf_2 x [] tail = refl
starts_with-crlf_2 x (y ∷ []) tail = refl
starts_with-crlf_2 x (y ∷ z ∷ []) tail = refl
starts_with-crlf_2 x (y ∷ z ∷ w ∷ h) tail = refl

before-none :
    (b : Bool) (x : ℕ) (p : Bytes × Bytes) (o : Option (Bytes × Bytes))
    → (if b then some p else before x o) ≡ none
    → (b ≡ false) × (o ≡ none)
before-none true x p o e = cc
before-none false x p none e = (refl, refl)
before-none false x p (some q) e = cc

-- The first place of the end of the header.
pub cut-crlf_2 :
    (h tail : Bytes)
    → cut crlf_2 (h ++ (13 ∷ 10 ∷ 13 ∷ [])) ≡ none
    → cut crlf_2 (h ++ (crlf_2 ++ tail)) ≡ some (h, tail)
unfolding cut starts_with
cut-crlf_2 [] tail e = refl
cut-crlf_2 (x ∷ h) tail e =
    let parts = before-none (starts_with (x ∷ (h ++ (13 ∷ 10 ∷ 13 ∷ []))) crlf_2) x _ _ e in
    rw (starts_with-crlf_2 x h tail, parts.0) (ap (before x) (cut-crlf_2 h tail parts.1))

-- A response whose header has no blank line in it, before the one that ends it, is accepted exactly
-- by its first line, and then exactly the payload behind the blank line is handed to the callbacks,
-- whatever bytes it has.
parse_response-payload :
    (h payload : Bytes) (c : Client)
    → cut crlf_2 (h ++ (13 ∷ 10 ∷ 13 ∷ [])) ≡ none
    → parse_response (h ++ (crlf_2 ++ payload)) c
      ≡ (if is_accepted (first_line h) then give true (hand_payload payload c) else give false c)
unfolding parse_response split_response
parse_response-payload h payload c e = rw (cut-crlf_2 h payload e) refl
