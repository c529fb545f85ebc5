-- ===== src/Ntrip.antt =====
-- `NtripClient` of ublox_driver/src/rtcm/ntrip_client.cpp.
pub mod Base64
pub mod Header
pub mod Handshake
pub mod Quiet
mod Tests
use gnss_parser.Prelude.{
  ℕ, zero, suc, ◌+◌, ◌-◌, ◌*◌, ◌/◌, ◌%◌, ◌^◌, ◌≡◌, Bool, true, false, not, ◌&&◌, ◌||◌, List, [],
  ◌∷◌, ◌++◌, ltb, leb, ◌==◌, if◌then◌else◌, Option, none, some, length, byte_at,
}
use gnss_parser.Prelude.Text.{Bytes, codes, starts_with}
use gnss_parser.Prelude.Text.Search.{cut}
use gnss_parser.Tcp.{Client, Step, ◌>>=◌, give, write_all, read_until, dispatch_data_callbacks}

abbrev pub alphabet : Bytes
alphabet = codes "ABCDEFGHIJKLMNOPQRSTUVWXYZabcdefghijklmnopqrstuvwxyz0123456789+/"

-- `kAlphabet[i]`
unfoldable pub digit : ℕ → ℕ
digit i = byte_at alphabet i

abbrev pub sextet : ℕ → ℕ
sextet v = digit (v % 64)

abbrev pub accumulate : ℕ → ℕ → ℕ
accumulate accumulator ch = accumulator * 256 % 2 ^ 32 + ch

-- `while (bit_count >= 6)` and what is pushed then; `more` has the bit count behind it. A round takes
-- 6 of the bits.
unfoldable pub push_sextets : ℕ → ℕ → ℕ → (ℕ → Bytes) → Bytes
push_sextets zero accumulator bit_count more = more bit_count
push_sextets (suc n) accumulator bit_count more =
    let rest = push_sextets n accumulator (bit_count - 6) more in
    if leb 6 bit_count then sextet (accumulator / 2 ^ (bit_count - 6)) ∷ rest else more bit_count

-- The loop over the input, and the last sextet.
unfoldable pub push_all : Bytes → ℕ → ℕ → Bytes
push_all [] accumulator bit_count =
    if ltb 0 bit_count then sextet (accumulator * 2 ^ (6 - bit_count) % 2 ^ 32) ∷ [] else []
push_all (ch ∷ input) accumulator bit_count =
    push_sextets (bit_count + 8) (accumulate accumulator ch) (bit_count + 8)
      (push_all input (accumulate accumulator ch))

-- By the length over a multiple of 4.
abbrev pub padding_of : ℕ → Bytes
padding_of m =
    if m == 0
    then []
    else if m == 1
    then 61 ∷ 61 ∷ 61 ∷ []
    else if m == 2
    then 61 ∷ 61 ∷ []
    else 61 ∷ []

abbrev pub padding : ℕ → Bytes
padding n = padding_of (n % 4)

-- With `=` up to a length that 4 divides.
abbrev pub padded : Bytes → Bytes
padded output = output ++ padding (length output)

unfoldable pub base64_encode : Bytes → Bytes
base64_encode input = padded (push_all input 0 0)

-- The members that `NtripClient` adds.
pub record NtripClient : Type 0 where
  pub mountpoint : Bytes
  pub username : Bytes
  pub password : Bytes

abbrev pub crlf : Bytes
crlf = 13 ∷ 10 ∷ []

abbrev with_slash : Bytes → Bytes
with_slash [] = []
with_slash (c ∷ cs) = if c == 47 then c ∷ cs else 47 ∷ c ∷ cs

abbrev authorization : Bytes → Bytes → Bytes
authorization [] [] = []
authorization username password =
    codes "Authorization: Basic " ++ (base64_encode (username ++ (58 ∷ password)) ++ crlf)

unfoldable pub build_request : NtripClient → Bytes
build_request c =
    codes "GET "
    ++ (with_slash c.mountpoint
        ++ (codes " HTTP/1.0"
            ++ (crlf
                ++ (codes "User-Agent: NTRIP ublox_driver/1.0"
                    ++ (crlf
                        ++ (codes "Accept: */*"
                            ++ (crlf
                                ++ (codes "Connection: close"
                                    ++ (crlf
                                        ++ (codes "Ntrip-Version: Ntrip/2.0"
                                            ++ (crlf
                                                ++ (authorization c.username c.password
                                                    ++ crlf))))))))))))

abbrev pub crlf_2 : Bytes
crlf_2 = 13 ∷ 10 ∷ 13 ∷ 10 ∷ []

abbrev pub lf_2 : Bytes
lf_2 = 10 ∷ 10 ∷ []

-- Up to the first carriage return or line feed.
unfoldable pub first_line : Bytes → Bytes
first_line [] = []
first_line (c ∷ cs) = let rest = first_line cs in if c == 13 || c == 10 then [] else c ∷ rest

abbrev pub is_accepted : Bytes → Bool
is_accepted line =
    starts_with line (codes "ICY 200")
    || starts_with line (codes "HTTP/1.0 200")
    || starts_with line (codes "HTTP/1.1 200")

abbrev or_else : Option (Bytes × Bytes) → Option (Bytes × Bytes) → Option (Bytes × Bytes)
or_else none other = other
or_else (some p) other = some p

-- The header and the payload of a response.
unfoldable pub split_response : Bytes → Option (Bytes × Bytes)
split_response response = or_else (cut crlf_2 response) (cut lf_2 response)

abbrev pub hand_payload : Bytes → Client → Client
hand_payload [] c = c
hand_payload (b ∷ bs) c = dispatch_data_callbacks (b ∷ bs) c

abbrev pub check_header : Option (Bytes × Bytes) → Client → Step Bool
check_header none c = give false c
check_header (some (header, payload)) c =
    if is_accepted (first_line header) then give true (hand_payload payload c) else give false c

unfoldable pub parse_response : Bytes → Client → Step Bool
parse_response response = check_header (split_response response)

abbrev pub max_ntrip_header_bytes : ℕ
max_ntrip_header_bytes = 8192

abbrev pub after_second : Bool × Bytes → Client → Step Bool
after_second (true, response) = parse_response response
after_second (false, response) = give false

abbrev pub after_first : Bool × Bytes → Client → Step Bool
after_first (true, response) = parse_response response
after_first (false, response) = read_until lf_2 max_ntrip_header_bytes response >>= after_second

abbrev pub after_request : Bool → Client → Step Bool
after_request true = read_until crlf_2 max_ntrip_header_bytes [] >>= after_first
after_request false = give false

unfoldable pub on_connected : NtripClient → Client → Step Bool
on_connected c = write_all (build_request c) >>= after_request
