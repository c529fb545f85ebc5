-- ===== src/Config.antt =====
-- `build_config_msg` of
-- ublox_driver/src/gnss_message_parser/ublox_message_processor_helper.cpp, which makes UBX-CFG-VALSET
-- of configuration records.
pub mod Items
pub mod Framed
mod Tests
use gnss_parser.Prelude.{
  ℕ, zero, suc, ◌+◌, ◌-◌, ◌*◌, ◌/◌, ◌%◌, ◌^◌, Bool, true, false, not, ◌&&◌, ◌||◌, List, [], ◌∷◌,
  ◌++◌, ltb, leb, ◌==◌, if◌then◌else◌, length, take, Option, none, some,
}
use gnss_parser.Prelude.Text.{Bytes, codes, bytes_eq, starts_with}
use gnss_parser.Prelude.Map.{lookup}
use gnss_parser.Ubx.Checksum.{set_checksum}
use Items.{rcv_config_item2code}

pub record RcvConfigRecord : Type 0 where
  pub key_name : Bytes
  pub value_text : Bytes
  pub key_id : ℕ
  pub value_bytes : List ℕ
  pub use_raw_key_value : Bool

-- The low `n` bytes of a number, the lowest first.
abbrev pub le_bytes : ℕ → ℕ → List ℕ
le_bytes zero v = []
le_bytes (suc n) v = (v % 256) ∷ le_bytes n (v / 256)

-- `find_last_of('_')`: what is before the last underscore, and what is behind it.
unfoldable pub cut_last : Bytes → Option (Bytes × Bytes)
cut_last [] = none
cut_last (x ∷ xs) = elim (cut_last xs) [
  | some (before, behind) ↦ some (x ∷ before, behind)
  | none ↦ if x == 95 then some ([], xs) else none
]

-- `std::stoull`: white space, a sign, digits; nothing where it throws.
abbrev is_space : ℕ → Bool
is_space c = c == 32 || (leb 9 c && leb c 13)

abbrev is_digit : ℕ → Bool
is_digit c = leb 48 c && leb c 57

unfoldable pub digits : Bytes → ℕ → ℕ
digits [] v = v
digits (c ∷ cs) v = let rest = digits cs (v * 10 + (c - 48)) in if is_digit c then rest else v

unfoldable pub number : Bytes → Option ℕ
number [] = none
number (c ∷ cs) =
    let v = digits (c ∷ cs) 0 in
    if not (is_digit c) then none else if leb (2 ^ 64) v then none else some v

abbrev negated : Option ℕ → Option ℕ
negated none = none
negated (some v) = some ((2 ^ 64 - v) % 2 ^ 64)

unfoldable pub stoull : Bytes → Option ℕ
stoull [] = none
stoull (c ∷ cs) =
    let rest = stoull cs in
    if is_space c
    then rest
    else if c == 45
    then negated (number cs)
    else if c == 43
    then number cs
    else number (c ∷ cs)

-- The key of an item of a port, from the key of UART1.
abbrev port_code : ℕ → Bytes → ℕ
port_code code port =
    if bytes_eq port (codes "UART1")
    then code
    else if bytes_eq port (codes "UART2")
    then (code + 1) % 2 ^ 32
    else if bytes_eq port (codes "USB")
    then (code + 2) % 2 ^ 32
    else 0

-- `code`, and nothing where the key is refused. All types of the table are read as unsigned.
abbrev of_port : Option (ℕ × ℕ) → Bytes → Option ℕ
of_port none port = none
of_port (some (code, type)) port = some (port_code code port)

abbrev of_cut : Option (Bytes × Bytes) → Option ℕ
of_cut none = none
of_cut (some (name, port)) = of_port (lookup name rcv_config_item2code) port

unfoldable pub code_of : Bytes → Option ℕ
code_of key = elim (lookup key rcv_config_item2code) [
  | some (code, type) ↦ some code
  | none ↦ if starts_with key (codes "CFG-MSGOUT-UBX_NAV_") then of_cut (cut_last key) else none
]

-- `value_num_bytes`
abbrev pub value_num_bytes : ℕ → ℕ
value_num_bytes code =
    let value_size = code / 2 ^ 28 % 8 in if ltb 2 value_size then 2 ^ (value_size - 2) else 1

-- The bytes of `append_record`, or the end of the function.
pub data Appended : Type 0 where
  refused thrown : Appended
  appended : List ℕ → Appended

abbrev with_value : ℕ → Option ℕ → Appended
with_value code none = thrown
with_value code (some value) =
    appended (le_bytes 4 code ++ take (value_num_bytes code) (le_bytes 8 value))

abbrev with_code : Option ℕ → Bytes → Appended
with_code none text = refused
with_code (some code) text = with_value code (stoull text)

abbrev no_bytes : List ℕ → Bool
no_bytes [] = true
no_bytes (x ∷ xs) = false

unfoldable pub append_record : RcvConfigRecord → Appended
append_record r =
    if r.use_raw_key_value
    then (if no_bytes r.value_bytes
        then refused
        else appended (le_bytes 4 r.key_id ++ take (length r.value_bytes % 256) r.value_bytes))
    else if no_bytes r.key_name
    then refused
    else with_code (code_of r.key_name) r.value_text

-- The loop over the records.
abbrev followed_by : Appended → Appended → Appended
followed_by refused rest = refused
followed_by thrown rest = thrown
followed_by (appended xs) refused = refused
followed_by (appended xs) thrown = thrown
followed_by (appended xs) (appended ys) = appended (xs ++ ys)

unfoldable pub append_records : List RcvConfigRecord → Appended
append_records [] = appended []
append_records (r ∷ rs) = followed_by (append_record r) (append_records rs)

-- The result: -1, an exception, or the buffer and `msg_len`. The buffer is what has been written,
-- and two bytes for the checksum.
pub data Built : Type 0 where
  failed exception : Built
  built : List ℕ → ℕ → Built

-- `payload_len` is a `uint16_t`.
unfoldable pub finish : Appended → Built
finish refused = failed
finish thrown = exception
finish (appended records) =
    let payload_len = (4 + length records) % 2 ^ 16 in
    let msg_len = 6 + payload_len + 2 in
    let buff =
      0xB5
      ∷ 0x62
      ∷ 0x06
      ∷ 0x8A
      ∷ (payload_len % 256)
      ∷ (payload_len / 256)
      ∷ 0
      ∷ 1
      ∷ 0
      ∷ 0
      ∷ (records ++ (0 ∷ 0 ∷ [])) in
    built (set_checksum buff msg_len) msg_len

unfoldable pub build_config_msg : List RcvConfigRecord → Built
build_config_msg rcv_configs = finish (append_records rcv_configs)
