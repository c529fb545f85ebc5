-- ===== src/Params/Center.antt =====
-- `GetValueByteCount` and `ParseUCenterConfig` of ublox_driver/src/params/params.cpp, on the text of
-- the file.
use gnss_parser.Prelude.{
  ℕ, zero, suc, ◌+◌, ◌-◌, ◌*◌, ◌/◌, ◌%◌, ◌^◌, Bool, true, not, ◌&&◌, ◌||◌, List, [], ◌∷◌, ◌++◌, ltb,
  ◌==◌, if◌then◌else◌, Option, none, some, length, take, drop, byte_at,
}
use gnss_parser.Prelude.Throws.{◌>>=◌}
use gnss_parser.Prelude.Text.{Bytes, codes, bytes_eq}
use gnss_parser.Prelude.Text.Search.{cut, lines}
use gnss_parser.Config.{RcvConfigRecord}
use gnss_parser.Params.Text.{trim, parse_hex_bytes}

unfoldable pub get_value_byte_count : ℕ → ℕ
get_value_byte_count key_id =
    let value_size = key_id / 2 ^ 28 % 8 in if ltb 2 value_size then 2 ^ (value_size - 2) else 1

-- `RcvConfigRecord(uint32_t, std::vector<uint8_t>)`
abbrev pub raw_record : ℕ → List ℕ → RcvConfigRecord
raw_record key value = record {
  key_name = [];
  value_text = [];
  key_id = key;
  value_bytes = value;
  use_raw_key_value = true;
}

abbrev pub u32_of : ℕ → ℕ → ℕ → ℕ → ℕ
u32_of a b c d = a + 256 * b + 65536 * c + 16777216 * d

abbrev pub with_record :
    RcvConfigRecord → Option (List RcvConfigRecord) → Option (List RcvConfigRecord)
with_record r none = none
with_record r (some rs) = some (r ∷ rs)

-- `while (offset + 4U <= payload_end)` on the bytes from `offset` on, and the test behind the loop;
-- nothing where it throws. Each round takes a byte at least.
unfoldable pub read_records : ℕ → List ℕ → Option (List RcvConfigRecord)
read_records zero bytes = none
read_records (suc n) [] = some []
read_records (suc n) (a ∷ []) = none
read_records (suc n) (a ∷ b ∷ []) = none
read_records (suc n) (a ∷ b ∷ c ∷ []) = none
read_records (suc n) (a ∷ b ∷ c ∷ d ∷ rest) =
    let key_id = u32_of a b c d in
    let count = get_value_byte_count key_id in
    let more = read_records n (drop count rest) in
    if ltb (length rest) count then none else with_record (raw_record key_id (take count rest)) more

-- The bytes of a line behind the name of the message.
unfoldable pub records_of_bytes : List ℕ → Option (List RcvConfigRecord)
records_of_bytes bytes =
    let payload_len = byte_at bytes 2 + 256 * byte_at bytes 3 in
    let records = read_records (length bytes + 1) (drop 8 bytes) in
    if ltb (length bytes) 8
      || not (byte_at bytes 0 == 0x06)
      || (not (byte_at bytes 1 == 0x8A) && not (byte_at bytes 1 == 0x8B))
    then none
    else if not (length bytes == payload_len + 4)
    then none
    else if ltb payload_len 4
    then some []
    else records

abbrev pub is_valset : Bytes → Bool
is_valset name = bytes_eq name (codes "CFG-VALGET") || bytes_eq name (codes "CFG-VALSET")

abbrev pub records_of_cut : Option (Bytes × Bytes) → Option (List RcvConfigRecord)
records_of_cut none = some []
records_of_cut (some (name, hex)) =
    if is_valset name then (parse_hex_bytes hex >>= records_of_bytes) else some []

-- The records of a line; none where it is passed over.
unfoldable pub records_of_line : Bytes → Option (List RcvConfigRecord)
records_of_line line = records_of_cut (cut (codes " - ") (trim line))

unfoldable pub records_of_lines : List Bytes → Option (List RcvConfigRecord)
records_of_lines [] = some []
records_of_lines (line ∷ rest) = do
  here ← records_of_line line
  more ← records_of_lines rest
  some (here ++ more)

abbrev unless_empty : List RcvConfigRecord → Option (List RcvConfigRecord)
unless_empty [] = none
unless_empty (r ∷ rs) = some (r ∷ rs)

unfoldable pub parse_u_center_config : Bytes → Option (List RcvConfigRecord)
parse_u_center_config text = records_of_lines (lines text) >>= unless_empty
