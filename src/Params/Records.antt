-- ===== src/Params/Records.antt =====
-- `ParseUCenterConfig` of ublox_driver/src/params/params.cpp on the bytes of a message, against
-- `build_config_msg` of ublox_message_processor_helper.cpp.
use gnss_parser.Prelude.{
  ◌||◌, ◌==◌, ℕ, zero, suc, ◌+◌, ◌-◌, ◌*◌, ◌/◌, ◌%◌, ◌^◌, ◌<◌, ◌≤◌, ◌≡◌, refl, sym, ap, ◌∙◌, Bool,
  true, false, List, [], ◌∷◌, ◌++◌, map, Option, none, some, if◌then◌else◌, arith, length, take,
  take-append, drop-append, ltb, All, length-append, append_assoc, append-nil, all_below,
  all_below_sound, ◌&&◌, ◌||◌, not, if◌then◌else◌, ◌==◌,
}
use gnss_parser.Ubx.Frame.Spec.{frame}
use gnss_parser.Config.{
  RcvConfigRecord, le_bytes, appended, append_record, append_records, built, build_config_msg,
}
use gnss_parser.Config.Framed.{valset, build_config_msg-frame}
use gnss_parser.Params.Center.{
  get_value_byte_count, raw_record, u32_of, read_records, records_of_bytes, with_record,
}

-- The bytes of a value by the size in the key: a bit, 1, 2, 4 or 8 bytes.
abbrev pub size_of : ℕ → ℕ
size_of n =
    if n == 1
    then 1
    else if n == 2
    then 1
    else if n == 3
    then 2
    else if n == 4
    then 4
    else if n == 5
    then 8
    else 0

-- A key of 32 bits and a value of the size that the key announces.
abbrev pub IsItem : ℕ × List ℕ → Type 0
IsItem (key, value) =
    (key < 2 ^ 32) × (1 ≤ length value) × (length value ≡ size_of (key / 2 ^ 28 % 8))

abbrev pub item_record : ℕ × List ℕ → RcvConfigRecord
item_record (key, value) = raw_record key value

abbrev pub item_bytes : List (ℕ × List ℕ) → List ℕ
item_bytes [] = []
item_bytes ((key, value) ∷ items) = le_bytes 4 key ++ (value ++ item_bytes items)

abbrev is_count : ℕ → Bool
is_count n =
    size_of n == 0 || ((if ltb 2 n then 2 ^ (n - 2) else 1) == size_of n && ltb (size_of n) 256)

counts : all_below 8 is_count ≡ true
unfolding all_below
counts = refl

-- The code's count of the bytes of an item.
count_lem :
    (key n : ℕ)
    → 1 ≤ n
    → n ≡ size_of (key / 2 ^ 28 % 8)
    → (n ≡ get_value_byte_count key) × (n < 256)
unfolding get_value_byte_count
count_lem key n some_bytes e =
    let size = key / 2 ^ 28 % 8 in
    let t = all_below_sound 8 is_count size counts (omega arith) in ground (arith, t, e, some_bytes)

key_lem :
    (key : ℕ)
    → key < 2 ^ 32
    → u32_of (key % 256) (key / 256 % 256) (key / 256 / 256 % 256) (key / 256 / 256 / 256 % 256)
      ≡ key
key_lem key lt = omega arith

read_records_item :
    (n key : ℕ) (value rest : List ℕ)
    → key < 2 ^ 32
    → length value ≡ get_value_byte_count key
    → read_records (suc n) (le_bytes 4 key ++ (value ++ rest))
      ≡ with_record (raw_record key value) (read_records n rest)
unfolding read_records
read_records_item n key value rest lt e =
    let fits : ltb (length (value ++ rest)) (length value) ≡ false =
      ground (arith, length-append value rest) in
    rw
      (
        key_lem key lt,
        sym e,
        fits,
        take-append value rest (length value) refl,
        drop-append value rest (length value) refl,
      )
      refl

read_records_items :
    (n : ℕ) (items : List (ℕ × List ℕ))
    → All IsItem items
    → length items < n
    → read_records n (item_bytes items) ≡ some (map item_record items)
unfolding read_records
read_records_items zero items good lt = absurd (omega arith)
read_records_items (suc n) [] good lt = refl
read_records_items (suc n) ((key, value) ∷ items) good lt =
    read_records_item n key value (item_bytes items) good.0.0
      (count_lem key (length value) good.0.1 good.0.2).0
    ∙ ap (with_record (raw_record key value)) (read_records_items n items good.1 (omega arith))

append_record_item :
    (key : ℕ) (value : List ℕ)
    → IsItem (key, value)
    → append_record (raw_record key value) ≡ appended (le_bytes 4 key ++ value)
unfolding append_record
append_record_item key [] good = absurd (omega (arith, good.1))
append_record_item key (x ∷ value) good =
    let c = count_lem key (length (x ∷ value)) good.1 good.2 in
    let small : length (x ∷ value) % 256 ≡ length (x ∷ value) = omega (arith, c.1) in
    let whole = take-append (x ∷ value) [] (length (x ∷ value)) refl in
    rw small (
      ap (λ t. appended (le_bytes 4 key ++ t))
        (ap (take (length (x ∷ value))) (sym (append-nil (x ∷ value))) ∙ whole))

append_records_items :
    (items : List (ℕ × List ℕ))
    → All IsItem items
    → append_records (map item_record items) ≡ appended (item_bytes items)
unfolding append_records
append_records_items [] good = refl
append_records_items ((key, value) ∷ items) good =
    rw (append_record_item key value good.0, append_records_items items good.1)
      (ap appended (append_assoc (le_bytes 4 key) value (item_bytes items)))

length-item_bytes : (items : List (ℕ × List ℕ)) → length items ≤ length (item_bytes items)
length-item_bytes [] = omega arith
length-item_bytes ((key, value) ∷ items) =
    omega (arith, length-item_bytes items, length-append value (item_bytes items))

guards_passed {ℓ} :
    {A : Type ℓ} (a b c : Bool) (o : Option (List A))
    → a ≡ false
    → b ≡ true
    → c ≡ false
    → (if a || false || false then none else if not b then none else if c then some [] else o) ≡ o
guards_passed true b c o ea eb ec = absurd (ground (arith, ea))
guards_passed false false c o ea eb ec = absurd (ground (arith, eb))
guards_passed false true true o ea eb ec = absurd (ground (arith, ec))
guards_passed false true false o ea eb ec = refl

-- The bytes of a CFG-VALSET line with these items.
abbrev pub line_bytes : List (ℕ × List ℕ) → List ℕ
line_bytes items =
    let n = 4 + length (item_bytes items) in
    0x06 ∷ 0x8A ∷ (n % 256) ∷ (n / 256) ∷ valset (item_bytes items)

-- The bytes of a CFG-VALSET message with any items, each with a value of the size that its key
-- announces, in a payload that fits, are read as the records of those items, and from these records
-- `build_config_msg` makes the frame with the same payload.
pub records_of_bytes-build_config_msg :
    (items : List (ℕ × List ℕ))
    → All IsItem items
    → 4 + length (item_bytes items) < 2 ^ 16
    → (records_of_bytes (line_bytes items) ≡ some (map item_record items))
      × (build_config_msg (map item_record items)
          ≡ built (frame 0x06 0x8A (valset (item_bytes items))) (length (item_bytes items) + 12))
unfolding records_of_bytes
records_of_bytes-build_config_msg items good fits =
    let n = length (item_bytes items) in
    let enough = length-item_bytes items in
    let size = length (line_bytes items) in
    let m = (4 + n) % 256 + 256 * ((4 + n) / 256) in
    let long : ltb size 8 ≡ false = ground arith in
    let same : (size == m + 4) ≡ true = ground arith in
    let more : ltb m 4 ≡ false = ground arith in
    (
      guards_passed (ltb size 8) (size == m + 4) (ltb m 4)
            (read_records (size + 1) (item_bytes items)) long same more
          ∙ read_records_items (size + 1) items good (omega (arith, enough)),
      build_config_msg-frame (map item_record items) (item_bytes items)
          (append_records_items items good) fits,
    )
