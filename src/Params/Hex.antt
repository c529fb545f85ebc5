-- ===== src/Params/Hex.antt =====
-- The text of a CFG-VALSET line of a u-center file, read back by `ParseHexBytes` and
-- `ParseUCenterConfig` of ublox_driver/src/params/params.cpp.
use gnss_parser.Prelude.{
  ℕ, ◌+◌, ◌/◌, ◌%◌, ◌^◌, ◌<◌, ◌≡◌, refl, ap, ◌∙◌, Bool, true, false, List, [], ◌∷◌, ◌++◌, map,
  Option, none, some, if◌then◌else◌, arith, length, drop, All, all_below, all_below_sound, ltb,
  ◌==◌,
}
use gnss_parser.Prelude.Throws.{◌>>=◌}
use gnss_parser.Prelude.Text.{Bytes, codes, starts_with, bytes_eq}
use gnss_parser.Prelude.Text.Search.{words_from, closed_by, is_space, cut}
use gnss_parser.Params.Text.{
  stoul_16, hex_prefixed, hex_number, parse_hex_words, parse_hex_bytes, trim_right, trim_left, trim,
  is_blank, unless_blank,
}
use gnss_parser.Params.Center.{records_of_bytes, records_of_line, records_of_cut}
use gnss_parser.Params.Records.{
  IsItem, item_record, item_bytes, line_bytes, records_of_bytes-build_config_msg,
}

abbrev hex_char : ℕ → ℕ
hex_char d = if ltb d 10 then d + 48 else d + 55

-- Two digits of a byte.
unfoldable pub hex_pair : ℕ → Bytes
hex_pair b = hex_char (b / 16) ∷ hex_char (b % 16) ∷ []

-- The bytes of a line, with a space between them.
abbrev pub hex_line : List ℕ → Bytes
hex_line [] = []
hex_line (b ∷ []) = hex_pair b
hex_line (b ∷ c ∷ bs) = hex_pair b ++ (32 ∷ hex_line (c ∷ bs))

abbrev is_value : ℕ → Option ℕ → Bool
is_value b none = false
is_value b (some v) = v == b

abbrev is_read : ℕ → Bool
is_read b = is_value b (stoul_16 (hex_pair b))

read_table : all_below 256 is_read ≡ true
unfolding all_below stoul_16 hex_prefixed hex_number hex_pair
read_table = refl

is_value_lem : (b : ℕ) (o : Option ℕ) → is_value b o ≡ true → o ≡ some b
is_value_lem b none e = absurd (ground (arith, e))
is_value_lem b (some v) e = ap some (ground (arith, e))

stoul_16-hex_pair : (b : ℕ) → b < 256 → stoul_16 (hex_pair b) ≡ some b
stoul_16-hex_pair b lt =
    is_value_lem b (stoul_16 (hex_pair b)) (all_below_sound 256 is_read b read_table lt)

hex_char_black :
    (d : ℕ) → d < 16 → (is_space (hex_char d) ≡ false) × (is_blank (hex_char d) ≡ false)
hex_char_black d lt = (ground arith, ground arith)

words_from-black :
    (word : Bytes) (c : ℕ) (cs : Bytes)
    → is_space c ≡ false
    → words_from word (c ∷ cs) ≡ words_from (word ++ (c ∷ [])) cs
unfolding words_from
words_from-black word c cs e =
    ap
      (λ t. elim t [
        | true ↦ closed_by word (words_from [] cs)
        | false ↦ words_from (word ++ (c ∷ [])) cs
      ])
      e

-- A pair is read into the word.
words_from-hex_pair :
    (b : ℕ) (cs : Bytes) → b < 256 → words_from [] (hex_pair b ++ cs) ≡ words_from (hex_pair b) cs
unfolding hex_pair
words_from-hex_pair b cs lt =
    let h = hex_char_black (b / 16) (omega arith) in
    let l = hex_char_black (b % 16) (omega arith) in
    words_from-black [] (hex_char (b / 16)) (hex_char (b % 16) ∷ cs) h.0
    ∙ words_from-black (hex_char (b / 16) ∷ []) (hex_char (b % 16)) cs l.0

words-hex_line :
    (bs : List ℕ) → All (λ b. b < 256) bs → words_from [] (hex_line bs) ≡ map hex_pair bs
unfolding words_from hex_pair
words-hex_line [] small = refl
words-hex_line (b ∷ []) small = words_from-hex_pair b [] small.0
words-hex_line (b ∷ c ∷ bs) small =
    words_from-hex_pair b (32 ∷ hex_line (c ∷ bs)) small.0
    ∙ ap (hex_pair b ∷◌) (words-hex_line (c ∷ bs) small.1)

parse_hex_words-map :
    (bs : List ℕ) → All (λ b. b < 256) bs → parse_hex_words (map hex_pair bs) ≡ some bs
unfolding parse_hex_words
parse_hex_words-map [] small = refl
parse_hex_words-map (b ∷ bs) small =
    let ok : ltb 0xFF b ≡ false = ground (arith, small.0) in
    rw (stoul_16-hex_pair b small.0, ok, parse_hex_words-map bs small.1) refl

trim_right-append :
    (xs : Bytes) (y : ℕ) (ys : Bytes)
    → trim_right (y ∷ ys) ≡ y ∷ ys
    → trim_right (xs ++ (y ∷ ys)) ≡ xs ++ (y ∷ ys)
unfolding trim_right
trim_right-append [] y ys e = e
trim_right-append (x ∷ []) y ys e = ap (unless_blank x) e
trim_right-append (x ∷ x' ∷ xs) y ys e = ap (unless_blank x) (trim_right-append (x' ∷ xs) y ys e)

-- The line ends in a digit.
trim_right-hex_pair : (b : ℕ) → b < 256 → trim_right (hex_pair b) ≡ hex_pair b
unfolding trim_right hex_pair
trim_right-hex_pair b lt =
    let l = hex_char_black (b % 16) (omega arith) in
    ap (λ t. unless_blank (hex_char (b / 16)) (if t then [] else hex_char (b % 16) ∷ [])) l.1

trim_right-hex_line :
    (b : ℕ) (bs : List ℕ)
    → All (λ x. x < 256) (b ∷ bs)
    → trim_right (hex_line (b ∷ bs)) ≡ hex_line (b ∷ bs)
unfolding hex_pair
trim_right-hex_line b [] small = trim_right-hex_pair b small.0
trim_right-hex_line b (c ∷ []) small =
    trim_right-append (hex_char (b / 16) ∷ hex_char (b % 16) ∷ 32 ∷ []) _ _
      (trim_right-hex_line c [] small.1)
trim_right-hex_line b (c ∷ d ∷ bs) small =
    trim_right-append (hex_char (b / 16) ∷ hex_char (b % 16) ∷ 32 ∷ []) _ _
      (trim_right-hex_line c (d ∷ bs) small.1)

parse_hex_bytes-hex_line :
    (bs : List ℕ) → All (λ b. b < 256) bs → parse_hex_bytes (hex_line bs) ≡ some bs
unfolding parse_hex_bytes
parse_hex_bytes-hex_line bs small =
    ap parse_hex_words (words-hex_line bs small) ∙ parse_hex_words-map bs small

-- The line of a CFG-VALSET message.
abbrev pub valset_line : List ℕ → Bytes
valset_line bs = codes "CFG-VALSET - " ++ hex_line bs

trim-valset_line :
    (b : ℕ) (bs : List ℕ)
    → All (λ x. x < 256) (b ∷ bs)
    → trim (valset_line (b ∷ bs)) ≡ valset_line (b ∷ bs)
unfolding trim trim_left hex_pair
trim-valset_line b [] small =
    trim_right-append (codes "CFG-VALSET - ") _ _ (trim_right-hex_line b [] small)
trim-valset_line b (c ∷ bs) small =
    trim_right-append (codes "CFG-VALSET - ") _ _ (trim_right-hex_line b (c ∷ bs) small)

cut-valset_line :
    (bs : List ℕ) → cut (codes " - ") (valset_line bs) ≡ some (codes "CFG-VALSET", hex_line bs)
unfolding cut starts_with
cut-valset_line bs = refl

bytes-line_bytes :
    (items : List (ℕ × List ℕ))
    → All (λ b. b < 256) (item_bytes items)
    → 4 + length (item_bytes items) < 2 ^ 16
    → All (λ b. b < 256) (line_bytes items)
bytes-line_bytes items small fits = (
  omega arith,
  (
    omega arith,
    (omega arith, (omega arith, (omega arith, (omega arith, (omega arith, (omega arith, small)))))),
  ),
)

-- A line `CFG-VALSET - ` with a message in hexadecimal of any items, each with a value of the size
-- that its key announces and together in a payload that fits, is read as the records of the items.
pub records_of_line-valset_line :
    (items : List (ℕ × List ℕ))
    → All IsItem items
    → All (λ b. b < 256) (item_bytes items)
    → 4 + length (item_bytes items) < 2 ^ 16
    → records_of_line (valset_line (line_bytes items)) ≡ some (map item_record items)
unfolding records_of_line bytes_eq
records_of_line-valset_line items good small fits =
    let bytes = bytes-line_bytes items small fits in
    ap (λ t. records_of_cut (cut (codes " - ") t))
      (trim-valset_line 0x06 (drop 1 (line_bytes items)) bytes)
    ∙ ap records_of_cut (cut-valset_line (line_bytes items))
    ∙ ap (λ o. o >>= records_of_bytes) (parse_hex_bytes-hex_line (line_bytes items) bytes)
    ∙ (records_of_bytes-build_config_msg items good fits).0
