-- ===== src/Params/Text.antt =====
-- The text functions of ublox_driver/src/params/params.cpp.
use gnss_parser.Prelude.{
  ℕ, ◌+◌, ◌-◌, ◌*◌, ◌%◌, ◌^◌, Bool, true, false, ◌&&◌, ◌||◌, List, [], ◌∷◌, ◌++◌, map, leb, ltb,
  ◌==◌, if◌then◌else◌, Option, none, some, length, replicate,
}
use gnss_parser.Prelude.Throws.{◌>>=◌, throw_if}
use gnss_parser.Prelude.Text.{Bytes, codes, bytes_eq}
use gnss_parser.Prelude.Text.Search.{words}

-- `std::tolower` in the C locale
unfoldable pub to_lower_char : ℕ → ℕ
to_lower_char c = if leb 65 c && leb c 90 then c + 32 else c

abbrev pub to_lower : Bytes → Bytes
to_lower = map to_lower_char

-- One of " \t\r\n"
abbrev pub is_blank : ℕ → Bool
is_blank c = c == 32 || c == 9 || c == 13 || c == 10

unfoldable pub trim_left : Bytes → Bytes
trim_left [] = []
trim_left (c ∷ cs) = let rest = trim_left cs in if is_blank c then rest else c ∷ cs

abbrev pub unless_blank : ℕ → Bytes → Bytes
unless_blank c [] = if is_blank c then [] else c ∷ []
unless_blank c (d ∷ ds) = c ∷ d ∷ ds

-- Up to the last character that is not blank.
unfoldable pub trim_right : Bytes → Bytes
trim_right [] = []
trim_right (c ∷ cs) = unless_blank c (trim_right cs)

unfoldable pub trim : Bytes → Bytes
trim value = trim_right (trim_left value)

-- One of the words.
abbrev pub is_one_of : Bytes → List Bytes → Bool
is_one_of value [] = false
is_one_of value (w ∷ ws) = bytes_eq value w || is_one_of value ws

abbrev pub true_words : List Bytes
true_words = codes "1" ∷ codes "true" ∷ codes "yes" ∷ codes "on" ∷ []

abbrev pub false_words : List Bytes
false_words = codes "0" ∷ codes "false" ∷ codes "no" ∷ codes "off" ∷ []

unfoldable pub parse_bool_scalar : Bytes → Option Bool
parse_bool_scalar raw_value =
    let normalized = to_lower (trim raw_value) in
    if is_one_of normalized true_words
    then some true
    else if is_one_of normalized false_words
    then some false
    else none

-- The digits of `std::stoul(token, nullptr, 16)`, and none for another character.
abbrev pub hex_digit : ℕ → Option ℕ
hex_digit c =
    if leb 48 c && leb c 57
    then some (c - 48)
    else if leb 97 c && leb c 102
    then some (c - 87)
    else if leb 65 c && leb c 70
    then some (c - 55)
    else none

-- The number so far, and whether a digit has been read.
unfoldable pub hex_number : Bytes → ℕ → Bool → Option ℕ
hex_number [] v seen = if seen then some v else none
hex_number (c ∷ cs) v seen = elim (hex_digit c) [
  | some d ↦ hex_number cs (v * 16 + d) true
  | none ↦ if seen then some v else none
]

-- With the prefix 0x where a digit follows it.
abbrev is_hex : ℕ → Bool
is_hex c = elim (hex_digit c) [ some d ↦ true | none ↦ false ]

unfoldable pub hex_prefixed : Bytes → Option ℕ
hex_prefixed (z ∷ x ∷ c ∷ cs) =
    if z == 48 && (x == 120 || x == 88) && is_hex c
    then hex_number (c ∷ cs) 0 false
    else hex_number (z ∷ x ∷ c ∷ cs) 0 false
hex_prefixed [] = none
hex_prefixed (z ∷ []) = hex_number (z ∷ []) 0 false
hex_prefixed (z ∷ x ∷ []) = hex_number (z ∷ x ∷ []) 0 false

abbrev in_range : ℕ → Option ℕ
in_range v = if ltb v (2 ^ 64) then some v else none

abbrev negated : ℕ → ℕ
negated v = (2 ^ 64 - v) % 2 ^ 64

-- `std::stoul(token, nullptr, 16)` of a token with no white space; nothing where it throws.
unfoldable pub stoul_16 : Bytes → Option ℕ
stoul_16 [] = none
stoul_16 (c ∷ cs) =
    if c == 45
    then (hex_prefixed cs >>= in_range) >>= (λ (v : ℕ). some (negated v))
    else if c == 43
    then hex_prefixed cs >>= in_range
    else hex_prefixed (c ∷ cs) >>= in_range

unfoldable pub parse_hex_words : List Bytes → Option (List ℕ)
parse_hex_words [] = some []
parse_hex_words (token ∷ ws) = do
  value ← stoul_16 token
  _ ← throw_if (ltb 0xFF value)
  bytes ← parse_hex_words ws
  some (value ∷ bytes)

unfoldable pub parse_hex_bytes : Bytes → Option (List ℕ)
parse_hex_bytes hex_payload = parse_hex_words (words hex_payload)

-- The first and the last character with stars between.
abbrev last_of : ℕ → Bytes → ℕ
last_of c [] = c
last_of c (d ∷ ds) = last_of d ds

unfoldable pub mask_secret : Bytes → Bytes
mask_secret [] = codes "<empty>"
mask_secret (c ∷ []) = replicate 1 42
mask_secret (c ∷ d ∷ []) = replicate 2 42
mask_secret (c ∷ d ∷ e ∷ cs) = (c ∷ replicate (length cs + 1) 42) ++ (last_of e cs ∷ [])
