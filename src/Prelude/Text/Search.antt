-- ===== src/Prelude/Text/Search.antt =====
-- Searches in `std::string`, lines and words.
use Prim.Native.Nat.{ℕ}
use mathlib.Core.Bool.{Bool, true, false, ◌&&◌, ◌||◌}
use mathlib.Core.List.{List, [], ◌∷◌, ◌++◌}
use mathlib.Core.Option.{Option, none, some}
use gnss_parser.Prelude.Tests.{leb, ◌==◌, if◌then◌else◌}
use gnss_parser.Prelude.Lists.{length, drop}
use gnss_parser.Prelude.Text.{Bytes, starts_with}

abbrev pub before : ℕ → Option (Bytes × Bytes) → Option (Bytes × Bytes)
before c none = none
before c (some (a, b)) = some (c ∷ a, b)

-- `find(needle)` of a needle that is not empty: what is before its first place, and what is behind
-- the needle there.
unfoldable pub cut : Bytes → Bytes → Option (Bytes × Bytes)
cut needle [] = none
cut needle (c ∷ cs) =
    if starts_with (c ∷ cs) needle
    then some ([], drop (length needle) (c ∷ cs))
    else before c (cut needle cs)

abbrev pub is_there : Option (Bytes × Bytes) → Bool
is_there none = false
is_there (some p) = true

abbrev pub contains : Bytes → Bytes → Bool
contains needle text = is_there (cut needle text)

-- `std::isspace` in the C locale
abbrev pub is_space : ℕ → Bool
is_space c = c == 32 || (leb 9 c && leb c 13)

abbrev onto_first : ℕ → List Bytes → List Bytes
onto_first c [] = (c ∷ []) ∷ []
onto_first c (l ∷ ls) = (c ∷ l) ∷ ls

-- The lines that `std::getline` gives.
unfoldable pub lines : Bytes → List Bytes
lines [] = []
lines (c ∷ cs) = let rest = lines cs in if c == 10 then [] ∷ rest else onto_first c rest

-- The words that `>>` gives. `word` is what has been read of the word at hand.
abbrev pub closed_by : Bytes → List Bytes → List Bytes
closed_by [] ws = ws
closed_by (c ∷ cs) ws = (c ∷ cs) ∷ ws

unfoldable pub words_from : Bytes → Bytes → List Bytes
words_from word [] = closed_by word []
words_from word (c ∷ cs) = elim (is_space c) [
  | true ↦ closed_by word (words_from [] cs)
  | false ↦ words_from (word ++ (c ∷ [])) cs
]

abbrev pub words : Bytes → List Bytes
words = words_from []
