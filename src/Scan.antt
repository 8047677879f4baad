-- ===== src/Scan.antt =====
-- How src/config.cpp reads a text: `std::string::find` from a position that may be `npos`, the values
-- of keys, and lists with commas. `npos` is `none`.
pub mod Search
pub mod Split
mod Tests
use zyrnix.Prelude.{
  ℕ, suc, ◌-◌, Bool, false, ◌&&◌, ◌||◌, Option, none, some, List, [], ◌∷◌, ◌++◌, if◌then◌else◌, ltb,
  leb, ◌==◌, Text, codes, take, drop,
}
use zyrnix.Redact.{find_from}

-- `text.find(pattern, pos)` from a position that may be `npos`.
unfoldable pub find_at : Text → Text → Option ℕ → Option ℕ
find_at pattern text none = none
find_at pattern text (some pos) = find_from pattern text pos

-- `text.substr(start, end - start)`.
unfoldable pub substring : Text → ℕ → ℕ → Text
substring text start end = take (end - start) (drop start text)

-- A key in its quotes.
unfoldable pub quoted : Text → Text
quoted key = b'"' ∷ (key ++ codes "\"")

-- The text between the first two quotes after a position. The search from `npos + 1` does not
-- matter, since the code then takes no value.
unfoldable pub between_quotes : Text → Option ℕ → Option Text
between_quotes text from = elim (find_at (codes "\"") text from) [
  | none ↦ none
  | some quote1 ↦ elim (find_from (codes "\"") text (suc quote1)) [
    | none ↦ none
    | some quote2 ↦ some (substring text (suc quote1) quote2)
  ]
]

-- The value of a key, between the first two quotes after the first colon after the key.
unfoldable pub string_value : Text → Text → Option Text
string_value text key = elim (find_from (quoted key) text 0) [
  | none ↦ none
  | some p ↦ between_quotes text (find_at (codes ":") text (some p))
]

-- The value of `async` and of `redact_cloud_only`, for the object that ends at `obj_end`.
unfoldable pub flag_value : Text → Text → ℕ → Option Bool
flag_value obj key obj_end = elim (find_from (quoted key) obj 0) [
  | none ↦ none
  | some p ↦ elim (find_at (codes "true") obj (find_at (codes ":") obj (some p))) [
    | none ↦ some false
    | some true_pos ↦ some (ltb true_pos obj_end)
  ]
]

unfoldable pub is_digit : ℕ → Bool
is_digit c = leb b'0' c && leb c b'9'

unfoldable pub skip_to_digit : Text → Text
skip_to_digit [] = []
skip_to_digit (c ∷ cs) = let rest = skip_to_digit cs in if is_digit c then c ∷ cs else rest

unfoldable pub take_digits : Text → Text
take_digits [] = []
take_digits (c ∷ cs) = let rest = take_digits cs in if is_digit c then c ∷ rest else []

-- The first run of digits after the colon after a key; from the start without a colon, where
-- `npos + 1` is 0.
unfoldable pub number_value : Text → Text → Option Text
number_value text key = elim (find_from (quoted key) text 0) [
  | none ↦ none
  | some p ↦ elim (find_at (codes ":") text (some p)) [
    | none ↦ some (take_digits (skip_to_digit text))
    | some colon ↦ some (take_digits (skip_to_digit (drop (suc colon) text)))
  ]
]

unfoldable pub or_else {ℓ} : {A : Type ℓ} → Option A → A → A
or_else none a = a
or_else (some b) a = b

unfoldable pub is_space : ℕ → Bool
is_space c = c == b' ' || c == 10 || c == 13 || c == 9

-- How many bytes of white space stand in front.
unfoldable pub spaces : Text → ℕ
spaces [] = 0
spaces (c ∷ cs) = let rest = suc (spaces cs) in if is_space c then rest else 0

unfoldable pub is_blank : ℕ → Bool
is_blank c = c == b' ' || c == 9

-- The text after the blanks in front, and the text before the blanks at the end.
unfoldable pub trim_left : Text → Text
trim_left [] = []
trim_left (c ∷ cs) = let rest = trim_left cs in if is_blank c then rest else c ∷ cs

unfoldable pub trim_right : Text → Text
trim_right [] = []
trim_right (c ∷ cs) =
    let rest = trim_right cs in
    elim rest [ [] ↦ if is_blank c then [] else c ∷ [] | d ∷ ds ↦ c ∷ d ∷ ds ]

-- A piece without its blanks, if something is left of it.
unfoldable pub add_piece : Text → List Text → List Text
add_piece current result = elim (trim_right (trim_left current)) [
  | [] ↦ result
  | c ∷ cs ↦ result ++ (c ∷ cs) ∷ []
]

-- The loop of `split_and_trim`.
unfoldable pub split_loop : Text → Text → List Text → List Text
split_loop [] current result = add_piece current result
split_loop (c ∷ cs) current result =
    let cut = split_loop cs [] (add_piece current result) in
    let longer = split_loop cs (current ++ c ∷ []) result in if c == b',' then cut else longer

unfoldable pub split_and_trim : Text → List Text
split_and_trim value = split_loop value [] []
