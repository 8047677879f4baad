-- ===== src/Json/Reader.antt =====
-- A reader of JSON objects whose members are strings, as the standard has them: the reference for
-- the lines that the sink writes.
use zyrnix.Prelude.{
  ℕ, zero, suc, ◌+◌, ◌-◌, ◌*◌, ◌||◌, ◌&&◌, Option, none, some, List, [], ◌∷◌, if◌then◌else◌, ltb,
  leb, ◌==◌, Text,
}

-- Inside a string: after a plain character, after a backslash, or with `n` more hexadecimal digits
-- of a character to come behind those that make `acc`.
pub data Mode : Type 0 where
  plain slash : Mode
  hex : ℕ → ℕ → Mode

-- The character that a letter stands for after a backslash.
unfoldable pub escaped : ℕ → Option ℕ
escaped c =
    if (c == 34 || c == 92) || c == 47
    then some c
    else if c == 98
    then some 8
    else if c == 102
    then some 12
    else if c == 110
    then some 10
    else if c == 114
    then some 13
    else if c == 116
    then some 9
    else none

unfoldable pub digit_value : ℕ → Option ℕ
digit_value c =
    if leb 48 c && leb c 57
    then some (c - 48)
    else if leb 97 c && leb c 102
    then some (c - 87)
    else if leb 65 c && leb c 70
    then some (c - 55)
    else none

-- One more character in front of what was read.
unfoldable pub prepend : ℕ → Option (Text × Text) → Option (Text × Text)
prepend c none = none
prepend c (some (s, rest)) = some (c ∷ s, rest)

-- The characters up to the closing quote, and the text behind it. Raw control characters are
-- refused; a character above 127 stands for itself, and `\u` for the number of a character.
unfoldable pub string_body : Mode → Text → Option (Text × Text)
string_body m [] = none
string_body plain (c ∷ text) =
    let after_slash = string_body slash text in
    let rest = string_body plain text in
    if c == 34
    then some ([], text)
    else if c == 92
    then after_slash
    else if ltb c 32
    then none
    else prepend c rest
string_body slash (c ∷ text) =
    let unicode = string_body (hex 4 0) text in
    let rest = string_body plain text in
    if c == 117 then unicode else elim (escaped c) [ none ↦ none | some d ↦ prepend d rest ]
string_body (hex zero acc) (c ∷ text) = none
string_body (hex (suc n) acc) (c ∷ text) = elim (digit_value c) [
  | none ↦ none
  | some d ↦
      let rest = string_body plain text in
      let more = string_body (hex n (acc * 16 + d)) text in
      elim n [ zero ↦ prepend (acc * 16 + d) rest | suc k ↦ more ]
]

-- A given character at the front.
unfoldable pub expect : ℕ → Text → Option Text
expect c [] = none
expect c (d ∷ text) = if c == d then some text else none

unfoldable pub string : Text → Option (Text × Text)
string text = elim (expect 34 text) [ none ↦ none | some rest ↦ string_body plain rest ]

unfoldable pub member : Text → Option ((Text × Text) × Text)
member text = elim (string text) [
  | none ↦ none
  | some (key, rest) ↦ elim (expect 58 rest) [
    | none ↦ none
    | some later ↦ elim (string later) [
      | none ↦ none
      | some (value, end) ↦ some ((key, value), end)
    ]
  ]
]

-- `n` members with commas between them and a brace at the end of the text.
unfoldable pub members : ℕ → Text → Option (List (Text × Text))
members zero text = none
members (suc n) text = elim (member text) [
  | none ↦ none
  | some (m, rest) ↦ elim (expect 44 rest) [
    | none ↦ elim rest [
      | [] ↦ none
      | c ∷ end ↦ elim end [ [] ↦ if c == 125 then some (m ∷ []) else none | d ∷ ds ↦ none ]
    ]
    | some later ↦ elim (members n later) [ none ↦ none | some ms ↦ some (m ∷ ms) ]
  ]
]

-- An object of at most `n` members.
unfoldable pub object : ℕ → Text → Option (List (Text × Text))
object n text = elim (expect 123 text) [ none ↦ none | some rest ↦ members n rest ]
