-- ===== src/Redact.antt =====
-- `Formatter::redact` of src/formatter.cpp: every occurrence of each pattern becomes asterisks.
pub mod Scrub
pub mod Occurrence
mod Tests
use zyrnix.Prelude.{
  ℕ, zero, suc, ◌+◌, ◌==◌, Bool, true, false, ◌&&◌, Option, none, some, List, [], ◌∷◌, ◌++◌, leb,
  if◌then◌else◌, Text, length, take, drop, replicate,
}

unfoldable pub is_prefix : Text → Text → Bool
is_prefix [] text = true
is_prefix (p ∷ ps) [] = false
is_prefix (p ∷ ps) (c ∷ cs) = p == c && is_prefix ps cs

unfoldable pub shift : ℕ → Option ℕ → Option ℕ
shift n none = none
shift n (some i) = some (n + i)

-- `std::string::find(pattern)`.
unfoldable pub find : Text → Text → Option ℕ
unfolding is_prefix shift
find pattern [] = if is_prefix pattern [] then some 0 else none
find pattern (c ∷ cs) =
    let rest = shift 1 (find pattern cs) in if is_prefix pattern (c ∷ cs) then some 0 else rest

-- `std::string::find(pattern, pos)`.
unfoldable pub find_from : Text → Text → ℕ → Option ℕ
unfolding find
find_from pattern text pos =
    if leb pos (length text) then shift pos (find pattern (drop pos text)) else none

-- `std::string::replace(i, n, stars)`.
unfoldable pub replace : Text → ℕ → ℕ → Text → Text
replace text i n stars = take i text ++ (stars ++ drop (i + n) text)

-- The `while` loop on fuel; `none` means that the fuel ran out.
unfoldable pub redact_loop : ℕ → Text → Text → ℕ → Option Text
unfolding replace
redact_loop zero pattern text pos = none
redact_loop (suc fuel) pattern text pos = elim (find_from pattern text pos) [
  | none ↦ some text
  | some i ↦
      redact_loop fuel pattern (replace text i (length pattern) (replicate (length pattern) b'*'))
        (i + length pattern)
]

-- Each round passes the pattern's length, so one round for each byte and one more are enough for a
-- pattern that is not empty.
unfoldable pub redact_one : Text → Text → Option Text
redact_one pattern text = redact_loop (suc (length text)) pattern text 0

-- `Formatter::redact`.
unfoldable pub redact : Text → List Text → Option Text
redact message [] = some message
redact message (p ∷ ps) = elim (redact_one p message) [ none ↦ none | some m ↦ redact m ps ]
