-- ===== src/Util.antt =====
-- src/util.cpp: `trim`, and the calls of the file system as POSIX answers them. The other half of the
-- file, for Windows, is not modelled.
pub mod Trim
mod Tests
use zyrnix.Prelude.{
  ℕ, zero, suc, ◌+◌, ◌-◌, Bool, true, false, ◌&&◌, ◌||◌, Option, none, some, List, [], ◌∷◌, ◌++◌,
  if◌then◌else◌, ◌==◌, Text, take, drop, lookup, insert, erase,
}
use zyrnix.Files.{Directory}

-- A character of `" \t\n\r"`.
unfoldable pub is_trimmed : ℕ → Bool
is_trimmed c = c == 32 || (c == 9 || (c == 10 || c == 13))

unfoldable pub find_first_not_of : Text → Option ℕ
find_first_not_of [] = none
find_first_not_of (c ∷ t) =
    let rest = find_first_not_of t in
    if is_trimmed c then elim rest [ none ↦ none | some b ↦ some (suc b) ] else some 0

unfoldable pub find_last_not_of : Text → Option ℕ
find_last_not_of [] = none
find_last_not_of (c ∷ t) = elim (find_last_not_of t) [
  | none ↦ if is_trimmed c then none else some 0
  | some e ↦ some (suc e)
]

-- `npos`, which no position of a text reaches.
abbrev pub npos : ℕ
npos = 18446744073709551615

unfoldable pub position : Option ℕ → ℕ
position none = npos
position (some i) = i

unfoldable pub trim : Text → Text
trim s = elim (find_first_not_of s) [
  | none ↦ []
  | some b ↦ take (position (find_last_not_of s) - b + 1) (drop b s)
]

-- Why a call of the system failed.
pub data Errno : Type 0 where
  eexist enoent other : Errno

-- `stat`: whether the file is a regular one, if there is one.
unfoldable pub file_exists : Option Bool → Bool
file_exists none = false
file_exists (some regular) = regular

-- The answers of `mkdir`, `rename` and `remove`: no error, or which one.
unfoldable pub create_directory : Option Errno → Bool
create_directory none = true
create_directory (some eexist) = true
create_directory (some enoent) = false
create_directory (some other) = false

unfoldable pub rename_file : Option Errno → Bool
rename_file none = true
rename_file (some e) = false

unfoldable pub remove_file : Option Errno → Bool
remove_file none = true
remove_file (some eexist) = false
remove_file (some enoent) = true
remove_file (some other) = false
