-- ===== src/Rotating.antt =====
-- `RotatingFileSink` of src/sinks/rotating_file_sink.cpp, over a directory.
pub mod Slots
pub mod Kept
pub mod Size
mod Tests
use zyrnix.Prelude.{
  ℕ, zero, suc, ◌+◌, Bool, true, false, List, [], ◌∷◌, ◌++◌, if◌then◌else◌, ltb, leb, Text, codes,
  decimal, lookup, length, add_word,
}
use zyrnix.Level.{LogLevel, below}
use zyrnix.Files.{Directory, rename, or_empty, open_append, append_to, shift_files}

-- The sink and the directory that it writes to.
pub record RotatingFileSink : Type 0 where
  pub level : LogLevel
  pub base_name : Text
  pub max_size : ℕ
  pub max_files : ℕ
  pub current_size : ℕ
  pub dir : Directory

unfoldable pub current_name : Text → Text
current_name base = base ++ codes ".log"

unfoldable pub rotated_name : Text → ℕ → Text
rotated_name base i = (base ++ codes ".") ++ (decimal i ++ codes ".log")

unfoldable pub open_file : RotatingFileSink → RotatingFileSink
open_file s =
    let opened = open_append (current_name s.base_name) s.dir in
    record s {
      dir = opened;
      current_size = length (or_empty (lookup (current_name s.base_name) opened));
    }

unfoldable pub init : Text → ℕ → ℕ → LogLevel → Directory → RotatingFileSink
unfolding open_file
init base max_s max_f level dir = open_file (record {
  level = level;
  base_name = base;
  max_size = max_s;
  max_files = max_f;
  current_size = 0;
  dir = dir;
})

unfoldable pub rotate : RotatingFileSink → RotatingFileSink
rotate s = open_file (record s {
  dir =
      rename (current_name s.base_name) (rotated_name s.base_name 0)
        (shift_files (rotated_name s.base_name) s.max_files s.dir);
})

-- `log` of a line that is formatted, after the level is tested.
unfoldable pub write_line : RotatingFileSink → Text → RotatingFileSink
write_line s line =
    let t = record s {
      dir = append_to (current_name s.base_name) (line ++ codes "\n") s.dir;
      current_size = add_word s.current_size (length (line ++ codes "\n"));
    } in
    if leb t.max_size t.current_size then rotate t else t

unfoldable pub log : RotatingFileSink → LogLevel → Text → RotatingFileSink
unfolding write_line
log s level line = if below level s.level then s else write_line s line
