-- ===== src/Files.antt =====
-- A directory of files, as the file sinks use it: the path of each file with its bytes. Every call
-- on an existing file succeeds, and what is written stands in the file at once. `FileSink` of
-- src/sinks/file_sink.cpp and `DailyFileSink` of src/sinks/daily_file_sink.cpp append to a file;
-- the date is an argument. `Formatter::format` of src/formatter.cpp has the text of the time as an
-- argument.
pub mod Shift
pub mod Names
use zyrnix.Prelude.{
  ℕ, zero, suc, Bool, true, false, Option, none, some, List, [], ◌∷◌, ◌++◌, if◌then◌else◌, Text,
  codes, text_eq, Dict, lookup, insert, erase,
}
use zyrnix.Level.{LogLevel, below, to_string}

abbrev pub Directory : Type 0
Directory = Dict Text

unfoldable pub format : Text → Text → LogLevel → Text → Text
format time logger_name level message =
    time
    ++ (codes " [" ++ (to_string level ++ (codes "] " ++ (logger_name ++ (codes ": " ++ message)))))

-- `rename`: without the old file nothing happens, and a file of the new name is replaced.
unfoldable pub rename : Text → Text → Directory → Directory
rename old new dir = elim (lookup old dir) [ none ↦ dir | some c ↦ insert new c (erase old dir) ]

unfoldable pub or_empty : Option Text → Text
or_empty none = []
or_empty (some c) = c

-- Opening for appending creates the file.
unfoldable pub open_append : Text → Directory → Directory
open_append path dir = insert path (or_empty (lookup path dir)) dir

unfoldable pub open_truncate : Text → Directory → Directory
open_truncate path dir = insert path [] dir

-- A write to a file that is open.
unfoldable pub append_to : Text → Text → Directory → Directory
append_to path bytes dir = insert path (or_empty (lookup path dir) ++ bytes) dir

-- The loop `for (i = n; i > 0; --i)` that renames the file of `i - 1` to that of `i`.
unfoldable pub shift_files : (ℕ → Text) → ℕ → Directory → Directory
shift_files name zero dir = dir
shift_files name (suc i) dir = shift_files name i (rename (name i) (name (suc i)) dir)

pub record FileSink : Type 0 where
  pub level : LogLevel
  pub filename : Text
  pub file_open : Bool

-- `FileSink::log`, of a line that is formatted.
unfoldable pub file_log : FileSink → LogLevel → Text → Directory → Directory
file_log s level line dir =
    if below level s.level
    then dir
    else if s.file_open
    then append_to s.filename (line ++ codes "\n") dir
    else dir

pub record DailyFileSink : Type 0 where
  pub level : LogLevel
  pub base_name : Text
  pub current_date : Text

-- The name of the file for a date.
unfoldable pub daily_name : Text → Text → Text
daily_name base date = base ++ (codes "_" ++ (date ++ codes ".log"))

unfoldable pub init_daily : Text → Text → LogLevel → Directory → DailyFileSink × Directory
init_daily base today level dir = (
  record { level = level; base_name = base; current_date = today },
  open_append (daily_name base today) dir,
)

-- `DailyFileSink::log`, of a line that is formatted, on a day.
unfoldable pub daily_log :
    DailyFileSink → Text → LogLevel → Text → Directory → DailyFileSink × Directory
daily_log s today level line dir =
    if below level s.level
    then (s, dir)
    else if text_eq today s.current_date
    then (s, append_to (daily_name s.base_name today) (line ++ codes "\n") dir)
    else (
      record s { current_date = today },
      append_to (daily_name s.base_name today) (line ++ codes "\n")
          (open_append (daily_name s.base_name today) dir),
    )
