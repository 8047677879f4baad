-- ===== src/Level.antt =====
-- include/Zyrnix/log_level.hpp, include/Zyrnix/log_record.hpp and the two parsers of level names,
-- `parse_log_level` of src/logger.cpp and `ConfigLoader::parse_log_level` of src/config.cpp.
pub mod Parsing
mod Tests
use zyrnix.Prelude.{
  ℕ, ◌+◌, Bool, true, false, ◌&&◌, ◌||◌, Option, none, some, List, map, ltb, leb, if◌then◌else◌,
  Text, codes, text_eq, Dict, lookup,
}

pub data LogLevel : Type 0 where
  trace debug info warn error critical : LogLevel

-- The number of the enumerator.
unfoldable pub severity : LogLevel → ℕ
severity trace = 0
severity debug = 1
severity info = 2
severity warn = 3
severity error = 4
severity critical = 5

-- `a < b` on the enumeration.
unfoldable pub below : LogLevel → LogLevel → Bool
unfolding severity
below a b = ltb (severity a) (severity b)

unfoldable pub to_string : LogLevel → Text
to_string trace = codes "TRACE"
to_string debug = codes "DEBUG"
to_string info = codes "INFO"
to_string warn = codes "WARN"
to_string error = codes "ERROR"
to_string critical = codes "CRITICAL"

-- `std::tolower` in the "C" locale.
unfoldable pub to_lower : ℕ → ℕ
to_lower c = if leb b'A' c && leb c b'Z' then c + 32 else c

unfoldable pub lower : Text → Text
unfolding to_lower
lower = map to_lower

-- The chain of comparisons of `parse_log_level`, over the text in lower case.
unfoldable pub level_named : Text → Bool × LogLevel
level_named s =
    if text_eq s (codes "trace")
    then (true, trace)
    else if text_eq s (codes "debug")
    then (true, debug)
    else if text_eq s (codes "info")
    then (true, info)
    else if text_eq s (codes "warn") || text_eq s (codes "warning")
    then (true, warn)
    else if text_eq s (codes "error")
    then (true, error)
    else if text_eq s (codes "critical") || text_eq s (codes "fatal")
    then (true, critical)
    else (false, info)

-- `parse_log_level` of src/logger.cpp.
unfoldable pub parse_log_level : Text → Bool × LogLevel
parse_log_level level_str = level_named (lower level_str)

-- The chain of `ConfigLoader::parse_log_level`.
unfoldable pub config_level_named : Text → LogLevel
config_level_named s =
    if text_eq s (codes "trace")
    then trace
    else if text_eq s (codes "debug")
    then debug
    else if text_eq s (codes "info")
    then info
    else if text_eq s (codes "warn") || text_eq s (codes "warning")
    then warn
    else if text_eq s (codes "error")
    then error
    else if text_eq s (codes "critical")
    then critical
    else info

-- `ConfigLoader::parse_log_level`.
unfoldable pub config_log_level : Text → LogLevel
config_log_level level = config_level_named (lower level)

-- The timestamp is a number of clock ticks.
pub record LogRecord : Type 0 where
  pub logger_name : Text
  pub level : LogLevel
  pub message : Text
  pub timestamp : ℕ
  pub fields : Dict Text

unfoldable pub has_field : LogRecord → Text → Bool
has_field r key = elim (lookup key r.fields) [ none ↦ false | some v ↦ true ]

unfoldable pub get_field : LogRecord → Text → Text
get_field r key = elim (lookup key r.fields) [ none ↦ List.[] | some v ↦ v ]
