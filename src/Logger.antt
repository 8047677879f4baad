-- ===== src/Logger.antt =====
-- `Logger` of src/logger.cpp and include/Zyrnix/logger.hpp: its sinks, its filters, its redaction
-- and `log`. Every call runs alone, so that the reference count of a sink entry is zero between
-- calls and the waits for it end at once; Logger/Removal lets calls interleave. A sink is what it has received; what it does with a
-- message is its own component. The regular expressions are parameters: `valid` and `search` as for
-- the filters, and `substitute p t`, the text `t` with every match of `p` replaced by "***".
pub mod Sinks
pub mod Logging
pub mod Visit
pub mod Outcome
pub mod Removal
mod Tests
use zyrnix.Prelude.{
  ℕ, zero, suc, ◌+◌, Bool, true, false, not, ◌&&◌, ◌||◌, Option, none, some, List, [], ◌∷◌, ◌++◌,
  map, ◌==◌, ltb, if◌then◌else◌, filter, any, Text, codes, text_eq, Dict, lookup, insert, length,
}
use zyrnix.Level.{LogLevel, LogRecord, below, lower}
use zyrnix.Levels
use zyrnix.Levels.{Levels, check_temporary_level_expiry}
use zyrnix.Context.{ContextMap}
use zyrnix.Filter.{Filter, Filters, nil, cons, should_log, ask_all, add_filter}
use zyrnix.Redact.{redact}

-- A call of `LogSink::log`.
pub record Delivery : Type 0 where
  pub name : Text
  pub level : LogLevel
  pub message : Text

pub record Sink : Type 0 where
  pub is_cloud_sink : Bool
  pub received : List Delivery

-- `sink` is `none` for the null pointer.
pub record SinkEntry : Type 0 where
  pub sink : Option Sink
  pub name : Text
  pub marked_for_removal : Bool
  pub ref_count : ℕ

pub record Logger : Type 0 where
  pub name : Text
  pub redact_patterns : List Text
  pub redact_regex_patterns : List Text
  pub redact_pii_presets : List Text
  pub redact_cloud_only : Bool
  pub sink_entries : List SinkEntry
  pub filters : Filters
  pub filter_func : Option (LogRecord → Bool)
  pub levels : Levels
  pub sink_level_overrides : List (ℕ × LogLevel)
  pub sink_level_overrides_by_name : Dict LogLevel

unfoldable pub init : Text → Logger
init name = record {
  name = name;
  redact_patterns = [];
  redact_regex_patterns = [];
  redact_pii_presets = [];
  redact_cloud_only = false;
  sink_entries = [];
  filters = nil;
  filter_func = none;
  levels = Levels.init;
  sink_level_overrides = [];
  sink_level_overrides_by_name = [];
}

unfoldable pub set_redact_patterns : Logger → List Text → Logger
set_redact_patterns l patterns = record l { redact_patterns = patterns }

-- The other patterns stay.
unfoldable pub clear_redact_patterns : Logger → Logger
clear_redact_patterns l = record l { redact_patterns = [] }

unfoldable pub set_redact_regex_patterns : Logger → List Text → Logger
set_redact_regex_patterns l patterns = record l { redact_regex_patterns = patterns }

unfoldable pub set_redact_pii_presets : Logger → List Text → Logger
set_redact_pii_presets l presets = record l { redact_pii_presets = presets }

unfoldable pub set_redact_apply_to_cloud_only : Logger → Bool → Logger
set_redact_apply_to_cloud_only l cloud_only = record l { redact_cloud_only = cloud_only }

unfoldable pub add_sink : Logger → Option Sink → Text → Logger
add_sink l sink sink_name = record l {
  sink_entries =
      l.sink_entries
      ++ record { sink = sink; name = sink_name; marked_for_removal = false; ref_count = 0 } ∷ [];
}

unfoldable pub clear_sinks : Logger → Logger
clear_sinks l = record l {
  sink_entries = [];
  sink_level_overrides = [];
  sink_level_overrides_by_name = [];
}

-- The condition of the search in `remove_sink(name)`.
unfoldable pub is_live : Text → SinkEntry → Bool
is_live sink_name e = text_eq e.name sink_name && not e.marked_for_removal

-- The first live entry of the name marked.
unfoldable pub mark_first : Text → List SinkEntry → List SinkEntry
unfolding is_live
mark_first sink_name [] = []
mark_first sink_name (e ∷ es) =
    let rest = mark_first sink_name es in
    if is_live sink_name e then record e { marked_for_removal = true } ∷ es else e ∷ rest

-- `remove_sink(name)`; the overrides by index stay.
unfoldable pub remove_sink : Logger → Text → Logger × Bool
remove_sink l sink_name =
    if any (is_live sink_name) l.sink_entries
    then (
      record l {
        sink_entries =
            filter (λ e. not (text_eq e.name sink_name && e.marked_for_removal))
              (mark_first sink_name l.sink_entries);
      },
      true,
    )
    else (l, false)

unfoldable pub mark_at : ℕ → List SinkEntry → List SinkEntry
mark_at i [] = []
mark_at zero (e ∷ es) = record e { marked_for_removal = true } ∷ es
mark_at (suc i) (e ∷ es) = e ∷ mark_at i es

unfoldable pub cleanup_removed_sinks : List SinkEntry → List SinkEntry
cleanup_removed_sinks = filter (λ e. not (e.marked_for_removal && e.ref_count == 0))

-- `remove_sink(index)`; the overrides by index stay.
unfoldable pub remove_sink_at : Logger → ℕ → Logger × Bool
unfolding cleanup_removed_sinks
remove_sink_at l index =
    if ltb index (length l.sink_entries)
    then (record l { sink_entries = cleanup_removed_sinks (mark_at index l.sink_entries) }, true)
    else (l, false)

unfoldable pub sink_count : Logger → ℕ
sink_count l = length (filter (λ e. not e.marked_for_removal) l.sink_entries)

-- `std::map<size_t, LogLevel>`.
unfoldable pub find_override : ℕ → List (ℕ × LogLevel) → Option LogLevel
find_override i [] = none
find_override i ((j, level) ∷ rest) = if j == i then some level else find_override i rest

unfoldable pub set_override : ℕ → LogLevel → List (ℕ × LogLevel) → List (ℕ × LogLevel)
set_override i level [] = (i, level) ∷ []
set_override i level ((j, old) ∷ rest) =
    let later = set_override i level rest in if j == i then (i, level) ∷ rest else (j, old) ∷ later

unfoldable pub set_sink_level_at : Logger → ℕ → LogLevel → Logger
set_sink_level_at l index level =
    if ltb index (length l.sink_entries)
    then record l { sink_level_overrides = set_override index level l.sink_level_overrides }
    else l

unfoldable pub set_sink_level : Logger → Text → LogLevel → Logger
set_sink_level l sink_name level = record l {
  sink_level_overrides_by_name = insert sink_name level l.sink_level_overrides_by_name;
}

unfoldable pub clear_sink_level_overrides : Logger → Logger
clear_sink_level_overrides l = record l {
  sink_level_overrides = [];
  sink_level_overrides_by_name = [];
}

unfoldable pub clear_filters : Logger → Logger
clear_filters l = record l { filters = nil; filter_func = none }

unfoldable pub push_filter : Logger → Filter → Logger
push_filter l f = record l { filters = add_filter l.filters f }

unfoldable pub set_filter_func : Logger → (LogRecord → Bool) → Logger
set_filter_func l func = record l { filter_func = some func }

-- The pattern of a built-in preset; another name has none.
unfoldable pub preset_pattern : Text → Option Text
preset_pattern preset =
    let name = lower preset in
    if text_eq name (codes "email")
    then some (codes "[A-Za-z0-9._%+-]+@[A-Za-z0-9.-]+\\.[A-Za-z]{2,}")
    else if text_eq name (codes "ipv4")
    then some (codes "(25[0-5]|2[0-4]\\d|[01]?\\d?\\d)(\\.(25[0-5]|2[0-4]\\d|[01]?\\d?\\d)){3}")
    else if text_eq name (codes "credit_card")
    then some (codes "\\b(?:\\d[ -]*?){13,16}\\b")
    else if text_eq name (codes "ssn")
    then some (codes "\\b\\d{3}-\\d{2}-\\d{4}\\b")
    else none

unfoldable pub preset_patterns : List Text → List Text
preset_patterns [] = []
preset_patterns (p ∷ ps) =
    let rest = preset_patterns ps in elim (preset_pattern p) [ none ↦ rest | some q ↦ q ∷ rest ]
