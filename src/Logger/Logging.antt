-- ===== src/Logger/Logging.antt =====
-- `Logger::log` of src/logger.cpp: the level, the filters, the redaction, and the loop over the sinks.
use zyrnix.Prelude.{
  ℕ, suc, Bool, false, not, ◌&&◌, ◌||◌, Option, none, some, List, [], ◌∷◌, ◌++◌, if◌then◌else◌,
  filter, Text, text_eq,
}
use zyrnix.Level.{LogLevel, LogRecord, below, trace, debug, info, warn, error, critical}
use zyrnix.Levels.{check_temporary_level_expiry}
use zyrnix.Context.{ContextMap}
use zyrnix.Filter.{ask_all}
use zyrnix.Redact.{redact}
use zyrnix.Logger.{Logger, SinkEntry, Delivery, find_override, preset_patterns}

-- The record that the filters see. `log` fills in the name and the level only.
unfoldable pub blank : Logger → LogLevel → LogRecord
blank l level = record {
  logger_name = l.name;
  level = level;
  message = [];
  timestamp = 0;
  fields = [];
}

-- `filter_func_ && !filter_func_(record)`.
unfoldable pub func_refuses : Logger → LogRecord → Bool
func_refuses l r = elim l.filter_func [ none ↦ false | some func ↦ not (func r) ]

-- A sink's call of `log`.
unfoldable pub receive : SinkEntry → Delivery → SinkEntry
receive e d = elim e.sink [
  | none ↦ e
  | some s ↦ record e { sink = some (record s { received = s.received ++ d ∷ [] }) }
]

unfoldable pub is_cloud : SinkEntry → Bool
is_cloud e = elim e.sink [ none ↦ false | some s ↦ s.is_cloud_sink ]

-- `level < override_it->second`, where the map holds the index.
unfoldable pub overridden : Logger → LogLevel → ℕ → Bool
overridden l level i = elim (find_override i l.sink_level_overrides) [
  | none ↦ false
  | some least ↦ below level least
]

-- The body of the loop, with the message and its redacted form.
unfoldable pub visit : Logger → LogLevel → Text → Text → ℕ → SinkEntry → SinkEntry
unfolding is_cloud
visit l level message redacted i e =
    if e.marked_for_removal
    then e
    else if overridden l level i
    then e
    else let use_redacted =
        not (text_eq redacted message) && (not l.redact_cloud_only || is_cloud e) in
      receive e (record {
        name = l.name;
        level = level;
        message = if use_redacted then redacted else message;
      })

unfoldable pub deliver : Logger → LogLevel → Text → Text → ℕ → List SinkEntry → List SinkEntry
deliver l level message redacted i [] = []
deliver l level message redacted i (e ∷ es) =
    visit l level message redacted i e ∷ deliver l level message redacted (suc i) es

module _ (valid : Bool → Text → Bool) (substitute : Text → Text → Text) where
  unfoldable pub substitute_all : List Text → Text → Text
  substitute_all [] message = message
  substitute_all (p ∷ ps) message = substitute_all ps (substitute p message)

  -- The patterns that compile, in the order in which they are applied.
  unfoldable pub compiled : Logger → List Text
  unfolding preset_patterns
  compiled l =
      filter (valid false) (l.redact_regex_patterns ++ preset_patterns l.redact_pii_presets)

  -- Without any pattern this is the message.
  unfoldable pub redacted_message : Logger → Text → Option Text
  unfolding compiled
  redacted_message l message = elim (redact message l.redact_patterns) [
    | none ↦ none
    | some m ↦ some (substitute_all (compiled l) m)
  ]

module _ (search : Bool → Text → Text → Bool) (context : ContextMap) where
  -- `Logger::should_log`; the filters move their counters.
  unfoldable pub should_log : Logger → LogRecord → Logger × Bool
  unfolding func_refuses
  should_log l r =
      if below r.level l.levels.min_level
      then (l, false)
      else if func_refuses l r
      then (l, false)
      else let (fs, answer) = ask_all search context r l.filters in
        (record l { filters = fs }, answer)

module _ (valid : Bool → Text → Bool) (search : Bool → Text → Text → Bool)
    (substitute : Text → Text → Text) (context : ContextMap) where
  -- `log` after `should_log`.
  unfoldable pub send : Logger → LogLevel → Text → Option Logger
  send l level message = elim (redacted_message valid substitute l message) [
    | none ↦ none
    | some m ↦ some (record l { sink_entries = deliver l level message m 0 l.sink_entries })
  ]

  -- `Logger::log` at a time; `none` is a call that does not return.
  unfoldable pub log : Logger → ℕ → LogLevel → Text → Option Logger
  unfolding blank
  log l now level message =
      let k = record l { levels = check_temporary_level_expiry l.levels now } in
      let (j, answer) = should_log search context k (blank k level) in
      if answer then send j level message else some j

  unfoldable pub log_trace : Logger → ℕ → Text → Option Logger
  log_trace l now msg = log l now trace msg

  unfoldable pub log_debug : Logger → ℕ → Text → Option Logger
  log_debug l now msg = log l now debug msg

  unfoldable pub log_info : Logger → ℕ → Text → Option Logger
  log_info l now msg = log l now info msg

  unfoldable pub log_warn : Logger → ℕ → Text → Option Logger
  log_warn l now msg = log l now warn msg

  unfoldable pub log_error : Logger → ℕ → Text → Option Logger
  log_error l now msg = log l now error msg

  unfoldable pub log_critical : Logger → ℕ → Text → Option Logger
  log_critical l now msg = log l now critical msg
