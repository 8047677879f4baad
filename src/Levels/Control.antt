-- ===== src/Levels/Control.antt =====
-- `handle_level_change_request` of src/logger.cpp.
use zyrnix.Prelude.{
  ℕ, Bool, true, false, Option, none, some, [], ◌++◌, ltb, if◌then◌else◌, Text, codes, decimal,
}
use zyrnix.Level.{LogLevel, info, parse_log_level}
use zyrnix.Levels.{Levels, set_level_temporary, set_level_dynamic}

pub record LogLevelControlResponse : Type 0 where
  pub success : Bool
  pub message : Text
  pub current_level : LogLevel
  pub logger_name : Text

-- The change that a valid request asks for, and the message that answers it.
unfoldable pub apply_request : Levels → ℕ → LogLevel → Text → ℕ → Levels × Text
apply_request s now level reason duration =
    if ltb 0 duration
    then (
      set_level_temporary s now level duration reason,
      codes "Log level changed temporarily for " ++ (decimal duration ++ codes " seconds"),
    )
    else (set_level_dynamic s now level reason, codes "Log level changed successfully")

unfoldable pub accepted : Text → Levels × Text → Levels × LogLevelControlResponse
accepted name (s, message) = (
  s,
  record { success = true; message = message; current_level = s.min_level; logger_name = name },
)

unfoldable pub rejected : Text → Levels → Text → Levels × LogLevelControlResponse
rejected name s level_str = (
  s,
  record {
    success = false;
    message = codes "Invalid log level: " ++ level_str;
    current_level = s.min_level;
    logger_name = name;
  },
)

-- `handle_level_change_request` on a logger that exists; a duration below 1 second, negative ones
-- included, is 0 here.
unfoldable pub handle_request :
    Text → Levels → ℕ → Text → Text → ℕ → Levels × LogLevelControlResponse
unfolding accepted rejected
handle_request name s now level_str reason duration =
    let (valid, level) = parse_log_level level_str in
    if valid
    then accepted name (apply_request s now level reason duration)
    else rejected name s level_str

-- `handle_level_change_request`: `none` is the null pointer.
unfoldable pub handle_level_change_request :
    Option (Text × Levels) → ℕ → Text → Text → ℕ → Option (Text × Levels) × LogLevelControlResponse
handle_level_change_request none now level_str reason duration = (
  none,
  record {
    success = false;
    message = codes "Logger not found";
    current_level = info;
    logger_name = [];
  },
)
handle_level_change_request (some (name, s)) now level_str reason duration =
    let (t, response) = handle_request name s now level_str reason duration in
    (some (name, t), response)
