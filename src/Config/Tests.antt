-- ===== src/Config/Tests.antt =====
-- The configuration loader at concrete inputs.
use zyrnix.Prelude.{
  ℕ, ◌<◌, ◌≡◌, ◌≢◌, refl, Bool, true, false, Option, none, some, Dict, lookup, [], ◌∷◌, Text, codes,
  length, All,
}
use zyrnix.Redact.{find, find_from, is_prefix, shift}
use zyrnix.Scan.{
  find_at, substring, quoted, between_quotes, string_value, flag_value, or_else, is_space, spaces,
}
use zyrnix.Config.{
  ConfigLoader, new_config, sinks_of, up_to_bracket, parse_sinks, parse_head, parse_redaction,
  parse_object, push_config, parse_objects, conclude, parse_json_internal, load_from_json,
}
use zyrnix.Config.Create.{Created, create_loggers}
use zyrnix.Config.Sinkless.{IsSinkless}
use zyrnix.Config.Outcome.{kept, load_from_json-IsOutcome}
use zyrnix.Config.Silent.{IsSilent, IsMade, last_named, load_from_json-create_loggers}

abbrev no_configs : ConfigLoader
no_configs = record { configs = []; last_error = [] }

-- A logger with one sink.
abbrev one_logger : Text
one_logger = codes "{\"loggers\":[{\"name\":\"a\",\"sinks\":[{\"type\":\"stdout\"}]}]}"

-- The sink and what follows it are lost.
abbrev loaded : ConfigLoader
loaded = record { configs = record new_config { name = codes "a" } ∷ []; last_error = [] }

one_logger_loads : load_from_json (codes "f") (some one_logger) no_configs ≡ some (loaded, true)
unfolding find find_from is_prefix shift find_at substring quoted between_quotes string_value
    flag_value sinks_of up_to_bracket parse_sinks or_else parse_head parse_redaction parse_object
    is_space spaces push_config parse_objects conclude parse_json_internal load_from_json
one_logger_loads = refl

load_from_json-IsOutcome_example :
    (after : ConfigLoader) × (ok : Bool) × (load_from_json (codes "f") (some one_logger) no_configs
      ≡ some (after, ok))
    × (ok ≡ true
        → (after.configs ≢ []) × All (λ c. IsSinkless c × (0 < length c.name)) after.configs)
    × (ok ≡ false → (after.last_error ≢ []) × (after.configs ≡ kept (some one_logger) no_configs))
load_from_json-IsOutcome_example = load_from_json-IsOutcome (codes "f") (some one_logger) no_configs

-- A reader that takes every text for 7.
abbrev seven : Text → Option ℕ
seven t = some 7

load_from_json-create_loggers_example :
    (loggers : Dict (Created ℕ)) × (create_loggers seven seven 5 loaded.configs ≡ some loggers)
    × ((name : Text) → IsMade (last_named name none loaded.configs) (lookup name loggers))
    × All (λ e. IsSilent e.1) loggers
load_from_json-create_loggers_example =
    load_from_json-create_loggers seven seven 5 (codes "f") (some one_logger) no_configs loaded
      one_logger_loads
