-- ===== src/Config.antt =====
-- `ConfigLoader` of src/config.cpp and include/Zyrnix/config.hpp: the parser of configuration files
-- and `create_loggers`. The static members and `g_last_error` are one record. A position of
-- `std::string` is an `Option`, `none` for `npos`.
pub mod Create
pub mod Silent
pub mod Sinkless
pub mod Outcome
mod Tests
use zyrnix.Prelude.{
  ℕ, zero, suc, ◌+◌, ◌-◌, Bool, true, false, not, ◌&&◌, ◌||◌, Option, none, some, List, [], ◌∷◌,
  ◌++◌, if◌then◌else◌, ltb, leb, ◌==◌, Text, codes, text_eq, Dict, lookup, insert, length, take,
  drop, get_elem?, any,
}
use zyrnix.Level.{LogLevel, info, config_log_level}
use zyrnix.Redact.{find_from}
use zyrnix.Scan.{
  find_at, substring, quoted, between_quotes, string_value, flag_value, number_value, or_else,
  spaces,
}

pub record LoggerConfig : Type 0 where
  pub name : Text
  pub level : LogLevel
  pub async : Bool
  pub sinks : List Text
  pub sink_params : Dict Text
  pub redact_substrings : Text
  pub redact_regexes : Text
  pub redact_presets : Text
  pub redact_cloud_only : Bool

-- `LoggerConfig config;`.
abbrev pub new_config : LoggerConfig
new_config = record {
  name = [];
  level = info;
  async = false;
  sinks = [];
  sink_params = [];
  redact_substrings = [];
  redact_regexes = [];
  redact_presets = [];
  redact_cloud_only = false;
}

unfoldable pub set_param : Text → Option Text → LoggerConfig → LoggerConfig
set_param key none config = config
set_param key (some value) config = record config {
  sink_params = insert key value config.sink_params;
}

-- A number of no digit is not stored.
unfoldable pub set_number : Text → Option Text → LoggerConfig → LoggerConfig
set_number key none config = config
set_number key (some []) config = config
set_number key (some (c ∷ cs)) config = set_param key (some (c ∷ cs)) config

-- The parameters of a sink of the type.
unfoldable pub parse_params : Text → Text → LoggerConfig → LoggerConfig
parse_params sink_obj sink_type config =
    let path = string_value sink_obj (codes "path") in
    if text_eq sink_type (codes "file")
    then set_param (codes "file_path") path config
    else if text_eq sink_type (codes "rotating")
    then set_number (codes "rotating_max_files") (number_value sink_obj (codes "max_files")) (
        set_number (codes "rotating_max_size") (number_value sink_obj (codes "max_size"))
          (set_param (codes "rotating_path") path config))
    else config

unfoldable pub parse_sink : Text → LoggerConfig → LoggerConfig
parse_sink sink_obj config = elim (string_value sink_obj (codes "type")) [
  | none ↦ config
  | some sink_type ↦
      parse_params sink_obj sink_type (record config { sinks = config.sinks ++ sink_type ∷ [] })
]

-- The loop over the objects between the brackets of "sinks", on fuel; `none` means that the fuel
-- ran out.
unfoldable pub parse_sinks : ℕ → Text → ℕ → LoggerConfig → Option LoggerConfig
parse_sinks zero sinks_content sink_pos config = none
parse_sinks (suc fuel) sinks_content sink_pos config =
    elim (find_from (codes "{") sinks_content sink_pos) [
      | none ↦ some config
      | some start ↦ elim (find_from (codes "}") sinks_content start) [
        | none ↦ some config
        | some end ↦
            parse_sinks fuel sinks_content (suc end)
              (parse_sink (substring sinks_content start (suc end)) config)
      ]
    ]

-- The text between a bracket and the next closing bracket.
unfoldable pub up_to_bracket : Text → ℕ → Option Text
up_to_bracket obj start = elim (find_from (codes "]") obj start) [
  | none ↦ none
  | some end ↦ some (substring obj (suc start) end)
]

-- The text between the brackets of "sinks".
unfoldable pub sinks_of : Text → Option Text
sinks_of obj = elim (find_from (quoted (codes "sinks")) obj 0) [
  | none ↦ none
  | some p ↦ elim (find_from (codes "[") obj p) [
    | none ↦ none
    | some start ↦ up_to_bracket obj start
  ]
]

-- The keys before "sinks".
unfoldable pub parse_head : Text → ℕ → LoggerConfig
parse_head obj obj_end = record new_config {
  name = or_else (string_value obj (codes "name")) [];
  level = elim (string_value obj (codes "level")) [ none ↦ info | some l ↦ config_log_level l ];
  async = or_else (flag_value obj (codes "async") obj_end) false;
}

-- The keys after "sinks".
unfoldable pub parse_redaction : Text → ℕ → LoggerConfig → LoggerConfig
parse_redaction obj obj_end config = record config {
  redact_substrings = or_else (string_value obj (codes "redact_substrings")) [];
  redact_regexes = or_else (string_value obj (codes "redact_regexes")) [];
  redact_presets = or_else (string_value obj (codes "redact_presets")) [];
  redact_cloud_only = or_else (flag_value obj (codes "redact_cloud_only") obj_end) false;
}

-- The body of the loop over the objects, for the object's text and the position of its end.
unfoldable pub parse_object : Text → ℕ → Option LoggerConfig
parse_object obj obj_end =
    let head = parse_head obj obj_end in
    elim (sinks_of obj) [
      | none ↦ some (parse_redaction obj obj_end head)
      | some content ↦ elim (parse_sinks (suc (length content)) content 0 head) [
        | none ↦ none
        | some config ↦ some (parse_redaction obj obj_end config)
      ]
    ]

-- The static state: `configs_` and `g_last_error`.
pub record ConfigLoader : Type 0 where
  pub configs : List LoggerConfig
  pub last_error : Text

-- A configuration without a name is dropped.
unfoldable pub push_config : LoggerConfig → ConfigLoader → ConfigLoader
push_config config loader =
    if ltb 0 (length config.name)
    then record loader { configs = loader.configs ++ config ∷ [] }
    else loader

-- The loop over the objects of "loggers", on fuel; `none` means that the fuel ran out.
unfoldable pub parse_objects : ℕ → Text → ℕ → ConfigLoader → Option ConfigLoader
parse_objects zero content pos loader = none
parse_objects (suc fuel) content pos loader =
    let start = pos + spaces (drop pos content) in
    let next = parse_objects fuel content (suc start) loader in
    elim (get_elem? content start) [
      | none ↦ some loader
      | some c ↦
          if c == b']'
          then some loader
          else if not (c == b'{')
          then next
          else elim (find_from (codes "}") content start) [
            | none ↦
                some
                  (record loader { last_error = codes "Malformed logger object in configuration" })
            | some end ↦ elim (parse_object (substring content start (suc end)) end) [
              | none ↦ none
              | some config ↦ parse_objects fuel content (suc end) (push_config config loader)
            ]
          ]
    ]

-- What follows the loop.
unfoldable pub conclude : ConfigLoader → ConfigLoader × Bool
conclude loader = elim loader.configs [
  | [] ↦ (
    record loader {
      last_error =
          if ltb 0 (length loader.last_error)
          then loader.last_error
          else codes "No valid logger configurations found";
    },
    false,
  )
  | c ∷ cs ↦ (loader, true)
]

unfoldable pub fail : Text → ConfigLoader → ConfigLoader × Bool
fail message loader = (record loader { last_error = message }, false)

-- `parse_json_internal`. Each round of the loop moves the position, so one round for each byte and
-- one more are enough.
unfoldable pub parse_json_internal : Text → ConfigLoader → Option (ConfigLoader × Bool)
parse_json_internal content loader =
    let cleared = record loader { configs = []; last_error = [] } in
    elim (find_from (quoted (codes "loggers")) content 0) [
      | none ↦ some (fail (codes "Missing \"loggers\" array in configuration") cleared)
      | some p ↦ elim (find_from (codes "[") content p) [
        | none ↦
            some (fail (codes "Malformed configuration: expected '[' after \"loggers\"") cleared)
        | some start ↦ elim (parse_objects (suc (length content)) content (suc start) cleared) [
          | none ↦ none
          | some parsed ↦ some (conclude parsed)
        ]
      ]
    ]

-- `file` is what the file holds, `none` if it cannot be opened.
unfoldable pub load_from_json : Text → Option Text → ConfigLoader → Option (ConfigLoader × Bool)
load_from_json path none loader = some (fail (codes "Could not open config file: " ++ path) loader)
load_from_json path (some content) loader = parse_json_internal content loader

unfoldable pub clear : ConfigLoader → ConfigLoader
clear loader = record loader { configs = [] }

unfoldable pub get_last_error : ConfigLoader → Text
get_last_error loader = loader.last_error
