-- ===== src/Config/Create.antt =====
-- `ConfigLoader::create_loggers`. Each sink has its place in the order of `add_sink`. `stoull` and
-- `stol`, as texts to numbers, are parameters, `none` for the exceptions that they throw.
-- `create_async` makes the same logger as the constructor and enters it for health checks, which
-- are not part of the result.
use zyrnix.Prelude.{
  ℕ, Bool, true, false, ◌||◌, Option, none, some, List, [], ◌∷◌, ◌++◌, if◌then◌else◌, ltb, Text,
  codes, text_eq, Dict, lookup, insert, length,
}
use zyrnix.Level.{lower}
use zyrnix.Levels
use zyrnix.Logger.{
  Logger, init, add_sink, set_redact_patterns, set_redact_regex_patterns, set_redact_pii_presets,
  set_redact_apply_to_cloud_only,
}
use zyrnix.Scan.{split_and_trim}
use zyrnix.Config.{LoggerConfig}

-- `LokiOptions`; `Long` is the type `long`.
pub record LokiOptions (Long : Type 0) : Type 0 where
  pub batch_size : ℕ
  pub flush_interval_ms : ℕ
  pub timeout_ms : Long
  pub insecure_skip_verify : Bool
  pub ca_cert_path : Text

-- The sinks that a configuration can ask for, with the arguments of their constructors.
pub data SinkSpec (Long : Type 0) : Type 0 where
  stdout_sink : SinkSpec Long
  file_sink : Text → SinkSpec Long
  rotating_file_sink : Text → ℕ → ℕ → SinkSpec Long
  loki_sink : Text → Text → LokiOptions Long → SinkSpec Long

-- A logger and what its sinks are.
pub record Created (Long : Type 0) : Type 0 where
  pub logger : Logger
  pub specs : List (SinkSpec Long)

unfoldable pub is_cloud_spec : {Long : Type 0} → SinkSpec Long → Bool
is_cloud_spec (loki_sink url labels opts) = true
is_cloud_spec _ = false

unfoldable pub add_spec : {Long : Type 0} → SinkSpec Long → Created Long → Created Long
add_spec spec c = record {
  logger =
      add_sink c.logger (some (record { is_cloud_sink = is_cloud_spec spec; received = [] })) [];
  specs = c.specs ++ spec ∷ [];
}

-- The value of a parameter, or another text without it.
unfoldable pub param_or : Dict Text → Text → Text → Text
param_or params key other = elim (lookup key params) [ none ↦ other | some v ↦ v ]

-- A number, or another without the parameter.
unfoldable pub number_or : {N : Type 0} → (Text → Option N) → Dict Text → Text → N → Option N
number_or parse params key other = elim (lookup key params) [ none ↦ some other | some v ↦ parse v ]

-- The redaction of a configuration.
unfoldable pub apply_redaction : LoggerConfig → Logger → Logger
apply_redaction config logger =
    let l =
      if ltb 0 (length config.redact_substrings)
      then set_redact_patterns logger (split_and_trim config.redact_substrings)
      else logger in
    let m =
      if ltb 0 (length config.redact_regexes)
      then set_redact_regex_patterns l (split_and_trim config.redact_regexes)
      else l in
    let n =
      if ltb 0 (length config.redact_presets)
      then set_redact_pii_presets m (split_and_trim config.redact_presets)
      else m in
    set_redact_apply_to_cloud_only n config.redact_cloud_only

-- The new logger of a configuration, before its sinks.
unfoldable pub bare_logger : LoggerConfig → Logger
bare_logger config =
    let l = init config.name in
    apply_redaction config (record l { levels = Levels.set_level l.levels config.level })

module _ {Long : Type 0} (stoull : Text → Option ℕ) (stol : Text → Option Long)
    (five_seconds : Long) where
  unfoldable pub loki_options : Dict Text → Option (LokiOptions Long)
  loki_options params = elim (number_or stoull params (codes "loki_batch_size") 10) [
    | none ↦ none
    | some batch ↦ elim (number_or stoull params (codes "loki_flush_interval_ms") 0) [
      | none ↦ none
      | some flush ↦ elim (number_or stol params (codes "loki_timeout_ms") five_seconds) [
        | none ↦ none
        | some timeout ↦
            let v = lower (param_or params (codes "loki_insecure_skip_verify") []) in
            some (record {
              batch_size = batch;
              flush_interval_ms = flush;
              timeout_ms = timeout;
              insecure_skip_verify = text_eq v (codes "true") || text_eq v (codes "1");
              ca_cert_path = param_or params (codes "loki_ca_cert_path") [];
            })
      ]
    ]
  ]

  unfoldable pub rotating_spec : Dict Text → Option (SinkSpec Long)
  rotating_spec params = elim (number_or stoull params (codes "rotating_max_size") 10485760) [
    | none ↦ none
    | some size ↦ elim (number_or stoull params (codes "rotating_max_files") 5) [
      | none ↦ none
      | some files ↦ some (
          rotating_file_sink (param_or params (codes "rotating_path") (codes "app.log")) size files)
    ]
  ]

  -- No Loki sink is made without a URL.
  unfoldable pub add_loki : Dict Text → Created Long → Option (Created Long)
  add_loki params c =
      let url = param_or params (codes "loki_url") [] in
      elim (loki_options params) [
        | none ↦ none
        | some opts ↦ some (
            if ltb 0 (length url)
            then add_spec (loki_sink url (param_or params (codes "loki_labels") []) opts) c
            else c)
      ]

  -- The body of the loop over the names of sinks.
  unfoldable pub add_named : Text → Dict Text → Created Long → Option (Created Long)
  add_named sink_type params c =
      let path = param_or params (codes "file_path") (codes "app.log") in
      let rotating : Option (Created Long) = elim (rotating_spec params) [
        | none ↦ none
        | some spec ↦ some (add_spec spec c)
      ] in
      let loki = add_loki params c in
      if text_eq sink_type (codes "stdout")
      then some (add_spec stdout_sink c)
      else if text_eq sink_type (codes "file")
      then some (add_spec (file_sink path) c)
      else if text_eq sink_type (codes "rotating")
      then rotating
      else if text_eq sink_type (codes "loki")
      then loki
      else some c

  unfoldable pub add_sinks : List Text → Dict Text → Created Long → Option (Created Long)
  add_sinks [] params c = some c
  add_sinks (s ∷ ss) params c = elim (add_named s params c) [
    | none ↦ none
    | some d ↦ add_sinks ss params d
  ]

  -- `create_loggers`, over the configurations that are left; `none` for an exception.
  unfoldable pub create_from :
      List LoggerConfig → Dict (Created Long) → Option (Dict (Created Long))
  create_from [] loggers = some loggers
  create_from (config ∷ rest) loggers =
      elim (add_sinks config.sinks config.sink_params
        (record { logger = bare_logger config; specs = [] })) [
          | none ↦ none
          | some c ↦ create_from rest (insert config.name c loggers)
        ]

  unfoldable pub create_loggers : List LoggerConfig → Option (Dict (Created Long))
  create_loggers configs = create_from configs []

-- The loggers that a parsed configuration gets.
unfoldable pub bare_loggers :
    {Long : Type 0} → List LoggerConfig → Dict (Created Long) → Dict (Created Long)
bare_loggers [] loggers = loggers
bare_loggers (config ∷ rest) loggers =
    bare_loggers rest
      (insert config.name (record { logger = bare_logger config; specs = [] }) loggers)
