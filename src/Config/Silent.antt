-- ===== src/Config/Silent.antt =====
-- The loggers of a configuration file.
use zyrnix.Prelude.{
  ℕ, ◌<◌, ◌≡◌, refl, Bool, true, false, Option, none, some, List, [], ◌∷◌, Text, Dict, insert,
  length, All, ap, sym, subst, ◌∙◌, ltb, lookup, lookup-insert, if◌then◌else◌, arith, Bool-cases,
  inl, inr, if-both, text_eq, text_lt,
}
use zyrnix.Config.{LoggerConfig, ConfigLoader, load_from_json}
use zyrnix.Levels
use zyrnix.Scan.{split_and_trim}
use zyrnix.Logger.{
  Logger, init, set_redact_patterns, set_redact_regex_patterns, set_redact_pii_presets,
  set_redact_apply_to_cloud_only,
}
use zyrnix.Config.Create.{
  Created, apply_redaction, bare_logger, bare_loggers, add_sinks, create_from, create_loggers,
}
use zyrnix.Config.Sinkless.{IsSinkless}
use zyrnix.Config.Outcome.{load_from_json-IsOutcome}

-- A logger with no sink.
pub record IsSilent {Long : Type 0} (c : Created Long) : Type 0 where
  pub no_entries : c.logger.sink_entries ≡ []
  pub no_specs : c.specs ≡ []

apply_redaction-entries :
    (config : LoggerConfig) (l : Logger) → (apply_redaction config l).sink_entries ≡ l.sink_entries
unfolding apply_redaction set_redact_patterns set_redact_regex_patterns set_redact_pii_presets
    set_redact_apply_to_cloud_only
apply_redaction-entries config l =
    let P : Logger → Type 0 = λ m. m.sink_entries ≡ l.sink_entries in
    let a = if-both P (ltb 0 (length config.redact_substrings)) refl refl in
    let b = if-both P (ltb 0 (length config.redact_regexes)) a a in
    if-both P (ltb 0 (length config.redact_presets)) b b

bare_logger-entries : (config : LoggerConfig) → (bare_logger config).sink_entries ≡ []
unfolding bare_logger init
bare_logger-entries config = apply_redaction-entries config _

insert-All :
    {V : Type 0} (P : V → Type 0) (key : Text) (v : V) (d : Dict V)
    → P v
    → All (λ e. P e.1) d
    → All (λ e. P e.1) (insert key v d)
unfolding insert
insert-All P key v [] p h = (p, tt)
insert-All P key v ((k, w) ∷ d) p (q, h) =
    if-both (All (λ e. P e.1)) (text_eq k key) (p, h)
      (if-both (All (λ e. P e.1)) (text_lt key k) (p, (q, h)) (q, insert-All P key v d p h))

bare_loggers-IsSilent :
    {Long : Type 0} (configs : List LoggerConfig) (loggers : Dict (Created Long))
    → All (λ e. IsSilent e.1) loggers
    → All (λ e. IsSilent e.1) (bare_loggers configs loggers)
unfolding bare_loggers
bare_loggers-IsSilent [] loggers h = h
bare_loggers-IsSilent (c ∷ cs) loggers h = bare_loggers-IsSilent cs _ (
    insert-All IsSilent c.name _ loggers
      (record { no_entries = bare_logger-entries c; no_specs = refl }) h)

-- The pieces of a text of the configuration; none of an empty one.
abbrev pub pieces : Text → List Text
pieces t = if ltb 0 (length t) then split_and_trim t else []

-- A logger as its configuration asks for, but for the sinks: it has none.
pub record IsConfigured {Long : Type 0} (config : LoggerConfig) (c : Created Long) : Type 0 where
  pub name : c.logger.name ≡ config.name
  pub level : c.logger.levels.min_level ≡ config.level
  pub patterns : c.logger.redact_patterns ≡ pieces config.redact_substrings
  pub regex_patterns : c.logger.redact_regex_patterns ≡ pieces config.redact_regexes
  pub presets : c.logger.redact_pii_presets ≡ pieces config.redact_presets
  pub cloud_only : c.logger.redact_cloud_only ≡ config.redact_cloud_only
  pub silent : IsSilent c

bare_logger-IsConfigured :
    {Long : Type 0} (config : LoggerConfig)
    → IsConfigured {Long = Long} config (record { logger = bare_logger config; specs = [] })
unfolding bare_logger apply_redaction init Levels.set_level set_redact_patterns
    set_redact_regex_patterns set_redact_pii_presets set_redact_apply_to_cloud_only
bare_logger-IsConfigured config = record {
  name = ground arith;
  level = ground arith;
  patterns = ground arith;
  regex_patterns = ground arith;
  presets = ground arith;
  cloud_only = refl;
  silent = record { no_entries = bare_logger-entries config; no_specs = refl };
}

-- The last configuration with a name, or another without one.
unfoldable pub last_named : Text → Option LoggerConfig → List LoggerConfig → Option LoggerConfig
last_named name other [] = other
last_named name other (c ∷ cs) = last_named name (if text_eq c.name name then some c else other) cs

-- No logger for no configuration, and for a configuration a logger as it asks for.
pub data IsMade {Long : Type 0} : Option LoggerConfig → Option (Created Long) → Type 0 where
  absent : IsMade none none
  made :
      (config : LoggerConfig) (c : Created Long)
      → IsConfigured config c
      → IsMade (some config) (some c)

insert-IsMade :
    {Long : Type 0} (name : Text) (config : LoggerConfig) (o : Option LoggerConfig)
    (d : Dict (Created Long))
    → IsMade o (lookup name d)
    → IsMade
        (if text_eq config.name name then some config else o)
        (lookup name (insert config.name (record { logger = bare_logger config; specs = [] }) d))
insert-IsMade name config o d h =
    subst (IsMade _) (sym (lookup-insert name config.name _ d))
      (elim (Bool-cases (text_eq config.name name)) [
        | inl e ↦ rw e (made config _ (bare_logger-IsConfigured config))
        | inr e ↦ rw e h
      ])

bare_loggers-IsMade :
    {Long : Type 0} (name : Text) (configs : List LoggerConfig) (o : Option LoggerConfig)
    (d : Dict (Created Long))
    → IsMade o (lookup name d)
    → IsMade (last_named name o configs) (lookup name (bare_loggers configs d))
unfolding bare_loggers last_named
bare_loggers-IsMade name [] o d h = h
bare_loggers-IsMade name (c ∷ cs) o d h =
    bare_loggers-IsMade name cs _ _ (insert-IsMade name c o d h)

same_result :
    (after loaded : ConfigLoader) (ok : Bool)
    → ◌≡◌ {A = Option (ConfigLoader × Bool)} (some (after, true)) (some (loaded, ok))
    → (after ≡ loaded) × (ok ≡ true)
same_result after loaded ok h = (ap or_after h, sym (ap or_ok h))
  where
    or_after : Option (ConfigLoader × Bool) → ConfigLoader
    or_after none = after
    or_after (some r) = r.0

    or_ok : Option (ConfigLoader × Bool) → Bool
    or_ok none = false
    or_ok (some r) = r.1

module _ {Long : Type 0} (stoull : Text → Option ℕ) (stol : Text → Option Long)
    (five_seconds : Long) where
  create_from-bare :
      (configs : List LoggerConfig) (loggers : Dict (Created Long))
      → All (λ c. IsSinkless c × (0 < length c.name)) configs
      → create_from stoull stol five_seconds configs loggers ≡ some (bare_loggers configs loggers)
  unfolding create_from bare_loggers add_sinks
  create_from-bare [] loggers h = refl
  create_from-bare (c ∷ cs) loggers ((s, n), h) = rw (s.no_sinks) (create_from-bare cs _ h)

  -- After a call of `load_from_json` that returns true, the loggers are made without an exception.
  -- Under every name there is a logger exactly if a configuration has that name, and it is as the last
  -- such configuration asks for: it has the name, the level, the three lists of redaction and the
  -- flag for cloud sinks. But no logger has a sink, whatever the text asks for.
  pub load_from_json-create_loggers :
      (path : Text) (file : Option Text) (loader after : ConfigLoader)
      → load_from_json path file loader ≡ some (after, true)
      → (loggers : Dict (Created Long)) × (create_loggers stoull stol five_seconds after.configs
          ≡ some loggers)
        × ((name : Text) → IsMade (last_named name none after.configs) (lookup name loggers))
        × All (λ e. IsSilent e.1) loggers
  unfolding create_loggers lookup
  load_from_json-create_loggers path file loader after h =
      let (loaded, ok, e, succeeds, fails) = load_from_json-IsOutcome path file loader in
      let (same, done) = same_result after loaded ok (sym h ∙ e) in
      (
        bare_loggers after.configs [],
        create_from-bare after.configs [] (
            subst (λ l. All (λ c. IsSinkless c × (0 < length c.name)) l.configs) (sym same)
              (succeeds done).1),
        λ name. bare_loggers-IsMade name after.configs none [] absent,
        bare_loggers-IsSilent after.configs [] tt,
      )
