-- ===== src/Health/Entries.antt =====
-- The calls of `HealthRegistry` that change it.
use zyrnix.Prelude.{
  Bool, false, Option, none, some, List, [], ◌∷◌, ◌++◌, map, if◌then◌else◌, Text, text_eq, Dict,
  insert, erase,
}
use zyrnix.Health.{HealthStatus, HealthCheckResult, HealthCheckConfig, LoggerEntry, HealthRegistry}

module _ {ℓ} {F : Type ℓ} where
  unfoldable pub register :
      HealthRegistry F → Text → Option (HealthCheckConfig F) → HealthRegistry F
  register g name checker = record g {
    loggers =
        insert name (record { expired = false; custom_checker = checker; last_error_message = [] })
          g.loggers;
  }

  -- `register_logger` without and with a configuration.
  unfoldable pub register_logger : HealthRegistry F → Text → HealthRegistry F
  register_logger g name = register g name none

  unfoldable pub register_logger_with :
      HealthRegistry F → Text → HealthCheckConfig F → HealthRegistry F
  register_logger_with g name config = register g name (some config)

  unfoldable pub unregister_logger : HealthRegistry F → Text → HealthRegistry F
  unregister_logger g name = record g { loggers = erase name g.loggers }

  unfoldable pub update_entry :
      (LoggerEntry F → LoggerEntry F) → Text → Dict (LoggerEntry F) → Dict (LoggerEntry F)
  update_entry f name [] = []
  update_entry f name ((n, e) ∷ rest) =
      let later = update_entry f name rest in
      if text_eq n name then (n, f e) ∷ rest else (n, e) ∷ later

  unfoldable pub set_logger_config :
      HealthRegistry F → Text → HealthCheckConfig F → HealthRegistry F
  unfolding update_entry
  set_logger_config g name config = record g {
    loggers = update_entry (λ e. record e { custom_checker = some config }) name g.loggers;
  }

  unfoldable pub record_error : HealthRegistry F → Text → Text → HealthRegistry F
  unfolding update_entry
  record_error g name error_message = record g {
    loggers = update_entry (λ e. record e { last_error_message = error_message }) name g.loggers;
  }

  unfoldable pub set_health_checker : HealthRegistry F → HealthCheckConfig F → HealthRegistry F
  set_health_checker g config = record g { health_checker = config }

  unfoldable pub enable_auto_registration : HealthRegistry F → Bool → HealthRegistry F
  enable_auto_registration g enable = record g { auto_registration_enabled = enable }

  unfoldable pub auto_register : HealthRegistry F → Text → HealthRegistry F
  auto_register g name = if g.auto_registration_enabled then register_logger g name else g

-- A callback for a change of a status; `Effect` is what a call of it does.
abbrev pub Callback {ℓ} : Type ℓ → Type ℓ → Type ℓ
Callback F Effect = Text → HealthStatus → HealthStatus → HealthCheckResult F → Effect

unfoldable pub register_state_change_callback {ℓ} :
    {F Effect : Type ℓ} → List (Callback F Effect) → Callback F Effect → List (Callback F Effect)
register_state_change_callback callbacks callback = callbacks ++ callback ∷ []

unfoldable pub clear_state_change_callbacks {ℓ} :
    {F Effect : Type ℓ} → List (Callback F Effect) → List (Callback F Effect)
clear_state_change_callbacks callbacks = []

unfoldable pub notify_state_change {ℓ} :
    {F Effect : Type ℓ}
    → List (Callback F Effect)
    → Text
    → HealthStatus
    → HealthStatus
    → HealthCheckResult F
    → List Effect
notify_state_change callbacks name old_status new_status result =
    map (λ callback. callback name old_status new_status result) callbacks
