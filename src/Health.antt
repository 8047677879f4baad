-- ===== src/Health.antt =====
-- `HealthChecker` and `HealthRegistry` of src/log_health.cpp and include/Zyrnix/log_health.hpp. The
-- type `double` and what the code does with it are parameters: the quotient of two integers, a
-- strict comparison, and a zero. The message of a result, its time and the rates of messages are
-- added in Health/Reports. The registry is a list in the order of `std::map`, by name; a logger that no shared
-- pointer keeps is expired.
pub mod Entries
pub mod Summary
pub mod Worse
pub mod Aggregate
pub mod Registry
pub mod Reports
mod Tests
use zyrnix.Prelude.{
  ℕ, zero, suc, Bool, true, false, ◌||◌, ◌&&◌, Option, none, some, List, [], ◌∷◌, if◌then◌else◌,
  ltb, leb, Text, text_eq, Dict, lookup, insert, erase, length, add_word,
}
use zyrnix.Metrics.{LogMetrics, fresh}

pub data HealthStatus : Type 0 where
  healthy degraded unhealthy : HealthStatus

unfoldable pub same_status : HealthStatus → HealthStatus → Bool
same_status healthy healthy = true
same_status degraded degraded = true
same_status unhealthy unhealthy = true
same_status s t = false

-- `double`: `ratio a b` is the quotient of `a` and `b`, `above x y` is `x > y`, and
-- `at_least x y` is `x >= y`.
pub record Doubles {ℓ} (F : Type ℓ) : Type ℓ where
  pub nought : F
  pub ratio : ℕ → ℕ → F
  pub above : F → F → Bool
  pub at_least : F → F → Bool

pub record HealthCheckConfig {ℓ} (F : Type ℓ) : Type ℓ where
  pub max_drop_rate_healthy : F
  pub max_drop_rate_degraded : F
  pub max_error_rate_healthy : F
  pub max_error_rate_degraded : F
  pub max_latency_us_healthy : ℕ
  pub max_latency_us_degraded : ℕ
  pub max_queue_usage_healthy : F
  pub max_queue_usage_degraded : F

pub record HealthCheckResult {ℓ} (F : Type ℓ) : Type ℓ where
  pub status : HealthStatus
  pub messages_logged : ℕ
  pub messages_dropped : ℕ
  pub messages_filtered : ℕ
  pub errors : ℕ
  pub max_latency_us : ℕ
  pub queue_depth : ℕ
  pub max_queue_depth : ℕ
  pub drop_rate : F
  pub error_rate : F
  pub queue_full_warning : Bool
  pub high_latency_warning : Bool
  pub last_error_message : Text

-- `custom_checker` is `none` for the null pointer.
pub record LoggerEntry {ℓ} (F : Type ℓ) : Type ℓ where
  pub expired : Bool
  pub custom_checker : Option (HealthCheckConfig F)
  pub last_error_message : Text

pub record HealthRegistry {ℓ} (F : Type ℓ) : Type ℓ where
  pub loggers : Dict (LoggerEntry F)
  pub health_checker : HealthCheckConfig F
  pub auto_registration_enabled : Bool

module _ {ℓ} {F : Type ℓ} (d : Doubles F) where
  unfoldable pub determine_status : HealthCheckConfig F → F → F → ℕ → F → HealthStatus
  determine_status c drop_rate error_rate max_latency queue_usage =
      if d.above drop_rate c.max_drop_rate_degraded
        || (d.above error_rate c.max_error_rate_degraded
            || (ltb c.max_latency_us_degraded max_latency
                || d.above queue_usage c.max_queue_usage_degraded))
      then unhealthy
      else if d.above drop_rate c.max_drop_rate_healthy
          || (d.above error_rate c.max_error_rate_healthy
              || (ltb c.max_latency_us_healthy max_latency
                  || d.above queue_usage c.max_queue_usage_healthy))
      then degraded
      else healthy

  -- A quotient, or zero for a denominator of zero.
  unfoldable pub rate : ℕ → ℕ → F
  rate n zero = d.nought
  rate n (suc total) = d.ratio n (suc total)

  unfoldable pub check_metrics : HealthCheckConfig F → LogMetrics → ℕ → HealthCheckResult F
  unfolding rate determine_status
  check_metrics c m queue_capacity =
      let drop_rate = rate m.messages_dropped (add_word m.messages_logged m.messages_dropped) in
      let error_rate = rate m.errors m.messages_logged in
      let queue_usage = rate m.current_depth queue_capacity in
      record {
        status = determine_status c drop_rate error_rate m.max_log_latency_us queue_usage;
        messages_logged = m.messages_logged;
        messages_dropped = m.messages_dropped;
        messages_filtered = m.messages_filtered;
        errors = m.errors;
        max_latency_us = m.max_log_latency_us;
        queue_depth = m.current_depth;
        max_queue_depth = m.max_depth;
        drop_rate = drop_rate;
        error_rate = error_rate;
        queue_full_warning = d.at_least queue_usage c.max_queue_usage_degraded;
        high_latency_warning = leb c.max_latency_us_degraded m.max_log_latency_us;
        last_error_message = [];
      }

  -- The result for a logger that stands in the registry; the metrics are new ones.
  unfoldable pub check_entry : HealthRegistry F → LoggerEntry F → HealthCheckResult F
  unfolding check_metrics
  check_entry g e =
      record (check_metrics (elim e.custom_checker [ none ↦ g.health_checker | some c ↦ c ])
        (fresh 0) 10000) { last_error_message = e.last_error_message }

  -- The end of `check_logger`, for the entry that was found.
  unfoldable pub answer :
      HealthRegistry F → Option (LoggerEntry F) → HealthStatus × Option (HealthCheckResult F)
  answer g none = (unhealthy, none)
  answer g (some e) =
      let result = check_entry g e in
      if e.expired then (unhealthy, none) else (result.status, some result)

  -- `HealthRegistry::check_logger`: the status, and the other numbers, which are not initialised for
  -- a logger that is unknown or expired.
  unfoldable pub check_logger :
      HealthRegistry F → Text → HealthStatus × Option (HealthCheckResult F)
  unfolding answer
  check_logger g name = answer g (lookup name g.loggers)

  unfoldable pub check_entries :
      HealthRegistry F → Dict (LoggerEntry F) → Dict (HealthCheckResult F)
  check_entries g [] = []
  check_entries g ((name, e) ∷ rest) =
      let results = check_entries g rest in
      if e.expired then results else (name, check_entry g e) ∷ results

  unfoldable pub check_all : HealthRegistry F → Dict (HealthCheckResult F)
  check_all g = check_entries g g.loggers
