-- ===== src/Health/Tests.antt =====
-- Health at concrete inputs. The numbers of these tests are fractions, compared by their products.
use zyrnix.Prelude.{
  ℕ, ◌*◌, ◌≡◌, refl, [], ◌∷◌, none, true, false, codes, ltb, leb, Dict, lookup, ◌↔◌, if◌then◌else◌,
  ◌+◌,
}
use zyrnix.Metrics.{LogMetrics, fresh}
use zyrnix.Health.{
  HealthStatus, healthy, degraded, unhealthy, same_status, Doubles, HealthCheckConfig,
  HealthCheckResult, LoggerEntry, HealthRegistry, check_metrics, check_logger, rate,
  determine_status, check_all, check_entry, check_entries,
}
use zyrnix.Health.Summary.{overall_of, aggregate}
use zyrnix.Health.Aggregate.{aggregate_lem}
use zyrnix.Health.Reports.{Printing, Report, reasons_of}
use zyrnix.Health.Reports.Exported.{export_json}
use zyrnix.Health.Reports.Shape.{outside, broken, scan, is_plain}
use zyrnix.Health.Reports.Broken.{export_json-broken}
use zyrnix.Health.Reports.Reasons.{determine_status-reasons_of}
use zyrnix.Health.Registry.{IsSane, check_logger-healthy}

abbrev Fraction : Type 0
Fraction = ℕ × ℕ

abbrev fractions : Doubles Fraction
fractions = record {
  nought = (0, 1);
  ratio = λ a b. if ltb 0 a then (a, b) else (0, 1);
  above = λ (a, b) (c, e). ltb (c * b) (a * e);
  at_least = λ (a, b) (c, e). leb (c * b) (a * e);
}

-- The values of the header.
abbrev default_config : HealthCheckConfig Fraction
default_config = record {
  max_drop_rate_healthy = (1, 100);
  max_drop_rate_degraded = (5, 100);
  max_error_rate_healthy = (1, 1000);
  max_error_rate_degraded = (1, 100);
  max_latency_us_healthy = 10000;
  max_latency_us_degraded = 50000;
  max_queue_usage_healthy = (7, 10);
  max_queue_usage_degraded = (9, 10);
}

abbrev app_entry : LoggerEntry Fraction
app_entry = record {
  expired = false;
  custom_checker = none;
  last_error_message = codes "disk full";
}

abbrev gone_entry : LoggerEntry Fraction
gone_entry = record app_entry { expired = true }

abbrev registry : HealthRegistry Fraction
registry = record {
  loggers = (codes "app", app_entry) ∷ (codes "gone", gone_entry) ∷ [];
  health_checker = default_config;
  auto_registration_enabled = false;
}

abbrev lossy : LogMetrics
lossy = record (fresh 0) { messages_logged = 97; messages_dropped = 3 }

lossy_is_degraded : (check_metrics fractions default_config lossy 10000).status ≡ degraded
unfolding check_metrics rate determine_status fresh
lossy_is_degraded = refl

abbrev result : HealthStatus → HealthCheckResult Fraction
result s = record {
  status = s;
  messages_logged = 1;
  messages_dropped = 0;
  messages_filtered = 0;
  errors = 0;
  max_latency_us = 0;
  queue_depth = 0;
  max_queue_depth = 0;
  drop_rate = (0, 1);
  error_rate = (0, 1);
  queue_full_warning = false;
  high_latency_warning = false;
  last_error_message = [];
}

abbrev results : Dict (HealthCheckResult Fraction)
results =
    (codes "a", result healthy)
    ∷ (codes "b", result degraded)
    ∷ (codes "c", result unhealthy)
    ∷ (codes "d", result unhealthy)
    ∷ []

aggregate_lem_example :
    let a = aggregate results in
    ((a.overall_status ≡ unhealthy) × (overall_of results ≡ unhealthy))
    × (a.healthy_count + (a.degraded_count + a.unhealthy_count) ≡ a.total_loggers)
    × (a.worst_logger_status ≡ unhealthy)
    × (a.worst_logger_name ≡ codes "c")
unfolding same_status
aggregate_lem_example = aggregate_lem results

default_IsSane : IsSane fractions default_config
default_IsSane = record {
  drop_healthy = refl;
  drop_degraded = refl;
  error_healthy = refl;
  error_degraded = refl;
  queue_healthy = refl;
  queue_degraded = refl;
}

check_logger-healthy_example : (check_logger fractions registry (codes "app")).0 ≡ healthy
unfolding lookup
check_logger-healthy_example =
    check_logger-healthy fractions registry (codes "app") app_entry (λ n. refl) refl refl
      default_IsSane

abbrev printing : Printing Fraction
printing = record { fixed = λ x. codes "0.50"; general = λ x. codes "0.5"; percent = λ x. x }

abbrev report : HealthCheckResult Fraction → Report Fraction
report r = record {
  result = r;
  message = codes "All systems operational";
  timestamp = codes "2024-01-01T00:00:00Z";
  messages_per_second = (0, 1);
  avg_latency_us = (0, 1);
  last_error_time = codes "2024-01-01T00:00:00Z";
}

abbrev failed : HealthCheckResult Fraction
failed = record (result degraded) { last_error_message = codes "disk full" }

-- The same report inside the registry's export.
export_json-broken_example :
    (scan ([], outside) (export_json fractions printing registry report)).1 ≡ broken
unfolding check_all check_entries is_plain
export_json-broken_example =
    export_json-broken fractions printing registry report (codes "app")
      (check_entry fractions registry app_entry) [] refl refl

determine_status-reasons_of_example :
    (reasons_of fractions printing default_config
        (determine_status fractions default_config (2, 100) (0, 1) 9 (0, 1))
        (2, 100)
        (0, 1)
        9
        (0, 1)
      ≡ [])
    ↔ (determine_status fractions default_config (2, 100) (0, 1) 9 (0, 1) ≡ healthy)
determine_status-reasons_of_example =
    determine_status-reasons_of fractions printing default_config (2, 100) (0, 1) 9 (0, 1)
