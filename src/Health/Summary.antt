-- ===== src/Health/Summary.antt =====
-- `get_overall_status` and `check_all_aggregate` of src/log_health.cpp.
use zyrnix.Prelude.{
  ℕ, suc, Bool, false, ◌||◌, [], ◌∷◌, if◌then◌else◌, ltb, Text, Dict, length, add_word,
}
use zyrnix.Health.{
  HealthStatus, healthy, degraded, unhealthy, same_status, Doubles, HealthCheckResult,
  HealthRegistry, check_all,
}

-- The rate of messages and the single results are not kept.
pub record AggregateHealthResult : Type 0 where
  pub overall_status : HealthStatus
  pub total_loggers : ℕ
  pub healthy_count : ℕ
  pub degraded_count : ℕ
  pub unhealthy_count : ℕ
  pub total_messages_logged : ℕ
  pub total_messages_dropped : ℕ
  pub total_errors : ℕ
  pub worst_logger_name : Text
  pub worst_logger_status : HealthStatus

-- The `switch` of the loop of `check_all_aggregate`. The counts are bounded by the number of loggers
-- and do not wrap.
unfoldable pub count_status : AggregateHealthResult → Text → HealthStatus → AggregateHealthResult
count_status a name healthy = record a { healthy_count = suc a.healthy_count }
count_status a name degraded =
    if same_status a.worst_logger_status healthy
    then record a {
      degraded_count = suc a.degraded_count;
      worst_logger_name = name;
      worst_logger_status = degraded;
    }
    else record a { degraded_count = suc a.degraded_count }
count_status a name unhealthy =
    if same_status a.worst_logger_status unhealthy
    then record a { unhealthy_count = suc a.unhealthy_count }
    else record a {
      unhealthy_count = suc a.unhealthy_count;
      worst_logger_name = name;
      worst_logger_status = unhealthy;
    }

-- The aggregate before the loop.
abbrev pub start : ℕ → AggregateHealthResult
start total = record {
  overall_status = healthy;
  total_loggers = total;
  healthy_count = 0;
  degraded_count = 0;
  unhealthy_count = 0;
  total_messages_logged = 0;
  total_messages_dropped = 0;
  total_errors = 0;
  worst_logger_name = [];
  worst_logger_status = healthy;
}

-- The overall status from the counts.
unfoldable pub settle : AggregateHealthResult → HealthStatus
settle a =
    if ltb 0 a.unhealthy_count
    then unhealthy
    else if ltb 0 a.degraded_count
    then degraded
    else healthy

module _ {ℓ} {F : Type ℓ} where
  -- The two flags of the loop of `get_overall_status`.
  unfoldable pub has_status : HealthStatus → Dict (HealthCheckResult F) → Bool
  has_status s [] = false
  has_status s ((name, r) ∷ rest) = same_status r.status s || has_status s rest

  -- `get_overall_status` on the results of `check_all`.
  unfoldable pub overall_of : Dict (HealthCheckResult F) → HealthStatus
  overall_of results =
      if has_status unhealthy results
      then unhealthy
      else if has_status degraded results
      then degraded
      else healthy

  -- The body of the loop of `check_all_aggregate`.
  unfoldable pub tally_one :
      AggregateHealthResult → Text → HealthCheckResult F → AggregateHealthResult
  unfolding count_status
  tally_one a name r =
      count_status
        (record a {
          total_messages_logged = add_word a.total_messages_logged r.messages_logged;
          total_messages_dropped = add_word a.total_messages_dropped r.messages_dropped;
          total_errors = add_word a.total_errors r.errors;
        })
        name r.status

  unfoldable pub tally : AggregateHealthResult → Dict (HealthCheckResult F) → AggregateHealthResult
  tally a [] = a
  tally a ((name, r) ∷ rest) = tally (tally_one a name r) rest

  -- `check_all_aggregate` on the results of `check_all`.
  unfoldable pub aggregate : Dict (HealthCheckResult F) → AggregateHealthResult
  unfolding tally settle
  aggregate results =
      let a = tally (start (length results)) results in record a { overall_status = settle a }

module _ {ℓ} {F : Type ℓ} (d : Doubles F) where
  unfoldable pub get_overall_status : HealthRegistry F → HealthStatus
  unfolding overall_of
  get_overall_status g = overall_of (check_all d g)

  unfoldable pub check_all_aggregate : HealthRegistry F → AggregateHealthResult
  unfolding aggregate
  check_all_aggregate g = aggregate (check_all d g)
