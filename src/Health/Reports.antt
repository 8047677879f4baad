-- ===== src/Health/Reports.antt =====
-- The texts of src/log_health.cpp: the message of a check, and the exports of results as JSON and as
-- text. A report is a result with what the checker adds to it; times stand as their text.
pub mod Reasons
pub mod Shape
pub mod Rows
pub mod Objects
pub mod Overview
pub mod Exported
pub mod Broken
use zyrnix.Prelude.{
  concat, split_on, ℕ, suc, ◌+◌, Bool, true, false, not, ◌&&◌, Option, none, some, List, [], ◌∷◌,
  ◌++◌, map, if◌then◌else◌, ltb, Text, codes, decimal, Dict, length,
}
use zyrnix.Health.{
  HealthStatus, healthy, degraded, unhealthy, same_status, Doubles, HealthCheckConfig,
  HealthCheckResult, HealthRegistry, check_all,
}
use zyrnix.Health.Summary.{AggregateHealthResult, overall_of}

-- What is written of a `double`: with two digits behind the point, as a stream writes it without
-- being told, and its product by a hundred.
pub record Printing {ℓ} (F : Type ℓ) : Type ℓ where
  pub fixed : F → Text
  pub general : F → Text
  pub percent : F → F

pub record Report {ℓ} (F : Type ℓ) : Type ℓ where
  pub result : HealthCheckResult F
  pub message : Text
  pub timestamp : Text
  pub messages_per_second : F
  pub avg_latency_us : F
  pub last_error_time : Text

unfoldable pub status_name : HealthStatus → Text
status_name healthy = codes "healthy"
status_name degraded = codes "degraded"
status_name unhealthy = codes "unhealthy"

unfoldable pub status_capitals : HealthStatus → Text
status_capitals healthy = codes "HEALTHY"
status_capitals degraded = codes "DEGRADED"
status_capitals unhealthy = codes "UNHEALTHY"

unfoldable pub is_empty : Text → Bool
is_empty [] = true
is_empty (c ∷ t) = false

unfoldable pub truth : Bool → Text
truth true = codes "true"
truth false = codes "false"

-- The Greek letter and the warning sign, in UTF-8.
abbrev pub micro : Text
micro = 206 ∷ 188 ∷ []

abbrev pub warning : Text
warning = 226 ∷ 154 ∷ 160 ∷ 239 ∷ 184 ∷ 143 ∷ []

-- A member of an object on a line of its own, with the comma behind it or without.
unfoldable pub row : Text → Text → Text → Text
row indent name value = indent ++ (34 ∷ (name ++ (codes "\": " ++ value)))

unfoldable pub in_quotes : Text → Text
in_quotes text = 34 ∷ (text ++ 34 ∷ [])

unfoldable pub comma_rows : List Text → Text
comma_rows [] = []
comma_rows (r ∷ []) = r ++ codes "\n"
comma_rows (r ∷ s ∷ rs) = r ++ (codes ",\n" ++ comma_rows (s ∷ rs))

-- A given_reason, where its test holds.
unfoldable pub given_reason : Bool → Text → List Text
given_reason test text = if test then text ∷ [] else []

-- An object that is the value of a member.
unfoldable pub block : List Text → Text
block rows = codes "{\n" ++ (comma_rows rows ++ codes "  }")

-- The last members of the indicators.
unfoldable pub error_rows {ℓ} : {F : Type ℓ} → Report F → List Text
error_rows r =
    let shown =
      row (codes "    ") (codes "last_error_message") (in_quotes r.result.last_error_message)
      ∷ row (codes "    ") (codes "last_error_time") (in_quotes r.last_error_time)
      ∷ [] in
    if not (is_empty r.result.last_error_message)
    then shown
    else row (codes "    ") (codes "last_error_message") (codes "null") ∷ []

unfoldable pub heading : HealthStatus → Text
heading healthy = codes "All systems operational"
heading degraded = codes "Performance degraded: "
heading unhealthy = codes "Critical issues detected: "

module _ {ℓ} {F : Type ℓ} (d : Doubles F) (p : Printing F) where
  unfoldable pub reasons : F → F → ℕ → F → (F × F × ℕ × F) → (Text × Text × Text × Text) → List Text
  reasons drop_rate error_rate max_latency queue_usage limits words =
      given_reason (d.above drop_rate limits.0)
        (words.0 ++ codes " (" ++ p.general (p.percent drop_rate) ++ codes "%) ")
      ++ given_reason (d.above error_rate limits.1)
          (words.1 ++ codes " (" ++ p.general (p.percent error_rate) ++ codes "%) ")
      ++ given_reason (ltb limits.2 max_latency)
          (words.2 ++ codes " (" ++ decimal max_latency ++ micro ++ codes "s) ")
      ++ given_reason (d.above queue_usage limits.3)
          (words.3 ++ codes " (" ++ p.general (p.percent queue_usage) ++ codes "%) ")

  -- The reasons that `check_metrics` writes for a status, and its message.
  unfoldable pub reasons_of : HealthCheckConfig F → HealthStatus → F → F → ℕ → F → List Text
  reasons_of c healthy drop_rate error_rate max_latency queue_usage = []
  reasons_of c degraded drop_rate error_rate max_latency queue_usage =
      reasons drop_rate error_rate max_latency queue_usage
        (
          c.max_drop_rate_healthy, c.max_error_rate_healthy, c.max_latency_us_healthy,
          c.max_queue_usage_healthy,
        )
        (codes "high drop rate", codes "high error rate", codes "high latency", codes "queue usage")
  reasons_of c unhealthy drop_rate error_rate max_latency queue_usage =
      reasons drop_rate error_rate max_latency queue_usage
        (
          c.max_drop_rate_degraded, c.max_error_rate_degraded, c.max_latency_us_degraded,
          c.max_queue_usage_degraded,
        )
        (
          codes "critical drop rate",
          codes "critical error rate",
          codes "critical latency",
          codes "queue near capacity",
        )

  unfoldable pub message_of : HealthCheckConfig F → HealthStatus → F → F → ℕ → F → Text
  message_of c status drop_rate error_rate max_latency queue_usage =
      heading status ++ concat (reasons_of c status drop_rate error_rate max_latency queue_usage)

module _ {ℓ} {F : Type ℓ} (p : Printing F) where
  unfoldable pub metric_rows : Report F → List Text
  metric_rows r =
      row (codes "    ") (codes "messages_logged") (decimal r.result.messages_logged)
      ∷ row (codes "    ") (codes "messages_dropped") (decimal r.result.messages_dropped)
      ∷ row (codes "    ") (codes "messages_filtered") (decimal r.result.messages_filtered)
      ∷ row (codes "    ") (codes "errors") (decimal r.result.errors)
      ∷ row (codes "    ") (codes "messages_per_second") (p.fixed r.messages_per_second)
      ∷ row (codes "    ") (codes "avg_latency_us") (p.fixed r.avg_latency_us)
      ∷ row (codes "    ") (codes "max_latency_us") (decimal r.result.max_latency_us)
      ∷ row (codes "    ") (codes "queue_depth") (decimal r.result.queue_depth)
      ∷ row (codes "    ") (codes "max_queue_depth") (decimal r.result.max_queue_depth)
      ∷ []

  unfoldable pub indicator_rows : Report F → List Text
  indicator_rows r =
      row (codes "    ") (codes "drop_rate") (p.fixed (p.percent r.result.drop_rate))
      ∷ row (codes "    ") (codes "error_rate") (p.fixed (p.percent r.result.error_rate))
      ∷ row (codes "    ") (codes "queue_full_warning") (truth r.result.queue_full_warning)
      ∷ row (codes "    ") (codes "high_latency_warning") (truth r.result.high_latency_warning)
      ∷ error_rows r

  -- `HealthCheckResult::to_json`.
  unfoldable pub to_json : Report F → Text
  to_json r =
      codes "{\n"
      ++ (comma_rows (
            row (codes "  ") (codes "status") (in_quotes (status_name r.result.status))
            ∷ row (codes "  ") (codes "message") (in_quotes r.message)
            ∷ row (codes "  ") (codes "timestamp") (in_quotes r.timestamp)
            ∷ row (codes "  ") (codes "metrics") (block (metric_rows r))
            ∷ row (codes "  ") (codes "indicators") (block (indicator_rows r))
            ∷ [])
          ++ codes "}")

  -- `HealthCheckResult::to_string`.
  unfoldable pub to_string : Report F → Text
  to_string r = concat (
      codes "Health Status: "
      ∷ status_capitals r.result.status
      ∷ codes "\n"
      ∷ codes "Message: "
      ∷ r.message
      ∷ codes "\n"
      ∷ codes "Messages Logged: "
      ∷ decimal r.result.messages_logged
      ∷ codes "\n"
      ∷ codes "Messages Dropped: "
      ∷ decimal r.result.messages_dropped
      ∷ codes " ("
      ∷ p.general (p.percent r.result.drop_rate)
      ∷ codes "%)\n"
      ∷ codes "Messages Filtered: "
      ∷ decimal r.result.messages_filtered
      ∷ codes "\n"
      ∷ codes "Errors: "
      ∷ decimal r.result.errors
      ∷ codes " ("
      ∷ p.general (p.percent r.result.error_rate)
      ∷ codes "%)\n"
      ∷ codes "Throughput: "
      ∷ p.general r.messages_per_second
      ∷ codes " msg/sec\n"
      ∷ codes "Avg Latency: "
      ∷ p.general r.avg_latency_us
      ∷ codes " "
      ∷ micro
      ∷ codes "s\n"
      ∷ codes "Max Latency: "
      ∷ decimal r.result.max_latency_us
      ∷ codes " "
      ∷ micro
      ∷ codes "s\n"
      ∷ codes "Queue Depth: "
      ∷ decimal r.result.queue_depth
      ∷ codes "/"
      ∷ decimal r.result.max_queue_depth
      ∷ codes "\n"
      ∷ (if r.result.queue_full_warning
          then warning ++ codes "  Warning: Queue near capacity\n"
          else [])
      ∷ (if r.result.high_latency_warning
          then warning ++ codes "  Warning: High latency detected\n"
          else [])
      ∷ [])
