-- ===== src/Metrics/Averages.antt =====
-- The averages and the snapshots of src/log_metrics.cpp. What is read is the state of one moment.
-- The parameter stands for `double`: its zero, its order, its division, a count, a duration in
-- nanoseconds as a number of seconds, and its text with two digits behind the point.
use zyrnix.Prelude.{ℕ, ◌-◌, Bool, if◌then◌else◌, ◌==◌, Text}
use zyrnix.Metrics.{LogMetrics}
use zyrnix.Loki.{SinkMetrics}

-- What the code does with `double`.
pub record Floating (Double : Type 0) : Type 0 where
  pub zero_double : Double
  pub millisecond : Double
  pub less : Double → Double → Bool
  pub divide : Double → Double → Double
  pub of_count : ℕ → Double
  pub of_nanoseconds : ℕ → Double
  pub fixed : Double → Text

module _ {Double : Type 0} (d : Floating Double) where
  unfoldable pub get_messages_per_second : LogMetrics → ℕ → Double
  get_messages_per_second m now =
      let elapsed_seconds = d.of_nanoseconds (now - m.start_time) in
      if d.less elapsed_seconds d.millisecond
      then d.zero_double
      else d.divide (d.of_count m.messages_logged) elapsed_seconds

  -- The averages: a total by a count.
  unfoldable pub average : ℕ → ℕ → Double
  average total_time count =
      if count == 0 then d.zero_double else d.divide (d.of_count total_time) (d.of_count count)

  unfoldable pub get_average_log_latency_us : LogMetrics → Double
  get_average_log_latency_us m = average m.total_log_time_us m.messages_logged

  unfoldable pub get_average_flush_latency_us : LogMetrics → Double
  get_average_flush_latency_us m = average m.total_flush_time_us m.flushes

  unfoldable pub get_average_write_latency_us : SinkMetrics → Double
  get_average_write_latency_us m = average m.total_write_time_us m.writes

  pub record Snapshot : Type 0 where
    pub messages_logged : ℕ
    pub messages_dropped : ℕ
    pub messages_filtered : ℕ
    pub flushes : ℕ
    pub errors : ℕ
    pub messages_per_second : Double
    pub avg_log_latency_us : Double
    pub avg_flush_latency_us : Double
    pub max_log_latency_us : ℕ
    pub max_flush_latency_us : ℕ
    pub current_queue_depth : ℕ
    pub max_queue_depth : ℕ
    pub timestamp : ℕ

  unfoldable pub get_snapshot : LogMetrics → ℕ → Snapshot
  get_snapshot m now = record {
    messages_logged = m.messages_logged;
    messages_dropped = m.messages_dropped;
    messages_filtered = m.messages_filtered;
    flushes = m.flushes;
    errors = m.errors;
    messages_per_second = get_messages_per_second m now;
    avg_log_latency_us = get_average_log_latency_us m;
    avg_flush_latency_us = get_average_flush_latency_us m;
    max_log_latency_us = m.max_log_latency_us;
    max_flush_latency_us = m.max_flush_latency_us;
    current_queue_depth = m.current_depth;
    max_queue_depth = m.max_depth;
    timestamp = now;
  }
