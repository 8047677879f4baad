-- ===== src/Metrics/Readings.antt =====
-- What a reader of the exposition format finds in `MetricsRegistry::export_all_prometheus` of
-- src/log_metrics.cpp.
use zyrnix.Prelude.{◌-◌, if◌then◌else◌, ℕ, List, [], ◌∷◌, ◌++◌, Text, codes, decimal, Dict}
use zyrnix.Metrics.{LogMetrics}
use zyrnix.Loki.{SinkMetrics}
use zyrnix.Metrics.Export.{Metric}
use zyrnix.Metrics.Averages.{Floating, average}

-- A sample's name with its labels, and its value.
unfoldable pub reading : Text → Metric → Text × Text
reading prefix m = (prefix ++ m.name ++ m.labels, m.value)

module _ {Double : Type 0} (d : Floating Double) where
  -- What the exposition of one logger is to say: the names behind its prefix, with the values.
  unfoldable pub logger_values : Text → LogMetrics → ℕ → List (Text × Text)
  logger_values prefix m now =
      (prefix ++ codes "_messages_logged_total", decimal m.messages_logged)
      ∷ (prefix ++ codes "_messages_dropped_total", decimal m.messages_dropped)
      ∷ (prefix ++ codes "_messages_filtered_total", decimal m.messages_filtered)
      ∷ (
        prefix ++ codes "_messages_per_second",
        d.fixed (
            if d.less (d.of_nanoseconds (now - m.start_time)) d.millisecond
            then d.zero_double
            else d.divide (d.of_count m.messages_logged) (d.of_nanoseconds (now - m.start_time))),
      )
      ∷ (
        prefix ++ codes "_log_latency_us_avg",
        d.fixed (average d m.total_log_time_us m.messages_logged),
      )
      ∷ (prefix ++ codes "_log_latency_us_max", decimal m.max_log_latency_us)
      ∷ (prefix ++ codes "_queue_depth", decimal m.current_depth)
      ∷ (prefix ++ codes "_queue_depth_max", decimal m.max_depth)
      ∷ (prefix ++ codes "_errors_total", decimal m.errors)
      ∷ []

  -- And that of one sink, which is named in a label.
  unfoldable pub sink_values : Text → Text → SinkMetrics → List (Text × Text)
  sink_values prefix name m =
      let label = codes "{sink=\"" ++ name ++ codes "\"}" in
      (prefix ++ codes "_sink_writes_total" ++ label, decimal m.writes)
      ∷ (prefix ++ codes "_sink_bytes_written_total" ++ label, decimal m.bytes_written)
      ∷ (
        prefix ++ codes "_sink_write_latency_us_avg" ++ label,
        d.fixed (average d m.total_write_time_us m.writes),
      )
      ∷ []

  -- One logger after the other, all under the same names.
  unfoldable pub logger_readings : Text → ℕ → Dict LogMetrics → List (Text × Text)
  logger_readings prefix now [] = []
  logger_readings prefix now ((name, m) ∷ rest) =
      logger_values (prefix ++ codes "_logger") m now ++ logger_readings prefix now rest

  unfoldable pub sink_readings : Text → Dict SinkMetrics → List (Text × Text)
  sink_readings prefix [] = []
  sink_readings prefix ((name, m) ∷ rest) = sink_values prefix name m ++ sink_readings prefix rest
