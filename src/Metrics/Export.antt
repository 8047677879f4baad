-- ===== src/Metrics/Export.antt =====
-- The snapshots and the exports of src/log_metrics.cpp: what is read is the state of one moment.
-- The parameter stands for `double`: its zero, its order, its division, a count, a duration in
-- nanoseconds as a number of seconds, and its text with two digits behind the point.
use zyrnix.Prelude.{concat, ℕ, List, [], ◌∷◌, ◌++◌, map, Text, codes, decimal, Dict}
use zyrnix.Metrics.{LogMetrics}
use zyrnix.Metrics.Averages.{
  Floating, get_messages_per_second, get_average_log_latency_us, get_average_flush_latency_us,
  get_average_write_latency_us, get_snapshot, Snapshot,
}
use zyrnix.Metrics.Registry.{MetricsRegistry}
use zyrnix.Loki.{SinkMetrics}

-- A metric of the exposition format: its name, its help, its type, its labels and its value.
pub record Metric : Type 0 where
  pub name : Text
  pub help : Text
  pub type_name : Text
  pub labels : Text
  pub value : Text

-- `"\n"` behind a line, and what follows.
unfoldable pub line : Text → Text → Text
line text rest = text ++ 10 ∷ rest

-- The lines of one metric, and the blank line behind.
unfoldable pub metric_text : Text → Metric → Text
unfolding line
metric_text prefix m = line (codes "# HELP " ++ prefix ++ m.name ++ 32 ∷ m.help) (
    line (codes "# TYPE " ++ prefix ++ m.name ++ 32 ∷ m.type_name)
      (line ((prefix ++ m.name ++ m.labels) ++ 32 ∷ m.value) (10 ∷ [])))

-- A member of an object and its value, with quotes around the name.
unfoldable pub member : Text → Text → Text
member name value = codes "\"" ++ name ++ codes "\":" ++ value

-- `json << ","` between members.
unfoldable pub commas : List Text → Text
commas [] = []
commas (t ∷ []) = t
commas (t ∷ u ∷ ts) = t ++ 44 ∷ commas (u ∷ ts)

module _ {Double : Type 0} (d : Floating Double) where
  -- The metrics of `LogMetrics::export_prometheus`, in its order.
  unfoldable pub logger_samples : LogMetrics → ℕ → List Metric
  logger_samples m now =
      record {
        name = codes "_messages_logged_total";
        help = codes "Total number of messages logged";
        type_name = codes "counter";
        labels = [];
        value = decimal m.messages_logged;
      }
      ∷ record {
        name = codes "_messages_dropped_total";
        help = codes "Total number of messages dropped";
        type_name = codes "counter";
        labels = [];
        value = decimal m.messages_dropped;
      }
      ∷ record {
        name = codes "_messages_filtered_total";
        help = codes "Total number of messages filtered";
        type_name = codes "counter";
        labels = [];
        value = decimal m.messages_filtered;
      }
      ∷ record {
        name = codes "_messages_per_second";
        help = codes "Current logging rate";
        type_name = codes "gauge";
        labels = [];
        value = d.fixed (get_messages_per_second d m now);
      }
      ∷ record {
        name = codes "_log_latency_us_avg";
        help = codes "Average log call latency in microseconds";
        type_name = codes "gauge";
        labels = [];
        value = d.fixed (get_average_log_latency_us d m);
      }
      ∷ record {
        name = codes "_log_latency_us_max";
        help = codes "Maximum log call latency in microseconds";
        type_name = codes "gauge";
        labels = [];
        value = decimal m.max_log_latency_us;
      }
      ∷ record {
        name = codes "_queue_depth";
        help = codes "Current async queue depth";
        type_name = codes "gauge";
        labels = [];
        value = decimal m.current_depth;
      }
      ∷ record {
        name = codes "_queue_depth_max";
        help = codes "Maximum async queue depth";
        type_name = codes "gauge";
        labels = [];
        value = decimal m.max_depth;
      }
      ∷ record {
        name = codes "_errors_total";
        help = codes "Total number of logging errors";
        type_name = codes "counter";
        labels = [];
        value = decimal m.errors;
      }
      ∷ []

  unfoldable pub export_prometheus : Text → LogMetrics → ℕ → Text
  export_prometheus prefix m now = concat (map (metric_text prefix) (logger_samples m now))

  -- The members of `LogMetrics::export_json`, in its order.
  unfoldable pub logger_members : LogMetrics → ℕ → List (Text × Text)
  logger_members m now =
      (codes "messages_logged", decimal m.messages_logged)
      ∷ (codes "messages_dropped", decimal m.messages_dropped)
      ∷ (codes "messages_filtered", decimal m.messages_filtered)
      ∷ (codes "flushes", decimal m.flushes)
      ∷ (codes "errors", decimal m.errors)
      ∷ (codes "messages_per_second", d.fixed (get_messages_per_second d m now))
      ∷ (codes "avg_log_latency_us", d.fixed (get_average_log_latency_us d m))
      ∷ (codes "avg_flush_latency_us", d.fixed (get_average_flush_latency_us d m))
      ∷ (codes "max_log_latency_us", decimal m.max_log_latency_us)
      ∷ (codes "max_flush_latency_us", decimal m.max_flush_latency_us)
      ∷ (codes "current_queue_depth", decimal m.current_depth)
      ∷ (codes "max_queue_depth", decimal m.max_depth)
      ∷ []

  unfoldable pub export_json : LogMetrics → ℕ → Text
  export_json m now =
      codes "{" ++ commas (map (λ p. member p.0 p.1) (logger_members m now)) ++ codes "}"

  -- `SinkMetrics::export_prometheus`, with the name of the sink.
  unfoldable pub sink_samples : Text → SinkMetrics → List Metric
  sink_samples name m =
      let labels = codes "{sink=\"" ++ name ++ codes "\"}" in
      record {
        name = codes "_sink_writes_total";
        help = codes "Total writes by sink";
        type_name = codes "counter";
        labels = labels;
        value = decimal m.writes;
      }
      ∷ record {
        name = codes "_sink_bytes_written_total";
        help = codes "Total bytes written by sink";
        type_name = codes "counter";
        labels = labels;
        value = decimal m.bytes_written;
      }
      ∷ record {
        name = codes "_sink_write_latency_us_avg";
        help = codes "Average write latency by sink";
        type_name = codes "gauge";
        labels = labels;
        value = d.fixed (get_average_write_latency_us d m);
      }
      ∷ []

  unfoldable pub export_sink_prometheus : Text → Text → SinkMetrics → Text
  export_sink_prometheus prefix name m = concat (map (metric_text prefix) (sink_samples name m))

  -- The loops over the two maps, in the order of the maps.
  unfoldable pub get_all_logger_snapshots : MetricsRegistry → ℕ → Dict (Snapshot d)
  get_all_logger_snapshots r now = map (λ p. (p.0, get_snapshot d p.1 now)) r.logger_metrics

  unfoldable pub export_all_prometheus : Text → MetricsRegistry → ℕ → Text
  export_all_prometheus prefix r now =
      concat (
        map
          (λ p.
            line (codes "# Logger: " ++ p.0)
              (export_prometheus (prefix ++ codes "_logger") p.1 now))
          r.logger_metrics)
      ++ concat (map (λ p. export_sink_prometheus prefix p.0 p.1) r.sink_metrics)

  unfoldable pub sink_members : SinkMetrics → List (Text × Text)
  sink_members m =
      (codes "writes", decimal m.writes)
      ∷ (codes "bytes_written", decimal m.bytes_written)
      ∷ (codes "flushes", decimal m.flushes)
      ∷ (codes "errors", decimal m.errors)
      ∷ (codes "avg_write_latency_us", d.fixed (get_average_write_latency_us d m))
      ∷ []

  unfoldable pub export_sink_json : SinkMetrics → Text
  export_sink_json m = codes "{" ++ commas (map (λ p. member p.0 p.1) (sink_members m)) ++ codes "}"

  unfoldable pub export_all_json : MetricsRegistry → ℕ → Text
  export_all_json r now =
      codes "{\"loggers\":{"
      ++ commas (map (λ p. member p.0 (export_json p.1 now)) r.logger_metrics)
      ++ codes "},\"sinks\":{"
      ++ commas (map (λ p. member p.0 (export_sink_json p.1)) r.sink_metrics)
      ++ codes "}}"
