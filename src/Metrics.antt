-- ===== src/Metrics.antt =====
-- `LogMetrics` of src/log_metrics.cpp and include/Zyrnix/log_metrics.hpp. Each call runs alone; in
-- `Metrics.Maximum` the loads, additions and exchanges of a duration take turns with those of other
-- threads. `start_time` and `now` are readings of the steady
-- clock in nanoseconds. The averages are kept as a total and a count; Metrics/Averages divides.
pub mod Averages
pub mod Export
pub mod Exposition
pub mod Members
pub mod Readings
pub mod Registry
pub mod Totals
pub mod Maximum
pub mod Recorded
mod Tests
use zyrnix.Prelude.{ℕ, if◌then◌else◌, ltb, add_word, ◌*◌, ◌+◌, ◌-◌, ◌^◌, Bool}

-- The fields of `Counters`, `Timings` and `QueueMetrics`.
pub record LogMetrics : Type 0 where
  pub messages_logged : ℕ
  pub messages_dropped : ℕ
  pub messages_filtered : ℕ
  pub flushes : ℕ
  pub errors : ℕ
  pub total_log_time_us : ℕ
  pub total_flush_time_us : ℕ
  pub max_log_latency_us : ℕ
  pub max_flush_latency_us : ℕ
  pub current_depth : ℕ
  pub max_depth : ℕ
  pub start_time : ℕ

unfoldable pub fresh : ℕ → LogMetrics
fresh now = record {
  messages_logged = 0;
  messages_dropped = 0;
  messages_filtered = 0;
  flushes = 0;
  errors = 0;
  total_log_time_us = 0;
  total_flush_time_us = 0;
  max_log_latency_us = 0;
  max_flush_latency_us = 0;
  current_depth = 0;
  max_depth = 0;
  start_time = now;
}

unfoldable pub record_message_logged : LogMetrics → LogMetrics
record_message_logged m = record m { messages_logged = add_word m.messages_logged 1 }

unfoldable pub record_message_dropped : LogMetrics → LogMetrics
record_message_dropped m = record m { messages_dropped = add_word m.messages_dropped 1 }

unfoldable pub record_message_filtered : LogMetrics → LogMetrics
record_message_filtered m = record m { messages_filtered = add_word m.messages_filtered 1 }

unfoldable pub record_flush : LogMetrics → LogMetrics
record_flush m = record m { flushes = add_word m.flushes 1 }

unfoldable pub record_error : LogMetrics → LogMetrics
record_error m = record m { errors = add_word m.errors 1 }

-- The loop that exchanges a maximum.
unfoldable pub raise : ℕ → ℕ → ℕ
raise value current_max = if ltb current_max value then value else current_max

unfoldable pub record_log_duration : LogMetrics → ℕ → LogMetrics
record_log_duration m microseconds = record m {
  total_log_time_us = add_word m.total_log_time_us microseconds;
  max_log_latency_us = raise microseconds m.max_log_latency_us;
}

unfoldable pub record_flush_duration : LogMetrics → ℕ → LogMetrics
record_flush_duration m microseconds = record m {
  total_flush_time_us = add_word m.total_flush_time_us microseconds;
  max_flush_latency_us = raise microseconds m.max_flush_latency_us;
}

unfoldable pub update_queue_depth : LogMetrics → ℕ → LogMetrics
update_queue_depth m depth = record m { current_depth = depth; max_depth = raise depth m.max_depth }

-- `reset` at a time; every field starts again.
unfoldable pub reset : LogMetrics → ℕ → LogMetrics
reset m now = record m {
  messages_logged = 0;
  messages_dropped = 0;
  messages_filtered = 0;
  flushes = 0;
  errors = 0;
  total_log_time_us = 0;
  total_flush_time_us = 0;
  max_log_latency_us = 0;
  max_flush_latency_us = 0;
  current_depth = 0;
  max_depth = 0;
  start_time = now;
}
