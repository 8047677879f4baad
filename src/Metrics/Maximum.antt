-- ===== src/Metrics/Maximum.antt =====
-- `LogMetrics::record_log_duration` of src/log_metrics.cpp by several threads at once: each load, each
-- addition and each exchange is a step of its own.
use zyrnix.Prelude.{ℕ, ◌≡◌, Bool, true, false, List, [], ◌∷◌, ◌++◌, ltb, add_word, map}
use zyrnix.Metrics.{LogMetrics, record_log_duration}

-- A thread with a duration: before `fetch_add`, before the first load of the maximum, before the test
-- of the loop with the maximum that it knows, or behind the loop.
pub data Thread : Type 0 where
  adding loading ended : ℕ → Thread
  looping : ℕ → ℕ → Thread

-- What the threads share, and where they are.
pub record Shared : Type 0 where
  pub total_log_time_us : ℕ
  pub max_log_latency_us : ℕ
  pub threads : List Thread

-- `compare_exchange_weak` may fail without a cause; when it fails it loads the maximum.
pub data Step : Shared → Shared → Type 0 where
  adds :
      (s : Shared) (before : List Thread) (v : ℕ) (after : List Thread)
      → s.threads ≡ before ++ adding v ∷ after
      → Step s (record s {
        total_log_time_us = add_word s.total_log_time_us v;
        threads = before ++ loading v ∷ after;
      })
  loads :
      (s : Shared) (before : List Thread) (v : ℕ) (after : List Thread)
      → s.threads ≡ before ++ loading v ∷ after
      → Step s (record s { threads = before ++ looping v s.max_log_latency_us ∷ after })
  leaves :
      (s : Shared) (before : List Thread) (v current_max : ℕ) (after : List Thread)
      → s.threads ≡ before ++ looping v current_max ∷ after
      → ltb current_max v ≡ false
      → Step s (record s { threads = before ++ ended v ∷ after })
  exchanges :
      (s : Shared) (before : List Thread) (v current_max : ℕ) (after : List Thread)
      → s.threads ≡ before ++ looping v current_max ∷ after
      → ltb current_max v ≡ true
      → s.max_log_latency_us ≡ current_max
      → Step s (record s { max_log_latency_us = v; threads = before ++ ended v ∷ after })
  fails :
      (s : Shared) (before : List Thread) (v current_max : ℕ) (after : List Thread)
      → s.threads ≡ before ++ looping v current_max ∷ after
      → ltb current_max v ≡ true
      → Step s (record s { threads = before ++ looping v s.max_log_latency_us ∷ after })

pub data Reach (s : Shared) : Shared → Type 0 where
  here : Reach s s
  next : {t u : Shared} → Reach s t → Step t u → Reach s u

-- Threads with some durations, none of which has begun.
abbrev pub start : LogMetrics → List ℕ → Shared
start m durations = record {
  total_log_time_us = m.total_log_time_us;
  max_log_latency_us = m.max_log_latency_us;
  threads = map adding durations;
}

-- The calls one after the other.
unfoldable pub record_each : List ℕ → LogMetrics → LogMetrics
record_each [] m = m
record_each (v ∷ vs) m = record_each vs (record_log_duration m v)

unfoldable pub is_ended : Thread → Bool
is_ended (adding v) = false
is_ended (loading v) = false
is_ended (looping v c) = false
is_ended (ended v) = true
