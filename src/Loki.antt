-- ===== src/Loki.antt =====
-- `LokiSink` of src/sinks/loki_sink.cpp and `SinkMetrics` of src/log_metrics.cpp, which the sink
-- counts in. What libcurl does is a parameter: `perform n body` is what `curl_easy_perform` answers to
-- the request of number `n`. `CURLOPT_POSTFIELDS` gets a pointer into the temporary text of
-- `payload.str()`, which is gone when `curl_easy_perform` reads it: what stands there then is a
-- parameter too, `at_pointer n payload`. The answer `CURLE_OK` says nothing of the HTTP status, which
-- the sink does not look at, nor does an error say that nothing arrived: the model makes no claim on
-- what the service has. Waiting between attempts, timeouts and certificates are not modelled.
-- All Loki sinks of the program count in one `SinkMetrics`; here a sink has its own.
pub mod Requests
pub mod Batches
mod Tests
use zyrnix.Prelude.{
  ℕ, zero, suc, ◌+◌, ◌-◌, ◌/◌, Bool, true, false, ◌&&◌, ◌||◌, List, [], ◌∷◌, ◌++◌, if◌then◌else◌,
  ltb, leb, Text, codes, decimal, length, add_word,
}
use zyrnix.Level.{LogLevel, to_string}

-- The counters of `SinkMetrics`.
pub record SinkMetrics : Type 0 where
  pub writes : ℕ
  pub bytes_written : ℕ
  pub flushes : ℕ
  pub errors : ℕ
  pub total_write_time_us : ℕ

abbrev pub no_metrics : SinkMetrics
no_metrics = record {
  writes = 0;
  bytes_written = 0;
  flushes = 0;
  errors = 0;
  total_write_time_us = 0;
}

unfoldable pub record_write : SinkMetrics → ℕ → SinkMetrics
record_write m bytes = record m {
  writes = add_word m.writes 1;
  bytes_written = add_word m.bytes_written bytes;
}

unfoldable pub count_flush : SinkMetrics → SinkMetrics
count_flush m = record m { flushes = add_word m.flushes 1 }

unfoldable pub count_error : SinkMetrics → SinkMetrics
count_error m = record m { errors = add_word m.errors 1 }

unfoldable pub record_write_duration : SinkMetrics → ℕ → SinkMetrics
record_write_duration m microseconds = record m {
  total_write_time_us = add_word m.total_write_time_us microseconds;
}

-- What comes of an attempt: no handle from libcurl, an error, or `CURLE_OK`.
pub data Attempt : Type 0 where
  no_handle failed ok : Attempt

-- The options that decide when to send; times are in nanoseconds. `calls` counts the requests,
-- `passed` holds the messages that left the buffer after `CURLE_OK`, `dropped` those that left it
-- without.
pub record LokiSink : Type 0 where
  pub labels : Text
  pub batch_size : ℕ
  pub flush_interval_ms : ℕ
  pub buffer : List Text
  pub last_flush_time : ℕ
  pub metrics : SinkMetrics
  pub calls : ℕ
  pub passed : List Text
  pub dropped : List Text

unfoldable pub init : Text → ℕ → ℕ → ℕ → LokiSink
init labels batch_size flush_interval_ms now = record {
  labels = labels;
  batch_size = batch_size;
  flush_interval_ms = flush_interval_ms;
  buffer = [];
  last_flush_time = now;
  metrics = no_metrics;
  calls = 0;
  passed = [];
  dropped = [];
}

unfoldable pub set_options : LokiSink → ℕ → ℕ → LokiSink
set_options s batch_size flush_interval_ms = record s {
  batch_size = batch_size;
  flush_interval_ms = flush_interval_ms;
}

-- The text of a message; nothing in it is escaped.
unfoldable pub entry_json : ℕ → Text → LogLevel → Text → Text
entry_json ts logger_name level message =
    codes "{\"ts\":\""
    ++ (decimal ts
        ++ (codes "\",\"logger\":\""
            ++ (logger_name
                ++ (codes "\",\"level\":\""
                    ++ (to_string level ++ (codes "\",\"line\":\"" ++ (message ++ codes "\"}")))))))

unfoldable pub entries : List Text → Text
entries [] = []
entries (e ∷ es) = let rest = entries es in elim es [ [] ↦ e | f ∷ fs ↦ e ++ (codes "," ++ rest) ]

unfoldable pub payload : Text → List Text → Text
payload labels buffer =
    codes "{\"streams\":[{\"labels\":\""
    ++ (labels ++ (codes "\",\"entries\":[" ++ (entries buffer ++ codes "]}]}")))

-- Whether `log` sends the buffer at a time.
unfoldable pub is_triggered : LokiSink → ℕ → Bool
is_triggered s now =
    leb s.batch_size (length s.buffer)
    || (ltb 0 s.flush_interval_ms && leb s.flush_interval_ms ((now - s.last_flush_time) / 1000000))

-- The end of `send_batch`.
unfoldable pub clear_buffer : LokiSink → Bool → LokiSink
clear_buffer s true = record s { buffer = []; passed = s.passed ++ s.buffer }
clear_buffer s false = record s { buffer = []; dropped = s.dropped ++ s.buffer }

module _ (perform : ℕ → Text → Attempt) (at_pointer : ℕ → Text → Text) where
  -- The loop of `send_batch`, with the number of attempts that are left.
  unfoldable pub attempts : ℕ → Text → LokiSink → LokiSink × Bool
  attempts zero body s = (s, false)
  attempts (suc left) body s =
      let again =
        attempts left body (record s { calls = suc s.calls; metrics = count_error s.metrics }) in
      elim (perform s.calls (at_pointer s.calls body)) [
        | no_handle ↦ (s, false)
        | failed ↦ again
        | ok ↦ (record s { calls = suc s.calls; metrics = count_flush s.metrics }, true)
      ]

  unfoldable pub send_batch : LokiSink → LokiSink
  send_batch s = elim s.buffer [
    | [] ↦ s
    | e ∷ es ↦ let r = attempts 3 (payload s.labels (e ∷ es)) s in clear_buffer r.0 r.1
  ]

  -- `after` is the time when the batch has been sent.
  unfoldable pub log : LokiSink → ℕ → ℕ → Text → LogLevel → Text → LokiSink
  log s now after logger_name level message =
      let t = record s { buffer = s.buffer ++ entry_json now logger_name level message ∷ [] } in
      if is_triggered t now then record (send_batch t) { last_flush_time = after } else t

  unfoldable pub flush : LokiSink → ℕ → LokiSink
  flush s after = elim s.buffer [
    | [] ↦ s
    | e ∷ es ↦ record (send_batch s) { last_flush_time = after }
  ]
