-- ===== src/Metrics/Totals.antt =====
-- What the metrics hold after a run of records.
use zyrnix.Prelude.{
  ℕ, ◌+◌, ◌≤◌, ◌<◌, max, ◌≡◌, refl, List, [], ◌∷◌, arith, add_word, word_mod, ap, ◌∙◌, ◌%◌,
}
use zyrnix.Metrics.{
  LogMetrics, reset, record_message_logged, record_message_dropped, record_message_filtered,
  record_flush, record_error, raise, record_log_duration, record_flush_duration, update_queue_depth,
}

-- A call that records.
pub data Event : Type 0 where
  logged dropped filtered flushed failed : Event
  log_took flush_took depth_now : ℕ → Event

unfoldable pub apply : LogMetrics → Event → LogMetrics
apply m logged = record_message_logged m
apply m dropped = record_message_dropped m
apply m filtered = record_message_filtered m
apply m flushed = record_flush m
apply m failed = record_error m
apply m (log_took us) = record_log_duration m us
apply m (flush_took us) = record_flush_duration m us
apply m (depth_now d) = update_queue_depth m d

unfoldable pub run : LogMetrics → List Event → LogMetrics
run m [] = m
run m (e ∷ es) = run (apply m e) es

-- The durations of log calls, and the queue depths, among the events.
abbrev pub latencies : List Event → List ℕ
latencies [] = []
latencies (log_took us ∷ es) = us ∷ latencies es
latencies (e ∷ es) = latencies es

abbrev pub depths : List Event → List ℕ
depths [] = []
depths (depth_now d ∷ es) = d ∷ depths es
depths (e ∷ es) = depths es

abbrev pub maximum : ℕ → List ℕ → ℕ
maximum n [] = n
maximum n (m ∷ ms) = maximum (max n m) ms

abbrev pub sum : List ℕ → ℕ
sum [] = 0
sum (n ∷ ns) = n + sum ns

raise-max : (v n : ℕ) → raise v n ≡ max n v
unfolding raise
raise-max v n = ground arith

add_word_assoc : (a b c : ℕ) → (add_word a b + c) % word_mod ≡ (a + (b + c)) % word_mod
add_word_assoc a b c = omega arith

latency_from :
    (m : LogMetrics) (es : List Event)
    → (run m es).max_log_latency_us ≡ maximum m.max_log_latency_us (latencies es)
unfolding run apply record_message_logged record_message_dropped record_message_filtered
    record_flush record_error record_log_duration record_flush_duration update_queue_depth
latency_from m [] = refl
latency_from m (logged ∷ es) = latency_from (record_message_logged m) es
latency_from m (dropped ∷ es) = latency_from (record_message_dropped m) es
latency_from m (filtered ∷ es) = latency_from (record_message_filtered m) es
latency_from m (flushed ∷ es) = latency_from (record_flush m) es
latency_from m (failed ∷ es) = latency_from (record_error m) es
latency_from m (log_took us ∷ es) =
    latency_from (record_log_duration m us) es
    ∙ ap (λ n. maximum n (latencies es)) (raise-max us m.max_log_latency_us)
latency_from m (flush_took us ∷ es) = latency_from (record_flush_duration m us) es
latency_from m (depth_now d ∷ es) = latency_from (update_queue_depth m d) es

total_from :
    (m : LogMetrics) (es : List Event)
    → m.total_log_time_us < word_mod
    → (run m es).total_log_time_us ≡ (m.total_log_time_us + sum (latencies es)) % word_mod
unfolding run apply record_message_logged record_message_dropped record_message_filtered
    record_flush record_error record_log_duration record_flush_duration update_queue_depth
total_from m [] h = omega arith
total_from m (logged ∷ es) h = total_from (record_message_logged m) es h
total_from m (dropped ∷ es) h = total_from (record_message_dropped m) es h
total_from m (filtered ∷ es) h = total_from (record_message_filtered m) es h
total_from m (flushed ∷ es) h = total_from (record_flush m) es h
total_from m (failed ∷ es) h = total_from (record_error m) es h
total_from m (log_took us ∷ es) h =
    total_from (record_log_duration m us) es (omega arith)
    ∙ add_word_assoc m.total_log_time_us us (sum (latencies es))
total_from m (flush_took us ∷ es) h = total_from (record_flush_duration m us) es h
total_from m (depth_now d ∷ es) h = total_from (update_queue_depth m d) es h

zero_add : (n : ℕ) → 0 + n ≡ n
zero_add n = omega arith

-- After a reset and any run of records the latency reported as the largest is the largest duration
-- recorded, zero if there is none, and the total time is the sum of the durations, in 64 bits.
pub run-latencies :
    (m : LogMetrics) (now : ℕ) (es : List Event)
    → ((run (reset m now) es).max_log_latency_us ≡ maximum 0 (latencies es))
      × ((run (reset m now) es).total_log_time_us ≡ sum (latencies es) % word_mod)
unfolding reset
run-latencies m now es = (
  latency_from (reset m now) es,
  total_from (reset m now) es (omega arith)
      ∙ ap (λ n. n % word_mod) (zero_add (sum (latencies es))),
)

le-maximum : (n : ℕ) (ns : List ℕ) → n ≤ maximum n ns
le-maximum n [] = omega arith
le-maximum n (m ∷ ns) = omega (arith, le-maximum (max n m) ns)

-- The depth now is never above the largest depth, if it is not so at first.
pub run-depth :
    (m : LogMetrics) (es : List Event)
    → m.current_depth ≤ m.max_depth
    → ((run m es).current_depth ≤ (run m es).max_depth)
      × ((run m es).max_depth ≡ maximum m.max_depth (depths es))
unfolding run apply record_message_logged record_message_dropped record_message_filtered
    record_flush record_error record_log_duration record_flush_duration update_queue_depth
run-depth m [] h = (h, refl)
run-depth m (logged ∷ es) h = run-depth (record_message_logged m) es h
run-depth m (dropped ∷ es) h = run-depth (record_message_dropped m) es h
run-depth m (filtered ∷ es) h = run-depth (record_message_filtered m) es h
run-depth m (flushed ∷ es) h = run-depth (record_flush m) es h
run-depth m (failed ∷ es) h = run-depth (record_error m) es h
run-depth m (log_took us ∷ es) h = run-depth (record_log_duration m us) es h
run-depth m (flush_took us ∷ es) h = run-depth (record_flush_duration m us) es h
run-depth m (depth_now d ∷ es) h =
    let (a, b) = run-depth (update_queue_depth m d) es (omega (arith, raise-max d m.max_depth)) in
    (a, b ∙ ap (λ n. maximum n (depths es)) (raise-max d m.max_depth))
