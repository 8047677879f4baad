-- ===== src/Metrics/Tests.antt =====
-- Metrics at concrete inputs.
use zyrnix.Prelude.{
  lacks, lacks-append, lacks-decimal, ℕ, ◌≡◌, ◌<◌, ◌/◌, refl, Bool, true, ◌&&◌, some, List, [], ◌∷◌,
  ◌++◌, codes, decimal, digits, lookup, ltb, arith, ◌⊎◌, inl, inr,
}
use zyrnix.Metrics.{fresh, record_message_logged, record_log_duration, record_error, reset}
use zyrnix.Loki.{record_write, no_metrics}
use zyrnix.Metrics.Export.{export_json}
use zyrnix.Metrics.Averages.{Floating, average}
use zyrnix.Metrics.Members.{read_object, read_object-export_json}
use zyrnix.Metrics.Maximum.{
  adding, loading, looping, ended, adds, loads, leaves, exchanges, fails, Reach, here, next, start,
  record_each, is_ended,
}
use zyrnix.Metrics.Recorded.{Reach-recorded}
use zyrnix.Metrics.Registry.{MetricsRegistry, Use, records, resets, run, alone, run-alone}

abbrev registry : MetricsRegistry
registry = record { logger_metrics = []; sink_metrics = [] }

-- Two loggers, and a reset between.
abbrev uses : List Use
uses =
    records 1 (codes "a") record_message_logged
    ∷ records 2 (codes "b") record_error
    ∷ resets 3
    ∷ records 4 (codes "a") (λ m. record_log_duration m 9)
    ∷ []

alone_b : alone (codes "b") uses (lookup (codes "b") registry.logger_metrics) ≡ some (fresh 3)
unfolding alone fresh record_error lookup reset
alone_b = refl

run-alone_example :
    lookup (codes "b") (run uses registry).logger_metrics
    ≡ alone (codes "b") uses (lookup (codes "b") registry.logger_metrics)
run-alone_example = run-alone (codes "b") uses registry

-- Numbers stand for `double`, with two zeros behind the point.
abbrev whole : Floating ℕ
whole = record {
  zero_double = 0;
  millisecond = 1;
  less = ltb;
  divide = λ a b. a;
  of_count = λ n. n;
  of_nanoseconds = λ n. n / 1000000;
  fixed = λ x. decimal x ++ codes ".00";
}

whole_lacks :
    (sep x : ℕ)
    → (sep < 48) ⊎ (57 < sep)
    → lacks sep (codes ".00") ≡ true
    → lacks sep (whole.fixed x) ≡ true
whole_lacks sep x h k = lacks-append sep (decimal x) (codes ".00") (lacks-decimal sep x h) k

abbrev filled : MetricsRegistry
filled = record {
  logger_metrics =
      (codes "a b", record_log_duration (record_message_logged (fresh 0)) 7)
      ∷ (codes "c", record_error (fresh 1))
      ∷ [];
  sink_metrics = (codes "loki", record_write no_metrics 12) ∷ [];
}

both : {a b : Bool} → a ≡ true → b ≡ true → (a && b) ≡ true
both h k = ground (arith, h, k)

read_object-export_json_example :
    read_object (export_json whole (record_error (fresh 1)) 9)
    ≡ (codes "messages_logged", codes "0")
      ∷ (codes "messages_dropped", codes "0")
      ∷ (codes "messages_filtered", codes "0")
      ∷ (codes "flushes", codes "0")
      ∷ (codes "errors", codes "1")
      ∷ (codes "messages_per_second", codes "0.00")
      ∷ (codes "avg_log_latency_us", codes "0.00")
      ∷ (codes "avg_flush_latency_us", codes "0.00")
      ∷ (codes "max_log_latency_us", codes "0")
      ∷ (codes "max_flush_latency_us", codes "0")
      ∷ (codes "current_queue_depth", codes "0")
      ∷ (codes "max_queue_depth", codes "0")
      ∷ []
unfolding lacks record_error fresh average decimal digits
read_object-export_json_example = read_object-export_json whole (record_error (fresh 1)) 9 (λ x.
    both (whole_lacks 44 x (inl (omega arith)) refl) (whole_lacks 125 x (inr (omega arith)) refl))

-- The thread with 7 loads the maximum before the other raises it, and loses its exchange.
raced :
    Reach
      (start (fresh 0) (7 ∷ 9 ∷ []))
      (record { total_log_time_us = 16; max_log_latency_us = 9; threads = ended 7 ∷ ended 9 ∷ [] })
unfolding fresh
raced =
    next
      (next
        (next
          (next
            (next
              (next (next here (adds _ [] 7 (adding 9 ∷ []) refl))
                (adds _ (loading 7 ∷ []) 9 [] refl))
              (loads _ [] 7 (loading 9 ∷ []) refl))
            (loads _ (looping 7 0 ∷ []) 9 [] refl))
          (exchanges _ (looping 7 0 ∷ []) 9 0 [] refl refl refl))
        (fails _ [] 7 0 (ended 9 ∷ []) refl refl))
      (leaves _ [] 7 9 (ended 9 ∷ []) refl refl)

Reach-recorded_example :
    (16 ≡ (record_each (7 ∷ 9 ∷ []) (fresh 0)).total_log_time_us)
    × (9 ≡ (record_each (7 ∷ 9 ∷ []) (fresh 0)).max_log_latency_us)
unfolding is_ended fresh
Reach-recorded_example =
    Reach-recorded (fresh 0) (7 ∷ 9 ∷ []) _ (omega arith) raced (refl, (refl, tt))
