-- ===== src/Cloud/Tests.antt =====
-- The cloud sinks at concrete inputs.
use zyrnix.Prelude.{ℕ, ◌+◌, ◌<◌, ◌≡◌, refl, arith, Bool, false, none, some, List, [], ◌∷◌, ltb}
use zyrnix.Cloud.{
  CloudConfig, done, CloudSink, init, enqueue, stop, fill, request, send_loop, count_batch,
  send_batch, is_due, take_events, send_filled, worker_round, worker_step,
}
use zyrnix.Cloud.Retries.{send_batch-taken, send_batch-endless}
use zyrnix.Cloud.Worker.{System, call_log, logs, stops, works, Reach, here, next, IsCounted}
use zyrnix.Cloud.Reached.{Reach-IsCounted, Reach-lost}

abbrev config : CloudConfig
config = record { batch_size = 2; batch_timeout_ms = 0; max_retries = 1; max_queue_size = 3 }

abbrev start : System ℕ
start = record { sink = init config 0; accepted = [] }

-- The third request is the first that is taken, after more failures than retries.
abbrev third : ℕ → List ℕ → Bool
third n events = ltb 1 n

abbrev never : ℕ → List ℕ → Bool
never n events = false

send_batch-taken_example :
    (t : CloudSink ℕ) × (send_batch third 3 start.sink (7 ∷ 8 ∷ []) ≡ some t)
    × (t.calls ≡ 3)
    × (t.received ≡ 7 ∷ 8 ∷ [])
    × (t.messages_sent ≡ 2)
    × (t.messages_failed ≡ 0)
    × (t.retries ≡ 1)
unfolding init
send_batch-taken_example =
    send_batch-taken third 7 (8 ∷ []) start.sink 2 3 (omega arith) (omega arith) early refl
  where
    early : (i : ℕ) → i < 2 → third (start.sink.calls + i) (7 ∷ 8 ∷ []) ≡ false
    early i l = ground arith

send_batch-endless_example : send_batch never 40 start.sink (7 ∷ []) ≡ none
send_batch-endless_example = send_batch-endless never 7 [] start.sink (λ i. refl) 40

-- One event is sent, and two wait when the destructor comes before the worker's next round.
abbrev ended : System ℕ
ended = record {
  sink = record start.sink {
    queue = 8 ∷ 9 ∷ [];
    running = false;
    worker = done;
    messages_sent = 1;
    batches_sent = 1;
    calls = 3;
    retries = 1;
    received = 7 ∷ [];
  };
  accepted = 7 ∷ 8 ∷ 9 ∷ [];
}

start-ended : Reach third start ended
unfolding init call_log enqueue stop fill request send_loop count_batch send_batch is_due
    take_events send_filled worker_round worker_step
start-ended =
    next
      (next
        (next
          (next
            (next (next (next (next here (logs _ 7)) (works _ 3 0 _ refl)) (works _ 3 0 _ refl))
              (logs _ 8))
            (logs _ 9))
          (stops _))
        (works _ 3 0 _ refl))
      (works _ 3 0 _ refl)

Reach-IsCounted_example : IsCounted ended
Reach-IsCounted_example = Reach-IsCounted third config 0 ended start-ended

Reach-lost_example :
    (ended.accepted ≡ 7 ∷ 8 ∷ 9 ∷ [])
    × ((t : System ℕ) → Reach third ended t → t.sink.received ≡ 7 ∷ [])
Reach-lost_example = Reach-lost third config 0 ended start-ended refl
