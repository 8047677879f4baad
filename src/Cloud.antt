-- ===== src/Cloud.antt =====
-- `CloudWatchSink` and `AzureMonitorSink` of src/sinks/cloud_sinks.cpp: what the two classes have in
-- common, over the type of the events in their queues. `send n events` is whether the request of
-- number `n` is taken, as the sink's `send_to_...` sees it; an event is taken when its request is.
-- Sleeping is not modelled.
pub mod CloudWatch
pub mod Azure
pub mod Retries
pub mod Sent
pub mod Worker
pub mod Reached
mod Tests
use zyrnix.Prelude.{
  ℕ, zero, suc, ◌+◌, ◌-◌, ◌/◌, Bool, true, false, not, ◌&&◌, ◌||◌, Option, none, some, List, [],
  ◌∷◌, ◌++◌, if◌then◌else◌, ltb, leb, ◌==◌, length, add_word,
}

-- The part of the two `Config` that the queue and the worker read.
pub record CloudConfig : Type 0 where
  pub batch_size : ℕ
  pub batch_timeout_ms : ℕ
  pub max_retries : ℕ
  pub max_queue_size : ℕ

-- Where the worker is: before the test of `while (running_)`, in the body, or past the loop.
pub data WorkerState : Type 0 where
  testing waiting finishing done : WorkerState

-- `batch` and `last_send`, in nanoseconds, are the worker's. `calls` counts the requests and
-- `received` is what the service took, in order.
pub record CloudSink (E : Type 0) : Type 0 where
  pub config : CloudConfig
  pub queue : List E
  pub running : Bool
  pub worker : WorkerState
  pub batch : List E
  pub last_send : ℕ
  pub messages_sent : ℕ
  pub messages_failed : ℕ
  pub messages_dropped : ℕ
  pub batches_sent : ℕ
  pub retries : ℕ
  pub calls : ℕ
  pub received : List E

pub record Stats : Type 0 where
  pub messages_sent : ℕ
  pub messages_failed : ℕ
  pub messages_dropped : ℕ
  pub batches_sent : ℕ
  pub retries : ℕ
  pub queue_size : ℕ

module _ {E : Type 0} where
  unfoldable pub init : CloudConfig → ℕ → CloudSink E
  init config now = record {
    config = config;
    queue = [];
    running = true;
    worker = testing;
    batch = [];
    last_send = now;
    messages_sent = 0;
    messages_failed = 0;
    messages_dropped = 0;
    batches_sent = 0;
    retries = 0;
    calls = 0;
    received = [];
  }

  -- `log` of an event.
  unfoldable pub enqueue : CloudSink E → E → CloudSink E
  enqueue s event =
      if leb s.config.max_queue_size (length s.queue)
      then record s { messages_dropped = add_word s.messages_dropped 1 }
      else record s { queue = s.queue ++ event ∷ [] }

  -- What the destructor does before it waits for the worker.
  unfoldable pub stop : CloudSink E → CloudSink E
  stop s = record s { running = false }

  -- The loop that moves events from the queue into the batch.
  unfoldable pub fill : ℕ → List E → List E → List E × List E
  fill batch_size batch [] = (batch, [])
  fill batch_size batch (e ∷ queue) =
      let rest = fill batch_size (batch ++ e ∷ []) queue in
      if ltb (length batch) batch_size then rest else (batch, e ∷ queue)

  -- A round's events; the worker is on its way to the next test.
  unfoldable pub take_events : CloudSink E → CloudSink E
  take_events s =
      let r = fill s.config.batch_size s.batch s.queue in
      record s { worker = testing; batch = r.0; queue = r.1 }

  unfoldable pub get_stats : CloudSink E → Stats
  get_stats s = record {
    messages_sent = s.messages_sent;
    messages_failed = s.messages_failed;
    messages_dropped = s.messages_dropped;
    batches_sent = s.batches_sent;
    retries = s.retries;
    queue_size = length s.queue;
  }

  -- What follows the loop of `send_batch`.
  unfoldable pub count_batch : List E → CloudSink E → Bool → CloudSink E
  count_batch events s true = record s {
    batches_sent = add_word s.batches_sent 1;
    messages_sent = add_word s.messages_sent (length events);
  }
  count_batch events s false = record s {
    batches_sent = add_word s.batches_sent 1;
    messages_failed = add_word s.messages_failed (length events);
  }

  -- Whether the batch is sent at a time.
  unfoldable pub is_due : CloudSink E → ℕ → Bool
  is_due s now =
      ltb 0 (length s.batch)
      && (leb s.config.batch_size (length s.batch)
          || leb s.config.batch_timeout_ms ((now - s.last_send) / 1000000))

  module _ (send : ℕ → List E → Bool) where
    -- A request; none is made for no event.
    unfoldable pub request : CloudSink E → List E → CloudSink E × Bool
    request s [] = (s, true)
    request s (e ∷ es) =
        let taken = send s.calls (e ∷ es) in
        (
          record s {
            calls = suc s.calls;
            received = if taken then s.received ++ e ∷ es else s.received;
          },
          taken,
        )

    -- The loop of `send_batch`, on fuel; `none` means that the fuel ran out.
    unfoldable pub send_loop : ℕ → List E → CloudSink E → ℕ → Option (CloudSink E × Bool)
    send_loop zero events s retry_count = none
    send_loop (suc fuel) events s retry_count =
        let (t, success) = request s events in
        let more = ltb retry_count s.config.max_retries in
        let rest =
          send_loop fuel events (if more then record t { retries = add_word t.retries 1 } else t)
            (if more then suc retry_count else retry_count) in
        if not (leb retry_count s.config.max_retries)
        then some (s, false)
        else if success
        then some (t, true)
        else rest

    unfoldable pub send_batch : ℕ → CloudSink E → List E → Option (CloudSink E)
    send_batch fuel s events = elim (send_loop fuel events s 0) [
      | none ↦ none
      | some r ↦ some (count_batch events r.0 r.1)
    ]

    -- The batch sent, and the start of the next one.
    unfoldable pub send_filled : ℕ → CloudSink E → ℕ → Option (CloudSink E)
    send_filled fuel s now = elim (send_batch fuel s s.batch) [
      | none ↦ none
      | some t ↦ some (record t { batch = []; last_send = now })
    ]

    -- The body of the worker's loop, from the end of its wait to the next test of `running_`.
    unfoldable pub worker_round : ℕ → CloudSink E → ℕ → Option (CloudSink E)
    worker_round fuel s now =
        let t = take_events s in
        let sent = send_filled fuel t now in
        if not s.running && length s.queue == 0
        then some (record s { worker = finishing })
        else if is_due t now
        then sent
        else some t

    -- One move of the worker at a time.
    unfoldable pub worker_step : ℕ → CloudSink E → ℕ → Option (CloudSink E)
    worker_step fuel s now = elim s.worker [
      | testing ↦ some (record s { worker = if s.running then waiting else finishing })
      | waiting ↦ worker_round fuel s now
      | finishing ↦ elim s.batch [
        | [] ↦ some (record s { worker = done })
        | e ∷ es ↦ elim (send_batch fuel s (e ∷ es)) [
          | none ↦ none
          | some t ↦ some (record t { worker = done; batch = [] })
        ]
      ]
      | done ↦ some s
    ]
