-- ===== src/Async/Tests.antt =====
-- The queue at concrete inputs.
use zyrnix.Prelude.{true, [], ◌∷◌, ◌≡◌, refl, codes}
use zyrnix.Level.{LogRecord, info}
use zyrnix.Async.{
  AsyncQueue, init, push_locked, pop_ready, pop_locked, begin_shutdown, finish_shutdown,
}
use zyrnix.Async.Threads.{
  System, start, discard, deliver, push_test, push_lock, pop_wakes, shutdown_begins,
  shutdown_finishes, Reach, here, next,
}
use zyrnix.Async.Order.{IsFifo, IsClosed, Reach-IsFifo}

abbrev hello : LogRecord
hello = record {
  logger_name = codes "app";
  level = info;
  message = codes "hi";
  timestamp = 1;
  fields = [];
}

-- A push that passed the test of the flag, a shutdown that found the queue drained, and then the
-- push takes the lock.
abbrev tested : System
tested = record (start 5000) { pending = hello ∷ [] }

abbrev stopped : System
stopped = record tested { async = begin_shutdown tested.async }

abbrev late : System
late = record (discard stopped) {
  async = push_locked (discard stopped).async hello;
  pending = [];
  accepted = hello ∷ [];
}

late_reached : Reach (start 5000) late
unfolding start init begin_shutdown discard finish_shutdown push_locked
late_reached =
    next
      (next (next (next here (push_test (start 5000) hello refl)) (shutdown_begins tested))
        (shutdown_finishes stopped refl))
      (push_lock (discard stopped) [] hello [] refl)

-- The record was accepted after a shutdown that had found the queue drained, and stays there.
late_kept : late.async.queue ≡ hello ∷ []
unfolding start init begin_shutdown discard finish_shutdown push_locked
late_kept = refl

Reach-IsFifo_example : IsFifo late
Reach-IsFifo_example = Reach-IsFifo 5000 late_reached

late-IsClosed : IsClosed (hello ∷ []) late
unfolding start init begin_shutdown discard finish_shutdown push_locked
late-IsClosed = record { flag = refl; settled = refl; kept = refl }

late_drain : Reach late (deliver late (pop_locked late.async))
unfolding start init begin_shutdown discard finish_shutdown push_locked
late_drain = next here (pop_wakes late (unfold pop_ready in refl))

abbrev full : AsyncQueue
full = record {
  queue = hello ∷ hello ∷ [];
  shutdown = true;
  dropped_count = 0;
  shutdown_timeout_ms = 10;
}
