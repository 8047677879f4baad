-- ===== src/Async.antt =====
-- src/async/async_queue.cpp and include/Zyrnix/async/async_queue.hpp. Each function is one stretch
-- of code that runs under the mutex or reads or writes one atomic; a call whose code has two such
-- stretches is two functions, between which other threads run.
pub mod Threads
pub mod Order
mod Tests
use zyrnix.Prelude.{
  ℕ, Bool, true, false, not, ◌||◌, List, [], ◌∷◌, ◌++◌, Option, none, some, length, if◌then◌else◌,
}
use zyrnix.Level.{LogRecord}

pub record AsyncQueue : Type 0 where
  pub queue : List LogRecord
  pub shutdown : Bool
  pub dropped_count : ℕ
  pub shutdown_timeout_ms : ℕ

unfoldable pub init : ℕ → AsyncQueue
init timeout_ms = record {
  queue = [];
  shutdown = false;
  dropped_count = 0;
  shutdown_timeout_ms = timeout_ms;
}

unfoldable pub empty : AsyncQueue → Bool
empty q = elim q.queue [ [] ↦ true | r ∷ rs ↦ false ]

unfoldable pub size : AsyncQueue → ℕ
size q = length q.queue

unfoldable pub is_shutting_down : AsyncQueue → Bool
is_shutting_down q = q.shutdown

-- `push` after its test of the flag: the record goes in under the mutex.
unfoldable pub push_locked : AsyncQueue → LogRecord → AsyncQueue
push_locked q r = record q { queue = q.queue ++ r ∷ [] }

-- `push`, where no other thread runs between the test and the lock.
unfoldable pub push : AsyncQueue → LogRecord → AsyncQueue × Bool
unfolding is_shutting_down push_locked
push q r = if is_shutting_down q then (q, false) else (push_locked q r, true)

-- The condition on which `pop` waits.
unfoldable pub pop_ready : AsyncQueue → Bool
unfolding empty
pop_ready q = not (empty q) || q.shutdown

-- `pop` after the wait.
unfoldable pub pop_locked : AsyncQueue → Option LogRecord × AsyncQueue
pop_locked q = elim q.queue [ [] ↦ (none, q) | r ∷ rs ↦ (some r, record q { queue = rs }) ]

-- `shutdown` up to its wait.
unfoldable pub begin_shutdown : AsyncQueue → AsyncQueue
begin_shutdown q = record q { shutdown = true }

-- `shutdown(true)` from the end of `wait_for`, which hands over whether the queue is empty.
unfoldable pub finish_shutdown : AsyncQueue → AsyncQueue × Bool
unfolding empty size
finish_shutdown q =
    if empty q then (q, true) else (record q { queue = []; dropped_count = size q }, false)

unfoldable pub set_shutdown_timeout : AsyncQueue → ℕ → AsyncQueue
set_shutdown_timeout q timeout_ms = record q { shutdown_timeout_ms = timeout_ms }

unfoldable pub dropped_on_shutdown : AsyncQueue → ℕ
dropped_on_shutdown q = q.dropped_count
