-- ===== src/Async/Threads.antt =====
-- Any number of producers, consumers and callers of `shutdown` on one queue, as a step relation.
-- When `wait_for` ends is the environment's choice: the relation lets it end at any time.
use zyrnix.Prelude.{ℕ, true, false, List, [], ◌∷◌, ◌++◌, Option, none, some, ◌≡◌, map}
use zyrnix.Level.{LogRecord}
use zyrnix.Async.{
  AsyncQueue, init, push_locked, pop_ready, pop_locked, begin_shutdown, finish_shutdown,
}

-- What became of a record that was taken from the queue.
pub data Outcome : Type 0 where
  delivered discarded : LogRecord → Outcome

unfoldable pub item : Outcome → LogRecord
item (delivered r) = r
item (discarded r) = r

-- `pending` are the records of the calls of `push` that stand between the test of the flag and the
-- lock. `accepted` are those whose `push` returned true, `taken` those that left the queue, both
-- oldest first.
pub record System : Type 0 where
  pub async : AsyncQueue
  pub pending : List LogRecord
  pub accepted : List LogRecord
  pub refused : List LogRecord
  pub taken : List Outcome

unfoldable pub start : ℕ → System
unfolding init
start timeout_ms = record {
  async = init timeout_ms;
  pending = [];
  accepted = [];
  refused = [];
  taken = [];
}

unfoldable pub deliver : System → Option LogRecord × AsyncQueue → System
deliver s (none, q) = record s { async = q }
deliver s (some r, q) = record s { async = q; taken = s.taken ++ delivered r ∷ [] }

unfoldable pub discard : System → System
unfolding finish_shutdown
discard s = record s {
  async = (finish_shutdown s.async).0;
  taken = s.taken ++ map discarded s.async.queue;
}

pub data Step : System → System → Type 0 where
  push_test :
      (s : System) (r : LogRecord)
      → s.async.shutdown ≡ false
      → Step s (record s { pending = r ∷ s.pending })
  push_refuse :
      (s : System) (r : LogRecord)
      → s.async.shutdown ≡ true
      → Step s (record s { refused = r ∷ s.refused })
  push_lock :
      (s : System) (before : List LogRecord) (r : LogRecord) (after : List LogRecord)
      → s.pending ≡ before ++ r ∷ after
      → Step s (record s {
        async = push_locked s.async r;
        pending = before ++ after;
        accepted = s.accepted ++ r ∷ [];
      })
  pop_wakes : (s : System) → pop_ready s.async ≡ true → Step s (deliver s (pop_locked s.async))
  shutdown_begins : (s : System) → Step s (record s { async = begin_shutdown s.async })
  shutdown_finishes : (s : System) → s.async.shutdown ≡ true → Step s (discard s)

pub data Reach (s : System) : System → Type 0 where
  here : Reach s s
  next : {t u : System} → Reach s t → Step t u → Reach s u
