-- ===== src/Pool.antt =====
-- `ThreadPool` of src/async/thread_pool.cpp, over the type of its tasks: what each worker does
-- between two points where another thread can run, and the interleavings as a step relation.
pub mod Started
mod Tests
use zyrnix.Prelude.{
  ℕ, zero, suc, ◌≡◌, Bool, true, false, not, ◌||◌, List, [], ◌∷◌, ◌++◌, if◌then◌else◌, ltb, length,
  replicate,
}

-- A worker before the test of `while (running)`, in its wait, in a task, or at its end.
pub data WorkerAt (T : Type 0) : Type 0 where
  testing waiting ended : WorkerAt T
  busy : T → WorkerAt T

pub record ThreadPool (T : Type 0) : Type 0 where
  pub workers : List (WorkerAt T)
  pub tasks : List T
  pub running : Bool

-- The pool with the tasks that were handed to it, that a worker took, and that have run.
pub record System (T : Type 0) : Type 0 where
  pub pool : ThreadPool T
  pub submitted : List T
  pub started : List T
  pub executed : List T

module _ {T : Type 0} where
  unfoldable pub init : ℕ → ThreadPool T
  init threads = record { workers = replicate threads testing; tasks = []; running = true }

  unfoldable pub enqueue : ThreadPool T → T → ThreadPool T
  enqueue p task = record p { tasks = p.tasks ++ task ∷ [] }

  -- What the destructor does before it waits for the workers.
  unfoldable pub stop : ThreadPool T → ThreadPool T
  stop p = record p { running = false }

  unfoldable pub worker_test : ThreadPool T → WorkerAt T
  worker_test p = if p.running then waiting else ended

  -- The predicate of the wait.
  unfoldable pub is_woken : ThreadPool T → Bool
  is_woken p = ltb 0 (length p.tasks) || not p.running

  -- The worker of a place in the list takes what comes after its wait.
  unfoldable pub take_task : System T → List (WorkerAt T) → List (WorkerAt T) → System T
  take_task s before after = elim s.pool.tasks [
    | [] ↦ record s { pool = record s.pool { workers = before ++ ended ∷ after } }
    | task ∷ rest ↦ record s {
      pool = record s.pool { workers = before ++ busy task ∷ after; tasks = rest };
      started = s.started ++ task ∷ [];
    }
  ]

  pub data Step : System T → System T → Type 0 where
    submits :
        (s : System T) (task : T)
        → Step s (record s { pool = enqueue s.pool task; submitted = s.submitted ++ task ∷ [] })
    stops : (s : System T) → Step s (record s { pool = stop s.pool })
    tests :
        (s : System T) (before after : List (WorkerAt T))
        → s.pool.workers ≡ before ++ testing ∷ after
        → Step s
            (record s { pool = record s.pool { workers = before ++ worker_test s.pool ∷ after } })
    takes :
        (s : System T) (before after : List (WorkerAt T))
        → s.pool.workers ≡ before ++ waiting ∷ after
        → is_woken s.pool ≡ true
        → Step s (take_task s before after)
    finishes :
        (s : System T) (before : List (WorkerAt T)) (task : T) (after : List (WorkerAt T))
        → s.pool.workers ≡ before ++ busy task ∷ after
        → Step s (record s {
          pool = record s.pool { workers = before ++ testing ∷ after };
          executed = s.executed ++ task ∷ [];
        })

  pub data Reach (s : System T) : System T → Type 0 where
    here : Reach s s
    next : {t u : System T} → Reach s t → Step t u → Reach s u

-- A pool with some threads and no task yet.
abbrev pub start : {T : Type 0} → ℕ → System T
start threads = record { pool = init threads; submitted = []; started = []; executed = [] }
