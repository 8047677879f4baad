-- ===== src/Pool/Tests.antt =====
-- The thread pool at concrete inputs.
use zyrnix.Prelude.{ℕ, refl, false, [], ◌∷◌}
use zyrnix.Pool.{
  ended, System, init, enqueue, stop, worker_test, is_woken, take_task, submits, stops, tests,
  takes, finishes, Reach, here, next, start,
}
use zyrnix.Pool.Started.{IsOrdered, Reach-IsOrdered}

-- One task has run, and one waits for ever: the destructor came while the only worker was busy.
abbrev left : System ℕ
left = record {
  pool = record { workers = ended ∷ []; tasks = 8 ∷ []; running = false };
  submitted = 7 ∷ 8 ∷ [];
  started = 7 ∷ [];
  executed = 7 ∷ [];
}

start-left : Reach (start 1) left
unfolding init enqueue stop worker_test is_woken take_task
start-left =
    next
      (next
        (next
          (next
            (next (next (next here (submits _ 7)) (tests _ [] [] refl)) (takes _ [] [] refl refl))
            (submits _ 8))
          (stops _))
        (finishes _ [] 7 [] refl))
      (tests _ [] [] refl)

Reach-IsOrdered_example : IsOrdered 1 left
Reach-IsOrdered_example = Reach-IsOrdered 1 left start-left
