-- ===== src/Pool/Started.antt =====
-- The order in which tasks start, and which ones run.
use mathlib.Core.List
use mathlib.Core.List.Perm
use mathlib.Core.List.{Perm}
use zyrnix.Prelude.{
  ℕ, zero, suc, ◌≡◌, refl, sym, ap, subst, ◌∙◌, append_assoc, List, [], ◌∷◌, ◌++◌, arith, length,
  length-append, replicate, length-replicate, List-cases, Bool-cases, inl, inr,
}
use zyrnix.Pool.{
  WorkerAt, testing, waiting, ended, busy, ThreadPool, System, init, enqueue, stop, worker_test,
  take_task, Step, submits, stops, tests, takes, finishes, Reach, here, next, start,
}

module _ {T : Type 0} where
  -- The task that a worker is running, in front of others.
  unfoldable pub with_task : WorkerAt T → List T → List T
  with_task testing ts = ts
  with_task waiting ts = ts
  with_task ended ts = ts
  with_task (busy task) ts = task ∷ ts

  -- The tasks that workers are running.
  unfoldable pub busy_tasks : List (WorkerAt T) → List T
  busy_tasks [] = []
  busy_tasks (w ∷ ws) = with_task w (busy_tasks ws)

  with_task-append :
      (w : WorkerAt T) (xs ys : List T) → with_task w (xs ++ ys) ≡ with_task w xs ++ ys
  unfolding with_task
  with_task-append testing xs ys = refl
  with_task-append waiting xs ys = refl
  with_task-append ended xs ys = refl
  with_task-append (busy task) xs ys = refl

  busy_tasks-at :
      (before : List (WorkerAt T)) (w : WorkerAt T) (after : List (WorkerAt T))
      → busy_tasks (before ++ w ∷ after) ≡ busy_tasks before ++ with_task w (busy_tasks after)
  unfolding busy_tasks
  busy_tasks-at [] w after = refl
  busy_tasks-at (v ∷ vs) w after =
      ap (with_task v) (busy_tasks-at vs w after) ∙ with_task-append v _ _

  -- What was handed over is what was started, then what waits; what was started are, in some order,
  -- the tasks that have run and those that workers are running.
  pub record IsOrdered (threads : ℕ) (s : System T) : Type 0 where
    pub order : s.submitted ≡ s.started ++ s.pool.tasks
    pub same_tasks : Perm s.started (s.executed ++ busy_tasks s.pool.workers)
    pub workers : length s.pool.workers ≡ threads

  -- The worker of a place in the list becomes another.
  swap_length :
      (threads : ℕ) (s : System T) (before : List (WorkerAt T)) (v w : WorkerAt T)
      (after : List (WorkerAt T))
      → IsOrdered threads s
      → s.pool.workers ≡ before ++ v ∷ after
      → length (before ++ w ∷ after) ≡ threads
  swap_length threads s before v w after h e = omega (
    arith,
    h.workers,
    ap length e,
    length-append before (v ∷ after),
    length-append before (w ∷ after),
  )

  -- What was started, by the tasks of the workers before and behind a place.
  parted :
      (threads : ℕ) (s : System T) (before : List (WorkerAt T)) (v : WorkerAt T)
      (after : List (WorkerAt T))
      → IsOrdered threads s
      → s.pool.workers ≡ before ++ v ∷ after
      → Perm s.started (s.executed ++ (busy_tasks before ++ with_task v (busy_tasks after)))
  parted threads s before v after h e =
      subst (λ l. Perm s.started (s.executed ++ l)) (ap busy_tasks e ∙ busy_tasks-at before v after)
        h.same_tasks

  joined :
      (started executed : List T) (before : List (WorkerAt T)) (w : WorkerAt T)
      (after : List (WorkerAt T))
      → Perm started (executed ++ (busy_tasks before ++ with_task w (busy_tasks after)))
      → Perm started (executed ++ busy_tasks (before ++ w ∷ after))
  joined started executed before w after h =
      subst (λ l. Perm started (executed ++ l)) (sym (busy_tasks-at before w after)) h

  -- A task that one of two lists gets.
  perm_start :
      (started executed xs ys : List T) (task : T)
      → Perm started (executed ++ (xs ++ ys))
      → Perm (started ++ task ∷ []) (executed ++ (xs ++ task ∷ ys))
  perm_start started executed xs ys task h = Perm.trans (List.perm_append_singleton task started) (
      Perm.trans (Perm.cons task (subst (Perm started) (sym (append_assoc executed xs ys)) h)) (
        subst (Perm (task ∷ ((executed ++ xs) ++ ys))) (append_assoc executed xs (task ∷ ys))
          (Perm.symm (List.perm_middle (executed ++ xs) ys))))

  perm_finish :
      (started executed xs ys : List T) (task : T)
      → Perm started (executed ++ (xs ++ task ∷ ys))
      → Perm started ((executed ++ task ∷ []) ++ (xs ++ ys))
  perm_finish started executed xs ys task h =
      Perm.trans (subst (Perm started) (sym (append_assoc executed xs (task ∷ ys))) h) (
        Perm.trans (List.perm_middle (executed ++ xs) ys) (
          subst (Perm (task ∷ ((executed ++ xs) ++ ys)))
            (sym (append_assoc executed (task ∷ []) (xs ++ ys)))
            (subst (λ l. Perm (task ∷ l) (executed ++ task ∷ (xs ++ ys)))
              (sym (append_assoc executed xs ys))
              (Perm.symm (List.perm_middle executed (xs ++ ys))))))

-- New workers run nothing.
idle : (T : Type 0) (threads : ℕ) → busy_tasks {T = T} (replicate threads testing) ≡ []
unfolding busy_tasks with_task
idle T zero = refl
idle T (suc n) = idle T n

module _ {T : Type 0} where
  start-IsOrdered : (threads : ℕ) → IsOrdered {T = T} threads (start threads)
  unfolding init
  start-IsOrdered threads = record {
    order = refl;
    same_tasks = subst (Perm []) (sym (idle T threads)) Perm.nil;
    workers = length-replicate threads testing;
  }

  worker_test-idle : (p : ThreadPool T) (ts : List T) → with_task (worker_test p) ts ≡ ts
  unfolding with_task worker_test
  worker_test-idle p ts = elim (Bool-cases p.running) [
    | inl e ↦ rw (worker_test, e) refl
    | inr e ↦ rw (worker_test, e) refl
  ]

  Step-IsOrdered :
      (threads : ℕ) {s t : System T} → Step s t → IsOrdered threads s → IsOrdered threads t
  unfolding enqueue stop with_task take_task
  Step-IsOrdered threads (submits s task) h = record {
    order = ap (λ l. l ++ task ∷ []) h.order ∙ append_assoc s.started s.pool.tasks (task ∷ []);
    same_tasks = h.same_tasks;
    workers = h.workers;
  }
  Step-IsOrdered threads (stops s) h = record {
    order = h.order;
    same_tasks = h.same_tasks;
    workers = h.workers;
  }
  Step-IsOrdered threads (tests s before after e) h = record {
    order = h.order;
    same_tasks = joined s.started s.executed before (worker_test s.pool) after (
        subst (λ l. Perm s.started (s.executed ++ (busy_tasks before ++ l)))
          (sym (worker_test-idle s.pool (busy_tasks after)))
          (parted threads s before testing after h e));
    workers = swap_length threads s before testing (worker_test s.pool) after h e;
  }
  Step-IsOrdered threads (takes s before after e w) h =
      let p = parted threads s before waiting after h e in
      elim (List-cases s.pool.tasks) [
        | inl n ↦
            rw (take_task, n)
              record {
                order = h.order;
                same_tasks = joined s.started s.executed before ended after p;
                workers = swap_length threads s before waiting ended after h e;
              }
        | inr (task, rest, n) ↦
            rw (take_task, n)
              record {
                order =
                    h.order
                    ∙ ap (λ l. s.started ++ l) n
                    ∙ sym (append_assoc s.started (task ∷ []) rest);
                same_tasks =
                    joined _ s.executed before (busy task) after (
                      perm_start s.started s.executed (busy_tasks before) (busy_tasks after) task
                        p);
                workers = swap_length threads s before waiting (busy task) after h e;
              }
      ]
  Step-IsOrdered threads (finishes s before task after e) h = record {
    order = h.order;
    same_tasks = joined s.started _ before testing after (
        perm_finish s.started s.executed (busy_tasks before) (busy_tasks after) task
          (parted threads s before (busy task) after h e));
    workers = swap_length threads s before (busy task) testing after h e;
  }

  -- However the threads take turns: tasks start in the order in which they were handed over, each at
  -- most once; those that have started are, in some order, those that have run, each as often as it
  -- started, and those that a worker is running; and the number of workers stays.
  pub Reach-IsOrdered : (threads : ℕ) (s : System T) → Reach (start threads) s → IsOrdered threads s
  Reach-IsOrdered threads _ here = start-IsOrdered threads
  Reach-IsOrdered threads _ (next r h) = Step-IsOrdered threads h (Reach-IsOrdered threads _ r)
