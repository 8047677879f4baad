-- ===== src/Async/Order.antt =====
-- What the queue promises under every interleaving.
use zyrnix.Prelude.{
  ℕ, true, List, [], ◌∷◌, ◌++◌, none, some, ◌≡◌, ◌↔◌, ◌≢◌, ◌⊎◌, inl, inr, if◌then◌else◌, refl, ◌∙◌,
  sym, ap, map, arith, length, append-nil, append_assoc, List-cases,
}
use zyrnix.Level.{LogRecord}
use zyrnix.Async.{AsyncQueue, push_locked, pop_ready, pop_locked, begin_shutdown, finish_shutdown}
use zyrnix.Async.Threads.{
  System, delivered, discarded, item, start, deliver, discard, Step, push_test, push_refuse,
  push_lock, pop_wakes, shutdown_begins, shutdown_finishes, Reach, here, next,
}
use mathlib.Core.List.{map-append}

-- The records that left the queue, followed by those in it, are those accepted, in order.
abbrev pub IsFifo : System → Type 0
IsFifo s = map item s.taken ++ s.async.queue ≡ s.accepted

map-item-discarded : (rs : List LogRecord) → map item (map discarded rs) ≡ rs
unfolding item
map-item-discarded [] = refl
map-item-discarded (r ∷ rs) = ap (◌∷◌ r) (map-item-discarded rs)

push_lock-IsFifo :
    (s : System) (r : LogRecord)
    → IsFifo s
    → map item s.taken ++ (s.async.queue ++ r ∷ []) ≡ s.accepted ++ r ∷ []
push_lock-IsFifo s r h =
    sym (append_assoc (map item s.taken) s.async.queue (r ∷ [])) ∙ ap (λ xs. xs ++ r ∷ []) h

deliver-IsFifo :
    (s : System) (rs : List LogRecord)
    → s.async.queue ≡ rs
    → IsFifo s
    → IsFifo (deliver s (pop_locked s.async))
unfolding deliver pop_locked item
deliver-IsFifo s [] e h = ground arith
deliver-IsFifo s (r ∷ rs) e h =
    ground (
      arith,
      map-append item s.taken (delivered r ∷ []),
      append_assoc (map item s.taken) (r ∷ []) rs,
    )

discard-IsFifo :
    (s : System) (rs : List LogRecord) → s.async.queue ≡ rs → IsFifo s → IsFifo (discard s)
unfolding discard finish_shutdown item
discard-IsFifo s [] e h = ground (arith, append-nil s.taken)
discard-IsFifo s (r ∷ rs) e h = ground (
  arith,
  map-append item s.taken (map discarded s.async.queue),
  map-item-discarded s.async.queue,
  append-nil (map item s.taken ++ s.async.queue),
  append-nil (map item (s.taken ++ map discarded s.async.queue)),
)

Step-IsFifo : {s t : System} → Step s t → IsFifo s → IsFifo t
unfolding push_locked begin_shutdown
Step-IsFifo (push_test s r e) h = h
Step-IsFifo (push_refuse s r e) h = h
Step-IsFifo (push_lock s xs r ys e) h = push_lock-IsFifo s r h
Step-IsFifo (pop_wakes s e) h = deliver-IsFifo s s.async.queue refl h
Step-IsFifo (shutdown_begins s) h = h
Step-IsFifo (shutdown_finishes s e) h = discard-IsFifo s s.async.queue refl h

-- Under every interleaving of producers, consumers and shutdowns the records taken from the queue,
-- delivered or discarded, followed by those still in it, are the accepted records in the order of
-- acceptance: none is lost without a trace, doubled or overtaken.
pub Reach-IsFifo : (timeout_ms : ℕ) {s : System} → Reach (start timeout_ms) s → IsFifo s
unfolding start
Reach-IsFifo timeout_ms here = refl
Reach-IsFifo timeout_ms (next r st) = Step-IsFifo st (Reach-IsFifo timeout_ms r)

-- After `shutdown` has begun and the last call of `push` that saw the flag unset has returned.
pub record IsClosed (accepted : List LogRecord) (s : System) : Type 0 where
  pub flag : s.async.shutdown ≡ true
  pub settled : s.pending ≡ []
  pub kept : s.accepted ≡ accepted

append-cons-ne-nil : {A : Type 0} (xs : List A) (a : A) (ys : List A) → xs ++ a ∷ ys ≢ []
append-cons-ne-nil [] a ys e = cc
append-cons-ne-nil (x ∷ xs) a ys e = cc

deliver-IsClosed :
    (xs : List LogRecord) (s : System) (rs : List LogRecord)
    → s.async.queue ≡ rs
    → IsClosed xs s
    → IsClosed xs (deliver s (pop_locked s.async))
unfolding deliver pop_locked
deliver-IsClosed xs s [] e h = ground arith
deliver-IsClosed xs s (r ∷ rs) e h = ground arith

Step-IsClosed : (xs : List LogRecord) {s t : System} → Step s t → IsClosed xs s → IsClosed xs t
unfolding push_locked begin_shutdown discard finish_shutdown
Step-IsClosed xs (push_test s r e) h = ground arith
Step-IsClosed xs (push_refuse s r e) h = ground arith
Step-IsClosed xs (push_lock s ys r zs e) h = absurd (append-cons-ne-nil ys r zs (sym e ∙ h.settled))
Step-IsClosed xs (pop_wakes s e) h = deliver-IsClosed xs s s.async.queue refl h
Step-IsClosed xs (shutdown_begins s) h = ground arith
Step-IsClosed xs (shutdown_finishes s e) h = ground arith

-- Once the queue is closed no further record is accepted, and it stays closed.
pub Reach-IsClosed :
    (xs : List LogRecord) {s t : System} → IsClosed xs s → Reach s t → IsClosed xs t
Reach-IsClosed xs h here = h
Reach-IsClosed xs h (next r st) = Step-IsClosed xs st (Reach-IsClosed xs h r)

-- The answer of `shutdown(true)` and what it leaves: true exactly when the queue had drained, and
-- then the count of dropped records is as it was; in either case the queue is empty, and after
-- false the count is the number of records thrown away.
pub finish_shutdown_lem :
    (q : AsyncQueue)
    → let (q', drained) = finish_shutdown q in
      (q'.queue ≡ [])
      × (q'.shutdown ≡ q.shutdown)
      × ((drained ≡ true) ↔ (q.queue ≡ []))
      × (q'.dropped_count ≡ (if drained then q.dropped_count else length q.queue))
unfolding finish_shutdown
finish_shutdown_lem q = ground (arith, List-cases q.queue)

-- A call of `pop` whose wait is over returns nothing exactly when the queue is empty, and then it
-- is shutting down; otherwise it returns the oldest record and leaves the others.
pub pop_locked_lem :
    (q : AsyncQueue)
    → pop_ready q ≡ true
    → ((q.queue ≡ []) × (q.shutdown ≡ true) × (pop_locked q ≡ (none, q)))
      ⊎ ((r : LogRecord) × (rs : List LogRecord) × (q.queue ≡ r ∷ rs)
          × (pop_locked q ≡ (some r, record q { queue = rs })))
unfolding pop_ready pop_locked
pop_locked_lem q h = elim (List-cases q.queue) [
  | inl e ↦ inl (e, ground arith, ground arith)
  | inr (r, rs, e) ↦ inr (r, rs, e, ground arith)
]
