-- ===== src/Cloud/Worker.antt =====
-- The life of a sink: calls of `log`, the moves of the worker and the destructor, in any order.
use zyrnix.Cloud.Sent.{Upto, Upto-bind, IsSent, send_batch-IsSent, fill_lem}
use zyrnix.Prelude.{
  ℕ, ◌≤◌, ◌≡◌, refl, sym, ap, subst, ◌∙◌, append_assoc, ◌%◌, Bool, true, false, not, ◌&&◌, some,
  List, [], ◌∷◌, ◌++◌, if◌then◌else◌, leb, ◌==◌, arith, length, length-append, word_mod, Bool-cases,
  List-cases, if-both, inl, inr,
}
use zyrnix.Cloud.{
  WorkerState, testing, waiting, finishing, done, CloudSink, enqueue, stop, send_batch, is_due,
  take_events, send_filled, worker_round, worker_step,
}

-- The events whose `log` took them, in order.
pub record System (E : Type 0) : Type 0 where
  pub sink : CloudSink E
  pub accepted : List E

-- Past the loop of the worker.
unfoldable pub is_over : WorkerState → Bool
is_over testing = false
is_over waiting = false
is_over finishing = true
is_over done = true

unfoldable pub is_done : WorkerState → Bool
is_done testing = false
is_done waiting = false
is_done finishing = false
is_done done = true

module _ {E : Type 0} where
  -- `log` of an event is taken when there is room.
  unfoldable pub call_log : System E → E → System E
  call_log s event = record {
    sink = enqueue s.sink event;
    accepted =
        if leb s.sink.config.max_queue_size (length s.sink.queue)
        then s.accepted
        else s.accepted ++ event ∷ [];
  }

  -- What the service has, what is counted, and what waits.
  pub record IsCounted (s : System E) : Type 0 where
    pub stream : s.accepted ≡ s.sink.received ++ (s.sink.batch ++ s.sink.queue)
    pub sent : s.sink.messages_sent ≡ length s.sink.received % word_mod
    pub failed : s.sink.messages_failed ≡ 0
    pub queued : length s.sink.queue ≤ s.sink.config.max_queue_size
    pub batched : length s.sink.batch ≤ s.sink.config.batch_size
    pub ended : is_over s.sink.worker ≡ true → s.sink.running ≡ false
    pub over : s.sink.worker ≡ done → s.sink.batch ≡ []

module _ {E : Type 0} (send : ℕ → List E → Bool) where
  -- A move of the worker that returns, at any time, and within any number of rounds of `send_batch`.
  pub data Step : System E → System E → Type 0 where
    logs : (s : System E) (event : E) → Step s (call_log s event)
    stops : (s : System E) → Step s (record s { sink = stop s.sink })
    works :
        (s : System E) (fuel now : ℕ) (t : CloudSink E)
        → worker_step send fuel s.sink now ≡ some t
        → Step s (record s { sink = t })

  pub data Reach (s : System E) : System E → Type 0 where
    here : Reach s s
    next : {t u : System E} → Reach s t → Step t u → Reach s u

  take_events-IsCounted :
      (accepted : List E) (s : CloudSink E)
      → IsCounted (record { sink = s; accepted = accepted })
      → IsCounted (record { sink = take_events s; accepted = accepted })
  unfolding take_events is_over
  take_events-IsCounted accepted s c =
      let (joined, small, less) = fill_lem s.config.batch_size s.batch s.queue c.batched in
      record {
        stream = c.stream ∙ ap (λ r. s.received ++ r) joined;
        sent = c.sent;
        failed = c.failed;
        queued = omega (arith, less, c.queued);
        batched = small;
        ended = λ h. absurd (ground arith);
        over = λ h. absurd (ground (arith, ap is_over h));
      }

  -- A batch that is sent goes from the batch to what was received.
  sent-IsCounted :
      (accepted : List E) (s t : CloudSink E) (w : WorkerState) (now : ℕ)
      → IsCounted (record { sink = s; accepted = accepted })
      → (is_over w ≡ true → s.running ≡ false)
      → IsSent s s.batch t
      → IsCounted (record {
        sink = record t { batch = []; worker = w; last_send = now };
        accepted = accepted;
      })
  sent-IsCounted accepted s t w now c h k = rw k.same record {
    stream = c.stream ∙ sym (append_assoc s.received s.batch s.queue);
    sent = omega (arith, c.sent, length-append s.received s.batch);
    failed = c.failed;
    queued = c.queued;
    batched = omega arith;
    ended = h;
    over = λ e. refl;
  }

  -- The same when the worker goes on.
  sent_testing :
      (accepted : List E) (s t : CloudSink E) (now : ℕ)
      → IsCounted (record { sink = s; accepted = accepted })
      → IsSent s s.batch t
      → IsCounted (record { sink = record t { batch = []; last_send = now }; accepted = accepted })
  unfolding is_over
  sent_testing accepted s t now c k =
      subst
        (λ v. IsCounted (record {
          sink = record t { batch = []; worker = v; last_send = now };
          accepted = accepted;
        }))
        (sym (ap (λ u. u.worker) k.same)) (sent-IsCounted accepted s t s.worker now c c.ended k)

  -- The worker's moves keep the count.
  worker_round-IsCounted :
      (accepted : List E) (s : CloudSink E) (fuel now : ℕ)
      → IsCounted (record { sink = s; accepted = accepted })
      → Upto
          (λ t. IsCounted (record { sink = t; accepted = accepted }))
          (worker_round send fuel s now)
  unfolding worker_round send_filled Upto is_done take_events
  worker_round-IsCounted accepted s fuel now c =
      let P : CloudSink E → Type 0 = λ t. IsCounted (record { sink = t; accepted = accepted }) in
      let filled = take_events-IsCounted accepted s c in
      let sent =
        Upto-bind (IsSent (take_events s) (take_events s).batch) P
          (send_batch send fuel (take_events s) (take_events s).batch)
          (λ t. some (record t { batch = []; last_send = now }))
          (send_batch-IsSent send (take_events s).batch fuel (take_events s))
          (λ t k. sent_testing accepted (take_events s) t now filled k) in
      elim (Bool-cases (not s.running && length s.queue == 0)) [
        | inl h ↦
            rw (worker_round, h)
              record {
                stream = c.stream;
                sent = c.sent;
                failed = c.failed;
                queued = c.queued;
                batched = c.batched;
                ended = λ e. ground (arith, h);
                over = λ e. absurd (ground (arith, ap (λ v. is_done v) e));
              }
        | inr h ↦ rw (worker_round, h) (if-both (Upto P) (is_due (take_events s) now) sent filled)
      ]

  next_over : (b : Bool) → is_over (if b then waiting else finishing) ≡ true → b ≡ false
  unfolding is_over
  next_over true h = sym h
  next_over false h = refl

  next_goes : (b : Bool) → (if b then waiting else finishing) ≡ done → ⊥
  unfolding is_done
  next_goes true h = absurd (ground (arith, ap is_done h))
  next_goes false h = absurd (ground (arith, ap is_done h))

  pub worker_step-IsCounted :
      (accepted : List E) (s : CloudSink E) (fuel now : ℕ)
      → IsCounted (record { sink = s; accepted = accepted })
      → Upto
          (λ t. IsCounted (record { sink = t; accepted = accepted }))
          (worker_step send fuel s now)
  unfolding worker_step Upto is_over
  worker_step-IsCounted accepted s fuel now c = at s.worker refl
    where
      P : CloudSink E → Type 0
      P t = IsCounted (record { sink = t; accepted = accepted })

      moved :
          (w : WorkerState)
          → (is_over w ≡ true → s.running ≡ false)
          → (w ≡ done → s.batch ≡ [])
          → P (record s { worker = w })
      moved w h k = record {
        stream = c.stream;
        sent = c.sent;
        failed = c.failed;
        queued = c.queued;
        batched = c.batched;
        ended = h;
        over = k;
      }

      at : (w : WorkerState) → s.worker ≡ w → Upto P (worker_step send fuel s now)
      at testing e =
          rw (worker_step, e)
            (moved (if s.running then waiting else finishing) (next_over s.running)
              (λ h. absurd (next_goes s.running h)))
      at waiting e = rw (worker_step, e) (worker_round-IsCounted accepted s fuel now c)
      at finishing e = elim (List-cases s.batch) [
        | inl h ↦ rw (worker_step, e, h) (moved done (λ f. c.ended (ap is_over e)) (λ f. h))
        | inr (x, xs, h) ↦
            rw (worker_step, e, h)
              (Upto-bind (IsSent s (x ∷ xs)) P (send_batch send fuel s (x ∷ xs))
                (λ t. some (record t { worker = done; batch = [] }))
                (send_batch-IsSent send (x ∷ xs) fuel s)
                (λ t k.
                  sent-IsCounted accepted s t done t.last_send c (λ f. c.ended (ap is_over e))
                    (subst (λ l. IsSent s l t) (sym h) k)))
      ]
      at done e = rw (worker_step, e) c
