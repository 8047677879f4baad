-- ===== src/Cloud/Reached.antt =====
-- What holds of a sink at any time of its life, and after the worker.
use zyrnix.Cloud.Sent.{Upto}
use zyrnix.Prelude.{
  ℕ, ◌≡◌, refl, ap, subst, ◌∙◌, append_assoc, Bool, List, [], ◌∷◌, ◌++◌, leb, arith, length,
  length-append, Bool-cases, if-both, inl, inr,
}
use zyrnix.Cloud.{CloudConfig, done, CloudSink, init, enqueue, stop, worker_step}
use zyrnix.Cloud.Worker.{
  System, is_over, Step, logs, stops, works, Reach, here, next, IsCounted, call_log,
  worker_step-IsCounted,
}

module _ {E : Type 0} (send : ℕ → List E → Bool) where
  Step-IsCounted : {s t : System E} → Step send s t → IsCounted s → IsCounted t
  unfolding call_log enqueue stop Upto
  Step-IsCounted (logs s event) c =
      elim (Bool-cases (leb s.sink.config.max_queue_size (length s.sink.queue))) [
        | inl h ↦
            rw (call_log, enqueue, h)
              record {
                stream = c.stream;
                sent = c.sent;
                failed = c.failed;
                queued = c.queued;
                batched = c.batched;
                ended = c.ended;
                over = c.over;
              }
        | inr h ↦
            rw (call_log, enqueue, h)
              record {
                stream =
                    ap (λ l. l ++ event ∷ []) c.stream
                    ∙ append_assoc s.sink.received (s.sink.batch ++ s.sink.queue) (event ∷ [])
                    ∙ ap (λ l. s.sink.received ++ l)
                        (append_assoc s.sink.batch s.sink.queue (event ∷ []));
                sent = c.sent;
                failed = c.failed;
                queued = ground (arith, h, length-append s.sink.queue (event ∷ []));
                batched = c.batched;
                ended = c.ended;
                over = c.over;
              }
      ]
  Step-IsCounted (stops s) c = record {
    stream = c.stream;
    sent = c.sent;
    failed = c.failed;
    queued = c.queued;
    batched = c.batched;
    ended = λ h. refl;
    over = c.over;
  }
  Step-IsCounted (works s fuel now u e) c =
      subst (Upto (λ v. IsCounted (record { sink = v; accepted = s.accepted }))) e
        (worker_step-IsCounted send s.accepted s.sink fuel now c)

  init-IsCounted :
      (config : CloudConfig) (now : ℕ)
      → IsCounted {E = E} (record { sink = init config now; accepted = [] })
  unfolding init is_over
  init-IsCounted config now = record {
    stream = refl;
    sent = refl;
    failed = refl;
    queued = omega arith;
    batched = omega arith;
    ended = λ h. absurd (ground (arith, h));
    over = λ h. refl;
  }

  -- However the calls of `log`, the worker and the destructor take turns: what the service has, with
  -- the batch and the queue after it, is in order what `log` took, each event once. What the service
  -- has is counted as sent and nothing as failed, and the queue and the batch keep their bounds.
  pub Reach-IsCounted :
      (config : CloudConfig) (now : ℕ) (s : System E)
      → Reach send (record { sink = init config now; accepted = [] }) s
      → IsCounted s
  Reach-IsCounted config now _ here = init-IsCounted config now
  Reach-IsCounted config now _ (next r h) = Step-IsCounted h (Reach-IsCounted config now _ r)

  worker_step-idle :
      (s : CloudSink E) (fuel now : ℕ)
      → s.worker ≡ done
      → Upto (λ v. (v.worker ≡ done) × (v.received ≡ s.received)) (worker_step send fuel s now)
  unfolding worker_step Upto
  worker_step-idle s fuel now e = rw (worker_step, e) (e, refl)

  -- Without the worker nothing is sent.
  Step-stays :
      {s t : System E}
      → Step send s t
      → s.sink.worker ≡ done
      → (t.sink.worker ≡ done) × (t.sink.received ≡ s.sink.received)
  unfolding call_log enqueue stop Upto
  Step-stays (logs s event) e =
      let still : CloudSink E → Type 0 = λ v. (v.worker ≡ done) × (v.received ≡ s.sink.received) in
      if-both still (leb s.sink.config.max_queue_size (length s.sink.queue)) (e, refl) (e, refl)
  Step-stays (stops s) e = (e, refl)
  Step-stays (works s fuel now u h) e =
      subst (Upto (λ v. (v.worker ≡ done) × (v.received ≡ s.sink.received))) h
        (worker_step-idle s.sink fuel now e)

  Reach-stays :
      {s t : System E}
      → s.sink.worker ≡ done
      → Reach send s t
      → (t.sink.worker ≡ done) × (t.sink.received ≡ s.sink.received)
  Reach-stays e here = (e, refl)
  Reach-stays e (next r h) =
      let (w, q) = Reach-stays e r in let (v, p) = Step-stays h w in (v, p ∙ q)

  -- When the worker has ended, what is in the queue was taken by `log` and never reaches the service:
  -- no later step sends it.
  pub Reach-lost :
      (config : CloudConfig) (now : ℕ) (s : System E)
      → Reach send (record { sink = init config now; accepted = [] }) s
      → s.sink.worker ≡ done
      → (s.accepted ≡ s.sink.received ++ s.sink.queue)
        × ((t : System E) → Reach send s t → t.sink.received ≡ s.sink.received)
  Reach-lost config now s r e =
      let c = Reach-IsCounted config now s r in
      (
        c.stream ∙ ap (λ b. s.sink.received ++ (b ++ s.sink.queue)) (c.over e),
        λ t q. (Reach-stays e q).1,
      )
