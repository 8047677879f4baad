-- ===== src/Cloud/Sent.antt =====
-- What a batch that is sent leaves, and how events go from the queue into the batch.
use zyrnix.Prelude.{
  ℕ, zero, suc, ◌≤◌, ◌≡◌, refl, sym, ap, ◌∙◌, append_assoc, append-nil, Bool, true, Option, none,
  some, List, [], ◌∷◌, ◌++◌, ltb, arith, length, length-append, add_word, Bool-cases, le→leb,
  ltb→lt, inl, inr,
}
use zyrnix.Cloud.Retries.{refused, next_count, next-le, loop-refused, loop-taken}
use zyrnix.Cloud.{CloudSink, fill, request, send_loop, count_batch, send_batch}

-- What holds of a result, if there is one.
unfoldable pub Upto {ℓ} : {A : Type ℓ} → (A → Type 0) → Option A → Type 0
Upto P none = Unit
Upto P (some a) = P a

Upto-map :
    {A : Type 0} (P Q : A → Type 0) (o : Option A) → Upto P o → ((a : A) → P a → Q a) → Upto Q o
unfolding Upto
Upto-map P Q none h k = tt
Upto-map P Q (some a) h k = k a h

pub Upto-bind :
    {A B : Type 0} (P : A → Type 0) (Q : B → Type 0) (o : Option A) (f : A → Option B)
    → Upto P o
    → ((a : A) → P a → Upto Q (f a))
    → Upto Q (elim o [ none ↦ none | some a ↦ f a ])
unfolding Upto
Upto-bind P Q none f h k = tt
Upto-bind P Q (some a) f h k = k a h

module _ {E : Type 0} where
  -- What `send_batch` leaves when it returns.
  pub record IsSent (s : CloudSink E) (events : List E) (t : CloudSink E) : Type 0 where
    pub calls : ℕ
    retries : ℕ
    batches : ℕ
    pub same : t ≡ record s {
      calls = calls;
      retries = retries;
      received = s.received ++ events;
      batches_sent = batches;
      messages_sent = add_word s.messages_sent (length events);
    }

  record IsDelivered (s : CloudSink E) (events : List E) (r : CloudSink E × Bool) : Type 0 where
    pub calls : ℕ
    retries : ℕ
    ok : r.1 ≡ true
    pub same : r.0 ≡ record s { calls = calls; retries = retries; received = s.received ++ events }

  pub fill_lem :
      (size : ℕ) (batch queue : List E)
      → length batch ≤ size
      → (let r = fill size batch queue in
          (batch ++ queue ≡ r.0 ++ r.1) × (length r.0 ≤ size) × (length r.1 ≤ length queue))
  unfolding fill
  fill_lem size batch [] l = (refl, l, omega arith)
  fill_lem size batch (e ∷ queue) l = elim (Bool-cases (ltb (length batch) size)) [
    | inl h ↦
        let (a, b, c) =
          fill_lem size (batch ++ e ∷ []) queue
            (omega (arith, length-append batch (e ∷ []), ltb→lt (length batch) size h)) in
        rw (fill, h) (sym (append_assoc batch (e ∷ []) queue) ∙ a, b, omega (arith, c))
    | inr h ↦ rw (fill, h) (refl, l, omega arith)
  ]

module _ {E : Type 0} (send : ℕ → List E → Bool) where
  send_loop-IsDelivered :
      (e : E) (es : List E) (fuel : ℕ) (s : CloudSink E) (n : ℕ)
      → n ≤ s.config.max_retries
      → Upto (IsDelivered s (e ∷ es)) (send_loop send fuel (e ∷ es) s n)
  unfolding Upto refused send_loop
  send_loop-IsDelivered e es zero s n l = tt
  send_loop-IsDelivered e es (suc fuel) s n l = elim (Bool-cases (send s.calls (e ∷ es))) [
    | inl h ↦
        rw (loop-taken send e es fuel s n l h)
          (record { calls = suc s.calls; retries = s.retries; ok = refl; same = refl })
    | inr h ↦ rw (loop-refused send e es fuel s n l h) (
        Upto-map (IsDelivered (refused send e es s n) (e ∷ es)) (IsDelivered s (e ∷ es)) _
          (send_loop-IsDelivered e es fuel (refused send e es s n) (next_count send e es s n)
            (next-le send e es s n l))
          (λ r d. record { calls = d.calls; retries = d.retries; ok = d.ok; same = d.same }))
  ]

  pub send_batch-IsSent :
      (events : List E) (fuel : ℕ) (s : CloudSink E)
      → Upto (IsSent s events) (send_batch send fuel s events)
  unfolding send_batch send_loop request Upto count_batch
  send_batch-IsSent [] zero s = tt
  send_batch-IsSent [] (suc fuel) s =
      rw (send_batch, send_loop, le→leb 0 s.config.max_retries (omega arith))
        record {
          calls = s.calls;
          retries = s.retries;
          batches = add_word s.batches_sent 1;
          same =
              ap
                (λ r. record s {
                  received = r;
                  batches_sent = add_word s.batches_sent 1;
                  messages_sent = add_word s.messages_sent 0;
                })
                (sym (append-nil s.received));
        }
  send_batch-IsSent (e ∷ es) fuel s =
      Upto-bind (IsDelivered s (e ∷ es)) (IsSent s (e ∷ es)) (send_loop send fuel (e ∷ es) s 0)
        (λ r. some (count_batch (e ∷ es) r.0 r.1))
        (send_loop-IsDelivered e es fuel s 0 (omega arith))
        (λ r d. record {
          calls = d.calls;
          retries = d.retries;
          batches = add_word s.batches_sent 1;
          same = rw (d.ok, d.same) refl;
        })
