-- ===== src/Cloud/Retries.antt =====
-- The requests of a batch: the loop of `send_batch`.
use zyrnix.Prelude.{
  ℕ, zero, suc, ◌+◌, ◌-◌, ◌<◌, ◌≤◌, ◌≡◌, refl, ap, subst, ◌∙◌, min, ◌%◌, Bool, true, false, none,
  some, List, ◌∷◌, ◌++◌, if◌then◌else◌, ltb, arith, length, add_word, word_mod, Bool-cases, le→leb,
  inl, inr,
}
use zyrnix.Cloud.{CloudSink, request, send_loop, count_batch, send_batch}

module _ {E : Type 0} (send : ℕ → List E → Bool) (e : E) (es : List E) where
  -- What a request that is not taken leaves.
  unfoldable pub refused : CloudSink E → ℕ → CloudSink E
  refused s n = record s {
    calls = suc s.calls;
    retries = if ltb n s.config.max_retries then add_word s.retries 1 else s.retries;
  }

  unfoldable pub next_count : CloudSink E → ℕ → ℕ
  next_count s n = if ltb n s.config.max_retries then suc n else n

  pub loop-refused :
      (fuel : ℕ) (s : CloudSink E) (n : ℕ)
      → n ≤ s.config.max_retries
      → send s.calls (e ∷ es) ≡ false
      → send_loop send (suc fuel) (e ∷ es) s n
        ≡ send_loop send fuel (e ∷ es) (refused s n) (next_count s n)
  unfolding send_loop request refused next_count
  loop-refused fuel s n l h = elim (Bool-cases (ltb n s.config.max_retries)) [
    | inl k ↦ rw (le→leb n s.config.max_retries l, h, k) refl
    | inr k ↦ rw (le→leb n s.config.max_retries l, h, k) refl
  ]

  pub loop-taken :
      (fuel : ℕ) (s : CloudSink E) (n : ℕ)
      → n ≤ s.config.max_retries
      → send s.calls (e ∷ es) ≡ true
      → send_loop send (suc fuel) (e ∷ es) s n
        ≡ some (record s { calls = suc s.calls; received = s.received ++ e ∷ es }, true)
  unfolding send_loop request
  loop-taken fuel s n l h = rw (le→leb n s.config.max_retries l, h) refl

  -- After `n` requests that are not taken and one that is, from a number of retries.
  record IsTaken (s t : CloudSink E) (n used : ℕ) : Type 0 where
    called : t.calls ≡ s.calls + n + 1
    got : t.received ≡ s.received ++ e ∷ es
    retried : t.retries ≡ (s.retries + min n (s.config.max_retries - used)) % word_mod
    sent_same : t.messages_sent ≡ s.messages_sent
    failed_same : t.messages_failed ≡ s.messages_failed

  pub next-le :
      (s : CloudSink E) (n : ℕ) → n ≤ s.config.max_retries → next_count s n ≤ s.config.max_retries
  unfolding next_count
  next-le s n l = ground arith

  refused-retries :
      (s : CloudSink E) (n : ℕ) → s.retries < word_mod → (refused s n).retries < word_mod
  unfolding refused
  refused-retries s n l = ground arith

  retries-step :
      (s : CloudSink E) (used n : ℕ)
      → used ≤ s.config.max_retries
      → ((refused s used).retries + min n (s.config.max_retries - next_count s used)) % word_mod
        ≡ (s.retries + min (suc n) (s.config.max_retries - used)) % word_mod
  unfolding refused next_count
  retries-step s used n l = ground arith

  loop-IsTaken :
      (n fuel : ℕ) (s : CloudSink E) (used : ℕ)
      → used ≤ s.config.max_retries
      → s.retries < word_mod
      → n < fuel
      → ((i : ℕ) → i < n → send (s.calls + i) (e ∷ es) ≡ false)
      → send (s.calls + n) (e ∷ es) ≡ true
      → (t : CloudSink E) × (send_loop send fuel (e ∷ es) s used ≡ some (t, true))
        × IsTaken s t n used
  unfolding refused
  loop-IsTaken n zero s used l w k f g = absurd (omega arith)
  loop-IsTaken zero (suc fuel) s used l w k f g =
      let at : s.calls + 0 ≡ s.calls = omega arith in
      (
        _,
        loop-taken fuel s used l (subst (λ i. send i (e ∷ es) ≡ true) at g),
        record {
          called = omega arith;
          got = refl;
          retried = omega arith;
          sent_same = refl;
          failed_same = refl;
        },
      )
  loop-IsTaken (suc n) (suc fuel) s used l w k f g =
      let u = refused s used in
      let first : send s.calls (e ∷ es) ≡ false =
        subst (λ i. send i (e ∷ es) ≡ false) (omega arith) (f 0 (omega arith)) in
      let (t, r, h) =
        loop-IsTaken n fuel u (next_count s used) (next-le s used l) (refused-retries s used w)
          (omega arith)
          (λ i k. subst (λ j. send j (e ∷ es) ≡ false) (omega arith) (f (suc i) (omega arith)))
          (subst (λ j. send j (e ∷ es) ≡ true) (omega arith) g) in
      (
        t,
        loop-refused fuel s used l first ∙ r,
        record {
          called = omega (arith, h.called);
          got = h.got;
          retried = h.retried ∙ retries-step s used n l;
          sent_same = h.sent_same;
          failed_same = h.failed_same;
        },
      )

  -- As long as no request is taken, the loop goes on.
  loop-endless :
      (fuel : ℕ) (s : CloudSink E) (used : ℕ)
      → used ≤ s.config.max_retries
      → ((i : ℕ) → i < fuel → send (s.calls + i) (e ∷ es) ≡ false)
      → send_loop send fuel (e ∷ es) s used ≡ none
  unfolding send_loop refused
  loop-endless zero s used l f = refl
  loop-endless (suc fuel) s used l f =
      let first : send s.calls (e ∷ es) ≡ false =
        subst (λ i. send i (e ∷ es) ≡ false) (omega arith) (f 0 (omega arith)) in
      loop-refused fuel s used l first
      ∙ loop-endless fuel (refused s used) (next_count s used) (next-le s used l)
          (λ i k. subst (λ j. send j (e ∷ es) ≡ false) (omega arith) (f (suc i) (omega arith)))

  -- A batch whose first request to be taken is the one of number `n`, counted from 0: `send_batch`
  -- returns after `n + 1` requests, whatever `max_retries` is. The service has the events once, in
  -- order, they are counted as sent and none as failed, and at most `max_retries` retries are
  -- counted.
  pub send_batch-taken :
      (s : CloudSink E) (n fuel : ℕ)
      → s.retries < word_mod
      → n < fuel
      → ((i : ℕ) → i < n → send (s.calls + i) (e ∷ es) ≡ false)
      → send (s.calls + n) (e ∷ es) ≡ true
      → (t : CloudSink E) × (send_batch send fuel s (e ∷ es) ≡ some t)
        × (t.calls ≡ s.calls + n + 1)
        × (t.received ≡ s.received ++ e ∷ es)
        × (t.messages_sent ≡ add_word s.messages_sent (length (e ∷ es)))
        × (t.messages_failed ≡ s.messages_failed)
        × (t.retries ≡ (s.retries + min n s.config.max_retries) % word_mod)
  unfolding send_batch count_batch
  send_batch-taken s n fuel w k f g =
      let (t, r, h) = loop-IsTaken n fuel s 0 (omega arith) w k f g in
      (
        count_batch (e ∷ es) t true,
        rw (send_batch, r) refl,
        h.called,
        h.got,
        ap (λ m. add_word m (length (e ∷ es))) h.sent_same,
        h.failed_same,
        omega (arith, h.retried),
      )

  -- While the service takes no request, `send_batch` does not return: it uses up any number of
  -- rounds, and `max_retries` does not end it.
  pub send_batch-endless :
      (s : CloudSink E)
      → ((i : ℕ) → send (s.calls + i) (e ∷ es) ≡ false)
      → (fuel : ℕ) → send_batch send fuel s (e ∷ es) ≡ none
  unfolding send_batch
  send_batch-endless s f fuel =
      rw (send_batch, loop-endless fuel s 0 (omega arith) (λ i k. f i)) refl
