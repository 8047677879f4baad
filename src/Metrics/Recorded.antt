-- ===== src/Metrics/Recorded.antt =====
-- What `record_log_duration` of src/log_metrics.cpp leaves when threads call it at once.
use zyrnix.Prelude.{
  ℕ, ◌+◌, ◌%◌, ◌<◌, ◌≤◌, ◌≡◌, refl, sym, ap, ◌∙◌, true, List, [], ◌∷◌, ◌++◌, arith, word_mod, All,
  map,
}
use zyrnix.Metrics.{LogMetrics, raise, record_log_duration}
use zyrnix.Metrics.Maximum.{
  Thread, adding, loading, looping, ended, Shared, Step, adds, loads, leaves, exchanges, fails,
  Reach, here, next, start, record_each, is_ended,
}

-- What a thread has still to add, what it may still raise the maximum to, and the maximum it knows.
to_add : Thread → ℕ
to_add (adding v) = v
to_add (loading v) = 0
to_add (looping v c) = 0
to_add (ended v) = 0

to_raise : Thread → ℕ
to_raise (adding v) = v
to_raise (loading v) = v
to_raise (looping v c) = v
to_raise (ended v) = 0

known : Thread → ℕ
known (adding v) = 0
known (loading v) = 0
known (looping v c) = c
known (ended v) = 0

sum_of : (Thread → ℕ) → List Thread → ℕ
sum_of f [] = 0
sum_of f (w ∷ ws) = f w + sum_of f ws

highest : (Thread → ℕ) → List Thread → ℕ
highest f [] = 0
highest f (w ∷ ws) = raise (f w) (highest f ws)

sum_at :
    (f : Thread → ℕ) (before : List Thread) (w : Thread) (after : List Thread)
    → sum_of f (before ++ w ∷ after) ≡ f w + (sum_of f before + sum_of f after)
unfolding sum_of
sum_at f [] w after = omega arith
sum_at f (v ∷ vs) w after = omega (arith, sum_at f vs w after)

highest_at :
    (f : Thread → ℕ) (before : List Thread) (w : Thread) (after : List Thread)
    → highest f (before ++ w ∷ after) ≡ raise (f w) (raise (highest f before) (highest f after))
unfolding highest raise
highest_at f [] w after = ground arith
highest_at f (v ∷ vs) w after = ground (arith, highest_at f vs w after)

record IsRecorded (total top : ℕ) (s : Shared) : Type 0 where
  sum : (s.total_log_time_us + sum_of to_add s.threads) % word_mod ≡ total % word_mod
  small : s.total_log_time_us < word_mod
  raised : raise (highest to_raise s.threads) s.max_log_latency_us ≡ top
  seen : highest known s.threads ≤ s.max_log_latency_us

-- What the other threads have to add, may raise the maximum to and know, as one thread changes.
record Others (s : Shared) (v : Thread) (after : List Thread) (w : Thread) : Type 0 where
  sum : ℕ
  to : ℕ
  seen : ℕ
  sum_before : sum_of to_add s.threads ≡ to_add v + sum
  sum_after : sum_of to_add after ≡ to_add w + sum
  to_before : highest to_raise s.threads ≡ raise (to_raise v) to
  to_after : highest to_raise after ≡ raise (to_raise w) to
  seen_before : highest known s.threads ≡ raise (known v) seen
  seen_after : highest known after ≡ raise (known w) seen

others :
    (s : Shared) (before : List Thread) (v w : Thread) (after : List Thread)
    → s.threads ≡ before ++ v ∷ after
    → Others s v (before ++ w ∷ after) w
others s before v w after e = record {
  sum = sum_of to_add before + sum_of to_add after;
  to = raise (highest to_raise before) (highest to_raise after);
  seen = raise (highest known before) (highest known after);
  sum_before = ap (sum_of to_add) e ∙ sum_at to_add before v after;
  sum_after = sum_at to_add before w after;
  to_before = ap (highest to_raise) e ∙ highest_at to_raise before v after;
  to_after = highest_at to_raise before w after;
  seen_before = ap (highest known) e ∙ highest_at known before v after;
  seen_after = highest_at known before w after;
}

Step-IsRecorded :
    (total top : ℕ) {s t : Shared} → Step s t → IsRecorded total top s → IsRecorded total top t
unfolding to_add to_raise known raise
Step-IsRecorded total top (adds s before v after e) h =
    let o = others s before (adding v) (loading v) after e in
    record {
      sum = omega (arith, o.sum_before, o.sum_after, h.sum);
      small = omega arith;
      raised = ground (arith, o.to_before, o.to_after, h.raised);
      seen = ground (arith, o.seen_before, o.seen_after, h.seen);
    }
Step-IsRecorded total top (loads s before v after e) h =
    let o = others s before (loading v) (looping v s.max_log_latency_us) after e in
    record {
      sum = omega (arith, o.sum_before, o.sum_after, h.sum);
      small = h.small;
      raised = ground (arith, o.to_before, o.to_after, h.raised);
      seen = ground (arith, o.seen_before, o.seen_after, h.seen);
    }
Step-IsRecorded total top (leaves s before v c after e k) h =
    let o = others s before (looping v c) (ended v) after e in
    record {
      sum = omega (arith, o.sum_before, o.sum_after, h.sum);
      small = h.small;
      raised = ground (arith, o.to_before, o.to_after, h.raised, o.seen_before, h.seen, k);
      seen = ground (arith, o.seen_before, o.seen_after, h.seen);
    }
Step-IsRecorded total top (exchanges s before v c after e k m) h =
    let o = others s before (looping v c) (ended v) after e in
    record {
      sum = omega (arith, o.sum_before, o.sum_after, h.sum);
      small = h.small;
      raised = ground (arith, o.to_before, o.to_after, h.raised, k, m);
      seen = ground (arith, o.seen_before, o.seen_after, h.seen, k, m);
    }
Step-IsRecorded total top (fails s before v c after e k) h =
    let o = others s before (looping v c) (looping v s.max_log_latency_us) after e in
    record {
      sum = omega (arith, o.sum_before, o.sum_after, h.sum);
      small = h.small;
      raised = ground (arith, o.to_before, o.to_after, h.raised);
      seen = ground (arith, o.seen_before, o.seen_after, h.seen);
    }

-- The counters after the calls one after the other, as the threads have them to come.
record_each-counters :
    (m : LogMetrics) (vs : List ℕ)
    → m.total_log_time_us < word_mod
    → ((record_each vs m).total_log_time_us
        ≡ (m.total_log_time_us + sum_of to_add (map adding vs)) % word_mod)
      × ((record_each vs m).max_log_latency_us
          ≡ raise (highest to_raise (map adding vs)) m.max_log_latency_us)
unfolding record_each record_log_duration sum_of highest to_add to_raise raise
record_each-counters m [] l = (omega (arith, l), ground arith)
record_each-counters m (v ∷ vs) l =
    let (a, b) = record_each-counters (record_log_duration m v) vs (omega arith) in
    (omega (arith, a), ground (arith, b))

known-start : (vs : List ℕ) → highest known (map adding vs) ≡ 0
unfolding highest known raise
known-start [] = refl
known-start (v ∷ vs) = ground (arith, known-start vs)

Reach-IsRecorded :
    (m : LogMetrics) (vs : List ℕ) (s : Shared)
    → m.total_log_time_us < word_mod
    → Reach (start m vs) s
    → IsRecorded (record_each vs m).total_log_time_us (record_each vs m).max_log_latency_us s
Reach-IsRecorded m vs _ l here =
    let (a, b) = record_each-counters m vs l in
    record {
      sum = omega (arith, a);
      small = l;
      raised = sym b;
      seen = omega (arith, known-start vs);
    }
Reach-IsRecorded m vs _ l (next r h) = Step-IsRecorded _ _ h (Reach-IsRecorded m vs _ l r)

ended-nothing :
    (ts : List Thread)
    → All (λ t. is_ended t ≡ true) ts
    → (sum_of to_add ts ≡ 0) × (highest to_raise ts ≡ 0)
unfolding sum_of highest to_add to_raise is_ended raise
ended-nothing [] h = (refl, refl)
ended-nothing (ended v ∷ ts) (k, h) =
    let (a, b) = ended-nothing ts h in (omega (arith, a), ground (arith, b))
ended-nothing (adding v ∷ ts) (k, h) = absurd (ground (arith, k))
ended-nothing (loading v ∷ ts) (k, h) = absurd (ground (arith, k))
ended-nothing (looping v c ∷ ts) (k, h) = absurd (ground (arith, k))

-- Threads that call `record_log_duration` on the same metrics, of a total of 64 bits, however their
-- loads, additions and exchanges take turns and whichever exchanges fail: once all have ended, the
-- total of the durations and the largest one are what the calls leave that are made one after the
-- other, none being lost.
pub Reach-recorded :
    (m : LogMetrics) (durations : List ℕ) (s : Shared)
    → m.total_log_time_us < word_mod
    → Reach (start m durations) s
    → All (λ t. is_ended t ≡ true) s.threads
    → (s.total_log_time_us ≡ (record_each durations m).total_log_time_us)
      × (s.max_log_latency_us ≡ (record_each durations m).max_log_latency_us)
unfolding raise
Reach-recorded m durations s l r h =
    let i = Reach-IsRecorded m durations s l r in
    let (a, b) = ended-nothing s.threads h in
    let (c, d) = record_each-counters m durations l in
    (omega (arith, i.sum, i.small, a, c), ground (arith, i.raised, b))
