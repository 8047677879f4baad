-- ===== src/Limiter/Combined.antt =====
-- The sampler before the bucket, and what the statistics say of a run of calls.
use zyrnix.Prelude.{
  ℕ, ◌+◌, ◌%◌, ◌≤◌, ◌<◌, ◌≡◌, refl, arith, ◌==◌, if◌then◌else◌, word_mod, List, [], ◌∷◌, length, ap,
}
use zyrnix.Limiter.{
  CombinedLimiter, RateLimiter, init_combined, try_log, take_token, refill_tokens, sample,
  sampling_enabled, combined_log, rate_stage, get_stats, sampling_drops,
}
use zyrnix.Limiter.Sampling.{
  multiples_below, multiples_below-suc, multiples_below-zero, multiples_below-div,
  sampling_drops-eq, div-lt_of_inexact,
}

-- The calls of `should_log` at the given times, with those that return true counted.
unfoldable pub logged : CombinedLimiter → List ℕ → ℕ × CombinedLimiter
logged c [] = (0, c)
logged c (t ∷ ts) =
    let (c', passed) = combined_log c t in
    let (n, last) = logged c' ts in (if passed then n + 1 else n, last)

-- A call of the bucket counts a refusal, and nothing else.
try_log-dropped_count :
    (r : RateLimiter) (t : ℕ)
    → r.dropped_count + 1 < word_mod
    → (try_log r t).0.dropped_count
      ≡ (if (try_log r t).1 then r.dropped_count else r.dropped_count + 1)
unfolding try_log take_token refill_tokens
try_log-dropped_count r t h = ground arith

-- The counters after `n` messages, with the sampler on.
record Counts (rate n : ℕ) (c : CombinedLimiter) : Type 0 where
  sampling : c.sampling_limiter ≡ record { sample_rate = rate; counter = n }
  passed : c.logged_count + c.rate_limiter.dropped_count ≡ multiples_below rate n
  few : multiples_below rate n ≤ n

combined_log-Counts :
    (rate n t : ℕ) (c : CombinedLimiter)
    → 1 < rate
    → n + 1 < word_mod
    → Counts rate n c
    → Counts rate (n + 1) (combined_log c t).0
      × ((combined_log c t).0.logged_count
          ≡ (if (combined_log c t).1 then c.logged_count + 1 else c.logged_count))
unfolding combined_log rate_stage sample sampling_enabled
combined_log-Counts rate n t c h k v =
    ground (arith, try_log-dropped_count c.rate_limiter t, multiples_below-suc rate n)

-- What a run from a state with `n` messages counted leaves.
record Run (rate n : ℕ) (c : CombinedLimiter) (k : ℕ) (last : CombinedLimiter) : Type 0 where
  counts : Counts rate n last
  logs : last.logged_count ≡ c.logged_count + k

logged-Run :
    (rate n end : ℕ) (c : CombinedLimiter) (ts : List ℕ)
    → 1 < rate
    → n + length ts ≡ end
    → end < word_mod
    → Counts rate n c
    → Run rate end c (logged c ts).0 (logged c ts).1
unfolding logged
logged-Run rate n end c [] h e k v = ground arith
logged-Run rate n end c (t ∷ ts) h e k v =
    let s = combined_log-Counts rate n t c h (omega arith) v in
    ground (arith, s, logged-Run rate (n + 1) end (combined_log c t).0 ts h)

Counts-stats :
    (rate n : ℕ) (c : CombinedLimiter)
    → 1 < rate
    → n < word_mod
    → Counts rate n c
    → let st = get_stats c in
      (st.total_messages ≡ n)
      × (st.logged_messages + st.rate_limited_drops ≡ multiples_below rate n)
      × (st.logged_messages + st.rate_limited_drops + st.sampling_drops
          ≡ st.total_messages + (if n % rate == 0 then 0 else 1))
unfolding get_stats
Counts-stats rate n c h k v = ground (
  arith,
  v.sampling,
  ap sampling_drops v.sampling,
  sampling_drops-eq rate n h k,
  multiples_below-div rate n,
  div-lt_of_inexact n rate,
)

init-Counts :
    (rate burst sample_rate start : ℕ)
    → 1 < sample_rate
    → Counts sample_rate 0 (init_combined rate burst sample_rate start)
unfolding init_combined
init-Counts rate burst sample_rate start h = ground (arith, multiples_below-zero sample_rate)

-- With the sampler on, the statistics of a run from a fresh limiter: every message is counted in
-- the total; `logged_messages` is the number of calls that returned true; with the refusals of the
-- bucket they make up the messages that the sampler let through; and the three numbers for what
-- became of a message exceed the total by one, unless the sampling rate divides it.
pub get_stats-logged :
    (rate burst sample_rate start : ℕ) (ts : List ℕ)
    → 1 < sample_rate
    → length ts < word_mod
    → let (k, c) = logged (init_combined rate burst sample_rate start) ts in
      let st = get_stats c in
      (st.total_messages ≡ length ts)
      × (st.logged_messages ≡ k)
      × (st.logged_messages + st.rate_limited_drops ≡ multiples_below sample_rate (length ts))
      × (st.logged_messages + st.rate_limited_drops + st.sampling_drops
          ≡ st.total_messages + (if length ts % sample_rate == 0 then 0 else 1))
unfolding init_combined get_stats
get_stats-logged rate burst sample_rate start ts h k =
    let fresh = init_combined rate burst sample_rate start in
    let r =
      logged-Run sample_rate 0 (length ts) fresh ts h (omega arith) k
        (init-Counts rate burst sample_rate start h) in
    let st = Counts-stats sample_rate (length ts) (logged fresh ts).1 h k r.counts in
    (st.0, omega (arith, r.logs), st.1, st.2)

-- A sampler that is off counts nothing.
combined_log-unsampled :
    (c : CombinedLimiter) (t : ℕ)
    → c.sampling_limiter.sample_rate ≤ 1
    → ((combined_log c t).0.sampling_limiter ≡ c.sampling_limiter)
unfolding combined_log rate_stage sample sampling_enabled
combined_log-unsampled c t h = ground arith

logged-unsampled :
    (c : CombinedLimiter) (ts : List ℕ)
    → c.sampling_limiter.sample_rate ≤ 1
    → (logged c ts).1.sampling_limiter ≡ c.sampling_limiter
unfolding logged
logged-unsampled c [] h = refl
logged-unsampled c (t ∷ ts) h =
    ground (arith, combined_log-unsampled c t h, logged-unsampled (combined_log c t).0 ts)

-- With a sampling rate of 0 or 1 the statistics report no message at all, whatever was logged.
pub get_stats-unsampled :
    (rate burst sample_rate start : ℕ) (ts : List ℕ)
    → sample_rate ≤ 1
    → (get_stats (logged (init_combined rate burst sample_rate start) ts).1).total_messages ≡ 0
unfolding init_combined get_stats
get_stats-unsampled rate burst sample_rate start ts h =
    ground (arith, logged-unsampled (init_combined rate burst sample_rate start) ts)
