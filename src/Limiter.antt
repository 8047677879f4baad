-- ===== src/Limiter.antt =====
-- src/rate_limiter.cpp and include/Zyrnix/rate_limiter.hpp: the token bucket, the sampler and the
-- two in a row. A call's reading of the clock is an argument. The `double` of the bucket is a
-- number of thousandths of a token, so that `rate * elapsed / 1000.0` is a whole number of them;
-- rounding of `double` values is not modelled.
pub mod Bucket
pub mod Sampling
pub mod Combined
mod Tests
use zyrnix.Prelude.{
  ℕ, ◌+◌, ◌-◌, ◌*◌, ◌/◌, ◌%◌, ◌^◌, min, Bool, true, false, not, ltb, leb, ◌==◌, if◌then◌else◌,
  word_mod, add_word, sub_word,
}

-- Times are nanoseconds of the steady clock.
pub record RateLimiter : Type 0 where
  pub max_tokens : ℕ
  pub refill_rate : ℕ
  pub tokens : ℕ
  pub last_refill : ℕ
  pub dropped_count : ℕ

unfoldable pub init_rate : ℕ → ℕ → ℕ → RateLimiter
init_rate messages_per_second burst_capacity now =
    let capacity = if ltb 0 burst_capacity then burst_capacity else messages_per_second in
    record {
      max_tokens = capacity;
      refill_rate = messages_per_second;
      tokens = capacity * 1000;
      last_refill = now;
      dropped_count = 0;
    }

unfoldable pub rate_enabled : RateLimiter → Bool
rate_enabled r = ltb 0 r.max_tokens

-- `duration_cast<milliseconds>(now - last)`. A clock that stands before `last` yields no positive
-- number of milliseconds, like the truncated difference.
unfoldable pub elapsed_ms : ℕ → ℕ → ℕ
elapsed_ms now last = (now - last) / 10 ^ 6

-- The product of two 64-bit numbers wraps before it becomes a `double`.
unfoldable pub refill_tokens : RateLimiter → ℕ → RateLimiter
unfolding elapsed_ms
refill_tokens r now =
    if ltb 0 (elapsed_ms now r.last_refill)
    then record r {
      tokens =
          min (r.tokens + r.refill_rate * elapsed_ms now r.last_refill % word_mod)
            (r.max_tokens * 1000);
      last_refill = now;
    }
    else r

-- The part of `try_log` after the refill.
unfoldable pub take_token : RateLimiter → RateLimiter × Bool
take_token r =
    if leb 1000 r.tokens
    then (record r { tokens = r.tokens - 1000 }, true)
    else (record r { dropped_count = add_word r.dropped_count 1 }, false)

unfoldable pub try_log : RateLimiter → ℕ → RateLimiter × Bool
unfolding rate_enabled
try_log r now = if not (rate_enabled r) then (r, true) else take_token (refill_tokens r now)

unfoldable pub reset_rate : RateLimiter → ℕ → RateLimiter
reset_rate r now = record r { tokens = r.max_tokens * 1000; last_refill = now; dropped_count = 0 }

unfoldable pub available_tokens : RateLimiter → ℕ
available_tokens r = r.tokens / 1000

pub record SamplingLimiter : Type 0 where
  pub sample_rate : ℕ
  pub counter : ℕ

unfoldable pub init_sampling : ℕ → SamplingLimiter
init_sampling sample_rate = record {
  sample_rate = if ltb 0 sample_rate then sample_rate else 1;
  counter = 0;
}

unfoldable pub sampling_enabled : SamplingLimiter → Bool
sampling_enabled s = ltb 1 s.sample_rate

-- `SamplingLimiter::should_log`.
unfoldable pub sample : SamplingLimiter → SamplingLimiter × Bool
unfolding sampling_enabled
sample s =
    if not (sampling_enabled s)
    then (s, true)
    else (record s { counter = add_word s.counter 1 }, s.counter % s.sample_rate == 0)

unfoldable pub reset_sampling : SamplingLimiter → SamplingLimiter
reset_sampling s = record s { counter = 0 }

-- `SamplingLimiter::dropped_count`.
unfoldable pub sampling_drops : SamplingLimiter → ℕ
unfolding sampling_enabled
sampling_drops s =
    if not (sampling_enabled s)
    then 0
    else if s.counter == 0
    then 0
    else sub_word s.counter (s.counter / s.sample_rate)

pub record CombinedLimiter : Type 0 where
  pub rate_limiter : RateLimiter
  pub sampling_limiter : SamplingLimiter
  pub logged_count : ℕ

unfoldable pub init_combined : ℕ → ℕ → ℕ → ℕ → CombinedLimiter
unfolding init_rate init_sampling
init_combined messages_per_second burst_capacity sample_rate now = record {
  rate_limiter = init_rate messages_per_second burst_capacity now;
  sampling_limiter = init_sampling sample_rate;
  logged_count = 0;
}

-- The second stage of `CombinedLimiter::should_log`, for a message that the sampler let through.
unfoldable pub rate_stage : CombinedLimiter → RateLimiter × Bool → CombinedLimiter × Bool
rate_stage c (r, true) =
    (record c { rate_limiter = r; logged_count = add_word c.logged_count 1 }, true)
rate_stage c (r, false) = (record c { rate_limiter = r }, false)

-- `CombinedLimiter::should_log`.
unfoldable pub combined_log : CombinedLimiter → ℕ → CombinedLimiter × Bool
unfolding rate_stage
combined_log c now =
    let (s, sampled) = sample c.sampling_limiter in
    let next = record c { sampling_limiter = s } in
    if not sampled then (next, false) else rate_stage next (try_log c.rate_limiter now)

pub record Stats : Type 0 where
  pub total_messages : ℕ
  pub rate_limited_drops : ℕ
  pub sampling_drops : ℕ
  pub logged_messages : ℕ

unfoldable pub get_stats : CombinedLimiter → Stats
get_stats c = record {
  total_messages = c.sampling_limiter.counter;
  rate_limited_drops = c.rate_limiter.dropped_count;
  sampling_drops = sampling_drops c.sampling_limiter;
  logged_messages = c.logged_count;
}

unfoldable pub reset_combined : CombinedLimiter → ℕ → CombinedLimiter
unfolding reset_rate reset_sampling
reset_combined c now = record {
  rate_limiter = reset_rate c.rate_limiter now;
  sampling_limiter = reset_sampling c.sampling_limiter;
  logged_count = 0;
}
