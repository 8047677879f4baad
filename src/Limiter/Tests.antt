-- ===== src/Limiter/Tests.antt =====
-- The limiters at concrete inputs.
use zyrnix.Prelude.{
  ℕ, ◌+◌, ◌-◌, ◌*◌, ◌%◌, ◌≤◌, ◌≡◌, refl, arith, ◌==◌, if◌then◌else◌, List, [], ◌∷◌,
}
use zyrnix.Limiter.{
  RateLimiter, init_rate, rate_enabled, refill_tokens, take_token, elapsed_ms, try_log,
  init_sampling, sample, sampling_drops, init_combined, combined_log,
}
use zyrnix.Limiter.Bucket.{admitted, admitted-le}
use zyrnix.Limiter.Sampling.{sampled, sampling_drops-sampled}
use zyrnix.Limiter.Combined.{logged}

-- 1000 messages a second, a burst of 2; two tokens spent at time 0.
abbrev drained : RateLimiter
drained = record {
  max_tokens = 2;
  refill_rate = 1000;
  tokens = 0;
  last_refill = 0;
  dropped_count = 0;
}

abbrev calls : List ℕ
calls = 0 ∷ 0 ∷ 0 ∷ 1000000 ∷ 1500000 ∷ []

burst_then_refill : (admitted (init_rate 1000 2 0) calls).0 ≡ 3
unfolding admitted init_rate try_log refill_tokens take_token
burst_then_refill = refl

admitted-le_example : 1000 * (admitted drained calls).0 ≤ 2 * 1000 + 1000 * elapsed_ms 1500000 0
unfolding rate_enabled
admitted-le_example =
    admitted-le drained calls 1500000 refl (omega arith) (omega arith) (omega arith)

two_of_five : (sampled (init_sampling 3) 5).0 ≡ 2
unfolding sampled init_sampling sample
two_of_five = refl

-- Three of the five are dropped, and four reported.
sampling_drops-sampled_example :
    let (passed, s) = sampled (init_sampling 3) 5 in
    sampling_drops s ≡ 5 - passed + (if 5 % 3 == 0 then 0 else 1)
sampling_drops-sampled_example = sampling_drops-sampled 3 5 (omega arith) (omega arith)

-- Three messages were logged in that run.
logged_unsampled_calls : (logged (init_combined 1000 2 1 0) calls).0 ≡ 3
unfolding logged init_combined combined_log sample try_log refill_tokens take_token
logged_unsampled_calls = refl
