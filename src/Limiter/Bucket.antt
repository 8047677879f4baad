-- ===== src/Limiter/Bucket.antt =====
-- The token bucket: its bounds, and how much it lets through.
use zyrnix.Prelude.{
  ℕ, ◌+◌, ◌-◌, ◌*◌, ◌≤◌, ◌<◌, ◌≡◌, ◌↔◌, ap, All, Bool, true, false, List, [], ◌∷◌, arith,
  if◌then◌else◌, word_mod,
}
use zyrnix.Limiter.{
  RateLimiter, init_rate, rate_enabled, elapsed_ms, refill_tokens, take_token, try_log, reset_rate,
}

-- The calls of `try_log` at the given times, with the answers counted.
unfoldable pub admitted : RateLimiter → List ℕ → ℕ × RateLimiter
admitted r [] = (0, r)
admitted r (t ∷ ts) =
    let (r', passed) = try_log r t in
    let (n, last) = admitted r' ts in (if passed then n + 1 else n, last)

-- The bucket never holds more than its capacity.
abbrev pub IsBounded : RateLimiter → Type 0
IsBounded r = r.tokens ≤ r.max_tokens * 1000

refill_tokens-IsBounded : (r : RateLimiter) (t : ℕ) → IsBounded r → IsBounded (refill_tokens r t)
unfolding refill_tokens
refill_tokens-IsBounded r t h = ground arith

take_token-IsBounded : (r : RateLimiter) → IsBounded r → IsBounded (take_token r).0
unfolding take_token
take_token-IsBounded r h = ground arith

-- The constructor, `try_log` and `reset` keep the bucket within its capacity, whatever the clock
-- says.
pub try_log-IsBounded :
    (r : RateLimiter) (rate burst t : ℕ)
    → IsBounded r
    → IsBounded (init_rate rate burst t) × IsBounded (try_log r t).0 × IsBounded (reset_rate r t)
unfolding try_log init_rate reset_rate
try_log-IsBounded r rate burst t h = (
  ground arith,
  ground (arith, take_token-IsBounded (refill_tokens r t) (refill_tokens-IsBounded r t h)),
  ground arith,
)

-- What one call may spend: the tokens at hand and those that the passed time earns.
record Spends (r : RateLimiter) (passed : Bool) (q : RateLimiter) : Type 0 where
  rate : q.refill_rate ≡ r.refill_rate
  capacity : q.max_tokens ≡ r.max_tokens
  later : r.last_refill ≤ q.last_refill
  paid :
      q.tokens + (if passed then 1000 else 0)
      ≤ r.tokens + r.refill_rate * elapsed_ms q.last_refill r.last_refill

refill_tokens-Spends : (r : RateLimiter) (t : ℕ) → Spends r false (refill_tokens r t)
unfolding refill_tokens elapsed_ms
refill_tokens-Spends r t = ground arith

take_token-Spends :
    (r q : RateLimiter) → Spends r false q → Spends r (take_token q).1 (take_token q).0
unfolding take_token
take_token-Spends r q s = ground arith

try_log-Spends :
    (r : RateLimiter) (t : ℕ) → rate_enabled r ≡ true → Spends r (try_log r t).1 (try_log r t).0
unfolding try_log
try_log-Spends r t h = rw h (take_token-Spends r (refill_tokens r t) (refill_tokens-Spends r t))

-- Whole milliseconds of two stretches of time do not exceed those of both together.
elapsed_ms-split : (a b c : ℕ) → a ≤ b → b ≤ c → elapsed_ms b a + elapsed_ms c b ≤ elapsed_ms c a
unfolding elapsed_ms
elapsed_ms-split a b c h k = omega arith

mul-split : (k x y z : ℕ) → x + y ≤ z → k * x + k * y ≤ k * z
mul-split k x y z h =
    let e : z ≡ x + y + (z - (x + y)) = omega arith in omega (arith, ap (λ (t : ℕ). k * t) e)

record Outcome (r : RateLimiter) (n : ℕ) (q : RateLimiter) : Type 0 where
  later : r.last_refill ≤ q.last_refill
  paid : q.tokens + 1000 * n ≤ r.tokens + r.refill_rate * elapsed_ms q.last_refill r.last_refill

Outcome-step :
    (r q z : RateLimiter) (passed : Bool) (n : ℕ)
    → Spends r passed q
    → Outcome q n z
    → Outcome r (if passed then n + 1 else n) z
Outcome-step r q z passed n s o = ground (
  arith,
  mul-split r.refill_rate (elapsed_ms q.last_refill r.last_refill)
      (elapsed_ms z.last_refill q.last_refill) (elapsed_ms z.last_refill r.last_refill)
      (elapsed_ms-split r.last_refill q.last_refill z.last_refill s.later o.later),
)

still_enabled :
    (r q : RateLimiter) (passed : Bool)
    → Spends r passed q
    → rate_enabled r ≡ true
    → rate_enabled q ≡ true
unfolding rate_enabled
still_enabled r q passed s h = ground arith

admitted-Outcome :
    (r : RateLimiter) (ts : List ℕ)
    → rate_enabled r ≡ true
    → Outcome r (admitted r ts).0 (admitted r ts).1
unfolding admitted
admitted-Outcome r [] h = ground arith
admitted-Outcome r (t ∷ ts) h =
    let s = try_log-Spends r t h in
    Outcome-step r (try_log r t).0 (admitted (try_log r t).0 ts).1 (try_log r t).1
      (admitted (try_log r t).0 ts).0 s
      (admitted-Outcome (try_log r t).0 ts (still_enabled r (try_log r t).0 (try_log r t).1 s h))

try_log-last_refill :
    (r : RateLimiter) (t end : ℕ)
    → r.last_refill ≤ end
    → t ≤ end
    → (try_log r t).0.last_refill ≤ end
unfolding try_log refill_tokens take_token
try_log-last_refill r t end h k = ground arith

admitted-last_refill :
    (r : RateLimiter) (ts : List ℕ) (end : ℕ)
    → r.last_refill ≤ end
    → All (λ t. t ≤ end) ts
    → (admitted r ts).1.last_refill ≤ end
unfolding admitted
admitted-last_refill r [] end h k = h
admitted-last_refill r (t ∷ ts) end h k =
    admitted-last_refill (try_log r t).0 ts end (try_log-last_refill r t end h k.0) k.1

-- An enabled bucket within its capacity lets through, in any sequence of calls up to the time
-- `end`, at most its burst capacity and what the rate earns in the milliseconds since the last
-- refill.
pub admitted-le :
    (r : RateLimiter) (ts : List ℕ) (end : ℕ)
    → rate_enabled r ≡ true
    → IsBounded r
    → r.last_refill ≤ end
    → All (λ t. t ≤ end) ts
    → 1000 * (admitted r ts).0 ≤ r.max_tokens * 1000 + r.refill_rate * elapsed_ms end r.last_refill
admitted-le r ts end h b k late =
    let o = admitted-Outcome r ts h in
    let last : ℕ = (admitted r ts).1.last_refill in
    omega (
      arith,
      b,
      o.paid,
      mul-split r.refill_rate (elapsed_ms last r.last_refill) (elapsed_ms end last)
          (elapsed_ms end r.last_refill)
          (elapsed_ms-split r.last_refill last end o.later (admitted-last_refill r ts end k late)),
    )

-- A call passes as soon as the bucket's tokens and those earned since the last refill make one
-- token; the product of rate and time must not wrap.
pub try_log-passes :
    (r : RateLimiter) (t : ℕ)
    → r.refill_rate * elapsed_ms t r.last_refill < word_mod
    → 1000 ≤ r.tokens + r.refill_rate * elapsed_ms t r.last_refill
    → (try_log r t).1 ≡ true
unfolding try_log refill_tokens take_token rate_enabled elapsed_ms
try_log-passes r t small enough = ground arith

-- An enabled bucket refuses a call exactly when less than one token is there after the refill.
pub try_log-refuses :
    (r : RateLimiter) (t : ℕ)
    → rate_enabled r ≡ true
    → ((try_log r t).1 ≡ false) ↔ ((refill_tokens r t).tokens < 1000)
unfolding try_log take_token
try_log-refuses r t h = rw h (ground arith)
