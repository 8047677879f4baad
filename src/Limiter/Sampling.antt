-- ===== src/Limiter/Sampling.antt =====
-- The sampler: which messages it lets through, and what it reports as dropped.
use zyrnix.Prelude.{
  ℕ, zero, suc, ◌+◌, ◌-◌, ◌/◌, ◌%◌, ◌≤◌, ◌<◌, ◌≡◌, false, arith, ◌==◌, if◌then◌else◌, word_mod,
  div_unique,
}
use native.Mathlib.Nat.{div-add-mod, mod-lt, mul-le-mul_right}
use native.Mathlib.Decide.{ℕ_discrete}
use zyrnix.Limiter.{SamplingLimiter, init_sampling, sampling_enabled, sample, sampling_drops}

-- The number of messages that pass among the next `n`, and the sampler after them.
unfoldable pub sampled : SamplingLimiter → ℕ → ℕ × SamplingLimiter
sampled s zero = (0, s)
sampled s (suc n) =
    let (s', passed) = sample s in
    let (k, last) = sampled s' n in (if passed then k + 1 else k, last)

-- How many multiples of `r` lie below `n`.
unfoldable pub multiples_below : ℕ → ℕ → ℕ
multiples_below r n = (n + r - 1) / r

pub multiples_below-suc :
    (r n : ℕ)
    → 0 < r
    → multiples_below r (suc n)
      ≡ (if n % r == 0 then multiples_below r n + 1 else multiples_below r n)
unfolding multiples_below
multiples_below-suc r n h = elim (ℕ_discrete (n % r) 0) [
  | yes e ↦ ground (
    arith,
    div_unique (n + r) r (n / r + 1) h (omega (arith, div-add-mod n r))
        (omega (arith, div-add-mod n r, mod-lt n h)),
    div_unique (n + r - 1) r (n / r) h (omega (arith, div-add-mod n r))
        (omega (arith, div-add-mod n r)),
  )
  | no e ↦ ground (
    arith,
    div_unique (n + r) r (n / r + 1) h (omega (arith, div-add-mod n r))
        (omega (arith, div-add-mod n r, mod-lt n h)),
    div_unique (n + r - 1) r (n / r + 1) h (omega (arith, div-add-mod n r))
        (omega (arith, div-add-mod n r, mod-lt n h)),
  )
]

sampled-counts :
    (s : SamplingLimiter) (n : ℕ)
    → 1 < s.sample_rate
    → s.counter + n < word_mod
    → ((sampled s n).0 + multiples_below s.sample_rate s.counter
        ≡ multiples_below s.sample_rate (s.counter + n))
      × ((sampled s n).1 ≡ record s { counter = s.counter + n })
unfolding sampled sample sampling_enabled
sampled-counts s zero h k = ground arith
sampled-counts s (suc n) h k = ground (
  arith,
  multiples_below-suc s.sample_rate s.counter,
  sampled-counts (record s { counter = s.counter + 1 }) n,
)

pub multiples_below-zero : (r : ℕ) → 0 < r → multiples_below r 0 ≡ 0
unfolding multiples_below
multiples_below-zero r h = div_unique (0 + r - 1) r 0 h (omega arith) (omega arith)

-- Of `n` messages a fresh sampler with a rate above 1 lets through those numbered 0, rate,
-- 2 * rate and so on: as many as there are multiples of the rate below `n`.
pub sampled_lem :
    (rate n : ℕ)
    → 1 < rate
    → n < word_mod
    → (sampled (init_sampling rate) n).0 ≡ multiples_below rate n
unfolding init_sampling
sampled_lem rate n h k = ground (
  arith,
  sampled-counts (record { sample_rate = rate; counter = 0 }) n,
  multiples_below-zero rate,
)

-- Rounding up or down makes a difference of one, unless the division is exact.
pub multiples_below-div :
    (r n : ℕ) → 0 < r → multiples_below r n ≡ (if n % r == 0 then n / r else n / r + 1)
unfolding multiples_below
multiples_below-div r n h = elim (ℕ_discrete (n % r) 0) [
  | yes e ↦ ground (
    arith,
    div_unique (n + r - 1) r (n / r) h (omega (arith, div-add-mod n r))
        (omega (arith, div-add-mod n r)),
  )
  | no e ↦ ground (
    arith,
    div_unique (n + r - 1) r (n / r + 1) h (omega (arith, div-add-mod n r))
        (omega (arith, div-add-mod n r, mod-lt n h)),
  )
]

div-le : (n r : ℕ) → 0 < r → n / r ≤ n
div-le n r h = grind (arith, div-add-mod n r)

pub sampling_drops-eq :
    (r n : ℕ)
    → 1 < r
    → n < word_mod
    → sampling_drops (record { sample_rate = r; counter = n }) ≡ n - n / r
unfolding sampling_drops sampling_enabled
sampling_drops-eq r n h k = ground (arith, div-le n r (omega arith))

pub div-lt_of_inexact : (n r : ℕ) → 1 < r → (n % r == 0) ≡ false → n / r + 1 ≤ n
div-lt_of_inexact n r h e =
    ground (arith, mul-le-mul_right {m = 2} {n = r} (n / r) h, div-add-mod n r)

-- After `n` messages `dropped_count` reports the messages that were not let through, and one more
-- unless the rate divides `n`: it takes the messages let through to be `n / rate`, rounded down.
pub sampling_drops-sampled :
    (rate n : ℕ)
    → 1 < rate
    → n < word_mod
    → let (passed, s) = sampled (init_sampling rate) n in
      sampling_drops s ≡ n - passed + (if n % rate == 0 then 0 else 1)
unfolding init_sampling
sampling_drops-sampled rate n h k = ground (
  arith,
  sampled-counts (record { sample_rate = rate; counter = 0 }) n,
  multiples_below-zero rate,
  multiples_below-div rate n,
  sampling_drops-eq rate n,
  div-lt_of_inexact n rate,
)
