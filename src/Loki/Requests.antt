-- ===== src/Loki/Requests.antt =====
-- The requests that one batch makes, by what libcurl answers.
use zyrnix.Prelude.{
  ℕ, zero, suc, ◌+◌, ◌<◌, ◌≤◌, ◌≡◌, refl, Bool, true, false, arith, Text, Bool-cases, ltb, ◌⊎◌, inl,
  inr,
}
use zyrnix.Loki.{Attempt, no_handle, failed, ok, LokiSink, attempts, count_error}

-- Requests from the number `start` to `n`, of which the last one has `CURLE_OK`.
pub record IsAccepted (answer : ℕ → Attempt) (start n : ℕ) : Type 0 where
  pub some_requests : start ≤ n
  pub last : answer n ≡ ok
  pub before : (k : ℕ) → start ≤ k → k < n → answer k ≡ failed

-- Requests from the number `start` to below `end`, which all fail: as many as there may be, or up to
-- where libcurl has no handle.
pub record IsRefused (answer : ℕ → Attempt) (most start end : ℕ) : Type 0 where
  pub every : (k : ℕ) → start ≤ k → k < end → answer k ≡ failed
  pub stopped : (end ≡ start + most) ⊎ (answer end ≡ no_handle)

refused_from :
    (answer : ℕ → Attempt) (start end : ℕ)
    → answer start ≡ failed
    → ((k : ℕ) → suc start ≤ k → k < end → answer k ≡ failed)
    → (k : ℕ) → start ≤ k
    → k < end
    → answer k ≡ failed
refused_from answer start end h rest k l m = elim (Bool-cases (ltb start k)) [
  | inl e ↦ rest k (ground (arith, e)) m
  | inr e ↦ let same : k ≡ start = ground (arith, e, l) in rw same h
]

-- What the attempts say of the requests.
unfoldable pub IsOutcome : (ℕ → Attempt) → ℕ → ℕ → ℕ → Bool → Type 0
IsOutcome answer most start end true = (n : ℕ) × (end ≡ suc n) × IsAccepted answer start n
IsOutcome answer most start end false = IsRefused answer most start end

outcome_from :
    (answer : ℕ → Attempt) (most start end : ℕ) (b : Bool)
    → answer start ≡ failed
    → IsOutcome answer most (suc start) end b
    → IsOutcome answer (suc most) start end b
unfolding IsOutcome
outcome_from answer most start end true h (n, e, a) = (
  n,
  e,
  record {
    some_requests = omega (arith, a.some_requests);
    last = a.last;
    before = refused_from answer start n h a.before;
  },
)
outcome_from answer most start end false h r = record {
  every = refused_from answer start end h r.every;
  stopped = elim r.stopped [ inl e ↦ inl (omega (arith, e)) | inr e ↦ inr e ];
}

-- What the attempts leave alone, and how many there are.
pub record IsTried (answer : ℕ → Attempt) (left : ℕ) (s t : LokiSink) (b : Bool) : Type 0 where
  pub outcome : IsOutcome answer left s.calls t.calls b
  pub buffer_same : t.buffer ≡ s.buffer
  pub passed_same : t.passed ≡ s.passed
  pub dropped_same : t.dropped ≡ s.dropped
  pub size_same : t.batch_size ≡ s.batch_size
  pub at_least : s.calls ≤ t.calls
  pub at_most : t.calls ≤ s.calls + left

module _ (perform : ℕ → Text → Attempt) (at_pointer : ℕ → Text → Text) where
  -- The answer to the request of a number, for the body that was made.
  abbrev pub answer : Text → ℕ → Attempt
  answer body n = perform n (at_pointer n body)

  pub attempts-IsTried :
      (left : ℕ) (body : Text) (s : LokiSink)
      → IsTried
          (answer body)
          left
          s
          (attempts perform at_pointer left body s).0
          (attempts perform at_pointer left body s).1
  unfolding attempts IsOutcome
  attempts-IsTried zero body s = record {
    outcome = record { every = λ k l m. absurd (omega arith); stopped = inl (omega arith) };
    buffer_same = refl;
    passed_same = refl;
    dropped_same = refl;
    size_same = refl;
    at_least = omega arith;
    at_most = omega arith;
  }
  attempts-IsTried (suc left) body s = at (answer body s.calls) refl (
      attempts-IsTried left body
        (record s { calls = suc s.calls; metrics = count_error s.metrics }))
    where
      again : LokiSink
      again = record s { calls = suc s.calls; metrics = count_error s.metrics }

      at :
          (a : Attempt)
          → answer body s.calls ≡ a
          → IsTried
              (answer body)
              left
              again
              (attempts perform at_pointer left body again).0
              (attempts perform at_pointer left body again).1
          → IsTried
              (answer body)
              (suc left)
              s
              (attempts perform at_pointer (suc left) body s).0
              (attempts perform at_pointer (suc left) body s).1
      at no_handle e h =
          rw (attempts, e)
            record {
              outcome = record { every = λ k l m. absurd (omega arith); stopped = inr e };
              buffer_same = refl;
              passed_same = refl;
              dropped_same = refl;
              size_same = refl;
              at_least = omega arith;
              at_most = omega arith;
            }
      at ok e h =
          rw (attempts, e)
            record {
              outcome = (
                s.calls,
                refl,
                record {
                  some_requests = omega arith;
                  last = e;
                  before = λ k l m. absurd (omega arith);
                },
              );
              buffer_same = refl;
              passed_same = refl;
              dropped_same = refl;
              size_same = refl;
              at_least = omega arith;
              at_most = omega arith;
            }
      at failed e h =
          rw (attempts, e)
            record {
              outcome = outcome_from (answer body) left s.calls _ _ e h.outcome;
              buffer_same = h.buffer_same;
              passed_same = h.passed_same;
              dropped_same = h.dropped_same;
              size_same = h.size_same;
              at_least = omega (arith, h.at_least);
              at_most = omega (arith, h.at_most);
            }
