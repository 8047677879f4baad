-- ===== src/Loki/Batches.antt =====
-- What becomes of a batch.
use zyrnix.Prelude.{ℕ, suc, ◌+◌, ◌≤◌, ◌≡◌, List, [], ◌++◌, Text, ◌⊎◌}
use zyrnix.Loki.Requests.{IsAccepted, IsRefused, answer}
use zyrnix.Loki.{Attempt, LokiSink}

-- The messages of a buffer leave it together, in order: after the first request with `CURLE_OK` of at
-- most three, or without one.
pub record IsSettled (answer : ℕ → Attempt) (s t : LokiSink) (batch : List Text) : Type 0 where
  pub emptied : t.buffer ≡ []
  pub settled :
      ((n : ℕ) × (t.calls ≡ suc n)
        × IsAccepted answer s.calls n
        × (t.passed ≡ s.passed ++ batch)
        × (t.dropped ≡ s.dropped))
      ⊎ (IsRefused answer 3 s.calls t.calls
          × (t.passed ≡ s.passed)
          × (t.dropped ≡ s.dropped ++ batch))
  pub least : s.calls ≤ t.calls
  pub most : t.calls ≤ s.calls + 3
  pub options : t.batch_size ≡ s.batch_size
