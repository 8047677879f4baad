-- ===== src/Loki/Tests.antt =====
-- The Loki sink at concrete inputs.
use zyrnix.Prelude.{ℕ, [], ◌∷◌, Text, codes}
use zyrnix.Loki.{Attempt, failed, LokiSink, init}

-- A sink with one message, one short of a batch.
abbrev sink : LokiSink
sink = record (init (codes "app") 2 0 0) { buffer = codes "{}" ∷ [] }

-- Nothing stands behind the pointer any more.
abbrev dangling : ℕ → Text → Text
dangling n body = []

-- No request is taken.
abbrev unreachable : ℕ → Text → Attempt
unreachable n body = failed
