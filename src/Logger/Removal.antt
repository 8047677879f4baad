-- ===== src/Logger/Removal.antt =====
-- Removal of a sink while other threads log: `remove_sink`, `clear_sinks` and `wait_for_sink_drain` of
-- src/logger.cpp, the loop of `Logger::log` and `SinkGuard` of include/Zyrnix/logger.hpp. A visitor is
-- a thread in the loop, which holds the lock on the sinks together with other visitors; what holds it
-- alone is one step without visitors. An override may let a visitor pass any sink, and a removal may
-- end its wait at any time.
pub mod Unused
pub mod Guarded
pub mod Reached
use zyrnix.Prelude.{
  ℕ, zero, suc, ◌+◌, ◌-◌, ◌≤◌, ◌≡◌, Bool, true, false, Option, none, some, List, [], ◌∷◌, ◌++◌,
  if◌then◌else◌, filter, not, ◌&&◌, ltb, ◌==◌, Text, text_eq, length, get_elem?, set,
}
use zyrnix.Logger.{Delivery, Sink, SinkEntry, mark_first, mark_at, cleanup_removed_sinks}
use zyrnix.Logger.Logging.{receive}

-- The first argument counts the milliseconds that are left of five thousand; `observed` is the
-- reference count after a number of waits. The result is the number of waits.
unfoldable pub wait_for_sink_drain : ℕ → (ℕ → ℕ) → ℕ → ℕ
wait_for_sink_drain zero observed waited_ms = waited_ms
wait_for_sink_drain (suc left) observed waited_ms =
    let rest = wait_for_sink_drain left observed (suc waited_ms) in
    if ltb 0 (observed waited_ms) then rest else waited_ms

-- `max_wait_ms`, at one millisecond a wait.
abbrev pub max_wait_ms : ℕ
max_wait_ms = 5000

-- Before the sink of its index, with a guard on it, or with a guard after the sink's `log`.
pub data Stage : Type 0 where
  between guarding logged : Stage

pub record Visitor : Type 0 where
  pub index : ℕ
  pub stage : Stage
  pub message : Delivery

pub record Sinks : Type 0 where
  pub sink_entries : List SinkEntry
  pub visitors : List Visitor

-- The guard's constructor and destructor.
unfoldable pub acquire : SinkEntry → SinkEntry
acquire e = record e { ref_count = suc e.ref_count }

unfoldable pub release : SinkEntry → SinkEntry
release e = record e { ref_count = e.ref_count - 1 }

-- A visitor of a place among the others, at another stage, and its entry changed.
unfoldable pub move : Sinks → List Visitor → Visitor → List Visitor → SinkEntry → Sinks
move s before v after e = record {
  sink_entries = set s.sink_entries v.index e;
  visitors = before ++ v ∷ after;
}

-- The second part of `remove_sink(name)`.
unfoldable pub erase_marked : Text → List SinkEntry → List SinkEntry
erase_marked sink_name = filter (λ e. not (text_eq e.name sink_name && e.marked_for_removal))

pub data Step : Sinks → Sinks → Type 0 where
  enters :
      (s : Sinks) (message : Delivery)
      → Step s (record s {
        visitors = record { index = 0; stage = between; message = message } ∷ s.visitors;
      })
  acquires :
      (s : Sinks) (before : List Visitor) (v : Visitor) (after : List Visitor) (e : SinkEntry)
      → s.visitors ≡ before ++ v ∷ after
      → v.stage ≡ between
      → get_elem? s.sink_entries v.index ≡ some e
      → e.marked_for_removal ≡ false
      → Step s (move s before (record v { stage = guarding }) after (acquire e))
  delivers :
      (s : Sinks) (before : List Visitor) (v : Visitor) (after : List Visitor) (e : SinkEntry)
      → s.visitors ≡ before ++ v ∷ after
      → v.stage ≡ guarding
      → get_elem? s.sink_entries v.index ≡ some e
      → Step s (move s before (record v { stage = logged }) after (receive e v.message))
  releases :
      (s : Sinks) (before : List Visitor) (v : Visitor) (after : List Visitor) (e : SinkEntry)
      → s.visitors ≡ before ++ v ∷ after
      → v.stage ≡ logged
      → get_elem? s.sink_entries v.index ≡ some e
      → Step s (record {
        sink_entries = set s.sink_entries v.index (release e);
        visitors = before ++ record v { index = suc v.index; stage = between } ∷ after;
      })
  passes :
      (s : Sinks) (before : List Visitor) (v : Visitor) (after : List Visitor)
      → s.visitors ≡ before ++ v ∷ after
      → v.stage ≡ between
      → Step s (record s { visitors = before ++ record v { index = suc v.index } ∷ after })
  leaves :
      (s : Sinks) (before : List Visitor) (v : Visitor) (after : List Visitor)
      → s.visitors ≡ before ++ v ∷ after
      → v.stage ≡ between
      → length s.sink_entries ≤ v.index
      → Step s (record s { visitors = before ++ after })
  adds :
      (s : Sinks) (sink : Option Sink) (name : Text)
      → s.visitors ≡ []
      → Step s (record s {
        sink_entries =
            s.sink_entries
            ++ record { sink = sink; name = name; marked_for_removal = false; ref_count = 0 } ∷ [];
      })
  marks :
      (s : Sinks) (name : Text)
      → s.visitors ≡ []
      → Step s (record s { sink_entries = mark_first name s.sink_entries })
  marks_at :
      (s : Sinks) (index : ℕ)
      → s.visitors ≡ []
      → Step s (record s { sink_entries = mark_at index s.sink_entries })
  erases :
      (s : Sinks) (name : Text)
      → s.visitors ≡ []
      → Step s (record s { sink_entries = erase_marked name s.sink_entries })
  cleans :
      (s : Sinks)
      → s.visitors ≡ []
      → Step s (record s { sink_entries = cleanup_removed_sinks s.sink_entries })
  clears : (s : Sinks) → s.visitors ≡ [] → Step s (record s { sink_entries = [] })

pub data Reach (s : Sinks) : Sinks → Type 0 where
  here : Reach s s
  next : {t u : Sinks} → Reach s t → Step t u → Reach s u
