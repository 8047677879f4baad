-- ===== src/Logger/Tests.antt =====
-- A logger at concrete inputs. The regular expressions of these tests are the texts that they spell,
-- and a match of one is the whole text.
use zyrnix.Prelude.{
  Bool, true, false, some, [], ◌∷◌, ◌≡◌, refl, if◌then◌else◌, Text, codes, text_eq, arith,
}
use zyrnix.Level.{trace, info, warn, error, below, severity}
use zyrnix.Levels.{check_temporary_level_expiry}
use zyrnix.Filter.{nil, cons, level_filter, ask_all}
use zyrnix.Filter.{should_log as filter_should_log}
use zyrnix.Logger.{Logger, SinkEntry, init, set_sink_level, remove_sink_at}
use zyrnix.Logger.Logging.{log, should_log, blank, func_refuses}
use zyrnix.Logger.Visit.{outcome, map_from}
use zyrnix.Logger.Outcome.{checked, accepts, masked, log_lem}
use zyrnix.Logger.{Delivery, mark_first}
use zyrnix.Logger.Logging.{receive}
use zyrnix.Logger.Removal.{
  wait_for_sink_drain, max_wait_ms, acquire, release, move, Visitor, Sinks, between, guarding,
  logged, enters, acquires, delivers, releases, leaves, marks, Reach, here, next,
}
use zyrnix.Logger.Removal.Guarded.{holders}
use zyrnix.Logger.Removal.Reached.{Reach-drained}
use zyrnix.Logger.Sinks.{remove_sink_at-shifts}

abbrev valid : Bool → Text → Bool
valid icase pattern = true

abbrev search : Bool → Text → Text → Bool
search icase pattern text = text_eq pattern text

abbrev substitute : Text → Text → Text
substitute pattern text = if text_eq pattern text then codes "***" else text

abbrev entry : Bool → Text → SinkEntry
entry cloud name = record {
  sink = some (record { is_cloud_sink = cloud; received = [] });
  name = name;
  marked_for_removal = false;
  ref_count = 0;
}

-- A local sink and a cloud sink, the second from errors on; cloud sinks are masked.
abbrev app : Logger
app = record (init (codes "app")) {
  redact_patterns = codes "pin" ∷ [];
  redact_cloud_only = true;
  sink_entries = entry false (codes "a") ∷ entry true (codes "b") ∷ entry false (codes "a") ∷ [];
  filters = cons (level_filter info) nil;
  sink_level_overrides = (1, error) ∷ [];
}

abbrev app_at_a : Logger
app_at_a = set_sink_level app (codes "a") error

log_lem_example :
    (m : Logger) × (log valid search substitute [] app 0 warn (codes "pin 7") ≡ some m)
    × (m.sink_entries ≡ (
        if accepts search [] (checked app 0) warn
        then map_from
            (outcome app warn (codes "pin 7") (masked valid substitute app (codes "pin 7")))
            0
            app.sink_entries
        else app.sink_entries))
log_lem_example = log_lem valid search substitute [] app 0 warn (codes "pin 7") (ground arith, tt)

remove_sink_at-shifts_example :
    ((remove_sink_at app 0).1 ≡ true)
    × ((remove_sink_at app 0).0.sink_entries
        ≡ entry true (codes "b") ∷ entry false (codes "a") ∷ [])
    × ((remove_sink_at app 0).0.sink_level_overrides ≡ (1, error) ∷ [])
remove_sink_at-shifts_example =
    remove_sink_at-shifts app [] (entry true (codes "b") ∷ entry false (codes "a") ∷ [])
      (entry false (codes "a")) refl refl

-- Nothing passes the level of the filter.
quiet : log valid search substitute [] app 0 trace (codes "x") ≡ some app
unfolding log should_log blank func_refuses ask_all filter_should_log below severity
    check_temporary_level_expiry init zyrnix.Levels.init
quiet = refl

abbrev greeting : Delivery
greeting = record { name = codes "app"; level = info; message = codes "hello" }

abbrev alone : Sinks
alone = record { sink_entries = entry false (codes "a") ∷ []; visitors = [] }

abbrev visitor : Visitor
visitor = record { index = 0; stage = between; message = greeting }

abbrev held : SinkEntry
held = record (entry false (codes "a")) { ref_count = 1 }

abbrev filled : SinkEntry
filled = record held { sink = some (record { is_cloud_sink = false; received = greeting ∷ [] }) }

abbrev freed : SinkEntry
freed = record filled { ref_count = 0 }

abbrev marked : SinkEntry
marked = record freed { marked_for_removal = true }

abbrev sinks : SinkEntry → Visitor → Sinks
sinks e v = record { sink_entries = e ∷ []; visitors = v ∷ [] }

-- A thread logs to the only sink, which is then removed.
removed : Reach alone (record { sink_entries = marked ∷ []; visitors = [] })
unfolding move acquire receive release mark_first
removed =
    next
      (next
        (next
          (next
            (next (next here (enters alone greeting)) (
              acquires (sinks (entry false (codes "a")) visitor) [] visitor []
                (entry false (codes "a")) refl refl refl refl))
            (delivers (sinks held (record visitor { stage = guarding })) []
              (record visitor { stage = guarding }) [] held refl refl refl))
          (releases (sinks filled (record visitor { stage = logged })) []
            (record visitor { stage = logged }) [] filled refl refl refl))
        (leaves (sinks freed (record visitor { index = 1 })) [] (record visitor { index = 1 }) []
          refl refl (omega arith)))
      (marks (record { sink_entries = freed ∷ []; visitors = [] }) (codes "a") refl)

Reach-drained_example :
    (marked.ref_count ≡ 0) × (holders 0 [] ≡ 0) × (wait_for_sink_drain max_wait_ms (λ n. 0) 0 ≡ 0)
Reach-drained_example =
    Reach-drained (entry false (codes "a") ∷ []) 0 marked (λ n. 0) (refl, tt) removed refl refl refl
