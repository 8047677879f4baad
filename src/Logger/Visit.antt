-- ===== src/Logger/Visit.antt =====
-- What the loop of `Logger::log` does at each sink.
use zyrnix.Prelude.{
  ℕ, suc, Bool, true, false, not, ◌&&◌, ◌||◌, List, [], ◌∷◌, ◌≡◌, refl, sym, ap, if◌then◌else◌,
  Text, text_eq, text_eq_iff,
}
use zyrnix.Level.{LogLevel}
use zyrnix.Logger.{Logger, SinkEntry, Delivery}
use zyrnix.Logger.Logging.{receive, is_cloud, overridden, visit, deliver}

-- A sink that is not to be removed and whose override, if it has one, lets the level through.
abbrev pub wants : Logger → LogLevel → ℕ → SinkEntry → Bool
wants l level i e = not e.marked_for_removal && not (overridden l level i)

-- The delivery to a sink: the masked message, or where only cloud sinks are masked and the sink is
-- none, the message.
abbrev pub delivery : Logger → LogLevel → Text → Text → SinkEntry → Delivery
delivery l level message hidden e = record {
  name = l.name;
  level = level;
  message = if l.redact_cloud_only && not (is_cloud e) then message else hidden;
}

-- The message that the loop chooses is the delivered one.
choice :
    (same cloud_only cloud : Bool) (message hidden : Text)
    → (same ≡ true → hidden ≡ message)
    → (if not same && (not cloud_only || cloud) then hidden else message)
      ≡ (if cloud_only && not cloud then message else hidden)
choice true true true message hidden h = sym (h refl)
choice true true false message hidden h = refl
choice true false cloud message hidden h = sym (h refl)
choice false true true message hidden h = refl
choice false true false message hidden h = refl
choice false false cloud message hidden h = refl

skip :
    (marked over : Bool) (e f g : SinkEntry)
    → f ≡ g
    → (if marked then e else if over then e else f) ≡ (if not marked && not over then g else e)
skip true over e f g h = refl
skip false true e f g h = refl
skip false false e f g h = h

pub visit_lem :
    (l : Logger) (level : LogLevel) (message hidden : Text) (i : ℕ) (e : SinkEntry)
    → visit l level message hidden i e
      ≡ (if wants l level i e then receive e (delivery l level message hidden e) else e)
unfolding visit
visit_lem l level message hidden i e =
    skip e.marked_for_removal (overridden l level i) e
      (receive e (record {
        name = l.name;
        level = level;
        message =
            if not (text_eq hidden message) && (not l.redact_cloud_only || is_cloud e)
            then hidden
            else message;
      }))
      (receive e (delivery l level message hidden e))
      (ap (λ m. receive e (record { name = l.name; level = level; message = m }))
        (choice (text_eq hidden message) l.redact_cloud_only (is_cloud e) message hidden
          (text_eq_iff hidden message).0))

-- What a call leaves of the entry at an index, where it is taken.
abbrev pub outcome : Logger → LogLevel → Text → Text → ℕ → SinkEntry → SinkEntry
outcome l level message hidden i e =
    if wants l level i e then receive e (delivery l level message hidden e) else e

-- A function of the index applied along a list, from an index on.
abbrev pub map_from : (ℕ → SinkEntry → SinkEntry) → ℕ → List SinkEntry → List SinkEntry
map_from f i [] = []
map_from f i (e ∷ es) = f i e ∷ map_from f (suc i) es

pub deliver_lem :
    (l : Logger) (level : LogLevel) (message hidden : Text) (i : ℕ) (es : List SinkEntry)
    → deliver l level message hidden i es ≡ map_from (outcome l level message hidden) i es
unfolding deliver
deliver_lem l level message hidden i [] = refl
deliver_lem l level message hidden i (e ∷ es) =
    rw (visit_lem l level message hidden i e, deliver_lem l level message hidden (suc i) es)
