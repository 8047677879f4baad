-- ===== src/Logger/Outcome.antt =====
-- What a call of `Logger::log` leaves at each sink.
use zyrnix.Prelude.{
  ℕ, Bool, true, false, not, ◌&&◌, Option, none, some, List, [], ◌∷◌, ◌≡◌, ◌≢◌, inl, inr, refl, sym,
  ap, ◌∙◌, if◌then◌else◌, arith, All, Text, Bool-cases,
}
use zyrnix.Level.{LogLevel, LogRecord, below}
use zyrnix.Levels.{check_temporary_level_expiry}
use zyrnix.Context.{ContextMap}
use zyrnix.Filter.{Filters, ask_all}
use zyrnix.Filter.Decision.{every, decides_all}
use zyrnix.Redact.{redact}
use zyrnix.Redact.Scrub.{scrub, redact_one-scrub}
use zyrnix.Logger.{Logger, set_sink_level}
use zyrnix.Logger.Logging.{
  blank, func_refuses, overridden, deliver, substitute_all, compiled, redacted_message, should_log,
  send, log,
}
use zyrnix.Logger.Visit.{outcome, map_from, deliver_lem}

-- The substring patterns applied one after the other, each in one pass.
abbrev pub scrub_all : List Text → Text → Text
scrub_all [] message = message
scrub_all (p ∷ ps) message = scrub_all ps (scrub p 0 message)

redact-scrub_all :
    (message : Text) (ps : List Text)
    → All (λ p. p ≢ []) ps
    → redact message ps ≡ some (scrub_all ps message)
unfolding redact
redact-scrub_all message [] h = refl
redact-scrub_all message ([] ∷ ps) h = absurd (h.0 refl)
redact-scrub_all message ((c ∷ p) ∷ ps) h =
    rw (redact, redact_one-scrub c p message) (redact-scrub_all (scrub (c ∷ p) 0 message) ps h.1)

-- The logger once a temporary level that has run out is reverted.
abbrev pub checked : Logger → ℕ → Logger
checked l now = record l { levels = check_temporary_level_expiry l.levels now }

-- The message with everything that is to be hidden replaced.
abbrev pub masked : (Bool → Text → Bool) → (Text → Text → Text) → Logger → Text → Text
masked valid substitute l message =
    substitute_all valid substitute (compiled valid substitute l)
      (scrub_all l.redact_patterns message)

-- Whether the logger takes a message of the level: its threshold, its function and all of its
-- filters. The message is no argument.
abbrev pub accepts : (Bool → Text → Text → Bool) → ContextMap → Logger → LogLevel → Bool
accepts search context l level =
    not (below level l.levels.min_level)
    && (not (func_refuses l (blank l level)) && every search context (blank l level) l.filters)

should_log-accepts :
    (search : Bool → Text → Text → Bool) (context : ContextMap) (l : Logger) (level : LogLevel)
    → (should_log search context l (blank l level)).1 ≡ accepts search context l level
unfolding should_log blank
should_log-accepts search context l level =
    ground (arith, decides_all search context (blank l level) l.filters)

-- `should_log` changes the filters only.
should_log-filters :
    (search : Bool → Text → Text → Bool) (context : ContextMap) (l : Logger) (r : LogRecord)
    → (fs : Filters) × ((should_log search context l r).0 ≡ record l { filters = fs })
unfolding should_log
should_log-filters search context l r = elim (Bool-cases (below r.level l.levels.min_level)) [
  | inl h ↦ (l.filters, ground arith)
  | inr h ↦ elim (Bool-cases (func_refuses l r)) [
    | inl k ↦ (l.filters, ground arith)
    | inr k ↦ ((ask_all search context r l.filters).0, ground arith)
  ]
]

module _ (valid : Bool → Text → Bool) (substitute : Text → Text → Text) (l : Logger)
    (message : Text) (h : All (λ p. p ≢ []) l.redact_patterns) where
  redacted_message-masked :
      redacted_message valid substitute l message ≡ some (masked valid substitute l message)
  unfolding redacted_message
  redacted_message-masked =
      ap
        (λ o. elim o [
          | none ↦ none
          | some m ↦ some (substitute_all valid substitute (compiled valid substitute l) m)
        ])
        (redact-scrub_all message l.redact_patterns h)

  send_lem :
      (search : Bool → Text → Text → Bool) (context : ContextMap) (level : LogLevel)
      → send valid search substitute context l level message
        ≡ some (record l {
          sink_entries =
              map_from
                (outcome l level message (masked valid substitute l message))
                0
                l.sink_entries;
        })
  unfolding send
  send_lem search context level =
      ap
        (λ o. elim o [
          | none ↦ none
          | some m ↦ some (record l { sink_entries = deliver l level message m 0 l.sink_entries })
        ])
        redacted_message-masked
      ∙ ap (λ es. some (record l { sink_entries = es }))
          (deliver_lem l level message (masked valid substitute l message) 0 l.sink_entries)

-- The end of `log`, for an answer of `should_log` that is known.
finish :
    (go : Logger → Option Logger) (p : Logger × Bool) (j : Logger) (answer : Bool)
    → p.0 ≡ j
    → p.1 ≡ answer
    → (if p.1 then go p.0 else some p.0) ≡ (if answer then go j else some j)
finish go (q, b) j answer e f = rw (e, f) refl

-- Where no substring pattern is empty, a call of `log` returns. If the logger accepts the level,
-- every sink that is not to be removed and whose override by index lets the level through has then
-- received one message more, masked unless masking is for cloud sinks only and the sink is none; all
-- other sinks, and if the logger does not accept the level all sinks, are as before. Acceptance does
-- not depend on the message.
pub log_lem :
    (valid : Bool → Text → Bool) (search : Bool → Text → Text → Bool)
    (substitute : Text → Text → Text) (context : ContextMap) (l : Logger) (now : ℕ)
    (level : LogLevel) (message : Text)
    → All (λ p. p ≢ []) l.redact_patterns
    → (m : Logger) × (log valid search substitute context l now level message ≡ some m)
      × (m.sink_entries ≡ (
          if accepts search context (checked l now) level
          then map_from
              (outcome l level message (masked valid substitute l message))
              0
              l.sink_entries
          else l.sink_entries))
unfolding log overridden compiled
log_lem valid search substitute context l now level message h =
    let k = checked l now in
    let (fs, e) = should_log-filters search context k (blank k level) in
    elim (Bool-cases (accepts search context k level)) [
      | inl a ↦ (
        record k {
          filters = fs;
          sink_entries =
              map_from (outcome l level message (masked valid substitute l message)) 0
                l.sink_entries;
        },
        finish (λ j. send valid search substitute context j level message)
              (should_log search context k (blank k level)) (record k { filters = fs }) true e
              (should_log-accepts search context k level ∙ a)
            ∙ send_lem valid substitute (record k { filters = fs }) message h search context level,
        rw a refl,
      )
      | inr a ↦ (
        record k { filters = fs },
        finish (λ j. send valid search substitute context j level message)
            (should_log search context k (blank k level)) (record k { filters = fs }) false e
            (should_log-accepts search context k level ∙ a),
        rw a refl,
      )
    ]

-- An override of a sink's level by the sink's name changes no delivery: where no substring pattern
-- is empty, a call of `log` returns with it and without it, and leaves the same sinks.
pub log-set_sink_level :
    (valid : Bool → Text → Bool) (search : Bool → Text → Text → Bool)
    (substitute : Text → Text → Text) (context : ContextMap) (l : Logger) (now : ℕ)
    (level : LogLevel) (message sink_name : Text) (least : LogLevel)
    → All (λ p. p ≢ []) l.redact_patterns
    → (m n : Logger) × (log valid search substitute context l now level message ≡ some m)
      × (log valid search substitute context (set_sink_level l sink_name least) now level message
          ≡ some n)
      × (m.sink_entries ≡ n.sink_entries)
unfolding set_sink_level blank overridden compiled func_refuses
log-set_sink_level valid search substitute context l now level message sink_name least h =
    let (m, e, r) = log_lem valid search substitute context l now level message h in
    let (n, f, s) =
      log_lem valid search substitute context (set_sink_level l sink_name least) now level message
        h in
    (m, n, e, f, r ∙ sym s)
