-- ===== src/Metrics/Registry.antt =====
-- `MetricsRegistry` of src/log_metrics.cpp. A `shared_ptr` to metrics that the registry gives out is
-- the name under which they stand: whoever holds it changes the registry's entry.
use zyrnix.Prelude.{
  ℕ, ◌≡◌, refl, ap, ◌∙◌, Bool, true, false, Option, none, some, List, [], ◌∷◌, if◌then◌else◌, Text,
  text_eq, text_eq_iff, Dict, lookup, insert, lookup-insert, Bool-cases, Option-cases, subst, inl,
  inr,
}
use zyrnix.Metrics.{LogMetrics, fresh, reset}
use zyrnix.Loki.{SinkMetrics, no_metrics}

pub record MetricsRegistry : Type 0 where
  pub logger_metrics : Dict LogMetrics
  pub sink_metrics : Dict SinkMetrics

-- The metrics of a name, made at a time if there are none.
unfoldable pub get_logger_metrics : MetricsRegistry → ℕ → Text → MetricsRegistry × LogMetrics
get_logger_metrics r now logger_name = elim (lookup logger_name r.logger_metrics) [
  | some m ↦ (r, m)
  | none ↦
      (record r { logger_metrics = insert logger_name (fresh now) r.logger_metrics }, fresh now)
]

unfoldable pub get_sink_metrics : MetricsRegistry → Text → MetricsRegistry × SinkMetrics
get_sink_metrics r sink_name = elim (lookup sink_name r.sink_metrics) [
  | some m ↦ (r, m)
  | none ↦ (record r { sink_metrics = insert sink_name no_metrics r.sink_metrics }, no_metrics)
]

-- The loop over the entries.
unfoldable pub reset_each : ℕ → Dict LogMetrics → Dict LogMetrics
reset_each now [] = []
reset_each now ((name, m) ∷ rest) = (name, reset m now) ∷ reset_each now rest

-- The metrics of sinks stay.
unfoldable pub reset_all : MetricsRegistry → ℕ → MetricsRegistry
reset_all r now = record r { logger_metrics = reset_each now r.logger_metrics }

-- A use of the metrics of a logger: who asks for a name, when, and what is recorded; or a reset.
pub data Use : Type 0 where
  records : ℕ → Text → (LogMetrics → LogMetrics) → Use
  resets : ℕ → Use

unfoldable pub use_metrics : Use → MetricsRegistry → MetricsRegistry
use_metrics (records now name change) r =
    let (s, m) = get_logger_metrics r now name in
    record s { logger_metrics = insert name (change m) s.logger_metrics }
use_metrics (resets now) r = reset_all r now

unfoldable pub run : List Use → MetricsRegistry → MetricsRegistry
run [] r = r
run (u ∷ us) r = run us (use_metrics u r)

-- What the uses make of the metrics of one name, whatever the registry holds beside.
unfoldable pub alone : Text → List Use → Option LogMetrics → Option LogMetrics
alone key [] m = m
alone key (records now name change ∷ us) m =
    let mine =
      alone key us (elim m [ none ↦ some (change (fresh now)) | some n ↦ some (change n) ]) in
    let other = alone key us m in if text_eq name key then mine else other
alone key (resets now ∷ us) m = alone key us (elim m [ none ↦ none | some n ↦ some (reset n now) ])

lookup-reset_each :
    (key : Text) (now : ℕ) (d : Dict LogMetrics)
    → lookup key (reset_each now d)
      ≡ elim (lookup key d) [ none ↦ none | some n ↦ some (reset n now) ]
unfolding lookup reset_each
lookup-reset_each key now [] = refl
lookup-reset_each key now ((name, m) ∷ rest) = elim (Bool-cases (text_eq name key)) [
  | inl e ↦ rw e refl
  | inr e ↦ rw e (lookup-reset_each key now rest)
]

-- The entry of a name after its metrics were changed.
inserted :
    (key name : Text) (m : LogMetrics) (d e : Dict LogMetrics)
    → ((text_eq name key ≡ false) → lookup key d ≡ lookup key e)
    → lookup key (insert name m d) ≡ (if text_eq name key then some m else lookup key e)
inserted key name m d e h = elim (Bool-cases (text_eq name key)) [
  | inl k ↦ rw (lookup-insert key name m d, k) refl
  | inr k ↦ rw (lookup-insert key name m d, k) (h k)
]

lookup-use_metrics :
    (key name : Text) (now : ℕ) (change : LogMetrics → LogMetrics) (r : MetricsRegistry)
    → lookup key (use_metrics (records now name change) r).logger_metrics ≡ (
        if text_eq name key
        then elim (lookup key r.logger_metrics) [
          | none ↦ some (change (fresh now))
          | some n ↦ some (change n)
        ]
        else lookup key r.logger_metrics)
unfolding use_metrics get_logger_metrics
lookup-use_metrics key name now change r = elim (Option-cases (lookup name r.logger_metrics)) [
  | inl n ↦
      rw (use_metrics, get_logger_metrics, n)
        (inserted key name (change (fresh now)) (insert name (fresh now) r.logger_metrics)
            r.logger_metrics (λ k. lookup-insert key name (fresh now) r.logger_metrics ∙ rw k refl)
          ∙ agree none n (some (change (fresh now))) refl)
  | inr (m, n) ↦
      rw (use_metrics, get_logger_metrics, n)
        (inserted key name (change m) r.logger_metrics r.logger_metrics (λ k. refl)
          ∙ agree (some m) n (some (change m)) refl)
]
  where
    changed : Option LogMetrics → Option LogMetrics
    changed none = some (change (fresh now))
    changed (some n) = some (change n)

    agree :
        (o : Option LogMetrics)
        → lookup name r.logger_metrics ≡ o
        → (v : Option LogMetrics) → v ≡ changed o
        → (if text_eq name key then v else lookup key r.logger_metrics) ≡ (
            if text_eq name key
            then elim (lookup key r.logger_metrics) [
              | none ↦ some (change (fresh now))
              | some n ↦ some (change n)
            ]
            else lookup key r.logger_metrics)
    agree o n v h = elim (Bool-cases (text_eq name key)) [
      | inl e ↦
          let same : lookup key r.logger_metrics ≡ o =
            subst (λ k. lookup k r.logger_metrics ≡ o) ((text_eq_iff name key).0 e) n in
          rw (e, same) h
      | inr e ↦ rw e refl
    ]

alone_if :
    (key : Text) (us : List Use) (b : Bool) (m n : Option LogMetrics)
    → alone key us (if b then m else n) ≡ (if b then alone key us m else alone key us n)
alone_if key us true m n = refl
alone_if key us false m n = refl

-- The metrics of a logger depend on what was recorded under its name and on the resets only: any
-- calls between, for other names, leave them alone, and asking again for a name gives what was there.
pub run-alone :
    (key : Text) (us : List Use) (r : MetricsRegistry)
    → lookup key (run us r).logger_metrics ≡ alone key us (lookup key r.logger_metrics)
unfolding run alone reset_all use_metrics
run-alone key [] r = refl
run-alone key (records now name change ∷ us) r =
    run-alone key us (use_metrics (records now name change) r)
    ∙ ap (alone key us) (lookup-use_metrics key name now change r)
    ∙ alone_if key us (text_eq name key) _ (lookup key r.logger_metrics)
run-alone key (resets now ∷ us) r =
    run-alone key us (reset_all r now)
    ∙ ap (alone key us) (lookup-reset_each key now r.logger_metrics)
