-- ===== src/Health/Registry.antt =====
-- What the registry answers for a logger.
use zyrnix.Prelude.{
  ℕ, ◌≡◌, refl, ap, ◌∙◌, [], ◌∷◌, arith, false, none, some, Text, text_eq_iff, Dict, lookup,
}
use zyrnix.Metrics.{fresh}
use zyrnix.Health.{
  healthy, Doubles, HealthCheckConfig, LoggerEntry, HealthRegistry, determine_status, rate,
  check_metrics, check_entry, answer, check_logger, check_entries, check_all,
}

module _ {ℓ} {F : Type ℓ} (d : Doubles F) where
  -- No limit of the configuration is below zero.
  pub record IsSane (c : HealthCheckConfig F) : Type 0 where
    pub drop_healthy : d.above d.nought c.max_drop_rate_healthy ≡ false
    pub drop_degraded : d.above d.nought c.max_drop_rate_degraded ≡ false
    pub error_healthy : d.above d.nought c.max_error_rate_healthy ≡ false
    pub error_degraded : d.above d.nought c.max_error_rate_degraded ≡ false
    pub queue_healthy : d.above d.nought c.max_queue_usage_healthy ≡ false
    pub queue_degraded : d.above d.nought c.max_queue_usage_degraded ≡ false

  -- The configuration by which a logger is checked.
  abbrev pub config_of : HealthRegistry F → LoggerEntry F → HealthCheckConfig F
  config_of g e = elim e.custom_checker [ none ↦ g.health_checker | some c ↦ c ]

  healthy_from :
      (c : HealthCheckConfig F) (q : F)
      → q ≡ d.nought
      → IsSane c
      → determine_status d c d.nought d.nought 0 q ≡ healthy
  unfolding determine_status
  healthy_from c q e s = ground (
    arith, e, s.drop_healthy, s.drop_degraded, s.error_healthy, s.error_degraded, s.queue_healthy,
    s.queue_degraded,
  )

  answered :
      (g : HealthRegistry F) (e : LoggerEntry F)
      → e.expired ≡ false
      → (answer d g (some e)).0 ≡ (check_entry d g e).status
  unfolding answer
  answered g e x = rw x refl

  -- A registered logger that is not expired is reported healthy, where no limit is below zero and
  -- zero divided is zero: the check reads metrics that it has just made.
  pub check_logger-healthy :
      (g : HealthRegistry F) (name : Text) (e : LoggerEntry F)
      → ((n : ℕ) → d.ratio 0 n ≡ d.nought)
      → lookup name g.loggers ≡ some e
      → e.expired ≡ false
      → IsSane (config_of g e)
      → (check_logger d g name).0 ≡ healthy
  unfolding check_logger answer check_entry check_metrics rate fresh
  check_logger-healthy g name e z l x s =
      ap (λ o. (answer d g o).0) l
      ∙ answered g e x
      ∙ healthy_from (config_of g e) (d.ratio 0 10000) (z 10000) s

module _ {ℓ} {F : Type ℓ} (d : Doubles F) where
  -- No name stands twice.
  abbrev pub IsDistinct : Dict (LoggerEntry F) → Type ℓ
  IsDistinct [] = Unit
  IsDistinct ((name, e) ∷ rest) = (lookup name rest ≡ none) × IsDistinct rest

  entries-none :
      (g : HealthRegistry F) (name : Text) (es : Dict (LoggerEntry F))
      → lookup name es ≡ none
      → lookup name (check_entries d g es) ≡ none
  unfolding check_entries lookup
  entries-none g name [] h = refl
  entries-none g name ((n, e) ∷ es) h = ground (arith, entries-none g name es)

  entries-answer :
      (g : HealthRegistry F) (name : Text) (es : Dict (LoggerEntry F))
      → IsDistinct es
      → lookup name (check_entries d g es) ≡ (answer d g (lookup name es)).1
  unfolding check_entries lookup answer
  entries-answer g name [] h = refl
  entries-answer g name ((n, e) ∷ es) h =
      ground (arith, entries-answer g name es h.1, entries-none g name es, text_eq_iff n name)

  -- `check_all` holds for a name what `check_logger` returns for it, and nothing for an unknown or
  -- expired logger, where no name stands twice in the registry.
  pub check_all-check_logger :
      (g : HealthRegistry F) (name : Text)
      → IsDistinct g.loggers
      → lookup name (check_all d g) ≡ (check_logger d g name).1
  unfolding check_all check_logger
  check_all-check_logger g name h = entries-answer g name g.loggers h
