-- ===== src/Health/Reports/Reasons.antt =====
-- The reasons in the message of `HealthChecker::check_metrics` of src/log_health.cpp.
use zyrnix.Prelude.{
  ℕ, ◌≡◌, ◌↔◌, refl, Bool, true, false, ◌||◌, [], ◌++◌, ltb, Text, arith, Bool-cases, inl, inr,
}
use zyrnix.Health.{healthy, Doubles, HealthCheckConfig, determine_status}
use zyrnix.Health.Reports.{Printing, given_reason, reasons, reasons_of}

reasons-none :
    (a b c e : Bool) (x y z w : Text)
    → ((given_reason a x ++ given_reason b y ++ given_reason c z ++ given_reason e w) ≡ [])
      ↔ ((a || (b || (c || e))) ≡ false)
unfolding given_reason
reasons-none true b c e x y z w = (λ h. absurd (ground (arith, h)), λ h. absurd (ground (arith, h)))
reasons-none false true c e x y z w =
    (λ h. absurd (ground (arith, h)), λ h. absurd (ground (arith, h)))
reasons-none false false true e x y z w =
    (λ h. absurd (ground (arith, h)), λ h. absurd (ground (arith, h)))
reasons-none false false false true x y z w =
    (λ h. absurd (ground (arith, h)), λ h. absurd (ground (arith, h)))
reasons-none false false false false x y z w = (λ h. refl, λ h. refl)

-- The message of a check gives a given_reason exactly if the status is not healthy.
pub determine_status-reasons_of :
    {F : Type 0} (d : Doubles F) (p : Printing F) (c : HealthCheckConfig F)
    (drop_rate error_rate : F) (max_latency : ℕ) (queue_usage : F)
    → (reasons_of d p c
          (determine_status d c drop_rate error_rate max_latency queue_usage)
          drop_rate
          error_rate
          max_latency
          queue_usage
        ≡ [])
      ↔ (determine_status d c drop_rate error_rate max_latency queue_usage ≡ healthy)
unfolding determine_status reasons_of reasons
determine_status-reasons_of d p c drop_rate error_rate max_latency queue_usage =
    elim (Bool-cases critical) [
      | inl e ↦ rw e (
        λ h. absurd (ground (arith, (reasons-none _ _ _ _ _ _ _ _).0 h, e)),
        λ h. absurd (ground (arith, h)),
      )
      | inr e ↦ rw e (elim (Bool-cases high) [
        | inl k ↦ rw k (
          λ h. absurd (ground (arith, (reasons-none _ _ _ _ _ _ _ _).0 h, k)),
          λ h. absurd (ground (arith, h)),
        )
        | inr k ↦ rw k (λ h. refl, λ h. refl)
      ])
    ]
  where
    critical : Bool
    critical =
        d.above drop_rate c.max_drop_rate_degraded
        || (d.above error_rate c.max_error_rate_degraded
            || (ltb c.max_latency_us_degraded max_latency
                || d.above queue_usage c.max_queue_usage_degraded))

    high : Bool
    high =
        d.above drop_rate c.max_drop_rate_healthy
        || (d.above error_rate c.max_error_rate_healthy
            || (ltb c.max_latency_us_healthy max_latency
                || d.above queue_usage c.max_queue_usage_healthy))
