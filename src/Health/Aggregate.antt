-- ===== src/Health/Aggregate.antt =====
-- The two summaries of the registry: `get_overall_status` and `check_all_aggregate`.
use zyrnix.Prelude.{
  ◌+◌, ◌≡◌, refl, sym, ap, ◌∙◌, [], ◌∷◌, arith, if◌then◌else◌, Text, Dict, length, add_word,
}
use zyrnix.Health.{HealthStatus, healthy, degraded, unhealthy, same_status, HealthCheckResult}
use zyrnix.Health.Summary.{
  AggregateHealthResult, start, settle, has_status, overall_of, tally_one, tally, aggregate,
}
use zyrnix.Health.Worse.{
  worse, worse_assoc, flags, worst-count_status, settle-count_status, total-count_status,
  name-count_status, add_zero, loggers-count_status, merge, worse_healthy, same_status_refl,
}

module _ {ℓ} {F : Type ℓ} where
  -- The worst status of all.
  abbrev pub peak : Dict (HealthCheckResult F) → HealthStatus
  peak [] = healthy
  peak ((name, r) ∷ rest) = worse r.status (peak rest)

  -- The first logger of a status, the empty name if there is none.
  abbrev pub first_with : HealthStatus → Dict (HealthCheckResult F) → Text
  first_with s [] = []
  first_with s ((name, r) ∷ rest) =
      let later = first_with s rest in if same_status r.status s then name else later

  -- The overall status is the worst of the single ones; without loggers it is healthy.
  overall_of-peak : (rs : Dict (HealthCheckResult F)) → overall_of rs ≡ peak rs
  unfolding overall_of has_status
  overall_of-peak [] = refl
  overall_of-peak ((name, r) ∷ rest) =
      flags r.status (has_status unhealthy rest) (has_status degraded rest)
      ∙ ap (worse r.status) (overall_of-peak rest)

  worst-tally :
      (a : AggregateHealthResult) (rs : Dict (HealthCheckResult F))
      → (tally a rs).worst_logger_status ≡ worse a.worst_logger_status (peak rs)
  unfolding tally tally_one
  worst-tally a [] = worse_healthy a.worst_logger_status
  worst-tally a ((name, r) ∷ rest) =
      worst-tally (tally_one a name r) rest
      ∙ ap (λ w. worse w (peak rest))
          (worst-count_status _ name r.status a.worst_logger_status refl)
      ∙ worse_assoc a.worst_logger_status r.status (peak rest)

  settle-tally :
      (a : AggregateHealthResult) (rs : Dict (HealthCheckResult F))
      → settle (tally a rs) ≡ worse (settle a) (peak rs)
  unfolding tally tally_one settle
  settle-tally a [] = worse_healthy (settle a)
  settle-tally a ((name, r) ∷ rest) =
      settle-tally (tally_one a name r) rest
      ∙ ap (λ w. worse w (peak rest)) (settle-count_status _ name r.status)
      ∙ worse_assoc (settle a) r.status (peak rest)

  total-tally :
      (a : AggregateHealthResult) (rs : Dict (HealthCheckResult F))
      → (let b = tally a rs in b.healthy_count + (b.degraded_count + b.unhealthy_count))
        ≡ a.healthy_count + (a.degraded_count + a.unhealthy_count) + length rs
  unfolding tally tally_one
  total-tally a [] = omega arith
  total-tally a ((name, r) ∷ rest) = ground (
    arith,
    total-tally (tally_one a name r) rest,
    total-count_status
        (record a {
          total_messages_logged = add_word a.total_messages_logged r.messages_logged;
          total_messages_dropped = add_word a.total_messages_dropped r.messages_dropped;
          total_errors = add_word a.total_errors r.errors;
        })
        name r.status,
  )

  loggers-tally :
      (a : AggregateHealthResult) (rs : Dict (HealthCheckResult F))
      → (tally a rs).total_loggers ≡ a.total_loggers
  unfolding tally tally_one
  loggers-tally a [] = refl
  loggers-tally a ((name, r) ∷ rest) =
      loggers-tally (tally_one a name r) rest ∙ loggers-count_status _ name r.status

  name-tally :
      (a : AggregateHealthResult) (rs : Dict (HealthCheckResult F))
      → (tally a rs).worst_logger_name ≡ (
          if same_status (worse a.worst_logger_status (peak rs)) a.worst_logger_status
          then a.worst_logger_name
          else first_with (peak rs) rs)
  unfolding tally tally_one
  name-tally a [] =
      rw (sym (worse_healthy a.worst_logger_status), same_status_refl a.worst_logger_status) refl
  name-tally a ((name, r) ∷ rest) =
      name-tally (tally_one a name r) rest
      ∙ rw
          (
            worst-count_status
                (record a {
                  total_messages_logged = add_word a.total_messages_logged r.messages_logged;
                  total_messages_dropped = add_word a.total_messages_dropped r.messages_dropped;
                  total_errors = add_word a.total_errors r.errors;
                })
                name r.status a.worst_logger_status refl,
            name-count_status
                (record a {
                  total_messages_logged = add_word a.total_messages_logged r.messages_logged;
                  total_messages_dropped = add_word a.total_messages_dropped r.messages_dropped;
                  total_errors = add_word a.total_errors r.errors;
                })
                name r.status a.worst_logger_status refl,
          )
          (merge a.worst_logger_status r.status (peak rest) a.worst_logger_name name
            (λ s. first_with s rest))

  -- The two summaries of the same results agree: both give the worst status of all, healthy where
  -- there is no logger. The counts of the aggregate add up to the number of its loggers, and its
  -- worst logger has the overall status and is the first that has it, unless all are healthy, when
  -- the name stays empty.
  pub aggregate_lem :
      (rs : Dict (HealthCheckResult F))
      → (let a = aggregate rs in
          ((a.overall_status ≡ peak rs) × (overall_of rs ≡ peak rs))
          × (a.healthy_count + (a.degraded_count + a.unhealthy_count) ≡ a.total_loggers)
          × (a.worst_logger_status ≡ peak rs)
          × (a.worst_logger_name
              ≡ (if same_status (peak rs) healthy then [] else first_with (peak rs) rs)))
  unfolding aggregate settle
  aggregate_lem rs = (
    (settle-tally (start (length rs)) rs, overall_of-peak rs),
    total-tally (start (length rs)) rs
        ∙ add_zero (length rs)
        ∙ sym (loggers-tally (start (length rs)) rs),
    worst-tally (start (length rs)) rs,
    name-tally (start (length rs)) rs,
  )
