-- ===== src/Health/Reports/Overview.antt =====
-- The exports of `AggregateHealthResult` of src/log_health.cpp.
use zyrnix.Prelude.{
  concat, ℕ, ◌≡◌, refl, Bool, true, not, ◌&&◌, List, [], ◌∷◌, ◌++◌, if◌then◌else◌, Text, codes,
  decimal, All, Bool-cases, inl, inr,
}
use zyrnix.Health.{healthy, same_status}
use zyrnix.Health.Summary.{AggregateHealthResult}
use zyrnix.Health.Reports.{
  Printing, status_name, status_capitals, is_empty, row, in_quotes, comma_rows, block,
}
use zyrnix.Health.Reports.Shape.{
  outside, scan, is_plain, is_quiet, scan-quiet, scan-in_quotes, step, pop,
}
use zyrnix.Health.Reports.Rows.{
  IsRow, inner, outer, scan-braces, scan-comma_rows, IsValue-decimal, IsValue-status,
}
use zyrnix.Health.Reports.Objects.{block-IsValue}

-- The aggregate with its time as a text, the rate of messages and the number of single results.
pub record Overview {ℓ} (F : Type ℓ) : Type ℓ where
  pub totals : AggregateHealthResult
  pub timestamp : Text
  pub avg_messages_per_second : F
  pub individual_results : ℕ

-- Whether a worst logger is named.
unfoldable pub has_worst : AggregateHealthResult → Bool
has_worst a = not (is_empty a.worst_logger_name) && not (same_status a.worst_logger_status healthy)

unfoldable pub summary_rows : AggregateHealthResult → List Text
summary_rows a =
    row (codes "    ") (codes "total_loggers") (decimal a.total_loggers)
    ∷ row (codes "    ") (codes "healthy") (decimal a.healthy_count)
    ∷ row (codes "    ") (codes "degraded") (decimal a.degraded_count)
    ∷ row (codes "    ") (codes "unhealthy") (decimal a.unhealthy_count)
    ∷ []

unfoldable pub worst_rows : AggregateHealthResult → List Text
worst_rows a =
    row (codes "    ") (codes "name") (in_quotes a.worst_logger_name)
    ∷ row (codes "    ") (codes "status") (in_quotes (status_name a.worst_logger_status))
    ∷ []

-- The last members: the worst logger, where there is one, and the number of loggers.
unfoldable pub last_rows {ℓ} : {F : Type ℓ} → Overview F → List Text
last_rows o =
    let count = row (codes "  ") (codes "loggers") (decimal o.individual_results) in
    let worst = row (codes "  ") (codes "worst_logger") (block (worst_rows o.totals)) in
    if has_worst o.totals then worst ∷ count ∷ [] else count ∷ []

unfoldable pub worst_line : AggregateHealthResult → Text
worst_line a =
    if has_worst a
    then codes "\nWorst Performing Logger: "
      ++ a.worst_logger_name
      ++ codes " ("
      ++ status_capitals a.worst_logger_status
      ++ codes ")\n"
    else []

module _ {ℓ} {F : Type ℓ} (p : Printing F) where
  unfoldable pub total_rows : Overview F → List Text
  total_rows o =
      row (codes "    ") (codes "total_messages_logged") (decimal o.totals.total_messages_logged)
      ∷ row (codes "    ") (codes "total_messages_dropped")
          (decimal o.totals.total_messages_dropped)
      ∷ row (codes "    ") (codes "total_errors") (decimal o.totals.total_errors)
      ∷ row (codes "    ") (codes "avg_messages_per_second") (p.fixed o.avg_messages_per_second)
      ∷ []

  unfoldable pub overview_json : Overview F → Text
  overview_json o =
      codes "{\n"
      ++ (comma_rows (
            row (codes "  ") (codes "overall_status")
              (in_quotes (status_name o.totals.overall_status))
            ∷ row (codes "  ") (codes "timestamp") (in_quotes o.timestamp)
            ∷ row (codes "  ") (codes "summary") (block (summary_rows o.totals))
            ∷ row (codes "  ") (codes "aggregate_metrics") (block (total_rows o))
            ∷ last_rows o)
          ++ codes "}")

  unfoldable pub overview_string : Overview F → Text
  overview_string o = concat (
      codes "=== Aggregate Health Check ===\n"
      ∷ codes "Overall Status: "
      ∷ status_capitals o.totals.overall_status
      ∷ codes "\n\n"
      ∷ codes "Loggers: "
      ∷ decimal o.totals.total_loggers
      ∷ codes " total\n"
      ∷ codes "  - Healthy: "
      ∷ decimal o.totals.healthy_count
      ∷ codes "\n"
      ∷ codes "  - Degraded: "
      ∷ decimal o.totals.degraded_count
      ∷ codes "\n"
      ∷ codes "  - Unhealthy: "
      ∷ decimal o.totals.unhealthy_count
      ∷ codes "\n\n"
      ∷ codes "Aggregate Metrics:\n"
      ∷ codes "  - Total Messages: "
      ∷ decimal o.totals.total_messages_logged
      ∷ codes "\n"
      ∷ codes "  - Total Dropped: "
      ∷ decimal o.totals.total_messages_dropped
      ∷ codes "\n"
      ∷ codes "  - Total Errors: "
      ∷ decimal o.totals.total_errors
      ∷ codes "\n"
      ∷ codes "  - Throughput: "
      ∷ p.general o.avg_messages_per_second
      ∷ codes " msg/sec\n"
      ∷ worst_line o.totals
      ∷ [])

last_rows-IsRow :
    {F : Type 0} (o : Overview F)
    → is_plain o.totals.worst_logger_name ≡ true
    → All IsRow (last_rows o)
unfolding last_rows worst_rows is_plain
last_rows-IsRow o h = elim (Bool-cases (has_worst o.totals)) [
  | inl e ↦
      rw (last_rows, e)
        (
          outer _ _ refl (
              block-IsValue _ _
                (inner _ _ refl (λ s. scan-in_quotes s o.totals.worst_logger_name h))
                (inner _ _ refl (IsValue-status o.totals.worst_logger_status), tt)),
          (outer _ _ refl (IsValue-decimal _), tt),
        )
  | inr e ↦ rw (last_rows, e) (outer _ _ refl (IsValue-decimal _), tt)
]

-- Where the time and the name of the worst logger hold neither a quote nor a backslash, and the text
-- of a `double` is one token: reading the aggregate's JSON leaves open what was open before, and
-- finds a name in quotes behind every comma.
pub overview_json-IsValue :
    {F : Type 0} (p : Printing F) (o : Overview F)
    → ((x : F) → is_quiet (p.fixed x) ≡ true)
    → is_plain o.timestamp ≡ true
    → is_plain o.totals.worst_logger_name ≡ true
    → (s : List Bool) → scan (s, outside) (overview_json p o) ≡ (s, outside)
unfolding overview_json summary_rows total_rows scan step is_plain pop
overview_json-IsValue p o quiet time name s =
    scan-braces s _ (codes "}")
      (scan-comma_rows _ _ (outer _ _ refl (IsValue-status o.totals.overall_status)) (
        outer _ _ refl (λ t. scan-in_quotes t o.timestamp time),
        (
          outer _ _ refl (
              block-IsValue _ _ (number _ refl _)
                (number _ refl _, (number _ refl _, (number _ refl _, tt)))),
          (
            outer _ _ refl (
                block-IsValue _ _ (number _ refl _) (
                  number _ refl _,
                  (
                    number _ refl _,
                    (
                      inner _ _ refl
                          (λ t. scan-quiet t (p.fixed o.avg_messages_per_second) (quiet _)),
                      tt,
                    ),
                  ),
                )),
            last_rows-IsRow o name,
          ),
        ),
      ))
      refl
  where
    number :
        (name : Text) → is_plain name ≡ true → (n : ℕ) → IsRow (row (codes "    ") name (decimal n))
    number name h n = inner name (decimal n) h (IsValue-decimal n)
