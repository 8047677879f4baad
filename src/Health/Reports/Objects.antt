-- ===== src/Health/Reports/Objects.antt =====
-- `HealthCheckResult::to_json` of src/log_health.cpp has the shape of JSON.
use zyrnix.Prelude.{◌≡◌, refl, Bool, true, List, ◌∷◌, Text, codes, All, Bool-cases, inl, inr}
use zyrnix.Health.Reports.{
  Printing, Report, is_empty, comma_rows, error_rows, metric_rows, indicator_rows, block, to_json,
}
use zyrnix.Health.Reports.Shape.{
  outside, scan, is_plain, is_quiet, scan-quiet, scan-in_quotes, step, pop,
}
use zyrnix.Health.Reports.Rows.{
  IsRow, IsValue, inner, outer, scan-braces, scan-comma_rows, IsValue-decimal, IsValue-truth,
  IsValue-status,
}

-- The texts of a report hold neither a quote nor a backslash.
pub record IsPlain {F : Type 0} (r : Report F) : Type 0 where
  pub message : is_plain r.message ≡ true
  pub timestamp : is_plain r.timestamp ≡ true
  pub last_error_message : is_plain r.result.last_error_message ≡ true
  pub last_error_time : is_plain r.last_error_time ≡ true

pub block-IsValue : (r : Text) (rs : List Text) → IsRow r → All IsRow rs → IsValue (block (r ∷ rs))
unfolding block scan step pop
block-IsValue r rs h hs s =
    scan-braces s (comma_rows (r ∷ rs)) (codes "  }") (scan-comma_rows r rs h hs) refl

module _ {F : Type 0} (p : Printing F) (quiet : (x : F) → is_quiet (p.fixed x) ≡ true) where
  fixed-IsValue : (x : F) → IsValue (p.fixed x)
  fixed-IsValue x s = scan-quiet s (p.fixed x) (quiet x)

  metrics-IsValue : (r : Report F) → IsValue (block (metric_rows p r))
  unfolding metric_rows is_plain
  metrics-IsValue r = block-IsValue _ _ (inner _ _ refl (IsValue-decimal _)) (
    inner _ _ refl (IsValue-decimal _),
    (
      inner _ _ refl (IsValue-decimal _),
      (
        inner _ _ refl (IsValue-decimal _),
        (
          inner _ _ refl (fixed-IsValue _),
          (
            inner _ _ refl (fixed-IsValue _),
            (
              inner _ _ refl (IsValue-decimal _),
              (inner _ _ refl (IsValue-decimal _), (inner _ _ refl (IsValue-decimal _), tt)),
            ),
          ),
        ),
      ),
    ),
  )

  error_rows-IsRow : (r : Report F) → IsPlain r → All IsRow (error_rows r)
  unfolding error_rows is_plain scan step
  error_rows-IsRow r h = elim (Bool-cases (is_empty r.result.last_error_message)) [
    | inl e ↦ rw (error_rows, e) (inner _ _ refl (λ s. refl), tt)
    | inr e ↦
        rw (error_rows, e)
          (
            inner _ _ refl (λ s. scan-in_quotes s r.result.last_error_message h.last_error_message),
            (inner _ _ refl (λ s. scan-in_quotes s r.last_error_time h.last_error_time), tt),
          )
  ]

  indicators-IsValue : (r : Report F) → IsPlain r → IsValue (block (indicator_rows p r))
  unfolding indicator_rows is_plain
  indicators-IsValue r h = block-IsValue _ _ (inner _ _ refl (fixed-IsValue _)) (
    inner _ _ refl (fixed-IsValue _),
    (inner _ _ refl (IsValue-truth _), (inner _ _ refl (IsValue-truth _), error_rows-IsRow r h)),
  )

-- Where the texts of a report hold neither a quote nor a backslash, and the text of a `double` is
-- one token: reading the report's JSON leaves open what was open before, and finds a name in quotes
-- behind every comma.
pub to_json-IsValue :
    {F : Type 0} (p : Printing F) (r : Report F)
    → ((x : F) → is_quiet (p.fixed x) ≡ true)
    → IsPlain r
    → (s : List Bool) → scan (s, outside) (to_json p r) ≡ (s, outside)
unfolding to_json scan step is_plain pop
to_json-IsValue p r quiet h s =
    scan-braces s _ (codes "}")
      (scan-comma_rows _ _ (outer _ _ refl (IsValue-status r.result.status)) (
        outer _ _ refl (λ t. scan-in_quotes t r.message h.message),
        (
          outer _ _ refl (λ t. scan-in_quotes t r.timestamp h.timestamp),
          (
            outer _ _ refl (metrics-IsValue p quiet r),
            (outer _ _ refl (indicators-IsValue p quiet r h), tt),
          ),
        ),
      ))
      refl
