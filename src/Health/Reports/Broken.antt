-- ===== src/Health/Reports/Broken.antt =====
-- What `HealthRegistry::export_json` of src/log_health.cpp writes for the first logger.
use zyrnix.Prelude.{
  lacks, split_on, split_on-append, ◌≡◌, refl, ap, ◌∙◌, Bool, true, false, List, [], ◌∷◌, ◌++◌,
  append_assoc, Text, codes, Dict, map,
}
use zyrnix.Health.{
  HealthStatus, healthy, degraded, unhealthy, Doubles, HealthCheckResult, HealthRegistry, check_all,
}
use zyrnix.Health.Summary.{overall_of}
use zyrnix.Health.Reports.{Printing, Report, status_name, is_empty, to_json}
use zyrnix.Health.Reports.Exported.{get_lines, indented, logger_entry, logger_entries, export_json}
use zyrnix.Health.Reports.Shape.{
  Scan, outside, key_expected, in_string, broken, scan, scan-append, scan-plain, scan-broken,
  is_plain, is_white, step, after_comma,
}

brace_first :
    (ls : List Text) → (t : Text) × (indented (get_lines ((123 ∷ []) ∷ ls)) ≡ codes "      {" ++ t)
unfolding get_lines indented is_empty
brace_first [] = ([], refl)
brace_first (l ∷ ls) = (_, refl)

-- The first line of a report is its brace.
opens :
    (body : Text)
    → (t : Text) × (indented (get_lines (split_on 10 (codes "{\n" ++ body))) ≡ codes "      {" ++ t)
unfolding lacks
opens body =
    let (t, e) = brace_first (split_on 10 body) in
    (t, ap (λ ls. indented (get_lines ls)) (split_on-append 10 (123 ∷ []) body refl) ∙ e)

entry-broken :
    {F : Type 0} (p : Printing F) (s : List Bool) (name rest : Text) (r : Report F)
    → is_plain name ≡ true
    → scan (s, outside) (logger_entry p name r ++ rest) ≡ (true ∷ s, broken)
unfolding logger_entry to_json scan step is_white after_comma
entry-broken p s name rest r h =
    let (t, e) = opens _ in
    let close : Text = codes "\n    }" in
    let lines : Text = indented (get_lines (split_on 10 (to_json p r))) in
    ap (scan (true ∷ s, in_string)) (append_assoc name (codes "\",\n" ++ (lines ++ close)) rest)
    ∙ scan-append (true ∷ s, in_string) name (codes "\",\n" ++ ((lines ++ close) ++ rest))
    ∙ ap (λ q. scan q (codes "\",\n" ++ ((lines ++ close) ++ rest))) (scan-plain (true ∷ s) name h)
    ∙ ap (λ l. scan (true ∷ s, key_expected) ((l ++ close) ++ rest)) e
    ∙ scan-broken (true ∷ s) ((t ++ close) ++ rest)

entries-broken :
    {F : Type 0} (p : Printing F) (s : List Bool) (name close : Text) (r : Report F)
    (rest : Dict (Report F))
    → is_plain name ≡ true
    → scan (s, outside) (logger_entries p ((name, r) ∷ rest) ++ close) ≡ (true ∷ s, broken)
unfolding logger_entries
entries-broken p s name close r rest h =
    ap (scan (s, outside)) (append_assoc (logger_entry p name r) _ close)
    ∙ entry-broken p s name _ r h

status-in_string :
    (x : HealthStatus) (s : List Bool) → scan (s, in_string) (status_name x) ≡ (s, in_string)
unfolding status_name scan step
status-in_string healthy s = refl
status-in_string degraded s = refl
status-in_string unhealthy s = refl

-- Where a logger stands first among the checked ones and its name holds neither a quote nor a
-- backslash: in the registry's export, an object has something else than a name in quotes behind a
-- comma, so that it is not JSON.
pub export_json-broken :
    {F : Type 0} (d : Doubles F) (p : Printing F) (g : HealthRegistry F)
    (fill : HealthCheckResult F → Report F) (name : Text) (x : HealthCheckResult F)
    (rest : Dict (HealthCheckResult F))
    → check_all d g ≡ (name, x) ∷ rest
    → is_plain name ≡ true
    → (scan ([], outside) (export_json d p g fill)).1 ≡ broken
unfolding export_json logger_entries scan step is_white after_comma
export_json-broken {F} d p g fill name x rest h k =
    ap (λ (results : Dict (HealthCheckResult F)). (scan ([], outside) (exported results)).1) h
    ∙ ap (λ (q : Scan). q.1) first_entry
  where
    exported : Dict (HealthCheckResult F) → Text
    exported results =
        codes "{\n  \"overall_status\": \""
        ++ (status_name (overall_of results)
            ++ (codes "\",\n  \"loggers\": [\n"
                ++ (logger_entries p (map (λ q. (q.0, fill q.1)) results) ++ codes "\n  ]\n}")))

    first_entry :
        scan ([], outside) (exported ((name, x) ∷ rest)) ≡ (true ∷ false ∷ true ∷ [], broken)
    first_entry =
        let entries : Text =
          logger_entries p ((name, fill x) ∷ map (λ q. (q.0, fill q.1)) rest) ++ codes "\n  ]\n}" in
        let array : Text = codes "\",\n  \"loggers\": [\n" ++ entries in
        let overall : HealthStatus = overall_of ((name, x) ∷ rest) in
        scan-append (true ∷ [], in_string) (status_name overall) array
        ∙ ap (λ q. scan q array) (status-in_string overall (true ∷ []))
        ∙ entries-broken p (false ∷ true ∷ []) name (codes "\n  ]\n}") (fill x)
            (map (λ q. (q.0, fill q.1)) rest) k
