-- ===== src/Health/Reports/Exported.antt =====
-- `HealthRegistry::export_json` of src/log_health.cpp.
use zyrnix.Prelude.{List, [], ◌∷◌, ◌++◌, map, if◌then◌else◌, split_on, Text, codes, Dict}
use zyrnix.Health.{Doubles, HealthCheckResult, HealthRegistry, check_all}
use zyrnix.Health.Summary.{overall_of}
use zyrnix.Health.Reports.{Printing, Report, status_name, is_empty, to_json}

-- The lines of a text as `std::getline` gives them: what stands behind the last line feed is a line
-- unless it is empty.
unfoldable pub get_lines : List Text → List Text
get_lines [] = []
get_lines (l ∷ []) = if is_empty l then [] else l ∷ []
get_lines (l ∷ m ∷ ls) = l ∷ get_lines (m ∷ ls)

unfoldable pub indented : List Text → Text
indented [] = []
indented (l ∷ ls) =
    (if is_empty l then [] else codes "      " ++ l)
    ++ elim ls [ [] ↦ [] | m ∷ ms ↦ codes "\n" ++ indented ls ]

module _ {ℓ} {F : Type ℓ} (p : Printing F) where
  -- An entry of the array of loggers.
  unfoldable pub logger_entry : Text → Report F → Text
  logger_entry name r =
      codes "    {\n      \"name\": \""
      ++ (name
          ++ (codes "\",\n"
              ++ (indented (get_lines (split_on 10 (to_json p r))) ++ codes "\n    }")))

  unfoldable pub logger_entries : Dict (Report F) → Text
  logger_entries [] = []
  logger_entries ((name, r) ∷ rest) =
      logger_entry name r ++ elim rest [ [] ↦ [] | q ∷ qs ↦ codes ",\n" ++ logger_entries rest ]

module _ {ℓ} {F : Type ℓ} (d : Doubles F) (p : Printing F) where
  -- `HealthRegistry::export_json`, where `fill` makes the report of a result.
  unfoldable pub export_json : HealthRegistry F → (HealthCheckResult F → Report F) → Text
  export_json g fill =
      let results = check_all d g in
      codes "{\n  \"overall_status\": \""
      ++ (status_name (overall_of results)
          ++ (codes "\",\n  \"loggers\": [\n"
              ++ (logger_entries p (map (λ q. (q.0, fill q.1)) results) ++ codes "\n  ]\n}")))
