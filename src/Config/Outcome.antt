-- ===== src/Config/Outcome.antt =====
-- How a call of the parser ends, and what it leaves.
use zyrnix.Prelude.{
  ℕ, suc, ◌<◌, ◌≡◌, ◌≢◌, refl, Bool, true, false, Option, none, some, List, [], ◌∷◌, if◌then◌else◌,
  ltb, arith, Text, codes, length, All, Option-cases, List-cases, inl, inr,
}
use zyrnix.Redact.{find_from}
use zyrnix.Scan.{quoted}
use zyrnix.Config.{LoggerConfig, ConfigLoader, conclude, fail, parse_json_internal, load_from_json}
use zyrnix.Config.Sinkless.{
  IsSinkless, AllSinkless, Gives, Gives-bind, Gives-some, parse_objects-AllSinkless,
}

-- What a call leaves: the configurations of a parse that succeeds, each of them without sinks, or a
-- message. `kept` is what a failed call leaves of the configurations.
pub record IsOutcome (kept : List LoggerConfig) (r : ConfigLoader × Bool) : Type 0 where
  pub succeeds : r.1 ≡ true → (r.0.configs ≢ []) × AllSinkless r.0
  pub fails : r.1 ≡ false → (r.0.last_error ≢ []) × (r.0.configs ≡ kept)

message :
    (m : Text) → (if ltb 0 (length m) then m else codes "No valid logger configurations found") ≢ []
message [] e = absurd (ground (arith, e))
message (c ∷ m) e = absurd (ground (arith, e))

conclude-IsOutcome : (loader : ConfigLoader) → AllSinkless loader → IsOutcome [] (conclude loader)
unfolding conclude
conclude-IsOutcome loader h = elim (List-cases loader.configs) [
  | inl e ↦
      rw (conclude, e)
        record {
          succeeds = λ k. absurd (ground (arith, k));
          fails = λ k. (message loader.last_error, e);
        }
  | inr (c, cs, e) ↦
      rw (conclude, e)
        record {
          succeeds = λ k. (λ n. absurd (ground (arith, n, e)), h);
          fails = λ k. absurd (ground (arith, k));
        }
]

fail-IsOutcome :
    (c : ℕ) (message : Text) (loader : ConfigLoader)
    → IsOutcome loader.configs (fail (c ∷ message) loader)
unfolding fail
fail-IsOutcome c message loader = record {
  succeeds = λ e. absurd (ground (arith, e));
  fails = λ e. (λ n. absurd (ground (arith, n)), refl);
}

parse_json_internal-IsOutcome :
    (content : Text) (loader : ConfigLoader)
    → Gives (IsOutcome []) (parse_json_internal content loader)
unfolding parse_json_internal Gives
parse_json_internal-IsOutcome content loader =
    elim (Option-cases (find_from (quoted (codes "loggers")) content 0)) [
      | inl n ↦ rw (parse_json_internal, n) (fail-IsOutcome _ _ _)
      | inr (p, s) ↦ elim (Option-cases (find_from (codes "[") content p)) [
        | inl n ↦ rw (parse_json_internal, s, n) (fail-IsOutcome _ _ _)
        | inr (start, t) ↦
            rw (parse_json_internal, s, t)
              (Gives-bind AllSinkless (IsOutcome []) _ (λ parsed. some (conclude parsed))
                (parse_objects-AllSinkless (length content) content (suc start)
                  (record { configs = []; last_error = [] }) (omega arith) tt)
                conclude-IsOutcome)
      ]
    ]

-- What a failed call leaves of the configurations: they are as before if the file cannot be opened,
-- and gone if its text is no configuration.
unfoldable pub kept : Option Text → ConfigLoader → List LoggerConfig
kept none loader = loader.configs
kept (some content) loader = []

-- Loading ends for every file and every text. It returns true with at least one configuration, and
-- each of them has a name, but no sinks and no sink parameters, whatever the text says. It returns
-- false with a message; then the configurations of before remain if the file cannot be opened, and
-- none otherwise.
pub load_from_json-IsOutcome :
    (path : Text) (file : Option Text) (loader : ConfigLoader)
    → (after : ConfigLoader) × (ok : Bool) × (load_from_json path file loader ≡ some (after, ok))
      × (ok ≡ true
          → (after.configs ≢ []) × All (λ c. IsSinkless c × (0 < length c.name)) after.configs)
      × (ok ≡ false → (after.last_error ≢ []) × (after.configs ≡ kept file loader))
unfolding load_from_json kept
load_from_json-IsOutcome path none loader =
    (_, _, refl, (fail-IsOutcome _ _ loader).succeeds, (fail-IsOutcome _ _ loader).fails)
load_from_json-IsOutcome path (some content) loader =
    let ((after, ok), e, r) = Gives-some _ (parse_json_internal-IsOutcome content loader) in
    (after, ok, e, r.succeeds, r.fails)
