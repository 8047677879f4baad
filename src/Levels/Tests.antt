-- ===== src/Levels/Tests.antt =====
-- Level changes at concrete inputs.
use zyrnix.Prelude.{
  split_on, ◌*◌, ◌+◌, ◌^◌, ◌≤◌, ◌<◌, true, false, [], ◌∷◌, ◌≡◌, refl, arith, ◌⊎◌, codes,
  if◌then◌else◌,
}
use zyrnix.Level.{debug, warn, parse_log_level}
use zyrnix.Levels.{
  Levels, init, set_level_temporary, check_temporary_level_expiry, has_temporary_level,
}
use zyrnix.Level.{level_named, lower, to_lower}
use zyrnix.Levels.Control.{handle_request, rejected}
use zyrnix.Levels.Response.{response_json, level_text, answer_pieces, handle_request-json}
use zyrnix.Health.Reports.{comma_rows, row, in_quotes, truth}
use zyrnix.Health.Reports.Shape.{outside, broken, scan, step, is_white, after_comma, is_plain}
use zyrnix.Levels.History.{IsCurrent, sets_temporary, apply, apply-IsCurrent, last_level}
use zyrnix.Levels.Temporary.{set_level_temporary-check}

init-IsCurrent : IsCurrent init
unfolding init last_level
init-IsCurrent = record { bounded = omega arith; current = refl }

apply-IsCurrent_example : IsCurrent (apply init 5 (sets_temporary debug 60 (codes "why")))
apply-IsCurrent_example =
    apply-IsCurrent init 5 (sets_temporary debug 60 (codes "why")) init-IsCurrent

set_level_temporary-check_example :
    let t = set_level_temporary init 5 debug 60 [] in
    (t.min_level ≡ debug)
    × (((100 < 5 + 60 * 10 ^ 9)
          × (5 + 60 * 10 ^ 9 < 2 ^ 63)
          × (check_temporary_level_expiry t 100 ≡ t))
        ⊎ (((5 + 60 * 10 ^ 9 ≤ 100) ⊎ (2 ^ 63 ≤ 5 + 60 * 10 ^ 9))
            × ((check_temporary_level_expiry t 100).min_level ≡ (
                if init.temp_level.active then init.temp_level.original_level else init.min_level))
            × (has_temporary_level (check_temporary_level_expiry t 100) ≡ false)))
set_level_temporary-check_example = set_level_temporary-check init 5 100 debug 60 [] (omega arith)

-- A temporary change from `warn` to `debug` is running.
abbrev running : Levels
running = record {
  min_level = debug;
  level_change_callbacks = 7 ∷ [];
  notices = [];
  level_history = [];
  max_history_entries = 100;
  temp_level = record { original_level = warn; revert_time = 50; active = true };
}

-- A request that is taken, for five seconds.
handle_request-json_example :
    let (t, r) = handle_request (codes "app") running 10 (codes "warn") [] 5 in
    (scan ([], outside) (response_json r) ≡ ([], outside))
    × (parse_log_level (level_text t.min_level) ≡ (true, t.min_level))
    × ((((parse_log_level (codes "warn")).0 ≡ true)
          × (t.min_level ≡ (parse_log_level (codes "warn")).1)
          × (split_on 34 (response_json r)
              ≡ answer_pieces (codes "true") r.message (codes "app") (level_text t.min_level)))
        ⊎ (((parse_log_level (codes "warn")).0 ≡ false)
            × (t ≡ running)
            × (split_on 34 (response_json r)
                ≡ answer_pieces
                    (codes "false")
                    (codes "Invalid log level: warn")
                    (codes "app")
                    (level_text debug))))
unfolding is_plain
handle_request-json_example =
    handle_request-json (codes "app") running 10 (codes "warn") [] 5 refl refl []

-- A quote in the requested level ends the message in the answer.
quote_breaks :
    (scan
      ([], outside)
      (response_json (handle_request (codes "app") running 10 (codes "\", 1") [] 5).1)).1
    ≡ broken
unfolding handle_request rejected parse_log_level level_named lower to_lower response_json
    comma_rows row in_quotes truth level_text scan step is_white after_comma
quote_breaks = refl
