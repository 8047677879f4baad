-- ===== src/Level/Tests.antt =====
-- Level names at concrete inputs.
use zyrnix.Prelude.{◌≡◌, refl, true, codes}
use zyrnix.Level.{warn, to_string, lower, parse_log_level, config_log_level}
use zyrnix.Level.Parsing.{parse_log_level-to_string}

parse_log_level-to_string_example :
    (parse_log_level (codes "Warn") ≡ (true, warn)) × (config_log_level (codes "Warn") ≡ warn)
unfolding lower to_string
parse_log_level-to_string_example = parse_log_level-to_string (codes "Warn") warn refl
