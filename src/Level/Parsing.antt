-- ===== src/Level/Parsing.antt =====
-- The names under which a level is found, and where the two parsers differ.
use zyrnix.Prelude.{
  ◌≡◌, ◌≢◌, ◌↔◌, ◌⊎◌, refl, true, false, ◌||◌, List, [], ◌∷◌, arith, any, Text, codes, text_eq,
  text_eq_iff, inl, inr,
}
use zyrnix.Level.{
  LogLevel, trace, debug, info, warn, error, critical, lower, to_string, parse_log_level,
  level_named, config_level_named, config_log_level,
}

-- The lower-case spellings of a level that the control interface takes.
abbrev pub spellings : LogLevel → List Text
spellings trace = codes "trace" ∷ []
spellings debug = codes "debug" ∷ []
spellings info = codes "info" ∷ []
spellings warn = codes "warn" ∷ codes "warning" ∷ []
spellings error = codes "error" ∷ []
spellings critical = codes "critical" ∷ codes "fatal" ∷ []

level_named_sound :
    (t : Text) (l : LogLevel) → level_named t ≡ (true, l) → any (text_eq t) (spellings l) ≡ true
unfolding level_named
level_named_sound t trace h = ground arith
level_named_sound t debug h = ground arith
level_named_sound t info h = ground arith
level_named_sound t warn h = ground arith
level_named_sound t error h = ground arith
level_named_sound t critical h = ground arith

-- A member of a list of at most two spellings is one of them.
spelled : (t u : Text) → text_eq t u || false ≡ true → t ≡ u
spelled t u h = ground (arith, text_eq_iff t u)

spelled_two : (t u v : Text) → text_eq t u || (text_eq t v || false) ≡ true → (t ≡ u) ⊎ (t ≡ v)
spelled_two t u v h = ground (arith, text_eq_iff t u, text_eq_iff t v)

level_named_complete :
    (t : Text) (l : LogLevel) → any (text_eq t) (spellings l) ≡ true → level_named t ≡ (true, l)
unfolding level_named
level_named_complete t trace h = rw (spelled t (codes "trace") h)
level_named_complete t debug h = rw (spelled t (codes "debug") h)
level_named_complete t info h = rw (spelled t (codes "info") h)
level_named_complete t warn h = elim (spelled_two t (codes "warn") (codes "warning") h) [
  | inl e ↦ rw e
  | inr e ↦ rw e
]
level_named_complete t error h = rw (spelled t (codes "error") h)
level_named_complete t critical h = elim (spelled_two t (codes "critical") (codes "fatal") h) [
  | inl e ↦ rw e
  | inr e ↦ rw e
]

-- `parse_log_level` accepts a text as a level exactly when the text in lower case is one of that
-- level's spellings.
pub parse_log_level-spellings :
    (s : Text) (l : LogLevel)
    → (parse_log_level s ≡ (true, l)) ↔ (any (text_eq (lower s)) (spellings l) ≡ true)
unfolding parse_log_level
parse_log_level-spellings s l = (level_named_sound (lower s) l, level_named_complete (lower s) l)

-- What `to_string` prints, in any mixture of upper and lower case, is parsed as the level that was
-- printed, by both parsers.
pub parse_log_level-to_string :
    (s : Text) (l : LogLevel)
    → lower s ≡ lower (to_string l)
    → (parse_log_level s ≡ (true, l)) × (config_log_level s ≡ l)
unfolding parse_log_level level_named config_log_level config_level_named to_string lower
parse_log_level-to_string s trace h = rw h (refl, refl)
parse_log_level-to_string s debug h = rw h (refl, refl)
parse_log_level-to_string s info h = rw h (refl, refl)
parse_log_level-to_string s warn h = rw h (refl, refl)
parse_log_level-to_string s error h = rw h (refl, refl)
parse_log_level-to_string s critical h = rw h (refl, refl)

-- The parser of the configuration falls back to `info`; where the text is not "fatal" in any case,
-- it finds the level that the control interface finds, which falls back to `info` too.
pub config_log_level-parse_log_level :
    (s : Text) → lower s ≢ codes "fatal" → config_log_level s ≡ (parse_log_level s).1
unfolding config_log_level config_level_named parse_log_level level_named
config_log_level-parse_log_level s h = ground (arith, text_eq_iff (lower s) (codes "fatal"))

-- On "fatal" in any case the parsers disagree: critical for the control interface, info for the
-- configuration.
pub fatal_differs :
    (s : Text)
    → lower s ≡ codes "fatal"
    → (parse_log_level s ≡ (true, critical)) × (config_log_level s ≡ info)
unfolding config_log_level config_level_named parse_log_level level_named
fatal_differs s h = rw h (refl, refl)
