-- ===== src/Filter/Tests.antt =====
-- Filters and their cache at concrete inputs. The regular expressions of these tests match the text
-- that they spell.
use zyrnix.Prelude.{Bool, true, false, [], ◌∷◌, ◌≡◌, refl, Text, codes, text_eq}
use zyrnix.Level.{LogRecord, warn, error, below, severity}
use zyrnix.Filter.{
  Filter, nil, cons, or_mode, level_filter, composite_filter, regex_filter, RegexFilter,
  RegexFilterOptions, RegexFilterCache, should_log, regex_should_log, regex_matches, target,
  is_empty, update_stats, no_filters,
}
use zyrnix.Filter.Decision.{passes, matching, should_log-passes}

abbrev search : Bool → Text → Text → Bool
search icase pattern text = text_eq pattern text

abbrev valid : Bool → Text → Bool
valid icase [] = false
valid icase (c ∷ pattern) = true

abbrev said : LogRecord
said = record {
  logger_name = codes "app";
  level = warn;
  message = codes "hi";
  timestamp = 1;
  fields = [];
}

abbrev unsaid : LogRecord
unsaid = record said { message = codes "no" }

abbrev hi_filter : RegexFilter
hi_filter = record {
  pattern_str = codes "hi";
  field_name = [];
  invert = true;
  case_insensitive = false;
  track_stats = true;
  match_count = 0;
  miss_count = 0;
}

abbrev tree : Filter
tree = composite_filter or_mode (cons (level_filter error) (cons (regex_filter hi_filter) nil))

refused : (should_log search [] said tree).1 ≡ false
unfolding should_log below severity no_filters regex_should_log regex_matches target is_empty
    update_stats
refused = refl

should_log-passes_example : (should_log search [] said tree).1 ≡ passes search [] said tree
should_log-passes_example = should_log-passes search [] said tree

one_match : matching search [] hi_filter (said ∷ unsaid ∷ unsaid ∷ []) ≡ 1
unfolding matching regex_matches target is_empty
one_match = refl

abbrev fresh : RegexFilterCache
fresh = record { heap = []; cache = []; precompiled = []; cache_hits = 0; cache_misses = 0 }

abbrev plain : RegexFilterOptions
plain = record { case_insensitive = false; invert = false; track_stats = false }

abbrev counting : RegexFilterOptions
counting = record plain { track_stats = true }
