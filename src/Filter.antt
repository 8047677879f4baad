-- ===== src/Filter.antt =====
-- src/log_filter.cpp and include/Zyrnix/log_filter.hpp. `std::regex` is a parameter: `valid icase p`
-- is whether the constructor takes the pattern `p` without throwing, `search icase p t` the answer
-- of `std::regex_search`. A filter that evaluates hands back itself with its counters moved on;
-- a filter that stands in two places of a tree is two filters here.
pub mod Decision
pub mod Cache
mod Tests
use zyrnix.Prelude.{
  ℕ, suc, ◌+◌, Bool, true, false, not, ◌||◌, Option, none, some, List, [], ◌∷◌, ◌++◌, if◌then◌else◌,
  Text, codes, text_eq, Dict, lookup, insert, add_word, length,
}
use zyrnix.Level.{LogLevel, LogRecord, below, get_field}
use zyrnix.Context.{ContextMap}

pub data Mode : Type 0 where
  and_mode or_mode : Mode

pub record FilterStats : Type 0 where
  pub matches : ℕ
  pub misses : ℕ
  pub total_checks : ℕ

pub record RegexFilterOptions : Type 0 where
  pub case_insensitive : Bool
  pub invert : Bool
  pub track_stats : Bool

pub record RegexFilter : Type 0 where
  pub pattern_str : Text
  pub field_name : Text
  pub invert : Bool
  pub case_insensitive : Bool
  pub track_stats : Bool
  pub match_count : ℕ
  pub miss_count : ℕ

-- The subclasses of `LogFilter`.
mutual
  pub data Filter : Type 0 where
    level_filter : LogLevel → Filter
    field_filter : Text → Text → Filter
    lambda_filter : (LogRecord → Bool) → Filter
    composite_filter : Mode → Filters → Filter
    regex_filter : RegexFilter → Filter

  pub data Filters : Type 0 where
    nil : Filters
    cons : Filter → Filters → Filters

unfoldable pub is_empty : Text → Bool
is_empty [] = true
is_empty (c ∷ s) = false

-- The field's value in the thread's context, or else in the record.
unfoldable pub field_value : ContextMap → LogRecord → Text → Text
field_value context r name = elim (lookup name context) [ none ↦ get_field r name | some v ↦ v ]

unfoldable pub target : ContextMap → LogRecord → RegexFilter → Text
target context r f = if is_empty f.field_name then r.message else field_value context r f.field_name

unfoldable pub update_stats : RegexFilter → Bool → RegexFilter
update_stats f matched =
    if f.track_stats
    then if matched
      then record f { match_count = add_word f.match_count 1 }
      else record f { miss_count = add_word f.miss_count 1 }
    else f

unfoldable pub get_stats : RegexFilter → FilterStats
get_stats f = record {
  matches = f.match_count;
  misses = f.miss_count;
  total_checks = add_word f.match_count f.miss_count;
}

unfoldable pub reset_stats : RegexFilter → RegexFilter
reset_stats f = record f { match_count = 0; miss_count = 0 }

-- `add_filter` of a composite filter.
unfoldable pub add_filter : Filters → Filter → Filters
add_filter nil f = cons f nil
add_filter (cons g gs) f = cons g (add_filter gs f)

module _ (valid : Bool → Text → Bool) where
  -- The constructors with options; `none` is the exception for a pattern that does not compile.
  unfoldable pub make_regex : Text → Text → RegexFilterOptions → Option RegexFilter
  make_regex field_name pattern o =
      if valid o.case_insensitive pattern
      then some (record {
        pattern_str = pattern;
        field_name = field_name;
        invert = o.invert;
        case_insensitive = o.case_insensitive;
        track_stats = o.track_stats;
        match_count = 0;
        miss_count = 0;
      })
      else none

module _ (search : Bool → Text → Text → Bool) (context : ContextMap) (r : LogRecord) where
  unfoldable pub regex_matches : RegexFilter → Bool
  unfolding target
  regex_matches f = search f.case_insensitive f.pattern_str (target context r f)

  -- `RegexFilter::should_log`.
  unfoldable pub regex_should_log : RegexFilter → RegexFilter × Bool
  regex_should_log f =
      let matches = regex_matches f in
      (update_stats f matches, if f.invert then not matches else matches)

unfoldable pub no_filters : Filters → Bool
no_filters nil = true
no_filters (cons f fs) = false

-- `should_log` of each class. `ask_all` and `ask_any` are the loops of the composite filter: the
-- filters after the deciding one are not asked.
unfoldable mutual
  pub should_log : (Bool → Text → Text → Bool) → ContextMap → LogRecord → Filter → Filter × Bool
  should_log search context r (level_filter min_level) =
      (level_filter min_level, not (below r.level min_level))
  should_log search context r (field_filter name expected) =
      (field_filter name expected, text_eq (field_value context r name) expected)
  should_log search context r (lambda_filter func) = (lambda_filter func, func r)
  should_log search context r (composite_filter and_mode fs) =
      let (gs, answer) = ask_all search context r fs in
      (composite_filter and_mode gs, no_filters fs || answer)
  should_log search context r (composite_filter or_mode fs) =
      let (gs, answer) = ask_any search context r fs in
      (composite_filter or_mode gs, no_filters fs || answer)
  should_log search context r (regex_filter f) =
      let (g, answer) = regex_should_log search context r f in (regex_filter g, answer)

  pub ask_all : (Bool → Text → Text → Bool) → ContextMap → LogRecord → Filters → Filters × Bool
  ask_all search context r nil = (nil, true)
  ask_all search context r (cons f fs) =
      let (g, answer) = should_log search context r f in
      let (gs, rest) = ask_all search context r fs in
      if answer then (cons g gs, rest) else (cons g fs, false)

  pub ask_any : (Bool → Text → Text → Bool) → ContextMap → LogRecord → Filters → Filters × Bool
  ask_any search context r nil = (nil, false)
  ask_any search context r (cons f fs) =
      let (g, answer) = should_log search context r f in
      let (gs, rest) = ask_any search context r fs in
      if answer then (cons g fs, true) else (cons g gs, rest)

-- The address of a filter on the heap; two equal addresses are one shared filter.
pub record RegexFilterCache : Type 0 where
  pub heap : List RegexFilter
  pub cache : Dict ℕ
  pub precompiled : Dict ℕ
  pub cache_hits : ℕ
  pub cache_misses : ℕ

unfoldable pub make_cache_key : Text → Text → RegexFilterOptions → Text
make_cache_key pattern field o =
    pattern
    ++ (codes "|"
        ++ (field
            ++ (codes "|"
                ++ ((if o.case_insensitive then codes "i" else [])
                    ++ (if o.invert then codes "v" else [])))))

-- A filter put on the heap, with its address.
unfoldable pub allocate : RegexFilterCache → RegexFilter → RegexFilterCache × ℕ
allocate c f = (record c { heap = c.heap ++ f ∷ [] }, length c.heap)

unfoldable pub cache_insert : Text → RegexFilterCache × ℕ → RegexFilterCache × Option ℕ
cache_insert key (c, address) = (record c { cache = insert key address c.cache }, some address)

unfoldable pub precompile_insert : Text → RegexFilterCache × ℕ → RegexFilterCache × Option ℕ
precompile_insert name (c, address) =
    (record c { precompiled = insert name address c.precompiled }, some address)

module _ (valid : Bool → Text → Bool) where
  -- A miss: the counter moves before the constructor may throw (`none`).
  unfoldable pub create :
      RegexFilterCache → Text → Text → RegexFilterOptions → RegexFilterCache × Option ℕ
  create c field_name pattern o =
      let counted = record c { cache_misses = add_word c.cache_misses 1 } in
      elim (make_regex valid field_name pattern o) [
        | none ↦ (counted, none)
        | some f ↦ cache_insert (make_cache_key pattern field_name o) (allocate counted f)
      ]

  unfoldable pub get_or_create :
      RegexFilterCache → Text → Text → RegexFilterOptions → RegexFilterCache × Option ℕ
  get_or_create c field_name pattern o =
      elim (lookup (make_cache_key pattern field_name o) c.cache) [
        | some address ↦ (record c { cache_hits = add_word c.cache_hits 1 }, some address)
        | none ↦ create c field_name pattern o
      ]

  -- `none` for the second component is the exception of the constructor.
  unfoldable pub precompile :
      RegexFilterCache → Text → Text → RegexFilterOptions → RegexFilterCache × Option ℕ
  precompile c name pattern o = elim (make_regex valid [] pattern o) [
    | none ↦ (c, none)
    | some f ↦ precompile_insert name (allocate c f)
  ]

unfoldable pub get_precompiled : RegexFilterCache → Text → Option ℕ
get_precompiled c name = lookup name c.precompiled

unfoldable pub clear : RegexFilterCache → RegexFilterCache
clear c = record c { cache = [] }

unfoldable pub cache_size : RegexFilterCache → ℕ
cache_size c = length c.cache
