-- ===== src/Filter/Decision.antt =====
-- What a tree of filters decides, and what evaluating it changes.
use zyrnix.Prelude.{
  ℕ, suc, ◌+◌, ◌<◌, Bool, true, false, not, ◌||◌, ◌&&◌, List, [], ◌∷◌, ◌≡◌, ◌≤◌, ◌-◌, ◌∙◌, sym,
  refl, arith, if◌then◌else◌, Text, text_eq, length, word_mod,
}
use zyrnix.Level.{LogRecord, below}
use zyrnix.Context.{ContextMap}
use zyrnix.Filter.{
  Filter, Filters, and_mode, or_mode, level_filter, field_filter, lambda_filter, composite_filter,
  regex_filter, nil, cons, RegexFilter, field_value, target, regex_matches, regex_should_log,
  update_stats, get_stats, should_log, ask_all, ask_any, no_filters,
}

module _ (search : Bool → Text → Text → Bool) (context : ContextMap) (r : LogRecord) where
  -- The decision of a regular expression, whatever its counters.
  abbrev pub regex_passes : RegexFilter → Bool
  regex_passes f =
      if f.invert then not (regex_matches search context r f) else regex_matches search context r f

-- The decision without evaluation order and counters.
unfoldable mutual
  pub passes : (Bool → Text → Text → Bool) → ContextMap → LogRecord → Filter → Bool
  passes search context r (level_filter l) = not (below r.level l)
  passes search context r (field_filter name expected) =
      text_eq (field_value context r name) expected
  passes search context r (lambda_filter func) = func r
  passes search context r (composite_filter and_mode fs) = every search context r fs
  passes search context r (composite_filter or_mode fs) =
      no_filters fs || some_of search context r fs
  passes search context r (regex_filter f) = regex_passes search context r f

  pub every : (Bool → Text → Text → Bool) → ContextMap → LogRecord → Filters → Bool
  every search context r nil = true
  every search context r (cons f fs) = passes search context r f && every search context r fs

  pub some_of : (Bool → Text → Text → Bool) → ContextMap → LogRecord → Filters → Bool
  some_of search context r nil = false
  some_of search context r (cons f fs) = passes search context r f || some_of search context r fs

mutual
  unfolding should_log passes regex_should_log no_filters

  decides :
      (search : Bool → Text → Text → Bool) (c : ContextMap) (r : LogRecord) (f : Filter)
      → (should_log search c r f).1 ≡ passes search c r f
  decides search c r (level_filter l) = refl
  decides search c r (field_filter name expected) = refl
  decides search c r (lambda_filter func) = refl
  decides search c r (composite_filter and_mode nil) = refl
  decides search c r (composite_filter and_mode (cons f fs)) = decides_all search c r (cons f fs)
  decides search c r (composite_filter or_mode fs) = ground (arith, decides_any search c r fs)
  decides search c r (regex_filter f) = refl

  pub decides_all :
      (search : Bool → Text → Text → Bool) (c : ContextMap) (r : LogRecord) (fs : Filters)
      → (ask_all search c r fs).1 ≡ every search c r fs
  decides_all search c r nil = refl
  decides_all search c r (cons f fs) =
      ground (arith, decides search c r f, decides_all search c r fs)

  decides_any :
      (search : Bool → Text → Text → Bool) (c : ContextMap) (r : LogRecord) (fs : Filters)
      → (ask_any search c r fs).1 ≡ some_of search c r fs
  decides_any search c r nil = refl
  decides_any search c r (cons f fs) =
      ground (arith, decides search c r f, decides_any search c r fs)

-- A filter decides as its tree says: a composite filter in the mode AND passes a record that all of
-- its filters pass, one in the mode OR a record that some of them passes, and an empty one every
-- record. Which filters are asked, and what their counters hold, makes no difference.
pub should_log-passes :
    (search : Bool → Text → Text → Bool) (c : ContextMap) (r : LogRecord) (f : Filter)
    → (should_log search c r f).1 ≡ passes search c r f
should_log-passes search c r f = decides search c r f

no_filters-ask_any :
    (search : Bool → Text → Text → Bool) (c : ContextMap) (r : LogRecord) (fs : Filters)
    → no_filters (ask_any search c r fs).0 ≡ no_filters fs
unfolding should_log no_filters
no_filters-ask_any search c r nil = refl
no_filters-ask_any search c r (cons f fs) = ground arith

mutual
  unfolding should_log passes regex_should_log no_filters update_stats regex_matches

  stable :
      (search : Bool → Text → Text → Bool) (c d : ContextMap) (r q : LogRecord) (f : Filter)
      → passes search d q (should_log search c r f).0 ≡ passes search d q f
  stable search c d r q (level_filter l) = refl
  stable search c d r q (field_filter name expected) = refl
  stable search c d r q (lambda_filter func) = refl
  stable search c d r q (composite_filter and_mode fs) = stable_all search c d r q fs
  stable search c d r q (composite_filter or_mode fs) =
      ground (arith, stable_any search c d r q fs, no_filters-ask_any search c r fs)
  stable search c d r q (regex_filter f) = ground arith

  stable_all :
      (search : Bool → Text → Text → Bool) (c d : ContextMap) (r q : LogRecord) (fs : Filters)
      → every search d q (ask_all search c r fs).0 ≡ every search d q fs
  stable_all search c d r q nil = refl
  stable_all search c d r q (cons f fs) =
      ground (arith, stable search c d r q f, stable_all search c d r q fs)

  stable_any :
      (search : Bool → Text → Text → Bool) (c d : ContextMap) (r q : LogRecord) (fs : Filters)
      → some_of search d q (ask_any search c r fs).0 ≡ some_of search d q fs
  stable_any search c d r q nil = refl
  stable_any search c d r q (cons f fs) =
      ground (arith, stable search c d r q f, stable_any search c d r q fs)

-- Evaluating a filter on one record does not change what it decides of any other.
pub should_log-stable :
    (search : Bool → Text → Text → Bool) (c d : ContextMap) (r q : LogRecord) (f : Filter)
    → (should_log search d q (should_log search c r f).0).1 ≡ (should_log search d q f).1
should_log-stable search c d r q f =
    decides search d q (should_log search c r f).0
    ∙ stable search c d r q f
    ∙ sym (decides search d q f)

module _ (search : Bool → Text → Text → Bool) (context : ContextMap) where
  -- A filter asked about one record after the other.
  unfoldable pub ask_each : RegexFilter → List LogRecord → RegexFilter
  ask_each f [] = f
  ask_each f (r ∷ rs) = ask_each (regex_should_log search context r f).0 rs

  -- How many records hold the pattern.
  unfoldable pub matching : RegexFilter → List LogRecord → ℕ
  matching f [] = 0
  matching f (r ∷ rs) =
      let rest = matching f rs in if regex_matches search context r f then suc rest else rest

  matching-le : (f : RegexFilter) (rs : List LogRecord) → matching f rs ≤ length rs
  unfolding matching
  matching-le f [] = omega arith
  matching-le f (r ∷ rs) = ground (arith, matching-le f rs)

  matching-counters :
      (f : RegexFilter) (m n : ℕ) (rs : List LogRecord)
      → matching (record f { match_count = m; miss_count = n }) rs ≡ matching f rs
  unfolding matching regex_matches target
  matching-counters f m n [] = refl
  matching-counters f m n (r ∷ rs) = ground (arith, matching-counters f m n rs)

  tracked :
      (f : RegexFilter) (rs : List LogRecord)
      → f.track_stats ≡ true
      → f.match_count + f.miss_count + length rs < word_mod
      → ask_each f rs ≡ record f {
        match_count = f.match_count + matching f rs;
        miss_count = f.miss_count + (length rs - matching f rs);
      }
  unfolding ask_each regex_should_log update_stats matching
  tracked f [] t h = ground arith
  tracked f (r ∷ rs) t h =
      let hit = record f { match_count = f.match_count + 1 } in
      let miss = record f { miss_count = f.miss_count + 1 } in
      ground (
        arith,
        tracked hit rs,
        tracked miss rs,
        matching-counters f (f.match_count + 1) f.miss_count rs,
        matching-counters f f.match_count (f.miss_count + 1) rs,
        matching-le f rs,
      )

  -- With statistics on, a fresh filter that was asked about some records reports as matches those
  -- that hold its pattern, as misses the others, and as checks their number, inverted or not.
  pub get_stats-ask_each :
      (f : RegexFilter) (rs : List LogRecord)
      → f.track_stats ≡ true
      → f.match_count ≡ 0
      → f.miss_count ≡ 0
      → length rs < word_mod
      → let s = get_stats (ask_each f rs) in
        (s.matches ≡ matching f rs)
        × (s.matches + s.misses ≡ length rs)
        × (s.total_checks ≡ length rs)
  unfolding get_stats
  get_stats-ask_each f rs t m n h = ground (arith, tracked f rs, matching-le f rs)
