-- ===== src/Logger/Sinks.antt =====
-- What the removal of a sink leaves.
use zyrnix.Prelude.{
  Bool, true, false, not, ◌&&◌, ◌==◌, List, [], ◌∷◌, ◌++◌, ◌≡◌, refl, arith, Text, text_eq, length,
  length-append, filter, any, all, ltb,
}
use zyrnix.Logger.{
  Logger, SinkEntry, is_live, mark_first, remove_sink, mark_at, cleanup_removed_sinks,
  remove_sink_at,
}

-- The entries that are not to be removed.
abbrev pub live : List SinkEntry → List SinkEntry
live = filter (λ e. not e.marked_for_removal)

-- What `remove_sink(name)` erases.
abbrev erased : Text → SinkEntry → Bool
erased n e = text_eq e.name n && e.marked_for_removal

live-unerased :
    (n : Text) (es : List SinkEntry) → live (filter (λ e. not (erased n e)) es) ≡ live es
live-unerased n [] = refl
live-unerased n (e ∷ es) = ground (arith, live-unerased n es)

live-append : (es ds : List SinkEntry) → live (es ++ ds) ≡ live es ++ live ds
live-append [] ds = refl
live-append (e ∷ es) ds = ground (arith, live-append es ds)

live-mark_first :
    (n : Text) (before after : List SinkEntry) (e : SinkEntry)
    → any (is_live n) before ≡ false
    → is_live n e ≡ true
    → live (mark_first n (before ++ e ∷ after)) ≡ live before ++ live after
unfolding mark_first
live-mark_first n [] after e h k = ground arith
live-mark_first n (x ∷ before) after e h k = ground (arith, live-mark_first n before after e)

any-append :
    (n : Text) (before after : List SinkEntry) (e : SinkEntry)
    → is_live n e ≡ true
    → any (is_live n) (before ++ e ∷ after) ≡ true
any-append n [] after e k = ground arith
any-append n (x ∷ before) after e k = ground (arith, any-append n before after e k)

-- `remove_sink(name)` on a logger whose first live sink of that name stands between two lists
-- succeeds and takes exactly that one of the live sinks away, in order.
pub remove_sink-first :
    (l : Logger) (n : Text) (before after : List SinkEntry) (e : SinkEntry)
    → l.sink_entries ≡ before ++ e ∷ after
    → any (is_live n) before ≡ false
    → is_live n e ≡ true
    → ((remove_sink l n).1 ≡ true)
      × (live (remove_sink l n).0.sink_entries ≡ live before ++ live after)
unfolding remove_sink
remove_sink-first l n before after e s h k = ground (
  arith,
  s,
  any-append n before after e k,
  live-mark_first n before after e h k,
  live-unerased n (mark_first n l.sink_entries),
)

-- Without a live sink of the name `remove_sink(name)` fails and changes nothing.
pub remove_sink-missing :
    (l : Logger) (n : Text) → any (is_live n) l.sink_entries ≡ false → remove_sink l n ≡ (l, false)
unfolding remove_sink
remove_sink-missing l n h = ground arith

-- Neither to be removed nor in use.
abbrev pub is_idle : SinkEntry → Bool
is_idle e = not e.marked_for_removal && e.ref_count == 0

cleanup-idle : (es : List SinkEntry) → all is_idle es ≡ true → cleanup_removed_sinks es ≡ es
unfolding cleanup_removed_sinks
cleanup-idle [] h = refl
cleanup-idle (e ∷ es) h = ground (arith, cleanup-idle es)

cleanup-mark_at :
    (before after : List SinkEntry) (e : SinkEntry)
    → all is_idle (before ++ e ∷ after) ≡ true
    → cleanup_removed_sinks (mark_at (length before) (before ++ e ∷ after)) ≡ before ++ after
unfolding mark_at cleanup_removed_sinks
cleanup-mark_at [] after e h = ground (arith, cleanup-idle after)
cleanup-mark_at (x ∷ before) after e h = ground (arith, cleanup-mark_at before after e)

within :
    (before after : List SinkEntry) (e : SinkEntry)
    → ltb (length before) (length (before ++ e ∷ after)) ≡ true
within before after e = ground (arith, length-append before (e ∷ after))

-- `remove_sink(index)` on a logger whose sinks are all idle takes the sink at the index away, so that
-- every later sink moves down by one, and leaves the overrides by index as they are: the override of
-- a later sink now stands for its successor.
pub remove_sink_at-shifts :
    (l : Logger) (before after : List SinkEntry) (e : SinkEntry)
    → l.sink_entries ≡ before ++ e ∷ after
    → all is_idle (before ++ e ∷ after) ≡ true
    → ((remove_sink_at l (length before)).1 ≡ true)
      × ((remove_sink_at l (length before)).0.sink_entries ≡ before ++ after)
      × ((remove_sink_at l (length before)).0.sink_level_overrides ≡ l.sink_level_overrides)
unfolding remove_sink_at
remove_sink_at-shifts l before after e s h =
    ground (arith, s, within before after e, cleanup-mark_at before after e h)
