-- ===== src/Levels/History.antt =====
-- The history of level changes: its bound, and that it ends with the level in force.
use zyrnix.Prelude.{
  ℕ, ◌≤◌, false, List, [], ◌∷◌, ◌++◌, ◌≡◌, refl, arith, ◌==◌, if-both, Text, length,
}
use zyrnix.Level.{LogLevel, severity}
use zyrnix.Levels.{
  Levels, LevelChangeEntry, trim, change, revert, has_passed, check_temporary_level_expiry,
  set_checked, set_level_dynamic, register_level_change_callback, clear_level_change_callbacks,
  set_level_temporary, cancel_temporary_level, clear_level_history, set_max_history_entries,
}

-- The calls that change the state of a level.
pub data Op : Type 0 where
  sets_dynamic : LogLevel → Text → Op
  sets_temporary : LogLevel → ℕ → Text → Op
  cancels checks clears_history clears_callbacks : Op
  limits_history registers : ℕ → Op

unfoldable pub apply : Levels → ℕ → Op → Levels
apply s now (sets_dynamic level reason) = set_level_dynamic s now level reason
apply s now (sets_temporary level duration reason) = set_level_temporary s now level duration reason
apply s now cancels = cancel_temporary_level s now
apply s now checks = check_temporary_level_expiry s now
apply s now clears_history = clear_level_history s
apply s now clears_callbacks = clear_level_change_callbacks s
apply s now (limits_history n) = set_max_history_entries s n
apply s now (registers callback) = register_level_change_callback s callback

-- The last entry's new level, or the given one.
unfoldable pub last_level : LogLevel → List LevelChangeEntry → LogLevel
last_level l [] = l
last_level l (e ∷ es) = last_level e.new_level es

pub record IsCurrent (s : Levels) : Type 0 where
  pub bounded : length s.level_history ≤ s.max_history_entries
  pub current : last_level s.min_level s.level_history ≡ s.min_level

length-trim : (n : ℕ) (es : List LevelChangeEntry) → length (trim n es) ≤ n
unfolding trim
length-trim n [] = omega arith
length-trim n (e ∷ es) = ground (arith, length-trim n es)

last_level-append :
    (l : LogLevel) (es : List LevelChangeEntry) (e : LevelChangeEntry)
    → last_level l (es ++ e ∷ []) ≡ e.new_level
unfolding last_level
last_level-append l [] e = refl
last_level-append l (d ∷ es) e = last_level-append d.new_level es e

-- Dropping old entries leaves the last, or none.
last_level-trim :
    (l : LogLevel) (n : ℕ) (es : List LevelChangeEntry)
    → last_level l es ≡ l
    → last_level l (trim n es) ≡ l
unfolding trim last_level
last_level-trim l n [] h = refl
last_level-trim l n (e ∷ []) h = ground arith
last_level-trim l n (e ∷ d ∷ es) h = ground (arith, last_level-trim l n (d ∷ es) h)

change-IsCurrent :
    (s : Levels) (now : ℕ) (level : LogLevel) (reason : Text)
    → IsCurrent (change s now level reason)
unfolding change
change-IsCurrent s now level reason =
    let e : LevelChangeEntry = record {
      old_level = s.min_level;
      new_level = level;
      timestamp = now;
      reason = reason;
    } in
    record {
      bounded = length-trim s.max_history_entries (s.level_history ++ e ∷ []);
      current =
          last_level-trim level s.max_history_entries (s.level_history ++ e ∷ [])
            (last_level-append level s.level_history e);
    }

revert-IsCurrent : (s : Levels) (now : ℕ) (reason : Text) → IsCurrent (revert s now reason)
unfolding revert
revert-IsCurrent s now reason =
    change-IsCurrent (record s { temp_level = record s.temp_level { active = false } }) now
      s.temp_level.original_level reason

check-IsCurrent :
    (s : Levels) (now : ℕ) → IsCurrent s → IsCurrent (check_temporary_level_expiry s now)
unfolding check_temporary_level_expiry
check-IsCurrent s now h =
    if-both IsCurrent s.temp_level.active
      (if-both IsCurrent (has_passed s.temp_level.revert_time now) (revert-IsCurrent s now _) h) h

set_checked-IsCurrent :
    (s : Levels) (now : ℕ) (level : LogLevel) (reason : Text)
    → IsCurrent s
    → IsCurrent (set_checked s now level reason)
unfolding set_checked
set_checked-IsCurrent s now level reason h =
    if-both IsCurrent (severity s.min_level == severity level) h
      (change-IsCurrent s now level reason)

set_max_history_entries-IsCurrent :
    (s : Levels) (n : ℕ) → IsCurrent s → IsCurrent (set_max_history_entries s n)
unfolding set_max_history_entries
set_max_history_entries-IsCurrent s n h = record {
  bounded = length-trim n s.level_history;
  current = last_level-trim s.min_level n s.level_history h.current;
}

-- Every call but the plain `set_level` keeps the history within its limit, and a history that is
-- not empty ends with the level in force.
pub apply-IsCurrent : (s : Levels) (now : ℕ) (op : Op) → IsCurrent s → IsCurrent (apply s now op)
unfolding apply set_level_dynamic set_level_temporary cancel_temporary_level clear_level_history
    clear_level_change_callbacks register_level_change_callback last_level
apply-IsCurrent s now (sets_dynamic level reason) h =
    set_checked-IsCurrent _ now level reason (check-IsCurrent s now h)
apply-IsCurrent s now (sets_temporary level duration reason) h = change-IsCurrent _ now level _
apply-IsCurrent s now cancels h = if-both IsCurrent s.temp_level.active (revert-IsCurrent s now _) h
apply-IsCurrent s now checks h = check-IsCurrent s now h
apply-IsCurrent s now clears_history h = record { bounded = omega arith; current = refl }
apply-IsCurrent s now clears_callbacks h = ground arith
apply-IsCurrent s now (limits_history n) h = set_max_history_entries-IsCurrent s n h
apply-IsCurrent s now (registers callback) h = ground arith
