-- ===== src/Levels.antt =====
-- The level of a logger: the part of src/logger.cpp and include/Zyrnix/logger.hpp that changes it,
-- with its history, its temporary changes and its callbacks. Every call runs alone; the reading of
-- the system clock, in nanoseconds, is an argument, not negative and below 2 ^ 63. A callback is known by its number, and the calls
-- made to callbacks are kept in the order in which they are made.
pub mod History
pub mod Control
pub mod Response
pub mod Temporary
mod Tests
use zyrnix.Prelude.{
  ℕ, suc, ◌+◌, ◌-◌, ◌*◌, ◌/◌, ◌^◌, min, Bool, true, false, not, Option, none, some, List, [], ◌∷◌,
  ◌++◌, map, ◌||◌, add_word, ltb, leb, ◌==◌, if◌then◌else◌, Text, codes, decimal, length, drop, ◌≡◌,
}
use zyrnix.Level.{LogLevel, trace, info, severity, parse_log_level}

pub record LevelChangeEntry : Type 0 where
  pub old_level : LogLevel
  pub new_level : LogLevel
  pub timestamp : ℕ
  pub reason : Text

pub record TemporaryLevelChange : Type 0 where
  pub original_level : LogLevel
  pub revert_time : ℕ
  pub active : Bool

-- A call of a callback.
pub record Notice : Type 0 where
  pub callback : ℕ
  pub old_level : LogLevel
  pub new_level : LogLevel

pub record Levels : Type 0 where
  pub min_level : LogLevel
  pub level_change_callbacks : List ℕ
  pub notices : List Notice
  pub level_history : List LevelChangeEntry
  pub max_history_entries : ℕ
  pub temp_level : TemporaryLevelChange

-- The members that the constructor leaves alone have their default values.
unfoldable pub init : Levels
init = record {
  min_level = trace;
  level_change_callbacks = [];
  notices = [];
  level_history = [];
  max_history_entries = 100;
  temp_level = record { original_level = trace; revert_time = 0; active = false };
}

-- `while (level_history_.size() > max_history_entries_) level_history_.pop_front();`
unfoldable pub trim : ℕ → List LevelChangeEntry → List LevelChangeEntry
trim max_entries [] = []
trim max_entries (e ∷ es) =
    let rest = trim max_entries es in if ltb max_entries (length (e ∷ es)) then rest else e ∷ es

unfoldable pub record_level_change : Levels → ℕ → LogLevel → LogLevel → Text → Levels
record_level_change s now old_level new_level reason = record s {
  level_history = trim s.max_history_entries (
      s.level_history
      ++ record { old_level = old_level; new_level = new_level; timestamp = now; reason = reason }
        ∷ []);
}

-- The loop over the callbacks.
unfoldable pub notify : Levels → LogLevel → LogLevel → Levels
notify s old_level new_level = record s {
  notices =
      s.notices
      ++ map (λ c. record { callback = c; old_level = old_level; new_level = new_level })
          s.level_change_callbacks;
}

-- A new level, its entry in the history and its callbacks.
unfoldable pub change : Levels → ℕ → LogLevel → Text → Levels
unfolding record_level_change notify
change s now level reason =
    notify (record_level_change (record s { min_level = level }) now s.min_level level reason)
      s.min_level level

unfoldable pub set_level : Levels → LogLevel → Levels
set_level s level = record s { min_level = level }

unfoldable pub get_level : Levels → LogLevel
get_level s = s.min_level

-- The 64 bits of a time point that are a negative number of nanoseconds, from 2 ^ 63 on.
abbrev pub sign_bit : ℕ
sign_bit = 2 ^ 63

-- `now >= revert_time`, the time point being signed.
unfoldable pub has_passed : ℕ → ℕ → Bool
has_passed revert_time now = leb sign_bit revert_time || leb revert_time now

-- The end of a temporary change.
unfoldable pub revert : Levels → ℕ → Text → Levels
unfolding change
revert s now reason =
    change (record s { temp_level = record s.temp_level { active = false } }) now
      s.temp_level.original_level reason

unfoldable pub check_temporary_level_expiry : Levels → ℕ → Levels
unfolding revert
check_temporary_level_expiry s now =
    if s.temp_level.active
    then if has_passed s.temp_level.revert_time now
      then revert s now (codes "Temporary level expired")
      else s
    else s

-- `set_level_dynamic` after the check of the temporary level.
unfoldable pub set_checked : Levels → ℕ → LogLevel → Text → Levels
unfolding change
set_checked s now level reason =
    if severity s.min_level == severity level then s else change s now level reason

unfoldable pub set_level_dynamic : Levels → ℕ → LogLevel → Text → Levels
set_level_dynamic s now level reason =
    set_checked (check_temporary_level_expiry s now) now level reason

unfoldable pub register_level_change_callback : Levels → ℕ → Levels
register_level_change_callback s callback = record s {
  level_change_callbacks = s.level_change_callbacks ++ callback ∷ [];
}

unfoldable pub clear_level_change_callbacks : Levels → Levels
clear_level_change_callbacks s = record s { level_change_callbacks = [] }

unfoldable pub temporary_reason : Text → ℕ → Text
temporary_reason [] duration =
    codes "Temporary level change for " ++ (decimal duration ++ codes "s")
temporary_reason (c ∷ reason) duration =
    (c ∷ reason) ++ (codes " (temporary, " ++ (decimal duration ++ codes "s)"))

-- `duration` is a number of seconds, not negative: a negative one, whose time has passed, is not
-- modelled. The time point has 64 bits and a sign; a sum that does not fit is taken to wrap.
unfoldable pub set_level_temporary : Levels → ℕ → LogLevel → ℕ → Text → Levels
unfolding change temporary_reason
set_level_temporary s now level duration reason =
    change
      (record s {
        temp_level = record {
          original_level = if s.temp_level.active then s.temp_level.original_level else s.min_level;
          revert_time = add_word now (duration * 10 ^ 9);
          active = true;
        };
      })
      now level (temporary_reason reason duration)

unfoldable pub cancel_temporary_level : Levels → ℕ → Levels
unfolding revert
cancel_temporary_level s now =
    if s.temp_level.active then revert s now (codes "Temporary level cancelled") else s

unfoldable pub has_temporary_level : Levels → Bool
has_temporary_level s = s.temp_level.active

-- In whole seconds.
unfoldable pub remaining_temporary_duration : Levels → ℕ → ℕ
remaining_temporary_duration s now =
    if s.temp_level.active
    then if has_passed s.temp_level.revert_time now
      then 0
      else (s.temp_level.revert_time - now) / 10 ^ 9
    else 0

-- The last `max_entries` entries, oldest first.
unfoldable pub get_level_history : Levels → ℕ → List LevelChangeEntry
get_level_history s max_entries =
    let count = min max_entries (length s.level_history) in
    drop (length s.level_history - count) s.level_history

unfoldable pub clear_level_history : Levels → Levels
clear_level_history s = record s { level_history = [] }

unfoldable pub set_max_history_entries : Levels → ℕ → Levels
unfolding trim
set_max_history_entries s max_entries = record s {
  max_history_entries = max_entries;
  level_history = trim max_entries s.level_history;
}
