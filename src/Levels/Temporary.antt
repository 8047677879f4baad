-- ===== src/Levels/Temporary.antt =====
-- Temporary changes of the level, and the answers of the control interface.
use zyrnix.Prelude.{
  ℕ, ◌+◌, ◌*◌, ◌^◌, ◌≤◌, ◌<◌, true, false, ◌≡◌, refl, arith, Bool-cases, inl, inr, ◌⊎◌, leb, leb→le,
  if◌then◌else◌, Text,
}
use zyrnix.Level.{LogLevel, severity, parse_log_level}
use zyrnix.Levels.{
  Levels, change, has_passed, check_temporary_level_expiry, set_checked, set_level_dynamic,
  set_level_temporary, has_temporary_level,
}
use zyrnix.Levels.Control.{handle_request, apply_request}

-- A temporary change takes effect at once. If its end, in nanoseconds, is below 2 ^ 63, the check
-- leaves everything as it is until then. From then on, and at every time if the end is from 2 ^ 63 to
-- below 2 ^ 64, which is negative in the time point, the check brings back the level from before the
-- change, or, where a temporary change was already running, the level from before that one, and ends
-- the change.
pub set_level_temporary-check :
    (s : Levels) (start now : ℕ) (level : LogLevel) (duration : ℕ) (reason : Text)
    → start + duration * 10 ^ 9 < 2 ^ 64
    → let t = set_level_temporary s start level duration reason in
      (t.min_level ≡ level)
      × (((now < start + duration * 10 ^ 9)
            × (start + duration * 10 ^ 9 < 2 ^ 63)
            × (check_temporary_level_expiry t now ≡ t))
          ⊎ (((start + duration * 10 ^ 9 ≤ now) ⊎ (2 ^ 63 ≤ start + duration * 10 ^ 9))
              × ((check_temporary_level_expiry t now).min_level
                  ≡ (if s.temp_level.active then s.temp_level.original_level else s.min_level))
              × (has_temporary_level (check_temporary_level_expiry t now) ≡ false)))
unfolding set_level_temporary check_temporary_level_expiry has_temporary_level has_passed
set_level_temporary-check s start now level duration reason fits = (
  refl,
  elim (Bool-cases (leb (2 ^ 63) (start + duration * 10 ^ 9))) [
    | inl e ↦ inr (inr (leb→le _ _ e), ground (arith, e, fits), ground (arith, e, fits))
    | inr e ↦ elim (Bool-cases (leb (start + duration * 10 ^ 9) now)) [
      | inl k ↦ inr (inl (leb→le _ _ k), ground (arith, e, k, fits), ground (arith, e, k, fits))
      | inr k ↦ inl (ground (arith, k), ground (arith, e), ground (arith, e, k, fits))
    ]
  ],
)

severity_injective : (a b : LogLevel) → severity a ≡ severity b → a ≡ b
unfolding severity
severity_injective a b h = ground arith

-- A change sets the level and leaves the temporary change alone.
change_lem :
    (s : Levels) (now : ℕ) (level : LogLevel) (reason : Text)
    → ((change s now level reason).min_level ≡ level)
      × ((change s now level reason).temp_level ≡ s.temp_level)
unfolding change
change_lem s now level reason = (refl, refl)

set_checked_lem :
    (s : Levels) (now : ℕ) (level : LogLevel) (reason : Text)
    → ((set_checked s now level reason).min_level ≡ level)
      × ((set_checked s now level reason).temp_level ≡ s.temp_level)
unfolding set_checked
set_checked_lem s now level reason =
    ground (arith, severity_injective s.min_level level, change_lem s now level reason)

check-running :
    (s : Levels) (now : ℕ)
    → s.temp_level.revert_time < 2 ^ 63
    → now < s.temp_level.revert_time
    → check_temporary_level_expiry s now ≡ s
unfolding check_temporary_level_expiry has_passed
check-running s now f h = ground arith

check-expired :
    (s : Levels) (now : ℕ)
    → s.temp_level.active ≡ true
    → s.temp_level.revert_time ≤ now
    → (check_temporary_level_expiry s now).min_level ≡ s.temp_level.original_level
unfolding check_temporary_level_expiry has_passed
check-expired s now a h = ground arith

-- A level that `set_level_dynamic` sets while a temporary change runs, whose end is a time point below
-- 2 ^ 63, holds at once, but only until that change runs out: from then on the check brings back the
-- level from before the temporary change.
pub set_level_dynamic-undone :
    (s : Levels) (now later : ℕ) (level : LogLevel) (reason : Text)
    → s.temp_level.active ≡ true
    → s.temp_level.revert_time < 2 ^ 63
    → now < s.temp_level.revert_time
    → s.temp_level.revert_time ≤ later
    → ((set_level_dynamic s now level reason).min_level ≡ level)
      × ((check_temporary_level_expiry (set_level_dynamic s now level reason) later).min_level
          ≡ s.temp_level.original_level)
unfolding set_level_dynamic
set_level_dynamic-undone s now later level reason a f h k =
    let c = check-running s now f h in
    let t = set_checked_lem s now level reason in
    ground (arith, c, t, check-expired (set_checked s now level reason) later)

set_level_dynamic-level :
    (s : Levels) (now : ℕ) (level : LogLevel) (reason : Text)
    → (set_level_dynamic s now level reason).min_level ≡ level
unfolding set_level_dynamic
set_level_dynamic-level s now level reason =
    (set_checked_lem (check_temporary_level_expiry s now) now level reason).0

apply_request-level :
    (s : Levels) (now : ℕ) (level : LogLevel) (reason : Text) (duration : ℕ)
    → (apply_request s now level reason duration).0.min_level ≡ level
unfolding apply_request set_level_temporary
apply_request-level s now level reason duration =
    ground (arith, set_level_dynamic-level s now level reason)

-- A request with a valid level succeeds, and the logger then has that level and reports it, whether
-- the change is temporary or not; any other request fails and leaves the logger as it was.
pub handle_request_lem :
    (name : Text) (s : Levels) (now : ℕ) (level_str reason : Text) (duration : ℕ)
    → let (t, response) = handle_request name s now level_str reason duration in
      (response.success ≡ (parse_log_level level_str).0)
      × (response.current_level ≡ t.min_level)
      × (response.logger_name ≡ name)
      × ((parse_log_level level_str).0 ≡ true → t.min_level ≡ (parse_log_level level_str).1)
      × ((parse_log_level level_str).0 ≡ false → t ≡ s)
unfolding handle_request
handle_request_lem name s now level_str reason duration =
    ground (arith, apply_request-level s now (parse_log_level level_str).1 reason duration)
