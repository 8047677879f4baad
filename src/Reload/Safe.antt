-- ===== src/Reload/Safe.antt =====
-- What a reload leaves.
use zyrnix.Prelude.{
  ℕ, ◌≡◌, ◌≢◌, refl, ap, ◌∙◌, Option, none, some, true, false, lookup, [], Text, add_word, All, ◌⊎◌,
  inl, inr, Bool-cases,
}
use zyrnix.Config.{load_from_json}
use zyrnix.Config.Outcome.{load_from_json-IsOutcome}
use zyrnix.Config.Silent.{IsSilent, IsMade, last_named, load_from_json-create_loggers}
use zyrnix.Reload.{HotReloadManager, replace_loggers, reload}

module _ {Long : Type 0} (stoull : Text → Option ℕ) (stol : Text → Option Long)
    (five_seconds : Long) where
  -- A reload always returns, whatever the file holds. If the file cannot be loaded, the loggers of
  -- before stay, with the time of the last reload, the failure is counted and there is a message. If
  -- it can, the loggers are replaced by those of the file: under every name there is a logger exactly
  -- if a configuration of the file has that name, as the last such configuration asks for, but none
  -- has a sink; the success is counted and the time kept.
  pub reload_lem :
      (m : HotReloadManager Long) (file : Option Text) (now : ℕ)
      → (t : HotReloadManager Long) × (reload stoull stol five_seconds m file now ≡ some t)
        × (((load_from_json m.config_path file m.loader ≡ some (t.loader, false))
              × (t.loggers ≡ m.loggers)
              × (t.last_reload_time ≡ m.last_reload_time)
              × (t.reload_failures ≡ add_word m.reload_failures 1)
              × (t.reload_successes ≡ m.reload_successes)
              × (t.loader.last_error ≢ []))
            ⊎ ((load_from_json m.config_path file m.loader ≡ some (t.loader, true))
                × ((name : Text)
                    → IsMade (last_named name none t.loader.configs) (lookup name t.loggers))
                × All (λ e. IsSilent e.1) t.loggers
                × (t.last_reload_time ≡ now)
                × (t.reload_failures ≡ m.reload_failures)
                × (t.reload_successes ≡ add_word m.reload_successes 1)
                × (t.loader.configs ≢ [])))
  unfolding reload replace_loggers
  reload_lem m file now =
      let (after, ok, e, succeeds, fails) = load_from_json-IsOutcome m.config_path file m.loader in
      elim (Bool-cases ok) [
        | inr h ↦ (
          record m { loader = after; reload_failures = add_word m.reload_failures 1 },
          rw (reload, e, h) refl,
          inl (e ∙ ap (λ b. some (after, b)) h, refl, refl, refl, refl, (fails h).0),
        )
        | inl h ↦
            let loaded = e ∙ ap (λ b. some (after, b)) h in
            let (loggers, c, matching, silent) =
              load_from_json-create_loggers stoull stol five_seconds m.config_path file m.loader
                after loaded in
            (
              record m {
                loader = after;
                loggers = loggers;
                last_reload_time = now;
                reload_successes = add_word m.reload_successes 1;
              },
              rw (reload, e, h, replace_loggers, c) refl,
              inr (loaded, matching, silent, refl, refl, refl, (succeeds h).0),
            )
      ]
