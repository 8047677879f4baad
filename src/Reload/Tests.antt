-- ===== src/Reload/Tests.antt =====
-- A reload at concrete inputs.
use zyrnix.Prelude.{
  ℕ, ◌≡◌, ◌≢◌, Option, none, some, true, false, List, [], ◌∷◌, arith, Text, codes, All, lookup, ◌⊎◌,
}
use zyrnix.Reload.{HotReloadManager, reload}
use zyrnix.Config.{load_from_json}
use zyrnix.Reload.Safe.{reload_lem}
use zyrnix.Reload.Watcher.{Poll, start_watching}
use zyrnix.Reload.Polls.{changes, reload_each, start_watching-changes}
use zyrnix.Reload.Polls.{manager as managed}
use zyrnix.Config.Silent.{IsSilent, IsMade, last_named}

abbrev manager : HotReloadManager ℕ
manager = record {
  config_path = codes "log.json";
  loader = record { configs = []; last_error = [] };
  loggers = [];
  last_reload_time = 0;
  reload_successes = 0;
  reload_failures = 0;
}

-- A reader that takes every text for 7.
abbrev seven : Text → Option ℕ
seven t = some 7

reload_lem_example :
    (t : HotReloadManager ℕ) × (reload seven seven 5 manager
        (some (codes "{\"loggers\":[{\"name\":\"a\"}]}"))
        3
      ≡ some t)
    × (((load_from_json manager.config_path
              (some (codes "{\"loggers\":[{\"name\":\"a\"}]}"))
              manager.loader
            ≡ some (t.loader, false))
          × (t.loggers ≡ [])
          × (t.last_reload_time ≡ 0)
          × (t.reload_failures ≡ 1)
          × (t.reload_successes ≡ 0)
          × (t.loader.last_error ≢ []))
        ⊎ ((load_from_json manager.config_path
                (some (codes "{\"loggers\":[{\"name\":\"a\"}]}"))
                manager.loader
              ≡ some (t.loader, true))
            × ((name : Text)
                → IsMade (last_named name none t.loader.configs) (lookup name t.loggers))
            × All (λ e. IsSilent e.1) t.loggers
            × (t.last_reload_time ≡ 3)
            × (t.reload_failures ≡ 0)
            × (t.reload_successes ≡ 1)
            × (t.loader.configs ≢ [])))
reload_lem_example =
    reload_lem seven seven 5 manager (some (codes "{\"loggers\":[{\"name\":\"a\"}]}")) 3

abbrev file : Option Text
file = some (codes "{\"loggers\":[{\"name\":\"a\"}]}")

-- The file is there, is missing, is there again with a later time, and stays.
abbrev polls : List Poll
polls =
    record { st_mtime = some 10; file = file; now = 4 }
    ∷ record { st_mtime = none; file = none; now = 5 }
    ∷ record { st_mtime = some 11; file = file; now = 6 }
    ∷ record { st_mtime = some 11; file = file; now = 7 }
    ∷ []

start_watching-changes_example :
    managed (start_watching seven seven 5 manager file 3 polls)
    ≡ elim (reload seven seven 5 manager file 3) [
      | none ↦ none
      | some n ↦ reload_each seven seven 5 n (changes none polls)
    ]
start_watching-changes_example = start_watching-changes seven seven 5 manager file 3 polls (
  λ q. absurd (ground (arith, q)),
  (
    λ q. absurd (ground (arith, q)),
    (λ q. absurd (ground (arith, q)), (λ q. absurd (ground (arith, q)), tt)),
  ),
)
