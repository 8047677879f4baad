-- ===== src/Reload/Watcher.antt =====
-- `ConfigWatcher` of src/config_watcher.cpp and `start` and `stop` of `HotReloadManager` of
-- src/hot_reload_manager.cpp. A poll is one round of the loop: what `stat` answers, the time of the
-- last modification in seconds, and what a reload finds in the file then. The wait between polls is
-- not modelled.
use zyrnix.Prelude.{
  ℕ, Bool, true, false, Option, none, some, List, [], ◌∷◌, if◌then◌else◌, ◌==◌, Text,
}
use zyrnix.Reload.{HotReloadManager, reload}

pub record ConfigWatcher : Type 0 where
  pub running : Bool
  pub last_mtime : ℕ

pub record Poll : Type 0 where
  pub st_mtime : Option ℕ
  pub file : Option Text
  pub now : ℕ

unfoldable pub init : ConfigWatcher
init = record { running = false; last_mtime = 0 }

-- The result says whether a thread is started.
unfoldable pub start : ConfigWatcher → ConfigWatcher × Bool
start w = if w.running then (w, false) else (record w { running = true }, true)

unfoldable pub stop : ConfigWatcher → ConfigWatcher
stop w = record w { running = false }

-- The first time that is seen is taken as it is.
unfoldable pub first_seen : ConfigWatcher → ℕ → ConfigWatcher
first_seen w st_mtime = if w.last_mtime == 0 then record w { last_mtime = st_mtime } else w

-- A round of `watch_loop`; the result says whether `on_change` is called.
unfoldable pub poll : ConfigWatcher → Option ℕ → ConfigWatcher × Bool
poll w st_mtime = elim st_mtime [
  | none ↦ (w, false)
  | some t ↦
      let v = first_seen w t in
      if t == v.last_mtime then (v, false) else (record v { last_mtime = t }, true)
]

module _ {Long : Type 0} (stoull : Text → Option ℕ) (stol : Text → Option Long)
    (five_seconds : Long) where
  -- The rounds until `stop`, with the manager's `reload` as `on_change`; `none` for an exception.
  unfoldable pub watch_loop :
      ConfigWatcher
      → HotReloadManager Long
      → List Poll
      → Option (ConfigWatcher × HotReloadManager Long)
  watch_loop w m [] = some (w, m)
  watch_loop w m (p ∷ ps) =
      let (v, changed) = poll w p.st_mtime in
      let next = (if changed then reload stoull stol five_seconds m p.file p.now else some m) in
      elim next [ none ↦ none | some n ↦ watch_loop v n ps ]

  -- `HotReloadManager::start` with the rounds that follow.
  unfoldable pub start_watching :
      HotReloadManager Long
      → Option Text
      → ℕ
      → List Poll
      → Option (ConfigWatcher × HotReloadManager Long)
  start_watching m file now ps = elim (reload stoull stol five_seconds m file now) [
    | none ↦ none
    | some n ↦ watch_loop (start init).0 n ps
  ]
