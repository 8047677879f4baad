-- ===== src/Reload.antt =====
-- `HotReloadManager` of src/hot_reload_manager.cpp; the thread that watches the file is in
-- Reload/Watcher. The static state of `ConfigLoader` is part of the record. What the file holds
-- at a reload, `none` if it cannot be opened, and the time are arguments.
pub mod Safe
pub mod Watcher
pub mod Polls
mod Tests
use zyrnix.Prelude.{
  ℕ, Bool, true, false, Option, none, some, List, [], Text, Dict, lookup, add_word, if◌then◌else◌,
}
use zyrnix.Config.{ConfigLoader, load_from_json}
use zyrnix.Config.Create.{Created, create_loggers}

pub record HotReloadManager (Long : Type 0) : Type 0 where
  pub config_path : Text
  pub loader : ConfigLoader
  pub loggers : Dict (Created Long)
  pub last_reload_time : ℕ
  pub reload_successes : ℕ
  pub reload_failures : ℕ

unfoldable pub get_logger : {Long : Type 0} → HotReloadManager Long → Text → Option (Created Long)
get_logger m name = lookup name m.loggers

module _ {Long : Type 0} (stoull : Text → Option ℕ) (stol : Text → Option Long)
    (five_seconds : Long) where
  -- `reload` after the configuration has been read with success; `none` for an exception.
  unfoldable pub replace_loggers :
      HotReloadManager Long → ConfigLoader → ℕ → Option (HotReloadManager Long)
  replace_loggers m after now = elim (create_loggers stoull stol five_seconds after.configs) [
    | none ↦ none
    | some loggers ↦ some (record m {
      loader = after;
      loggers = loggers;
      last_reload_time = now;
      reload_successes = add_word m.reload_successes 1;
    })
  ]

  unfoldable pub reload : HotReloadManager Long → Option Text → ℕ → Option (HotReloadManager Long)
  reload m file now = elim (load_from_json m.config_path file m.loader) [
    | none ↦ none
    | some r ↦
        let replaced = replace_loggers m r.0 now in
        let kept =
          some (record m { loader = r.0; reload_failures = add_word m.reload_failures 1 }) in
        if r.1 then replaced else kept
  ]
