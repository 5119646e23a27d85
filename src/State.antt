-- ===== src/State.antt =====
-- src/state.rs: the state that all requests share.
pub mod Made
use raas.Prelude.{ℕ, Bool, true, false, Option, none, some, if◌then◌else◌}
use raas.Io.{Result, IoError, ok, err}
use raas.Io.Paths.{FilePath}
use raas.Io.Text.{Text}
use raas.Config.{AppConfig}
use raas.Cache.Archives.{empty}
use raas.Cache.Archives.Shared.{CacheRef, Store, new_arc}
use raas.Watcher.Lifetime.{WatchHost, FileSystemWatcher, canonical_or, start}

-- `data_root` has its links resolved, unless that fails; the cache is shared with the watcher.
pub record AppState : Type 0 where
  pub config : AppConfig
  pub data_root : FilePath
  pub archive_cache : CacheRef
  pub file_watcher : Option (FileSystemWatcher CacheRef)

-- A start that fails is a warning.
unfoldable pub kept : Result Text (FileSystemWatcher CacheRef) → Option (FileSystemWatcher CacheRef)
kept (ok watcher) = some watcher
kept (err e) = none

unfoldable pub start_file_watcher :
    WatchHost → AppConfig → CacheRef → Option (FileSystemWatcher CacheRef)
start_file_watcher host config archive_cache =
    let performance = config.server_performance in
    if performance.enable_file_watcher
    then kept (start host config.data_root archive_cache performance.file_watcher_debounce_ms)
    else none

-- `AppState::new`, with the answer to its own `canonicalize`, and the caches that there are.
unfoldable pub new_state :
    {V : Type 0}
    → (FilePath → Result IoError FilePath)
    → WatchHost
    → AppConfig
    → Store V
    → AppState × Store V
new_state canonicalize host config store =
    let (archive_cache, store') =
      new_arc (empty config.server_performance.archive_cache_max_capacity) store in
    (
      record {
        config = config;
        data_root = canonical_or config.data_root (canonicalize config.data_root);
        archive_cache = archive_cache;
        file_watcher = start_file_watcher host config archive_cache;
      },
      store',
    )
