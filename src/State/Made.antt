-- ===== src/State/Made.antt =====
-- src/state.rs: what the server has once its state is made.
use raas.Prelude.{
  ◌≡◌, refl, ap, ◌∙◌, Bool, true, false, Option, none, some, List, [], ◌∷◌, ◌++◌, ◌⊎◌, inl, inr,
  length, get_elem?, if◌then◌else◌,
}
use raas.Io.{Result, IoError, ok, err}
use raas.Io.Paths.{FilePath}
use raas.Io.Text.{Text}
use raas.Config.{AppConfig}
use raas.Cache.Archives.{ArchiveCache}
use raas.Cache.Archives.Shared.{CacheRef, Store, new_arc, modify, modify_lem, after_change}
use raas.Watcher.{Wait, run_worker}
use raas.Watcher.Stale.Exact.{started}
use raas.Watcher.Lifetime.{
  WatchHost, FileSystemWatcher, Thread, canonical_or, start, new_worker, run_thread,
}
use raas.Watcher.Lifetime.Ends.{start-running}
use raas.State.{AppState, kept, start_file_watcher, new_state}

module _ {V : Type 0} (later : Store V) (es : List Wait) where
  -- A thread that works on the cache that a reference leads to: whatever caches there are later,
  -- and whatever waits it has, the reference then leads to what the worker makes of that cache.
  abbrev pub WorksOn : CacheRef → Thread CacheRef → Type 0
  WorksOn cache thread =
      get_elem? (run_thread thread es later) cache
      ≡ after_change (λ c. (run_worker es (started c)).cache) (get_elem? later cache)

  -- The watcher of a state with this root and this cache: one that runs watches exactly the root
  -- that requests are resolved under, and its thread works on the cache of the state; without one,
  -- the watcher is off or could not be started.
  abbrev pub Watches :
      WatchHost → AppConfig → FilePath → CacheRef → Option (FileSystemWatcher CacheRef) → Type 0
  Watches host config data_root cache (some w) =
      (config.server_performance.enable_file_watcher ≡ true)
      × (thread : Thread CacheRef) × (w
          ≡ record { watcher = some data_root; stop_tx = true; worker = some thread })
      × (thread.root ≡ data_root)
      × (thread.debounce ≡ config.server_performance.file_watcher_debounce_ms)
      × WorksOn cache thread
  Watches host config data_root cache none =
      (config.server_performance.enable_file_watcher ≡ false)
      ⊎ ((e : Text) × (start host config.data_root cache
              config.server_performance.file_watcher_debounce_ms
            ≡ err e))

  -- The state is of this configuration, its cache is a new one and empty, the caches that there
  -- were are as they were, and its watcher watches for it.
  pub record IsMade (host : WatchHost) (config : AppConfig) (store : Store V)
      (made : AppState × Store V) : Type 0 where
    pub configured : made.0.config ≡ config
    pub unused : made.0.archive_cache ≡ length store
    pub caches :
        made.1
        ≡ store
          ++ (record {
            cache = [];
            cached_keys = [];
            max_capacity = config.server_performance.archive_cache_max_capacity;
          }
              ∷ [])
    pub found :
        get_elem? made.1 made.0.archive_cache
        ≡ some (record {
          cache = [];
          cached_keys = [];
          max_capacity = config.server_performance.archive_cache_max_capacity;
        })
    pub watched : Watches host config made.0.data_root made.0.archive_cache made.0.file_watcher

  works_on :
      (cache : CacheRef) (thread : Thread CacheRef) → thread.cache ≡ cache → WorksOn cache thread
  unfolding run_thread
  works_on cache thread h =
      ap (λ r. get_elem? (modify r (λ c. (run_worker es (new_worker c)).cache) later) cache) h
      ∙ modify_lem cache _ later

  module _ (host : WatchHost) (config : AppConfig) (cache : CacheRef) where
    abbrev root : FilePath
    root = canonical_or config.data_root (host.canonicalize config.data_root)

    abbrev outcome : Result Text (FileSystemWatcher CacheRef)
    outcome = start host config.data_root cache config.server_performance.file_watcher_debounce_ms

    abbrev thread_of : Thread CacheRef
    thread_of = record {
      root = root;
      debounce = config.server_performance.file_watcher_debounce_ms;
      cache = cache;
    }

    started_or_failed :
        (r : Result Text (FileSystemWatcher CacheRef))
        → outcome ≡ r
        → config.server_performance.enable_file_watcher ≡ true
        → Watches host config root cache (kept r)
    unfolding kept
    started_or_failed (ok w) h on = (
      on,
      thread_of,
      start-running host config.data_root cache _ w h,
      refl,
      refl,
      works_on cache thread_of refl,
    )
    started_or_failed (err e) h on = inr (e, h)

    on_or_off :
        (b : Bool)
        → config.server_performance.enable_file_watcher ≡ b
        → Watches host config root cache (if b then kept outcome else none)
    on_or_off true h = started_or_failed outcome refl h
    on_or_off false h = inl h

  found_last :
      (store : Store V) (c : ArchiveCache V) → get_elem? (store ++ (c ∷ [])) (length store) ≡ some c
  found_last [] c = refl
  found_last (d ∷ store) c = found_last store c

  -- If the root is resolved alike both times that it is asked for, then whatever else the system
  -- answers, the state that is made has a reference that no cache had before, to an empty cache
  -- of the configured capacity, and the caches that there were are as they were; if it has a
  -- watcher, that is asked for, watches exactly the root that requests are resolved under with
  -- the debounce that is configured, and its thread works on the cache of the state: whatever
  -- caches there are later, and whatever waits the thread has, the state's reference then leads
  -- to what the worker makes of the cache that it led to; if it has none, it is not asked for, or
  -- its start failed.
  pub new_state-IsMade :
      (canonicalize : FilePath → Result IoError FilePath) (host : WatchHost) (config : AppConfig)
      (store : Store V)
      → canonicalize config.data_root ≡ host.canonicalize config.data_root
      → IsMade host config store (new_state canonicalize host config store)
  unfolding new_state start_file_watcher new_arc
  new_state-IsMade canonicalize host config store alike = record {
    configured = refl;
    unused = refl;
    caches = refl;
    found = found_last store _;
    watched =
        rw alike
          (on_or_off host config (length store) config.server_performance.enable_file_watcher refl);
  }
