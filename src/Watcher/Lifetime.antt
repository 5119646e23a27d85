-- ===== src/Watcher/Lifetime.antt =====
-- src/watcher.rs: the start of the watcher and its end.
pub mod Ends
use raas.Prelude.{ℕ, Bool, true, false, Option, none, some, List, [], ◌∷◌, ◌++◌, if◌then◌else◌}
use raas.Io.{Result, IoError, ok, err, ◌>>=◌}
use raas.Io.Paths.{FilePath}
use raas.Io.Text.{Text}
use raas.Cache.Archives.{ArchiveCache}
use raas.Cache.Archives.Shared.{CacheRef, Store, modify}
use raas.Watcher.{Worker, waiting, Wait, run_worker}

-- What the system and `notify` answer: the path with links resolved, a watcher, the watch of a
-- path and all below it, and a thread; an error is its message.
pub record WatchHost : Type 0 where
  pub canonicalize : FilePath → Result IoError FilePath
  pub recommended_watcher : Result Text (Unit {0})
  pub watch : FilePath → Result Text (Unit {0})
  pub spawn : Result Text (Unit {0})

-- What `run_worker` is called with: `C` is what stands for the cache. The debounce is in
-- milliseconds.
pub record Thread (C : Type 0) : Type 0 where
  pub root : FilePath
  pub debounce : ℕ
  pub cache : C

-- `watcher` holds the path that it watches; a sender is there or not.
pub record FileSystemWatcher (C : Type 0) : Type 0 where
  pub watcher : Option FilePath
  pub stop_tx : Bool
  pub worker : Option (Thread C)

-- `canonicalize().unwrap_or_else(|_| root)`
unfoldable pub canonical_or : FilePath → Result IoError FilePath → FilePath
canonical_or root (ok path) = path
canonical_or root (err e) = root

-- What the end of a watcher does, one after the other.
pub data Release : Type 0 where
  stop_sent watch_ended thread_joined : Release

-- The step for what `Option::take` finds.
unfoldable pub taken : {A : Type 0} → Option A → Release → List Release
taken none step = []
taken (some a) step = step ∷ []

-- The local state that the thread begins with.
abbrev pub new_worker : {V : Type 0} → ArchiveCache V → Worker V
new_worker cache = record { phase = waiting; pending = []; cache = cache }

-- The thread over the waits of its life, on the cache that its reference leads to, while nobody
-- else uses that.
unfoldable pub run_thread : {V : Type 0} → Thread CacheRef → List Wait → Store V → Store V
run_thread thread es store =
    modify thread.cache (λ cache. (run_worker es (new_worker cache)).cache) store

module _ {C : Type 0} where
  unfoldable pub start : WatchHost → FilePath → C → ℕ → Result Text (FileSystemWatcher C)
  start host root cache debounce = do
    let watch_root = canonical_or root (host.canonicalize root)
    created ← host.recommended_watcher
    watching ← host.watch watch_root
    spawned ← host.spawn
    ok (record {
      watcher = some watch_root;
      stop_tx = true;
      worker = some (record { root = watch_root; debounce = debounce; cache = cache });
    })

  -- `drop`: what it does, and what it leaves.
  unfoldable pub drop_watcher : FileSystemWatcher C → List Release × FileSystemWatcher C
  drop_watcher w =
      let sent = if w.stop_tx then stop_sent ∷ [] else [] in
      (
        sent ++ (taken w.watcher watch_ended ++ taken w.worker thread_joined),
        record { watcher = none; stop_tx = false; worker = none },
      )
