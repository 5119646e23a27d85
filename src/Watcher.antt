-- ===== src/Watcher.antt =====
-- src/watcher.rs: the thread that turns file system events into invalidations.
pub mod Stale
pub mod Lifetime
use raas.Prelude.{ℕ, Bool, true, false, List, [], ◌∷◌, if◌then◌else◌}
use raas.Io.{Result, IoError, ok, err}
use raas.Io.Paths.{FilePath, path_eq}
use raas.Cache.Archives.{ArchiveCache, any, invalidate}

-- `notify::EventKind`, as far as the code tells kinds apart.
pub data EventKind : Type 0 where
  access changed : EventKind

pub record Event : Type 0 where
  pub kind : EventKind
  pub paths : List FilePath

-- `HashSet<PathBuf>`
unfoldable pub insert : FilePath → List FilePath → List FilePath
insert path pending = if any (λ p. path_eq p path) pending then pending else path ∷ pending

unfoldable pub insert_all : List FilePath → List FilePath → List FilePath
insert_all [] pending = pending
insert_all (path ∷ paths) pending = insert_all paths (insert path pending)

unfoldable pub collect_changed : EventKind → List FilePath → List FilePath → List FilePath
collect_changed access paths pending = pending
collect_changed changed paths pending = insert_all paths pending

unfoldable pub collect_event : List FilePath → Result IoError Event → List FilePath
collect_event pending (err e) = pending
collect_event pending (ok event) = collect_changed event.kind event.paths pending

-- What a wait of the worker ends with. `timed_out` says whether the stop signal is there, which the
-- outer wait alone looks at; `window_over` is `remaining.is_zero()` before an inner wait.
pub data Wait : Type 0 where
  received : Result IoError Event → Wait
  timed_out : Bool → Wait
  disconnected window_over : Wait

-- Which wait the worker stands at, or that its loop has ended.
pub data Phase : Type 0 where
  waiting merging stopped : Phase

module _ {V : Type 0} where
  -- `flush`, without the pending paths, which it drains.
  unfoldable pub flush : List FilePath → ArchiveCache V → ArchiveCache V
  flush [] cache = cache
  flush (path ∷ pending) cache = flush pending (invalidate path cache)

-- The local state of `run_worker` and the cache that it shares.
pub record Worker (V : Type 0) : Type 0 where
  pub phase : Phase
  pub pending : List FilePath
  pub cache : ArchiveCache V

module _ {V : Type 0} where
  unfoldable pub flushed : Phase → Worker V → Worker V
  flushed phase w = record { phase = phase; pending = []; cache = flush w.pending w.cache }

  unfoldable pub collected : Result IoError Event → Worker V → Worker V
  collected event w = record w { phase = merging; pending = collect_event w.pending event }

  -- The outer wait has no window.
  unfoldable pub after_outer : Wait → Worker V → Worker V
  after_outer (received event) w = collected event w
  after_outer (timed_out stop) w = if stop then flushed stopped w else w
  after_outer disconnected w = flushed stopped w
  after_outer window_over w = w

  unfoldable pub after_inner : Wait → Worker V → Worker V
  after_inner (received event) w = collected event w
  after_inner (timed_out stop) w = flushed waiting w
  after_inner disconnected w = flushed stopped w
  after_inner window_over w = flushed waiting w

  unfoldable pub after_wait : Phase → Wait → Worker V → Worker V
  after_wait waiting e w = after_outer e w
  after_wait merging e w = after_inner e w
  after_wait stopped e w = w

  -- `run_worker`, on the waits as they end.
  unfoldable pub run_worker : List Wait → Worker V → Worker V
  run_worker [] w = w
  run_worker (e ∷ es) w = run_worker es (after_wait w.phase e w)
