-- ===== src/Tests/Watchers.antt =====
-- The worker and the cache, with a change below a cached directory.
use raas.Prelude.{ℕ, ◌≡◌, ◌≤◌, refl, ◌≢◌, ◌↔◌, true, false, List, [], ◌∷◌, inl}
use raas.Io.{ok}
use raas.Io.Paths.{FilePath, path_eq, components, component_eq, starts_with}
use raas.Archive.Format.{tar, format_eq}
use raas.Cache.Archives.{
  Entry, ArchiveCache, get_or_create, register_key, load, contains_key, any, pruned, invalidate,
  empty, normalize_for_match, drop_paths, victims, filter, saturating_threshold, normalize_from,
  push, drop_path, has_key,
}
use raas.Cache.Archives.Registry.{IsRegistered, IsIn, concerns}
use raas.Cache.Archives.Reachable.{get_or_create-IsRegistered}
use raas.Watcher.Stale.Exact.{started, reports, run_worker-Exact}
use raas.Watcher.{
  Wait, timed_out, run_worker, changed, received, window_over, waiting, merging, after_wait,
  after_outer, after_inner, collected, flushed, flush, collect_event, collect_changed, insert,
  insert_all,
}
use raas.Watcher.Stale.{System, Run, start, looked_up, woken}
use raas.Watcher.Stale.Steps.{Run-IsFresh}
use raas.Tests.Files.{root, first_path}

-- The archive that was cached before the change.
abbrev pub stale : ArchiveCache ℕ
stale = get_or_create root tar 0 (empty 2)

abbrev batch : List FilePath
batch = collect_event [] (ok (record { kind = changed; paths = first_path ∷ [] }))

-- A lookup, the change, the end of its window, and the lookup again.
abbrev final : System
final = record {
  worker = record {
    phase = waiting;
    pending = [];
    cache = get_or_create root tar 3 (flush batch stale);
  };
  now = 4;
  log = (first_path, 1) ∷ [];
}

final-Run : Run final
unfolding after_wait after_outer after_inner collected flushed
final-Run = looked_up root tar _ (
    woken window_over _ (
      woken (received (ok (record { kind = changed; paths = first_path ∷ [] }))) _
        (looked_up root tar _ (start 2))))

abbrev rebuilt : Entry ℕ
rebuilt = record { path = root; format = tar; value = 3 }

is_rebuilt : IsIn rebuilt final.worker.cache.cache
unfolding get_or_create register_key load contains_key any pruned flush collect_event
    collect_changed insert insert_all invalidate drop_paths victims filter saturating_threshold
    starts_with normalize_for_match normalize_from components push component_eq drop_path has_key
    path_eq format_eq
is_rebuilt = inl refl

is_concerned : concerns first_path rebuilt ≡ true
unfolding starts_with components component_eq
is_concerned = refl

is_quiet : final.worker.phase ≢ merging
is_quiet e = cc

fresh_example : 1 ≤ 3
fresh_example =
    Run-IsFresh final final-Run is_quiet first_path 1 (inl refl) rebuilt is_rebuilt is_concerned

pub kept-IsRegistered : IsRegistered stale
kept-IsRegistered = get_or_create-IsRegistered root tar 0 (empty 2) (λ e i. absurd i)

-- The change, the end of its window, and the stop signal.
abbrev waits : List Wait
waits =
    received (ok (record { kind = changed; paths = first_path ∷ [] }))
    ∷ window_over
    ∷ timed_out true
    ∷ []

abbrev first : Entry ℕ
first = record { path = root; format = tar; value = 0 }

is_first : IsIn first stale.cache
unfolding get_or_create register_key load contains_key any pruned
is_first = inl refl

has_stopped : (run_worker waits (started stale)).phase ≢ merging
unfolding run_worker after_wait after_outer after_inner collected flushed
has_stopped e = cc

exact_example :
    IsIn first (run_worker waits (started stale)).cache.cache
    ↔ ((p : FilePath) → IsIn p (reports waits (started stale) []) → concerns p first ≡ false)
exact_example = run_worker-Exact stale waits kept-IsRegistered has_stopped first is_first
