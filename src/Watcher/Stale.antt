-- ===== src/Watcher/Stale.antt =====
-- src/watcher.rs and src/cache/archive.rs together: the worker, the lookups of the requests and
-- evictions, in any order, and how old the archives are that stay in the cache.
pub mod Steps
pub mod Exact
use raas.Prelude.{
  ℕ, suc, ◌+◌, ◌≤◌, ◌<◌, ◌≡◌, refl, sym, ap, ◌∙◌, ◌≢◌, Bool, true, false, List, [], ◌∷◌, ◌++◌, ◌⊎◌,
  inl, inr, Bool-cases, arith, subst, if◌then◌else◌,
}
use raas.Io.{Result, IoError, ok, err}
use raas.Io.Paths.{starts_with, FilePath, path_eq, components}
use raas.Archive.Format.{ArchiveFormat}
use raas.Cache.Archives.{Entry, ArchiveCache, any, invalidate, get_or_create, empty}
use raas.Cache.Archives.Place.{place}
use raas.Cache.Archives.Registry.{
  IsIn, IsIn-any, any-IsIn, IsRegistered, concerns, place_of_eq, invalidate-IsRegistered,
  IsIn-invalidate, path_eq_of, both_absurd, path_eq_trans,
}
use raas.Cache.Archives.Reachable.{get_or_create-IsRegistered, IsIn-get_or_create}
use raas.Watcher.{
  EventKind, access, changed, Event, insert, insert_all, collect_changed, collect_event, Wait,
  received, timed_out, disconnected, window_over, Phase, waiting, merging, stopped, flush, Worker,
  flushed, collected, after_outer, after_inner, after_wait,
}

-- The clock counts steps, an archive's value is the time at which it was made, and the log has
-- every changed path with the time at which its event was received.
pub record System : Type 0 where
  pub worker : Worker ℕ
  pub now : ℕ
  pub log : List (FilePath × ℕ)

abbrev pub stamped : ℕ → List FilePath → List (FilePath × ℕ)
stamped now [] = []
stamped now (p ∷ ps) = (p, now) ∷ stamped now ps

abbrev pub changes_of : EventKind → List FilePath → List FilePath
changes_of access paths = []
changes_of changed paths = paths

-- The paths that a wait brings, if the worker still waits.
abbrev pub brings : Phase → Wait → List FilePath
brings stopped w = []
brings waiting (received (ok event)) = changes_of event.kind event.paths
brings waiting (received (err e)) = []
brings waiting (timed_out stop) = []
brings waiting disconnected = []
brings waiting window_over = []
brings merging (received (ok event)) = changes_of event.kind event.paths
brings merging (received (err e)) = []
brings merging (timed_out stop) = []
brings merging disconnected = []
brings merging window_over = []

abbrev pub with_cache : ArchiveCache ℕ → Worker ℕ → Worker ℕ
with_cache c w = record w { cache = c }

pub data Run : System → Type 0 where
  start :
      (capacity : ℕ)
      → Run (record {
        worker = record { phase = waiting; pending = []; cache = empty capacity };
        now = 0;
        log = [];
      })
  looked_up :
      (path : FilePath) (format : ArchiveFormat) (s : System)
      → Run s
      → Run (record s {
        worker = with_cache (get_or_create path format s.now s.worker.cache) s.worker;
        now = suc s.now;
      })
  evicted :
      (kept : List (Entry ℕ)) (s : System)
      → ((e : Entry ℕ) → IsIn e kept → IsIn e s.worker.cache.cache)
      → Run s
      → Run (record s { worker = with_cache (record s.worker.cache { cache = kept }) s.worker })
  woken :
      (w : Wait) (s : System)
      → Run s
      → Run (record {
        worker = after_wait s.worker.phase w s.worker;
        now = suc s.now;
        log = stamped s.now (brings s.worker.phase w) ++ s.log;
      })

-- A path that waits to be flushed, perhaps spelled otherwise.
abbrev pub IsPending : FilePath → List FilePath → Type 0
IsPending p pending = (q : FilePath) × IsIn q pending × (path_eq q p ≡ true)

-- No cached archive that the path concerns is older than `t`.
abbrev pub IsFresh : ArchiveCache ℕ → FilePath → ℕ → Type 0
IsFresh c p t = (e : Entry ℕ) → IsIn e c.cache → concerns p e ≡ true → t ≤ e.value

pub record Holds (s : System) : Type 0 where
  pub registered : IsRegistered s.worker.cache
  pub past : (p : FilePath) (t : ℕ) → IsIn (p, t) s.log → t ≤ s.now
  pub covered :
      (p : FilePath) (t : ℕ)
      → IsIn (p, t) s.log
      → IsPending p s.worker.pending ⊎ IsFresh s.worker.cache p t
  pub drained : s.worker.phase ≢ merging → s.worker.pending ≡ []

IsPending-insert :
    (p path : FilePath) (pending : List FilePath)
    → (path_eq path p ≡ true) ⊎ IsPending p pending
    → IsPending p (insert path pending)
unfolding insert
IsPending-insert p path pending h = elim (Bool-cases (any (λ q. path_eq q path) pending)) [
  | inl there ↦ rw there (elim h [
    | inl same ↦
        let (q, i, e) = any-IsIn (λ q. path_eq q path) pending there in
        (q, i, path_eq_trans q path p e same)
    | inr old ↦ old
  ])
  | inr absent ↦
      rw absent (elim h [ inl same ↦ (path, inl refl, same) | inr old ↦ (old.0, inr old.1, old.2) ])
]

IsPending-insert_all :
    (p : FilePath) (paths pending : List FilePath)
    → IsIn p paths ⊎ IsPending p pending
    → IsPending p (insert_all paths pending)
unfolding insert_all
IsPending-insert_all p [] pending (inl i) = absurd i
IsPending-insert_all p [] pending (inr h) = h
IsPending-insert_all p (q ∷ paths) pending (inl (inl same)) =
    IsPending-insert_all p paths (insert q pending)
      (inr (IsPending-insert p q pending (inl (path_eq_of q p (ap components same)))))
IsPending-insert_all p (q ∷ paths) pending (inl (inr i)) =
    IsPending-insert_all p paths (insert q pending) (inl i)
IsPending-insert_all p (q ∷ paths) pending (inr h) =
    IsPending-insert_all p paths (insert q pending) (inr (IsPending-insert p q pending (inr h)))

pub IsPending-collect_event :
    (p : FilePath) (kind : EventKind) (paths pending : List FilePath)
    → IsIn p (changes_of kind paths) ⊎ IsPending p pending
    → IsPending p (collect_changed kind paths pending)
unfolding collect_changed
IsPending-collect_event p access paths pending (inl i) = absurd i
IsPending-collect_event p access paths pending (inr h) = h
IsPending-collect_event p changed paths pending h = IsPending-insert_all p paths pending h

pub concerns_of_eq :
    {V : Type 0} (p q : FilePath) (e : Entry V) → path_eq q p ≡ true → concerns p e ≡ concerns q e
concerns_of_eq p q e h = ap (λ n. starts_with n (place e.path)) (sym (place_of_eq q p h))

-- What a flush leaves is registered, and what was there of no pending path.
pub record Flushed {V : Type 0} (pending : List FilePath) (c c' : ArchiveCache V) : Type 0 where
  pub registered : IsRegistered c'
  pub was : (e : Entry V) → IsIn e c'.cache → IsIn e c.cache
  pub unconcerned :
      (e : Entry V) → IsIn e c'.cache → (q : FilePath) → IsIn q pending → concerns q e ≡ false
  pub keeps :
      (e : Entry V)
      → IsIn e c.cache
      → ((q : FilePath) → IsIn q pending → concerns q e ≡ false)
      → IsIn e c'.cache

pub flush-Flushed :
    {V : Type 0} (pending : List FilePath) (c : ArchiveCache V)
    → IsRegistered c
    → Flushed pending c (flush pending c)
unfolding flush
flush-Flushed [] c r = record {
  registered = r;
  was = λ e i. i;
  unconcerned = λ e i q j. absurd j;
  keeps = λ e i h. i;
}
flush-Flushed (p ∷ pending) c r =
    let once = invalidate-IsRegistered p c r in
    let rest = flush-Flushed pending (invalidate p c) once.0 in
    record {
      registered = rest.registered;
      was = λ e i. IsIn-invalidate p c e (rest.was e i);
      unconcerned = λ e i q j. elim j [
        | inl same ↦
            let k = rest.was e i in
            subst (λ p. concerns p e ≡ false) same ((once.1 e (IsIn-invalidate p c e k)).0 k)
        | inr later ↦ rest.unconcerned e i q later
      ];
      keeps = λ e i h. rest.keeps e ((once.1 e i).1 (h p (inl refl))) (λ q j. h q (inr j));
    }

pub nothing-IsPending :
    (p : FilePath) (pending : List FilePath) → pending ≡ [] → ¬ (IsPending p pending)
nothing-IsPending p [] e (q, i, h) = i
nothing-IsPending p (x ∷ pending) e h = cc
