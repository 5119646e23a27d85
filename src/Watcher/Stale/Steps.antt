-- ===== src/Watcher/Stale/Steps.antt =====
-- src/watcher.rs and src/cache/archive.rs together: every step of the system.
use raas.Prelude.{
  ℕ, suc, ◌≤◌, ◌≡◌, refl, sym, ap, ◌∙◌, ◌≢◌, Bool, true, false, List, [], ◌∷◌, ◌++◌, ◌⊎◌, inl, inr,
  arith,
}
use raas.Io.{IoError, ok, err}
use raas.Io.Paths.{FilePath}
use raas.Archive.Format.{ArchiveFormat}
use raas.Cache.Archives.{Entry, get_or_create}
use raas.Cache.Archives.Registry.{IsIn, concerns, both_absurd}
use raas.Cache.Archives.Reachable.{get_or_create-IsRegistered, IsIn-get_or_create}
use raas.Watcher.{
  EventKind, collect_event, Wait, received, timed_out, disconnected, window_over, Phase, waiting,
  merging, stopped, flush, flushed, collected, after_outer, after_inner, after_wait,
}
use raas.Watcher.Stale.{
  System, stamped, brings, changes_of, with_cache, Run, start, looked_up, evicted, woken, Holds,
  Flushed, flush-Flushed, concerns_of_eq, IsPending-collect_event, nothing-IsPending,
}

IsIn-stamped :
    (p : FilePath) (t now : ℕ) (ps : List FilePath) (log : List (FilePath × ℕ))
    → IsIn (p, t) (stamped now ps ++ log)
    → (IsIn p ps × (t ≡ now)) ⊎ IsIn (p, t) log
IsIn-stamped p t now [] log i = inr i
IsIn-stamped p t now (q ∷ ps) log (inl same) =
    inl (inl (ap (λ (x : FilePath × ℕ). x.0) same), sym (ap (λ (x : FilePath × ℕ). x.1) same))
IsIn-stamped p t now (q ∷ ps) log (inr i) = elim (IsIn-stamped p t now ps log i) [
  | inl new ↦ inl (inr new.0, new.1)
  | inr old ↦ inr old
]

module _ (s : System) (h : Holds s) where
  idle-Holds : Holds (record s { now = suc s.now })
  idle-Holds = record {
    registered = h.registered;
    past = λ p t i. omega (arith, h.past p t i);
    covered = h.covered;
    drained = h.drained;
  }

  flushed-Holds :
      (phase : Phase)
      → Holds (record { worker = flushed phase s.worker; now = suc s.now; log = s.log })
  unfolding flushed
  flushed-Holds phase =
      let f : Flushed s.worker.pending s.worker.cache (flush s.worker.pending s.worker.cache) =
        flush-Flushed s.worker.pending s.worker.cache h.registered in
      record {
        registered = f.registered;
        past = λ p t i. omega (arith, h.past p t i);
        covered = λ p t i. elim (h.covered p t i) [
          | inl (q, j, same) ↦ inr (λ e k c.
              absurd (both_absurd _ (sym (concerns_of_eq p q e same) ∙ c) (f.unconcerned e k q j)))
          | inr fresh ↦ inr (λ e k c. fresh e (f.was e k) c)
        ];
        drained = λ n. refl;
      }

  collected-Holds :
      (kind : EventKind) (paths : List FilePath)
      → Holds (record {
        worker = collected (ok (record { kind = kind; paths = paths })) s.worker;
        now = suc s.now;
        log = stamped s.now (changes_of kind paths) ++ s.log;
      })
  unfolding collected collect_event
  collected-Holds kind paths = record {
    registered = h.registered;
    past = λ p t i. elim (IsIn-stamped p t s.now (changes_of kind paths) s.log i) [
      | inl new ↦ omega (arith, new.1)
      | inr old ↦ omega (arith, h.past p t old)
    ];
    covered = λ p t i. elim (IsIn-stamped p t s.now (changes_of kind paths) s.log i) [
      | inl new ↦ inl (IsPending-collect_event p kind paths s.worker.pending (inl new.0))
      | inr old ↦ elim (h.covered p t old) [
        | inl waits ↦ inl (IsPending-collect_event p kind paths s.worker.pending (inr waits))
        | inr fresh ↦ inr fresh
      ]
    ];
    drained = λ n. absurd (n refl);
  }

  failed-Holds :
      (e : IoError)
      → Holds (record { worker = collected (err e) s.worker; now = suc s.now; log = s.log })
  unfolding collected collect_event
  failed-Holds e = record {
    registered = h.registered;
    past = λ p t i. omega (arith, h.past p t i);
    covered = h.covered;
    drained = λ n. absurd (n refl);
  }

  stop-Holds :
      (stop : Bool)
      → Holds
          (record { worker = after_outer (timed_out stop) s.worker; now = suc s.now; log = s.log })
  unfolding after_outer
  stop-Holds true = flushed-Holds stopped
  stop-Holds false = idle-Holds

  woken-Holds :
      (phase : Phase) (w : Wait)
      → Holds (record {
        worker = after_wait phase w s.worker;
        now = suc s.now;
        log = stamped s.now (brings phase w) ++ s.log;
      })
  unfolding after_wait after_outer after_inner
  woken-Holds stopped w = idle-Holds
  woken-Holds waiting (received (ok event)) = collected-Holds event.kind event.paths
  woken-Holds waiting (received (err e)) = failed-Holds e
  woken-Holds waiting (timed_out stop) = stop-Holds stop
  woken-Holds waiting disconnected = flushed-Holds stopped
  woken-Holds waiting window_over = idle-Holds
  woken-Holds merging (received (ok event)) = collected-Holds event.kind event.paths
  woken-Holds merging (received (err e)) = failed-Holds e
  woken-Holds merging (timed_out stop) = flushed-Holds waiting
  woken-Holds merging disconnected = flushed-Holds stopped
  woken-Holds merging window_over = flushed-Holds waiting

  looked_up-Holds :
      (path : FilePath) (format : ArchiveFormat)
      → Holds (record s {
        worker = with_cache (get_or_create path format s.now s.worker.cache) s.worker;
        now = suc s.now;
      })
  looked_up-Holds path format = record {
    registered = get_or_create-IsRegistered path format s.now s.worker.cache h.registered;
    past = λ p t i. omega (arith, h.past p t i);
    covered = λ p t i. elim (h.covered p t i) [
      | inl waits ↦ inl waits
      | inr fresh ↦ inr (λ e k c. elim (IsIn-get_or_create path format s.now s.worker.cache e k) [
        | inl old ↦ fresh e old c
        | inr made ↦ omega (arith, made, h.past p t i)
      ])
    ];
    drained = h.drained;
  }

  evicted-Holds :
      (kept : List (Entry ℕ))
      → ((e : Entry ℕ) → IsIn e kept → IsIn e s.worker.cache.cache)
      → Holds (record s { worker = with_cache (record s.worker.cache { cache = kept }) s.worker })
  evicted-Holds kept less = record {
    registered = λ e k. h.registered e (less e k);
    past = h.past;
    covered = λ p t i. elim (h.covered p t i) [
      | inl waits ↦ inl waits
      | inr fresh ↦ inr (λ e k c. fresh e (less e k) c)
    ];
    drained = h.drained;
  }

Run-Holds : (s : System) → Run s → Holds s
Run-Holds _ (start capacity) = record {
  registered = λ e k. absurd k;
  past = λ p t i. absurd i;
  covered = λ p t i. absurd i;
  drained = λ n. refl;
}
Run-Holds _ (looked_up path format s r) = looked_up-Holds s (Run-Holds s r) path format
Run-Holds _ (evicted kept s less r) = evicted-Holds s (Run-Holds s r) kept less
Run-Holds _ (woken w s r) = woken-Holds s (Run-Holds s r) s.worker.phase w

-- In any state that lookups, evictions and wakings of the worker reach in any order, each an
-- atomic step, if the worker is not merging events, no cached archive that a reported change
-- concerns is older than the event of that change.
pub Run-IsFresh :
    (s : System)
    → Run s
    → s.worker.phase ≢ merging
    → (p : FilePath) (t : ℕ) → IsIn (p, t) s.log
    → (e : Entry ℕ) → IsIn e s.worker.cache.cache
    → concerns p e ≡ true
    → t ≤ e.value
Run-IsFresh s r quiet p t i e k c =
    let h = Run-Holds s r in
    elim (h.covered p t i) [
      | inl waits ↦ absurd (nothing-IsPending p s.worker.pending (h.drained quiet) waits)
      | inr fresh ↦ fresh e k c
    ]
