-- ===== src/Watcher/Stale/Exact.antt =====
-- src/watcher.rs: what a run of the worker leaves of the cache, if nobody else uses it.
use raas.Prelude.{
  ◌≡◌, refl, ◌∙◌, ◌≢◌, Bool, true, false, List, [], ◌∷◌, ◌++◌, ◌⊎◌, ◌↔◌, inl, inr, Bool-cases,
}
use raas.Io.{IoError, ok, err}
use raas.Io.Paths.{FilePath, path_eq}
use raas.Cache.Archives.{Entry, ArchiveCache, any}
use raas.Cache.Archives.Registry.{IsIn, IsRegistered, concerns}
use raas.Watcher.{
  EventKind, access, changed, insert, insert_all, collect_changed, collect_event, Wait, received,
  timed_out, disconnected, window_over, Phase, waiting, merging, stopped, flush, Worker, flushed,
  collected, after_outer, after_inner, after_wait, run_worker,
}
use raas.Watcher.Stale.{
  brings, changes_of, IsPending, Flushed, flush-Flushed, concerns_of_eq, IsPending-collect_event,
  nothing-IsPending,
}

IsIn-append : {A : Type 0} (x : A) (xs ys : List A) → IsIn x (xs ++ ys) → IsIn x xs ⊎ IsIn x ys
IsIn-append x [] ys i = inr i
IsIn-append x (y ∷ xs) ys (inl same) = inl (inl same)
IsIn-append x (y ∷ xs) ys (inr i) = elim (IsIn-append x xs ys i) [
  | inl left ↦ inl (inr left)
  | inr right ↦ inr right
]

append-IsIn : {A : Type 0} (x : A) (xs ys : List A) → IsIn x xs ⊎ IsIn x ys → IsIn x (xs ++ ys)
append-IsIn x [] ys (inl i) = absurd i
append-IsIn x [] ys (inr i) = i
append-IsIn x (y ∷ xs) ys (inl (inl same)) = inl same
append-IsIn x (y ∷ xs) ys (inl (inr i)) = inr (append-IsIn x xs ys (inl i))
append-IsIn x (y ∷ xs) ys (inr i) = inr (append-IsIn x xs ys (inr i))

IsIn-insert :
    (q path : FilePath) (pending : List FilePath)
    → IsIn q (insert path pending)
    → (path ≡ q) ⊎ IsIn q pending
unfolding insert
IsIn-insert q path pending i = elim (Bool-cases (any (λ p. path_eq p path) pending)) [
  | inl there ↦ inr (rw there at i)
  | inr absent ↦ rw absent at i
]

IsIn-collect_event :
    (q : FilePath) (kind : EventKind) (paths pending : List FilePath)
    → IsIn q (collect_changed kind paths pending)
    → IsIn q (changes_of kind paths) ⊎ IsIn q pending
unfolding collect_changed insert_all
IsIn-collect_event q access paths pending i = inr i
IsIn-collect_event q changed [] pending i = inr i
IsIn-collect_event q changed (p ∷ paths) pending i =
    elim (IsIn-collect_event q changed paths (insert p pending) i) [
      | inl new ↦ inl (inr new)
      | inr old ↦ elim (IsIn-insert q p pending old) [
        | inl same ↦ inl (inl same)
        | inr older ↦ inr older
      ]
    ]

module _ {V : Type 0} where
  -- The changed paths that a run of the worker is told of, added to those before.
  abbrev pub reports : List Wait → Worker V → List FilePath → List FilePath
  reports [] w before = before
  reports (e ∷ es) w before = reports es (after_wait w.phase e w) (brings w.phase e ++ before)

  -- What the cache keeps of `c`, when the worker was told of these paths.
  record Tracks (c : ArchiveCache V) (told : List FilePath) (w : Worker V) : Type 0 where
    registered : IsRegistered w.cache
    gone :
        (e : Entry V) (p : FilePath)
        → IsIn e w.cache.cache
        → IsIn p told
        → IsPending p w.pending ⊎ (concerns p e ≡ false)
    kept :
        (e : Entry V)
        → IsIn e c.cache
        → ((p : FilePath) → IsIn p told → concerns p e ≡ false)
        → IsIn e w.cache.cache
    reported : (q : FilePath) → IsIn q w.pending → IsIn q told
    drained : w.phase ≢ merging → w.pending ≡ []

  module _ (c : ArchiveCache V) (told : List FilePath) (w : Worker V) (t : Tracks c told w) where
    flushed-Tracks : (phase : Phase) → Tracks c told (flushed phase w)
    unfolding flushed
    flushed-Tracks phase =
        let f : Flushed w.pending w.cache (flush w.pending w.cache) =
          flush-Flushed w.pending w.cache t.registered in
        record {
          registered = f.registered;
          gone = λ e p i j. elim (t.gone e p (f.was e i) j) [
            | inl (q, k, same) ↦ inr (concerns_of_eq p q e same ∙ f.unconcerned e i q k)
            | inr other ↦ inr other
          ];
          kept = λ e i h. f.keeps e (t.kept e i h) (λ q j. h q (t.reported q j));
          reported = λ q j. absurd j;
          drained = λ n. refl;
        }

    collected-Tracks :
        (kind : EventKind) (paths : List FilePath)
        → Tracks c
            (changes_of kind paths ++ told)
            (collected (ok (record { kind = kind; paths = paths })) w)
    unfolding collected collect_event
    collected-Tracks kind paths = record {
      registered = t.registered;
      gone = λ e p i j. elim (IsIn-append p (changes_of kind paths) told j) [
        | inl new ↦ inl (IsPending-collect_event p kind paths w.pending (inl new))
        | inr old ↦ elim (t.gone e p i old) [
          | inl waits ↦ inl (IsPending-collect_event p kind paths w.pending (inr waits))
          | inr other ↦ inr other
        ]
      ];
      kept = λ e i h. t.kept e i (λ p j. h p (append-IsIn p (changes_of kind paths) told (inr j)));
      reported = λ q j.
          append-IsIn q (changes_of kind paths) told
            (elim (IsIn-collect_event q kind paths w.pending j) [
              | inl new ↦ inl new
              | inr old ↦ inr (t.reported q old)
            ]);
      drained = λ n. absurd (n refl);
    }

    failed-Tracks : (e : IoError) → Tracks c told (collected (err e) w)
    unfolding collected collect_event
    failed-Tracks e = record {
      registered = t.registered;
      gone = t.gone;
      kept = t.kept;
      reported = t.reported;
      drained = λ n. absurd (n refl);
    }

    stop-Tracks : (stop : Bool) → Tracks c told (after_outer (timed_out stop) w)
    unfolding after_outer
    stop-Tracks true = flushed-Tracks stopped
    stop-Tracks false = t

    after_wait-Tracks :
        (phase : Phase) (x : Wait) → Tracks c (brings phase x ++ told) (after_wait phase x w)
    unfolding after_wait after_outer after_inner
    after_wait-Tracks stopped x = t
    after_wait-Tracks waiting (received (ok event)) = collected-Tracks event.kind event.paths
    after_wait-Tracks waiting (received (err e)) = failed-Tracks e
    after_wait-Tracks waiting (timed_out stop) = stop-Tracks stop
    after_wait-Tracks waiting disconnected = flushed-Tracks stopped
    after_wait-Tracks waiting window_over = t
    after_wait-Tracks merging (received (ok event)) = collected-Tracks event.kind event.paths
    after_wait-Tracks merging (received (err e)) = failed-Tracks e
    after_wait-Tracks merging (timed_out stop) = flushed-Tracks waiting
    after_wait-Tracks merging disconnected = flushed-Tracks stopped
    after_wait-Tracks merging window_over = flushed-Tracks waiting

  run_worker-Tracks :
      (c : ArchiveCache V) (es : List Wait) (told : List FilePath) (w : Worker V)
      → Tracks c told w
      → Tracks c (reports es w told) (run_worker es w)
  unfolding run_worker
  run_worker-Tracks c [] told w t = t
  run_worker-Tracks c (e ∷ es) told w t =
      run_worker-Tracks c es (brings w.phase e ++ told) (after_wait w.phase e w)
        (after_wait-Tracks c told w t w.phase e)

  -- The worker before its first wait.
  abbrev pub started : ArchiveCache V → Worker V
  started c = record { phase = waiting; pending = []; cache = c }

  -- A run of the worker from the start, on a cache whose archives are registered and that nobody
  -- else uses, keeps an archive, once the worker is not merging events, if and only if no change
  -- that was reported concerns it.
  pub run_worker-Exact :
      (c : ArchiveCache V) (es : List Wait)
      → IsRegistered c
      → (run_worker es (started c)).phase ≢ merging
      → (e : Entry V) → IsIn e c.cache
      → IsIn e (run_worker es (started c)).cache.cache
        ↔ ((p : FilePath) → IsIn p (reports es (started c) []) → concerns p e ≡ false)
  run_worker-Exact c es r quiet e i =
      let start : Tracks c [] (started c) = record {
        registered = r;
        gone = λ e p i j. absurd j;
        kept = λ e i h. i;
        reported = λ q j. absurd j;
        drained = λ n. refl;
      } in
      let t = run_worker-Tracks c es [] (started c) start in
      (
        (λ k p j. elim (t.gone e p k j) [
          | inl waits ↦ absurd (nothing-IsPending p _ (t.drained quiet) waits)
          | inr other ↦ other
        ]),
        t.kept e i,
      )
