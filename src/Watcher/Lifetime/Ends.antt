-- ===== src/Watcher/Lifetime/Ends.antt =====
-- src/watcher.rs: the thread that `drop` waits for ends.
use raas.Prelude.{
  ℕ, ◌+◌, ◌*◌, ◌≤◌, ◌≡◌, ◌≢◌, refl, sym, ap, ◌∙◌, subst, Bool, true, false, some, List, [], ◌∷◌,
  ◌++◌, length, ◌↔◌, arith,
}
use raas.Io.{Result, IoError, ok, err, ◌>>=◌}
use raas.Io.Paths.{FilePath}
use raas.Io.Text.{Text}
use raas.Cache.Archives.{Entry, ArchiveCache}
use raas.Cache.Archives.Registry.{IsIn, IsRegistered, concerns}
use raas.Watcher.{
  Event, Wait, received, timed_out, disconnected, window_over, Phase, waiting, merging, stopped,
  Worker, flushed, collected, after_outer, after_inner, after_wait, run_worker,
}
use raas.Watcher.Stale.Exact.{started, reports, run_worker-Exact}
use raas.Watcher.Lifetime.{
  FileSystemWatcher, WatchHost, stop_sent, watch_ended, thread_joined, start, drop_watcher, taken,
  Thread, canonical_or,
}

-- How the waits end from the moment on that the stop signal is there and no event is added to
-- those that are queued: a wait gives the next event, or its time is over before the event is
-- seen, and the channel is closed only once it is empty.
pub data Drains : Phase → List (Result IoError Event) → List Wait → Type 0 where
  ended : Drains stopped [] []
  closed : (phase : Phase) → phase ≢ stopped → Drains phase [] (disconnected ∷ [])
  told : (queue : List (Result IoError Event)) → Drains waiting queue (timed_out true ∷ [])
  next :
      (phase : Phase) (e : Result IoError Event) (queue : List (Result IoError Event))
      (es : List Wait)
      → phase ≢ stopped
      → Drains merging queue es
      → Drains phase (e ∷ queue) (received e ∷ es)
  quiet :
      (stop : Bool) (queue : List (Result IoError Event)) (es : List Wait)
      → Drains waiting queue es
      → Drains merging queue (timed_out stop ∷ es)
  over :
      (queue : List (Result IoError Event)) (es : List Wait)
      → Drains waiting queue es
      → Drains merging queue (window_over ∷ es)

-- One more wait while events are being merged.
abbrev merging_waits : Phase → ℕ
merging_waits waiting = 0
merging_waits merging = 1
merging_waits stopped = 0

merging_waits-bound : (phase : Phase) → merging_waits phase ≤ 1
merging_waits-bound waiting = omega arith
merging_waits-bound merging = omega arith
merging_waits-bound stopped = omega arith

length-Drains :
    (phase : Phase) (queue : List (Result IoError Event)) (es : List Wait)
    → Drains phase queue es
    → length es ≤ 2 * length queue + merging_waits phase + 1
length-Drains phase queue es ended = omega arith
length-Drains phase queue es (closed _ go) = omega arith
length-Drains phase queue es (told _) = omega arith
length-Drains phase queue es (next _ e rest es' go d) =
    omega (arith, length-Drains merging rest es' d)
length-Drains phase queue es (quiet stop _ es' d) = omega (arith, length-Drains waiting queue es' d)
length-Drains phase queue es (over _ es' d) = omega (arith, length-Drains waiting queue es' d)

-- Three steps that may fail, before something is made.
all_ok :
    {A : Type 0} (a b c : Result Text (Unit {0})) (made fw : A)
    → ((a >>= λ x. b >>= λ y. c >>= λ z. ok made) ≡ ok fw)
    → fw ≡ made
all_ok (ok x) (ok y) (ok z) made fw h = cc
all_ok (err x) b c made fw h = absurd (cc)
all_ok (ok x) (err y) c made fw h = absurd (cc)
all_ok (ok x) (ok y) (err z) made fw h = absurd (cc)

-- What a watcher that has started holds.
abbrev pub running_at : {C : Type 0} → FilePath → C → ℕ → FileSystemWatcher C
running_at watch_root cache debounce = record {
  watcher = some watch_root;
  stop_tx = true;
  worker = some (record { root = watch_root; debounce = debounce; cache = cache });
}

pub start-running :
    {C : Type 0} (host : WatchHost) (root : FilePath) (cache : C) (debounce : ℕ)
    (fw : FileSystemWatcher C)
    → start host root cache debounce ≡ ok fw
    → fw ≡ running_at (canonical_or root (host.canonicalize root)) cache debounce
unfolding start
start-running host root cache debounce fw h =
    all_ok host.recommended_watcher (host.watch (canonical_or root (host.canonicalize root)))
      host.spawn _ fw h

module _ {V : Type 0} where
  after_received :
      (phase : Phase) (e : Result IoError Event) (w : Worker V)
      → phase ≢ stopped
      → (after_wait phase (received e) w).phase ≡ merging
  unfolding after_wait after_outer after_inner collected
  after_received waiting e w go = refl
  after_received merging e w go = refl
  after_received stopped e w go = absurd (go refl)

  after_closed :
      (phase : Phase) (w : Worker V)
      → phase ≢ stopped
      → (after_wait phase disconnected w).phase ≡ stopped
  unfolding after_wait after_outer after_inner flushed
  after_closed waiting w go = refl
  after_closed merging w go = refl
  after_closed stopped w go = absurd (go refl)

  after_quiet :
      (stop : Bool) (w : Worker V) → (after_wait merging (timed_out stop) w).phase ≡ waiting
  unfolding after_wait after_inner flushed
  after_quiet stop w = refl

  after_over : (w : Worker V) → (after_wait merging window_over w).phase ≡ waiting
  unfolding after_wait after_inner flushed
  after_over w = refl

  after_told : (w : Worker V) → (after_wait waiting (timed_out true) w).phase ≡ stopped
  unfolding after_wait after_outer flushed
  after_told w = refl

  run_worker-Drains :
      (phase : Phase) (queue : List (Result IoError Event)) (es : List Wait) (w : Worker V)
      → Drains phase queue es
      → w.phase ≡ phase
      → (run_worker es w).phase ≡ stopped
  unfolding run_worker
  run_worker-Drains phase queue es w ended h = h
  run_worker-Drains phase queue es w (closed _ go) h =
      ap (λ p. (after_wait p disconnected w).phase) h ∙ after_closed phase w go
  run_worker-Drains phase queue es w (told _) h =
      ap (λ p. (after_wait p (timed_out true) w).phase) h ∙ after_told w
  run_worker-Drains phase queue es w (next _ e rest es' go d) h =
      ap (λ p. (run_worker es' (after_wait p (received e) w)).phase) h
      ∙ run_worker-Drains merging rest es' (after_wait phase (received e) w) d
          (after_received phase e w go)
  run_worker-Drains phase queue es w (quiet stop _ es' d) h =
      ap (λ p. (run_worker es' (after_wait p (timed_out stop) w)).phase) h
      ∙ run_worker-Drains waiting queue es' (after_wait merging (timed_out stop) w) d
          (after_quiet stop w)
  run_worker-Drains phase queue es w (over _ es' d) h =
      ap (λ p. (run_worker es' (after_wait p window_over w)).phase) h
      ∙ run_worker-Drains waiting queue es' (after_wait merging window_over w) d (after_over w)

  run_worker-append :
      (es es' : List Wait) (w : Worker V)
      → run_worker (es ++ es') w ≡ run_worker es' (run_worker es w)
  unfolding run_worker
  run_worker-append [] es' w = refl
  run_worker-append (e ∷ es) es' w = run_worker-append es es' (after_wait w.phase e w)

  -- What the end of a watcher comes to, if its thread has had the waits `before` and has the
  -- waits `after` from then on.
  pub record Stops (fw : FileSystemWatcher (ArchiveCache V)) (thread : Thread (ArchiveCache V))
      (queue : List (Result IoError Event)) (before after : List Wait) : Type 0 where
    pub order : (drop_watcher fw).0 ≡ stop_sent ∷ watch_ended ∷ thread_joined ∷ []
    pub ends : (run_worker (before ++ after) (started thread.cache)).phase ≡ stopped
    pub in_time : length after ≤ 2 * length queue + 2
    pub exact :
        (e : Entry V)
        → IsIn e thread.cache.cache
        → IsIn e (run_worker (before ++ after) (started thread.cache)).cache.cache ↔ (
            (p : FilePath)
            → IsIn p (reports (before ++ after) (started thread.cache) [])
            → concerns p e ≡ false)

  running-Stops :
      (root : FilePath) (cache : ArchiveCache V) (debounce : ℕ)
      (queue : List (Result IoError Event)) (before after : List Wait)
      → IsRegistered cache
      → Drains (run_worker before (started cache)).phase queue after
      → Stops
          (running_at root cache debounce)
          (record { root = root; debounce = debounce; cache = cache })
          queue
          before
          after
  unfolding drop_watcher taken
  running-Stops root cache debounce queue before after r d =
      let last : (run_worker (before ++ after) (started cache)).phase ≡ stopped =
        ap (λ (w : Worker V). w.phase) (run_worker-append before after (started cache))
        ∙ run_worker-Drains _ queue after (run_worker before (started cache)) d refl in
      record {
        order = refl;
        ends = last;
        in_time =
            let one = merging_waits-bound (run_worker before (started cache)).phase in
            omega (arith, one, length-Drains _ queue after d);
        exact = run_worker-Exact cache (before ++ after) r (λ m. absurd (cc));
      }

  -- If a watcher starts on a cache whose archives are registered and that nobody else uses, its
  -- end sends the stop signal, ends the watch and waits for the thread, in that order; and
  -- whatever waits the thread has had before, if from then on no event is added to those that are
  -- queued, the thread stops within two waits for each queued event and two more, and has kept
  -- exactly the archives that no change that it was told of concerns.
  pub start-Stops :
      (host : WatchHost) (root : FilePath) (cache : ArchiveCache V) (debounce : ℕ)
      (fw : FileSystemWatcher (ArchiveCache V)) (thread : Thread (ArchiveCache V))
      (queue : List (Result IoError Event)) (before after : List Wait)
      → start host root cache debounce ≡ ok fw
      → fw.worker ≡ some thread
      → IsRegistered cache
      → Drains (run_worker before (started thread.cache)).phase queue after
      → Stops fw thread queue before after
  start-Stops host root cache debounce fw thread queue before after h t r d =
      let watch_root : FilePath = canonical_or root (host.canonicalize root) in
      let running : fw ≡ running_at watch_root cache debounce =
        start-running host root cache debounce fw h in
      let spawned : Thread (ArchiveCache V) = record {
        root = watch_root;
        debounce = debounce;
        cache = cache;
      } in
      let some_thread : some thread ≡ some spawned = sym t ∙ ap (λ w. w.worker) running in
      let same : thread ≡ spawned = cc in
      subst (λ w. Stops w thread queue before after) (sym running)
        (subst
          (λ th.
            Drains (run_worker before (started th.cache)).phase queue after
            → Stops (running_at watch_root cache debounce) th queue before after)
          (sym same) (running-Stops watch_root cache debounce queue before after r) d)
