-- ===== src/Tests/Starts.antt =====
-- A server that starts, and a watcher that ends.
use raas.Prelude.{ℕ, ◌≡◌, ◌<◌, refl, ap, some, List, [], ◌∷◌, arith}
use raas.Io.{Result, IoError, ok}
use raas.Io.Text.{Text}
use raas.Config.{from_env}
use raas.Config.Laws.{env_of, from_env-env_of}
use raas.Watcher.{
  Event, Wait, merging, received, disconnected, changed, run_worker, after_wait, after_outer,
  collected,
}
use raas.Watcher.Stale.Exact.{started}
use raas.Watcher.Lifetime.{WatchHost, start, canonical_or}
use raas.Watcher.Lifetime.Ends.{Drains, closed, next, Stops, running_at, start-Stops}
use raas.State.{new_state}
use raas.State.Made.{IsMade, new_state-IsMade}
use raas.Startup.{Host, accepted, main}
use raas.Startup.Order.{Follows, plan, served, main-Follows}
use raas.Tests.Files.{root, first_path}
use raas.Tests.Configs.{settings, settings_fit}
use raas.Tests.Watchers.{stale, kept-IsRegistered}

abbrev watching : WatchHost
watching = record {
  canonicalize = λ path. ok path;
  recommended_watcher = ok tt;
  watch = λ path. ok tt;
  spawn = ok tt;
}

abbrev change : Result IoError Event
change = ok (record { kind = changed; paths = first_path ∷ [] })

-- One change before the end, and one that is queued then.
abbrev before : List Wait
before = received change ∷ []

abbrev after : List Wait
after = received change ∷ disconnected ∷ []

is_started : start watching root stale 200 ≡ ok (running_at root stale 200)
unfolding start canonical_or
is_started = refl

drains : Drains (run_worker before (started stale)).phase (change ∷ []) after
unfolding run_worker after_wait after_outer collected
drains = next merging change [] _ (λ h. cc) (closed merging (λ h. cc))

stops_example :
    Stops
      (running_at root stale 200)
      (record { root = root; debounce = 200; cache = stale })
      (change ∷ [])
      before
      after
stops_example =
    start-Stops watching root stale 200 (running_at root stale 200) _ (change ∷ []) before after
      is_started refl kept-IsRegistered drains

-- Another cache is there before the state is made, and an archive in its own cache later.
state_example :
    IsMade
      (stale ∷ stale ∷ [])
      before
      watching
      settings
      (stale ∷ [])
      (new_state watching.canonicalize watching settings (stale ∷ []))
state_example =
    new_state-IsMade (stale ∷ stale ∷ []) before watching.canonicalize watching settings
      (stale ∷ []) refl

abbrev host : Host
host = record {
  Addr = Text;
  parse_addr = λ t. some t;
  answer = λ call. accepted;
  canonicalize = watching.canonicalize;
  watching = watching;
}

small_buffers :
    let p = (from_env (env_of settings)).server_performance in
    (p.send_buffer_size < 0x1_0000_0000) × (p.recv_buffer_size < 0x1_0000_0000)
small_buffers =
    let e =
      ap (λ c. c.server_performance.send_buffer_size) (from_env-env_of settings settings_fit) in
    let f =
      ap (λ c. c.server_performance.recv_buffer_size) (from_env-env_of settings settings_fit) in
    omega (arith, e, f)

start_example :
    let config = from_env (env_of settings) in
    let parsed = host.parse_addr config.bind_addr in
    Follows host
      (served {V = ℕ} host config parsed)
      (plan config parsed)
      (main host (env_of settings))
start_example = main-Follows host (env_of settings) small_buffers.0 small_buffers.1
