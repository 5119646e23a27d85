-- ===== src/Startup/Order.antt =====
-- src/main.rs: the order of the start, and what it serves.
use raas.Prelude.{◌<◌, ◌≡◌, refl, ap, subst, true, Option, none, some, List, [], ◌∷◌, arith}
use raas.Cache.Archives.Shared.{Store}
use raas.Io.Text.{Text, codes}
use raas.Config.{Env, AppConfig, from_env}
use raas.State.{AppState, new_state}
use raas.Server.Routes.{
  Endpoint, health, download_random_access_archive, archive_router, nest, create_app_routes,
}
use raas.Startup.{
  Call, build_runtime, new_v4, set_send_buffer_size, set_recv_buffer_size, set_reuseaddr, bind,
  listen, serve, Answer, accepted, refused, panics, StartupError, runtime_not_built,
  invalid_bind_addr, socket_not_created, send_buffer_not_set, recv_buffer_not_set,
  reuseaddr_not_set, not_bound, not_listening, not_serving, Outcome, ready, failed, panicked, Host,
  Startup, followed, ◌>>=◌, answered, attempt, parsed_addr, serve_app, async_main, main,
}

-- The error of a call that is refused.
abbrev pub context : {Addr : Type 0} → Call Addr → StartupError
context (build_runtime threads blocking) = runtime_not_built
context new_v4 = socket_not_created
context (set_send_buffer_size n) = send_buffer_not_set
context (set_recv_buffer_size n) = recv_buffer_not_set
context (set_reuseaddr b) = reuseaddr_not_set
context (bind addr) = not_bound
context (listen n) = not_listening
context (serve n) = not_serving

-- A start that makes the planned calls in order, ends with the error of the first that is
-- refused or the panic of the first that panics, and comes to `last` if each is accepted.
pub data Follows {A : Type 0} (host : Host) (last : Outcome A)
    : List (Call host.Addr) → Startup host.Addr A → Type 0 where
  done : Follows host last [] ([], last)
  next :
      (call : Call host.Addr) (plan calls : List (Call host.Addr)) (outcome : Outcome A)
      → host.answer call ≡ accepted
      → Follows host last plan (calls, outcome)
      → Follows host last (call ∷ plan) (call ∷ calls, outcome)
  stops :
      (call : Call host.Addr) (plan : List (Call host.Addr))
      → host.answer call ≡ refused
      → Follows host last (call ∷ plan) (call ∷ [], failed (context call))
  aborts :
      (call : Call host.Addr) (plan : List (Call host.Addr))
      → host.answer call ≡ panics
      → Follows host last (call ∷ plan) (call ∷ [], panicked)

module _ (host : Host) {A : Type 0} (last : Outcome A) where
  attempt-Follows :
      (call : Call host.Addr) (plan : List (Call host.Addr)) (rest : Startup host.Addr A)
      → Follows host last plan rest
      → Follows host last (call ∷ plan) (attempt host call (context call) >>= λ u. rest)
  unfolding attempt
  attempt-Follows call plan (calls, outcome) f = go (host.answer call) refl
    where
      go :
          (a : Answer)
          → host.answer call ≡ a
          → Follows host last
              (call ∷ plan)
              (followed (call ∷ []) (answered a (context call)) (λ u. (calls, outcome)))
      go accepted h = next call plan calls outcome h f
      go refused h = stops call plan h
      go panics h = aborts call plan h

  attempt_same-Follows :
      (sent call : Call host.Addr) (plan : List (Call host.Addr)) (rest : Startup host.Addr A)
      → call ≡ sent
      → Follows host last plan rest
      → Follows host last (call ∷ plan) (attempt host sent (context call) >>= λ u. rest)
  attempt_same-Follows sent call plan rest h f =
      subst (λ c. Follows host last (call ∷ plan) (attempt host c (context call) >>= λ u. rest)) h
        (attempt-Follows call plan rest f)

-- What the start should ask for behind the runtime, by the configuration.
abbrev pub listening : {Addr : Type 0} → AppConfig → Option Addr → List (Call Addr)
listening config none = []
listening config (some addr) =
    let p = config.server_performance in
    new_v4
    ∷ set_send_buffer_size p.send_buffer_size
    ∷ set_recv_buffer_size p.recv_buffer_size
    ∷ set_reuseaddr true
    ∷ bind addr
    ∷ listen 1024
    ∷ serve p.max_concurrent_requests
    ∷ []

abbrev pub plan : {Addr : Type 0} → AppConfig → Option Addr → List (Call Addr)
plan config parsed =
    let p = config.server_performance in
    build_runtime p.thread_pool_size p.blocking_queue_size ∷ listening config parsed

abbrev app_routes : List (Text × Endpoint)
app_routes =
    (codes "/health", health) ∷ (codes "/api/archive/download", download_random_access_archive) ∷ []

routes_lem : create_app_routes ≡ app_routes
unfolding create_app_routes nest archive_router
routes_lem = refl

module _ {V : Type 0} (host : Host) where
  abbrev pub served :
      AppConfig → Option host.Addr → Outcome ((AppState × Store V) × List (Text × Endpoint))
  served config none = failed invalid_bind_addr
  served config (some addr) =
      ready (new_state host.canonicalize host.watching config [], app_routes)

  parsed_addr-Follows :
      (config : AppConfig) (p : Option host.Addr)
      (body : host.Addr → Startup host.Addr ((AppState × Store V) × List (Text × Endpoint)))
      → ((addr : host.Addr)
          → Follows host (served config (some addr)) (listening config (some addr)) (body addr))
      → Follows host (served config p) (listening config p) (parsed_addr host p >>= body)
  unfolding parsed_addr
  parsed_addr-Follows config none body f = done
  parsed_addr-Follows config (some addr) body f = f addr

  async_main-Follows :
      (config : AppConfig)
      → config.server_performance.send_buffer_size < 0x1_0000_0000
      → config.server_performance.recv_buffer_size < 0x1_0000_0000
      → let parsed = host.parse_addr config.bind_addr in
        Follows host (served config parsed) (listening config parsed) (async_main host config [])
  unfolding async_main serve_app
  async_main-Follows config hs hr =
      parsed_addr-Follows config (host.parse_addr config.bind_addr) _ (λ addr.
        let last : Outcome ((AppState × Store V) × List (Text × Endpoint)) =
          served config (some addr) in
        attempt-Follows host last new_v4 _ _ (
          attempt_same-Follows host last _
            (set_send_buffer_size config.server_performance.send_buffer_size) _ _
            (ap set_send_buffer_size (omega (arith, hs)))
            (attempt_same-Follows host last _
              (set_recv_buffer_size config.server_performance.recv_buffer_size) _ _
              (ap set_recv_buffer_size (omega (arith, hr)))
              (attempt-Follows host last (set_reuseaddr true) _ _ (
                attempt-Follows host last (bind addr) _ _ (
                  attempt-Follows host last (listen 1024) _ _ (
                    attempt-Follows host last
                      (serve config.server_performance.max_concurrent_requests) _ _
                      (rw routes_lem done))))))))

  -- For buffer sizes below 2^32, `main` makes the calls that the configuration plans in order,
  -- with its numbers: the runtime, and for an address that parses the socket, its two buffers,
  -- the reuse of the address, `bind`, `listen` and the service; it ends with the error of the
  -- first call that is refused or the panic of the first that panics, makes none behind it, and
  -- serves the two routes over the new state if each is accepted; an address that does not parse
  -- ends it behind the runtime.
  pub main-Follows :
      (env : Env)
      → let config = from_env env in
        config.server_performance.send_buffer_size < 0x1_0000_0000
        → config.server_performance.recv_buffer_size < 0x1_0000_0000
        → let parsed = host.parse_addr config.bind_addr in
          Follows host (served config parsed) (plan config parsed) (main host env)
  unfolding main
  main-Follows env hs hr =
      attempt-Follows host _ (build_runtime _ _) _ _ (async_main-Follows (from_env env) hs hr)
