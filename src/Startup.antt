-- ===== src/Startup.antt =====
-- src/main.rs: the start of the server, as the calls that it makes one after the other.
pub mod Order
use raas.Prelude.{ℕ, Bool, true, false, Option, none, some, List, [], ◌∷◌, ◌++◌}
use raas.Prelude.Words.{as_u32}
use raas.Io.{Result, IoError}
use raas.Io.Paths.{FilePath}
use raas.Cache.Archives.Shared.{Store}
use raas.Io.Text.{Text}
use raas.Config.{Env, AppConfig, from_env}
use raas.State.{AppState, new_state}
use raas.Server.Routes.{Endpoint, create_app_routes}
use raas.Watcher.Lifetime.{WatchHost}

-- What tokio and the system are asked for.
pub data Call (Addr : Type 0) : Type 0 where
  build_runtime : ℕ → ℕ → Call Addr
  new_v4 : Call Addr
  set_send_buffer_size set_recv_buffer_size : ℕ → Call Addr
  set_reuseaddr : Bool → Call Addr
  bind : Addr → Call Addr
  listen : ℕ → Call Addr
  serve : ℕ → Call Addr

pub data Answer : Type 0 where
  accepted refused panics : Answer

-- The contexts of the errors that `main` returns.
pub data StartupError : Type 0 where
  runtime_not_built invalid_bind_addr socket_not_created send_buffer_not_set : StartupError
  recv_buffer_not_set reuseaddr_not_set not_bound not_listening not_serving : StartupError

pub data Outcome (A : Type 0) : Type 0 where
  ready : A → Outcome A
  failed : StartupError → Outcome A
  panicked : Outcome A

-- The system, with `str::parse` of an address, and with the two uses of `canonicalize` apart.
pub record Host : Type 1 where
  pub Addr : Type 0
  pub parse_addr : Text → Option Addr
  pub answer : Call Addr → Answer
  pub canonicalize : FilePath → Result IoError FilePath
  pub watching : WatchHost

-- The calls that were made, and what came of them.
abbrev pub Startup : Type 0 → Type 0 → Type 0
Startup Addr A = List (Call Addr) × Outcome A

abbrev pub followed :
    {Addr A B : Type 0} → List (Call Addr) → Outcome A → (A → Startup Addr B) → Startup Addr B
followed calls (ready a) f = let (more, outcome) = f a in (calls ++ more, outcome)
followed calls (failed e) f = (calls, failed e)
followed calls panicked f = (calls, panicked)

infixl 5 ◌>>=◌
abbrev pub ◌>>=◌ : {Addr A B : Type 0} → Startup Addr A → (A → Startup Addr B) → Startup Addr B
(calls, outcome) >>= f = followed calls outcome f

abbrev pub answered : Answer → StartupError → Outcome (Unit {0})
answered accepted context = ready tt
answered refused context = failed context
answered panics context = panicked

module _ (host : Host) where
  -- A call, with `.context(...)?`.
  unfoldable pub attempt : Call host.Addr → StartupError → Startup host.Addr (Unit {0})
  attempt call context = (call ∷ [], answered (host.answer call) context)

  unfoldable pub parsed_addr : Option host.Addr → Startup host.Addr host.Addr
  parsed_addr none = ([], failed invalid_bind_addr)
  parsed_addr (some addr) = ([], ready addr)

  -- `axum::serve` up to its end.
  unfoldable pub serve_app : ℕ → Startup host.Addr (Unit {0})
  serve_app limit = attempt (serve limit) not_serving

  -- `async_main`; what is served is the routes over the state, with at most
  -- `max_concurrent_requests` requests at once.
  unfoldable pub async_main :
      {V : Type 0}
      → AppConfig
      → Store V
      → Startup host.Addr ((AppState × Store V) × List (Text × Endpoint))
  async_main config store = do
    let made = new_state host.canonicalize host.watching config store
    let performance = config.server_performance
    addr ← parsed_addr (host.parse_addr config.bind_addr)
    a ← attempt new_v4 socket_not_created
    b ← attempt (set_send_buffer_size (as_u32 performance.send_buffer_size)) send_buffer_not_set
    c ← attempt (set_recv_buffer_size (as_u32 performance.recv_buffer_size)) recv_buffer_not_set
    d ← attempt (set_reuseaddr true) reuseaddr_not_set
    e ← attempt (bind addr) not_bound
    f ← attempt (listen 1024) not_listening
    g ← serve_app performance.max_concurrent_requests
    ([], ready (made, create_app_routes))

  unfoldable pub main :
      {V : Type 0} → Env → Startup host.Addr ((AppState × Store V) × List (Text × Endpoint))
  main env = do
    let config = from_env env
    let performance = config.server_performance
    runtime ←
        attempt (build_runtime performance.thread_pool_size performance.blocking_queue_size)
          runtime_not_built
    async_main config []
