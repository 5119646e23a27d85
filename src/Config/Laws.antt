-- ===== src/Config/Laws.antt =====
-- src/config.rs: what the variables set.
use raas.Prelude.{
  ℕ, ◌+◌, ◌-◌, ◌*◌, ◌==◌, [], Bool-cases, ◌<◌, ◌≡◌, refl, ap, Bool, true, false, Option, none, some,
  Option-cases, inl, inr, arith, if◌then◌else◌, ◌∷◌,
}
use raas.Prelude.Words.{u64_mod}
use raas.Io.Text.{Text, codes, show_u64, parse_u64, digits_from, some_digits, to_ascii_lowercase}
use raas.Io.Text.Decimal.{parse_u64-show_u64, trim-AllVisible}
use raas.Config.{
  Variable, Env, ServerPerformanceConfig, AppConfig, number_or, flag_or, is_on, text_or,
  performance_from_env, from_env, parsed, default_performance, default_config, bind_addr, data_root,
  max_concurrent_requests, thread_pool_size, blocking_queue_size, send_buffer_size,
  recv_buffer_size, stream_read_buffer_size, archive_cache_max_capacity, enable_file_watcher,
  file_watcher_debounce_ms,
}

-- The environment that asks for a configuration.
abbrev pub env_of : AppConfig → Env
env_of c bind_addr = some c.bind_addr
env_of c data_root = some c.data_root
env_of c max_concurrent_requests = some (show_u64 c.server_performance.max_concurrent_requests)
env_of c thread_pool_size = some (show_u64 c.server_performance.thread_pool_size)
env_of c blocking_queue_size = some (show_u64 c.server_performance.blocking_queue_size)
env_of c send_buffer_size = some (show_u64 c.server_performance.send_buffer_size)
env_of c recv_buffer_size = some (show_u64 c.server_performance.recv_buffer_size)
env_of c stream_read_buffer_size = some (show_u64 c.server_performance.stream_read_buffer_size)
env_of c archive_cache_max_capacity =
    some (show_u64 c.server_performance.archive_cache_max_capacity)
env_of c enable_file_watcher =
    some (if c.server_performance.enable_file_watcher then codes "true" else codes "false")
env_of c file_watcher_debounce_ms = some (show_u64 c.server_performance.file_watcher_debounce_ms)

-- Every number is a `u64`.
pub record Fits (p : ServerPerformanceConfig) : Type 0 where
  pub requests : p.max_concurrent_requests < u64_mod
  pub threads : p.thread_pool_size < u64_mod
  pub blocking : p.blocking_queue_size < u64_mod
  pub sending : p.send_buffer_size < u64_mod
  pub receiving : p.recv_buffer_size < u64_mod
  pub streaming : p.stream_read_buffer_size < u64_mod
  pub capacity : p.archive_cache_max_capacity < u64_mod
  pub debounce : p.file_watcher_debounce_ms < u64_mod

number_or-show_u64 : (n default : ℕ) → n < u64_mod → number_or (some (show_u64 n)) default ≡ n
unfolding number_or parsed
number_or-show_u64 n default h = rw (parse_u64-show_u64 n h) refl

true_is_on : flag_or (some (codes "true")) true ≡ true
unfolding flag_or is_on
true_is_on = rw (trim-AllVisible (codes "true") (omega arith)) (unfold to_ascii_lowercase in refl)

false_is_off : flag_or (some (codes "false")) true ≡ false
unfolding flag_or is_on
false_is_off =
    rw (trim-AllVisible (codes "false") (omega arith)) (unfold to_ascii_lowercase in refl)

flag_or-printed : (b : Bool) → flag_or (some (if b then codes "true" else codes "false")) true ≡ b
flag_or-printed true = true_is_on
flag_or-printed false = false_is_off

digits_from-lt : (t : Text) (acc n : ℕ) → acc < u64_mod → digits_from acc t ≡ some n → n < u64_mod
unfolding digits_from
digits_from-lt [] acc n h e = ground arith
digits_from-lt (c ∷ cs) acc n h e = ground (arith, digits_from-lt cs (acc * 10 + (c - 48)) n)

some_digits-lt : (t : Text) (n : ℕ) → some_digits t ≡ some n → n < u64_mod
unfolding some_digits
some_digits-lt [] n e = cc
some_digits-lt (c ∷ cs) n e = digits_from-lt (c ∷ cs) 0 n (omega arith) e

parse_u64-lt : (t : Text) (n : ℕ) → parse_u64 t ≡ some n → n < u64_mod
unfolding parse_u64 some_digits
parse_u64-lt [] n e = cc
parse_u64-lt (c ∷ cs) n e = elim (Bool-cases (c == 43)) [
  | inl sign ↦ some_digits-lt cs n (rw sign at e)
  | inr digit ↦ digits_from-lt (c ∷ cs) 0 n (omega arith) (rw digit at e)
]

number_or-lt : (o : Option Text) (default : ℕ) → default < u64_mod → number_or o default < u64_mod
unfolding number_or parsed
number_or-lt none default h = h
number_or-lt (some t) default h = elim (Option-cases (parse_u64 t)) [
  | inl wrong ↦ rw wrong h
  | inr (n, e) ↦ rw e (parse_u64-lt t n e)
]

-- A variable that sets no number.
abbrev pub SetsNothing : Option Text → Type 0
SetsNothing none = Unit
SetsNothing (some t) = parse_u64 t ≡ none

number_or_default : (o : Option Text) (default : ℕ) → SetsNothing o → number_or o default ≡ default
unfolding number_or parsed
number_or_default none default h = refl
number_or_default (some t) default h = rw h refl

performance-env_of :
    (c : AppConfig)
    → Fits c.server_performance
    → performance_from_env (env_of c) ≡ c.server_performance
unfolding performance_from_env
performance-env_of c fits =
    rw
      (
        number_or-show_u64 c.server_performance.max_concurrent_requests 100 fits.requests,
        number_or-show_u64 c.server_performance.thread_pool_size 4 fits.threads,
        number_or-show_u64 c.server_performance.blocking_queue_size 1024 fits.blocking,
        number_or-show_u64 c.server_performance.send_buffer_size 262_144 fits.sending,
        number_or-show_u64 c.server_performance.recv_buffer_size 16_384 fits.receiving,
        number_or-show_u64 c.server_performance.stream_read_buffer_size 131_072 fits.streaming,
        number_or-show_u64 c.server_performance.archive_cache_max_capacity 100 fits.capacity,
        flag_or-printed c.server_performance.enable_file_watcher,
        number_or-show_u64 c.server_performance.file_watcher_debounce_ms 200 fits.debounce,
      )
      refl

-- The environment that spells out a configuration whose numbers are below 2^64 is read back as
-- that configuration.
pub from_env-env_of : (c : AppConfig) → Fits c.server_performance → from_env (env_of c) ≡ c
unfolding from_env text_or
from_env-env_of c fits =
    ap (λ p. record { bind_addr = c.bind_addr; data_root = c.data_root; server_performance = p })
      (performance-env_of c fits)

-- Whatever the environment, every number of the configuration is below 2^64.
from_env-Fits : (env : Env) → Fits (from_env env).server_performance
unfolding from_env performance_from_env
from_env-Fits env = record {
  requests = number_or-lt (env max_concurrent_requests) 100 (omega arith);
  threads = number_or-lt (env thread_pool_size) 4 (omega arith);
  blocking = number_or-lt (env blocking_queue_size) 1024 (omega arith);
  sending = number_or-lt (env send_buffer_size) 262_144 (omega arith);
  receiving = number_or-lt (env recv_buffer_size) 16_384 (omega arith);
  streaming = number_or-lt (env stream_read_buffer_size) 131_072 (omega arith);
  capacity = number_or-lt (env archive_cache_max_capacity) 100 (omega arith);
  debounce = number_or-lt (env file_watcher_debounce_ms) 200 (omega arith);
}

-- If no variable has a number that can be parsed, and the watcher's variable is not set, the
-- performance settings are the defaults.
pub from_env-default :
    (env : Env)
    → ((v : Variable) → SetsNothing (env v))
    → env enable_file_watcher ≡ none
    → (from_env env).server_performance ≡ default_performance
unfolding from_env performance_from_env
from_env-default env wrong unset =
    rw
      (
        unset,
        number_or_default (env max_concurrent_requests) 100 (wrong max_concurrent_requests),
        number_or_default (env thread_pool_size) 4 (wrong thread_pool_size),
        number_or_default (env blocking_queue_size) 1024 (wrong blocking_queue_size),
        number_or_default (env send_buffer_size) 262_144 (wrong send_buffer_size),
        number_or_default (env recv_buffer_size) 16_384 (wrong recv_buffer_size),
        number_or_default (env stream_read_buffer_size) 131_072 (wrong stream_read_buffer_size),
        number_or_default (env archive_cache_max_capacity) 100 (wrong archive_cache_max_capacity),
        number_or_default (env file_watcher_debounce_ms) 200 (wrong file_watcher_debounce_ms),
      )
      (unfold flag_or in refl)

-- With nothing set, the configuration is the default one.
from_env-default_config :
    (env : Env) → ((v : Variable) → env v ≡ none) → from_env env ≡ default_config
unfolding from_env performance_from_env number_or flag_or text_or default_config
from_env-default_config env unset =
    rw
      (
        unset bind_addr,
        unset data_root,
        unset max_concurrent_requests,
        unset thread_pool_size,
        unset blocking_queue_size,
        unset send_buffer_size,
        unset recv_buffer_size,
        unset stream_read_buffer_size,
        unset archive_cache_max_capacity,
        unset enable_file_watcher,
        unset file_watcher_debounce_ms,
      )
      refl
