-- ===== src/Config.antt =====
-- src/config.rs: the settings of the server, from environment variables.
pub mod Laws
use raas.Prelude.{
  ℕ, ◌*◌, Bool, true, false, ◌||◌, Option, none, some, List, [], if◌then◌else◌, ◌=bytes=◌,
}
use raas.Io.Paths.{FilePath}
use raas.Io.Text.{Text, codes, trim, to_ascii_lowercase, parse_u64}

pub data Variable : Type 0 where
  bind_addr data_root : Variable
  max_concurrent_requests thread_pool_size blocking_queue_size : Variable
  send_buffer_size recv_buffer_size stream_read_buffer_size : Variable
  archive_cache_max_capacity enable_file_watcher file_watcher_debounce_ms : Variable

-- `std::env::var(name).ok()`: `none` if it is not set or not UTF-8.
abbrev pub Env : Type 0
Env = Variable → Option Text

pub record ServerPerformanceConfig : Type 0 where
  pub max_concurrent_requests : ℕ
  pub thread_pool_size : ℕ
  pub blocking_queue_size : ℕ
  pub send_buffer_size : ℕ
  pub recv_buffer_size : ℕ
  pub stream_read_buffer_size : ℕ
  pub archive_cache_max_capacity : ℕ
  pub enable_file_watcher : Bool
  pub file_watcher_debounce_ms : ℕ

-- `mod defaults`, and `impl Default`
abbrev pub default_performance : ServerPerformanceConfig
default_performance = record {
  max_concurrent_requests = 100;
  thread_pool_size = 4;
  blocking_queue_size = 1024;
  send_buffer_size = 262_144;
  recv_buffer_size = 16_384;
  stream_read_buffer_size = 128 * 1024;
  archive_cache_max_capacity = 100;
  enable_file_watcher = true;
  file_watcher_debounce_ms = 200;
}

-- `.and_then(|s| s.parse().ok()).unwrap_or(default)`; `usize` has 64 bits.
parsed : Option ℕ → ℕ → ℕ
parsed none default = default
parsed (some n) default = n

unfoldable pub number_or : Option Text → ℕ → ℕ
unfolding parsed
number_or none default = default
number_or (some t) default = parsed (parse_u64 t) default

unfoldable pub is_on : Text → Bool
is_on t =
    t =bytes= codes "1" || t =bytes= codes "true" || t =bytes= codes "yes" || t =bytes= codes "on"

unfoldable pub flag_or : Option Text → Bool → Bool
flag_or none default = default
flag_or (some t) default = is_on (to_ascii_lowercase (trim t))

-- `ServerPerformanceConfig::from_env`
unfoldable pub performance_from_env : Env → ServerPerformanceConfig
performance_from_env env = record {
  max_concurrent_requests =
      number_or (env max_concurrent_requests) default_performance.max_concurrent_requests;
  thread_pool_size = number_or (env thread_pool_size) default_performance.thread_pool_size;
  blocking_queue_size = number_or (env blocking_queue_size) default_performance.blocking_queue_size;
  send_buffer_size = number_or (env send_buffer_size) default_performance.send_buffer_size;
  recv_buffer_size = number_or (env recv_buffer_size) default_performance.recv_buffer_size;
  stream_read_buffer_size =
      number_or (env stream_read_buffer_size) default_performance.stream_read_buffer_size;
  archive_cache_max_capacity =
      number_or (env archive_cache_max_capacity) default_performance.archive_cache_max_capacity;
  enable_file_watcher = flag_or (env enable_file_watcher) default_performance.enable_file_watcher;
  file_watcher_debounce_ms =
      number_or (env file_watcher_debounce_ms) default_performance.file_watcher_debounce_ms;
}

pub record AppConfig : Type 0 where
  pub bind_addr : Text
  pub data_root : FilePath
  pub server_performance : ServerPerformanceConfig

unfoldable pub text_or : Option Text → Text → Text
text_or none default = default
text_or (some t) default = t

-- `AppConfig::from_env`, which never fails.
unfoldable pub from_env : Env → AppConfig
from_env env = record {
  bind_addr = text_or (env bind_addr) (codes "0.0.0.0:8080");
  data_root = text_or (env data_root) (codes ".");
  server_performance = performance_from_env env;
}

-- `impl Default for AppConfig`
unfoldable pub default_config : AppConfig
default_config = record {
  bind_addr = codes "0.0.0.0:8080";
  data_root = codes ".";
  server_performance = default_performance;
}

-- `cfg!(debug_assertions)` is the argument.
unfoldable pub default_log_level : Bool → Text
default_log_level debug_assertions = if debug_assertions then codes "debug" else codes "info"
