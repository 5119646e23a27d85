-- ===== src/Tests/Configs.antt =====
-- Configurations and the environments that ask for them, and the names of the formats.
use raas.Prelude.{◌≡◌, refl, true, some, [], ◌∷◌, ◌++◌, false, arith, inl, inr}
use raas.Io.Text.{codes, is_whitespace}
use raas.Archive.Format.{zip, from_name, extension}
use raas.Archive.Format.Names.{Spells, from_name-extension}
use raas.Config.{AppConfig, default_performance, from_env}
use raas.Config.Laws.{Fits, env_of, from_env-env_of}

abbrev pub settings : AppConfig
settings = record {
  bind_addr = codes "[::1]:80";
  data_root = codes "/srv";
  server_performance = record default_performance {
    max_concurrent_requests = 7;
    enable_file_watcher = false;
  };
}

pub settings_fit : Fits settings.server_performance
settings_fit = record {
  requests = omega arith;
  threads = omega arith;
  blocking = omega arith;
  sending = omega arith;
  receiving = omega arith;
  streaming = omega arith;
  capacity = omega arith;
  debounce = omega arith;
}

asked_example : from_env (env_of settings) ≡ settings
asked_example = from_env-env_of settings settings_fit

-- A space, `Zip` and a line break.
space_is : is_whitespace 32 ≡ true
unfolding is_whitespace
space_is = refl

break_is : is_whitespace 10 ≡ true
unfolding is_whitespace
break_is = refl

abbrev spelled : Spells (codes "Zip") (extension zip)
unfolding extension
spelled = (inr refl, (inl refl, (inl refl, tt)))

format_example : from_name ((32 ∷ []) ++ (codes "Zip" ++ (10 ∷ []))) ≡ some zip
format_example =
    from_name-extension zip (32 ∷ []) (codes "Zip") (10 ∷ []) (space_is, tt) spelled (break_is, tt)
