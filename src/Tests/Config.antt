-- ===== src/Tests/Config.antt =====
-- Load of pkg/config/config.go on a file and an environment.
use text.Mathlib.Text.{◌==◌ as str_eq}
use spark_trade_mft_raw_data.Prelude.{
  String, Bool, true, false, none, some, ◌≡◌, refl, if◌then◌else◌,
}
use spark_trade_mft_raw_data.Prelude.Int.{ℤ, pos, negsuc}
use spark_trade_mft_raw_data.Config.{Config}
use spark_trade_mft_raw_data.Config.Defaults.{
  default_config, apply_defaults, pool_defaults, zeromq_defaults, positive_or, nonempty_or,
}
use spark_trade_mft_raw_data.Config.Load.{
  Env, ConfigFile, unmarshals, load_config, apply_env, env_str, env_int, int_or, parse_dur, dur_or,
}

abbrev log_level : String → String
log_level key =
    if str_eq key "LOG_LEVEL" then "debug" else if str_eq key "ZMQ_PORT" then "x" else ""

-- LOG_LEVEL is debug and ZMQ_PORT is no number
abbrev some_env : Env
some_env = record { getenv = log_level; atoi = λ _. none; normal = λ s. s }

-- a file that sets the workers to 0 and the port of ZeroMQ to 7000
abbrev some_file : ConfigFile Bool
some_file = unmarshals λ c. record c {
  worker_pool = record c.worker_pool { workers = pos 0 };
  zeromq = record c.zeromq { port = pos 7000; hwm = negsuc 4 };
}

abbrev loaded : Config Bool
loaded = (load_config some_env true false some_file).1

loaded-fields :
    ◌≡◌ {A = ℤ × (ℤ × (ℤ × String))}
      (loaded.worker_pool.workers, (loaded.zeromq.port, (loaded.zeromq.hwm, loaded.logging.level)))
      (pos 50, (pos 7000, (pos 10000, "debug")))
unfolding load_config apply_env apply_defaults pool_defaults zeromq_defaults env_str env_int int_or
    positive_or nonempty_or
loaded-fields = refl

-- the workers of the file do not change the bounds of the pool, which DefaultConfig has set
abbrev one_worker : Config Bool
one_worker =
    let c = default_config true false in
    record c { worker_pool = record c.worker_pool { workers = pos 1 } }

bounds_of_file :
    ◌≡◌ {A = ℤ × ℤ}
      (
        (apply_defaults (λ s. s) one_worker).worker_pool.autoscale.min_workers,
        (apply_defaults (λ s. s) one_worker).worker_pool.autoscale.max_workers,
      )
      (pos 25, pos 100)
unfolding apply_defaults pool_defaults positive_or
bounds_of_file = refl

-- trimming is the identity here, and `5s` is the one duration
waits :
    ◌≡◌ {A = ℤ × ℤ}
      (
        parse_dur (λ s. s) (λ s. if str_eq s "5s" then some (pos 5) else none) "5s" (pos 1),
        parse_dur (λ s. s) (λ s. none) "no duration" (pos 1),
      )
      (pos 5, pos 1)
unfolding parse_dur dur_or
waits = refl
