-- ===== src/Config/Load.antt =====
-- Load, applyEnv, ParseDur and BackoffDurations of pkg/config/config.go. The environment, the file,
-- yaml.v3, strconv.Atoi and time.ParseDuration are parameters.
use text.Mathlib.Text.{◌==◌ as str_eq}
use spark_trade_mft_raw_data.Prelude.{
  String, Bool, true, false, Option, none, some, List, map, if◌then◌else◌,
}
use spark_trade_mft_raw_data.Prelude.Int.{ℤ}
use spark_trade_mft_raw_data.Prelude.Word.{mul_int64}
use spark_trade_mft_raw_data.Config.{Config}
use spark_trade_mft_raw_data.Config.Defaults.{default_config, apply_defaults}

-- `getenv` gives the empty text for a variable that is not set
pub record Env : Type 0 where
  pub getenv : String → String
  pub atoi : String → Option ℤ
  pub normal : String → String

unfoldable pub int_or : ℤ → Option ℤ → ℤ
int_or d none = d
int_or d (some n) = n

-- envStr and envInt: what becomes of the value
unfoldable pub env_str : Env → String → String → String
env_str env key v = if str_eq (env.getenv key) "" then v else env.getenv key

unfoldable pub env_int : Env → String → ℤ → ℤ
unfolding int_or
env_int env key n = if str_eq (env.getenv key) "" then n else int_or n (env.atoi (env.getenv key))

-- applyEnv
unfoldable pub apply_env : {F : Type 0} → Env → Config F → Config F
unfolding env_str env_int
apply_env env c = record c {
  mappings_dir = env_str env "MAPPINGS_DIR" c.mappings_dir;
  adapters = record c.adapters {
    binance = record c.adapters.binance {
      endpoint = env_str env "BINANCE_ENDPOINT" c.adapters.binance.endpoint;
    };
    ib = record c.adapters.ib {
      host = env_str env "IB_HOST" c.adapters.ib.host;
      port = env_int env "IB_PORT" c.adapters.ib.port;
    };
  };
  storage = record {
    wal = record c.storage.wal { directory = env_str env "WAL_DIR" c.storage.wal.directory };
    dolphin = record c.storage.dolphin {
      host = env_str env "DOLPHINDB_HOST" c.storage.dolphin.host;
      port = env_int env "DOLPHINDB_PORT" c.storage.dolphin.port;
      username = env_str env "DOLPHINDB_USER" c.storage.dolphin.username;
      password = env_str env "DOLPHINDB_PASSWORD" c.storage.dolphin.password;
    };
  };
  zeromq = record c.zeromq { port = env_int env "ZMQ_PORT" c.zeromq.port };
  health = record c.health { http_port = env_int env "HEALTH_PORT" c.health.http_port };
  logging = record c.logging { level = env_str env "LOG_LEVEL" c.logging.level };
  processes = record {
    adapter_health_port = env_int env "ADAPTER_HEALTH_PORT" c.processes.adapter_health_port;
    canonicalizer_health_port =
        env_int env "CANONICALIZER_HEALTH_PORT" c.processes.canonicalizer_health_port;
    publisher_health_port = env_int env "PUBLISHER_HEALTH_PORT" c.processes.publisher_health_port;
    storage_health_port = env_int env "STORAGE_HEALTH_PORT" c.processes.storage_health_port;
  };
}

-- The file: it is not read, or yaml.Unmarshal into the configuration changes it, with an error or
-- without.
pub data ConfigFile (F : Type 0) : Type 0 where
  unreadable : ConfigFile F
  unmarshals malformed : (Config F → Config F) → ConfigFile F

-- Load: whether it fails, and the configuration
unfoldable pub load_config : {F : Type 0} → Env → F → F → ConfigFile F → Bool × Config F
unfolding apply_env apply_defaults
load_config env high low unreadable =
    (false, apply_defaults env.normal (apply_env env (default_config high low)))
load_config env high low (unmarshals f) =
    (false, apply_defaults env.normal (apply_env env (f (default_config high low))))
load_config env high low (malformed f) = (true, f (default_config high low))

unfoldable pub dur_or : ℤ → Option ℤ → ℤ
dur_or d none = d
dur_or d (some n) = n

-- ParseDur
unfoldable pub parse_dur : (String → String) → (String → Option ℤ) → String → ℤ → ℤ
unfolding dur_or
parse_dur trim parse s d = if str_eq (trim s) "" then d else dur_or d (parse (trim s))

-- BackoffDurations, in nanoseconds
unfoldable pub backoff_durations : List ℤ → List ℤ
unfolding mul_int64
backoff_durations secs = map (λ s. mul_int64 s 1_000_000_000) secs
