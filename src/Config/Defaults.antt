-- ===== src/Config/Defaults.antt =====
-- DefaultConfig and applyDefaults of pkg/config/config.go.
use text.Mathlib.Text.{◌==◌ as str_eq}
use spark_trade_mft_raw_data.Prelude.{String, true, false, none, List, [], ◌∷◌, if◌then◌else◌}
use spark_trade_mft_raw_data.Prelude.Int.{ℤ, pos, lez, quot, is_zero}
use spark_trade_mft_raw_data.Prelude.Word.{mul_int64}
use spark_trade_mft_raw_data.Config.{
  BinanceConfig, AdaptersConfig, WorkerPoolConf, ZmqConf, WalConf, DolphinConf, StorageConf,
  IpcConf, ProcessesConf, Config,
}

abbrev pub default_backoff_seconds : List ℤ
default_backoff_seconds = pos 1 ∷ pos 2 ∷ pos 4 ∷ pos 8 ∷ pos 16 ∷ pos 30 ∷ []

abbrev pub default_adapters : AdaptersConfig
default_adapters = record {
  binance = record {
    enabled = true;
    endpoint = "wss://stream.binance.com:9443/ws";
    symbols = "btcusdt" ∷ "ethusdt" ∷ "bnbusdt" ∷ [];
    reconnect = record { max_attempts = pos 10; backoff_seconds = default_backoff_seconds };
    heartbeat_interval = "30s";
    session_rotation = "24h";
  };
  ib = record {
    enabled = false;
    host = "localhost";
    port = pos 7497;
    client_id = pos 1;
    symbols = "AAPL" ∷ "MSFT" ∷ "GOOGL" ∷ [];
    reconnect = record { max_attempts = pos 10; backoff_seconds = default_backoff_seconds };
    request_timeout = "10s";
  };
  mt5 = none;
}

abbrev pub default_storage : StorageConf
default_storage = record {
  wal = record {
    enabled = true;
    directory = "./data/wal";
    rotation_size = pos 104857600;
    rotation_count = pos 10000;
    sync_interval = "1s";
    mode = "batched";
    batch_timeout_ms = pos 50;
  };
  dolphin = record {
    enabled = false;
    host = "localhost";
    port = pos 8848;
    username = "admin";
    password = "123456";
    database = "dfs://raw_data";
    batch_size = pos 1000;
    batch_timeout = "1s";
    connection_pool = record { max_open = pos 0; max_idle = pos 0; max_lifetime = "" };
  };
}

-- DefaultConfig, with its high and low water mark, 0.8 and 0.2
abbrev pub default_config : {F : Type 0} → F → F → Config F
default_config high low = record {
  mappings_dir = "./mappings";
  adapters = default_adapters;
  worker_pool = record {
    workers = pos 50;
    queue_size = pos 10000;
    autoscale = record {
      enabled = true;
      high_water_mark = high;
      low_water_mark = low;
      max_workers = pos 100;
      min_workers = pos 25;
    };
  };
  zeromq = record {
    enabled = true;
    protocol = "tcp";
    bind_address = "*";
    port = pos 5555;
    heartbeat_interval = "5s";
    hwm = pos 10000;
  };
  storage = default_storage;
  validation = record {
    enabled = true;
    layers = record {
      connectivity = true;
      protocol = true;
      data_integrity = true;
      fault_tolerance = true;
      performance = true;
    };
  };
  health = record {
    http_port = pos 8080;
    metrics_port = pos 9090;
    readiness_path = "/ready";
    liveness_path = "/live";
  };
  logging = record {
    level = "info";
    format = "json";
    output = "stdout";
    file = record { path = ""; max_size = pos 0; max_backups = pos 0; max_age = pos 0 };
  };
  ipc = record {
    adapter_to_canonicalizer = "/tmp/raw-adapter-canonicalizer.sock";
    canonicalizer_to_publisher = "/tmp/raw-canonicalizer-publisher.sock";
    publisher_to_storage = "/tmp/raw-publisher-storage.sock";
  };
  processes = record {
    adapter_health_port = pos 8081;
    canonicalizer_health_port = pos 8082;
    publisher_health_port = pos 8083;
    storage_health_port = pos 8084;
  };
}

-- the three kinds of defaults of applyDefaults
unfoldable pub positive_or : ℤ → ℤ → ℤ
positive_or d n = if lez n (pos 0) then d else n

unfoldable pub nonzero_or : ℤ → ℤ → ℤ
nonzero_or d n = if is_zero n then d else n

unfoldable pub nonempty_or : String → String → String
nonempty_or d s = if str_eq s "" then d else s

unfoldable pub pool_defaults : {F : Type 0} → WorkerPoolConf F → WorkerPoolConf F
unfolding positive_or mul_int64
pool_defaults c =
    let workers = positive_or (pos 50) c.workers in
    record {
      workers = workers;
      queue_size = positive_or (pos 10000) c.queue_size;
      autoscale = record c.autoscale {
        max_workers = positive_or (mul_int64 workers 2) c.autoscale.max_workers;
        min_workers = positive_or (quot workers 2) c.autoscale.min_workers;
      };
    }

unfoldable pub dolphin_defaults : DolphinConf → DolphinConf
unfolding positive_or nonempty_or
dolphin_defaults c = record c {
  database = nonempty_or "dfs://raw_data" c.database;
  batch_size = positive_or (pos 1000) c.batch_size;
  batch_timeout = nonempty_or "1s" c.batch_timeout;
}

-- `normal` is strings.ToLower of strings.TrimSpace
unfoldable pub wal_defaults : (String → String) → WalConf → WalConf
unfolding positive_or nonempty_or
wal_defaults normal c = record c {
  rotation_size = positive_or (pos 104857600) c.rotation_size;
  rotation_count = positive_or (pos 10000) c.rotation_count;
  sync_interval = nonempty_or "1s" c.sync_interval;
  mode = if str_eq (normal c.mode) "" then "batched" else c.mode;
  batch_timeout_ms = positive_or (pos 50) c.batch_timeout_ms;
}

unfoldable pub zeromq_defaults : ZmqConf → ZmqConf
unfolding positive_or nonempty_or
zeromq_defaults c = record c {
  hwm = positive_or (pos 10000) c.hwm;
  heartbeat_interval = nonempty_or "5s" c.heartbeat_interval;
}

unfoldable pub backoff_or : List ℤ → List ℤ → List ℤ
backoff_or d [] = d
backoff_or d (s ∷ ss) = s ∷ ss

unfoldable pub binance_defaults : BinanceConfig → BinanceConfig
unfolding nonempty_or backoff_or
binance_defaults c = record c {
  heartbeat_interval = nonempty_or "30s" c.heartbeat_interval;
  reconnect = record c.reconnect {
    backoff_seconds = backoff_or default_backoff_seconds c.reconnect.backoff_seconds;
  };
}

unfoldable pub ipc_defaults : IpcConf → IpcConf
unfolding nonempty_or
ipc_defaults c = record {
  adapter_to_canonicalizer =
      nonempty_or "/tmp/raw-adapter-canonicalizer.sock" c.adapter_to_canonicalizer;
  canonicalizer_to_publisher =
      nonempty_or "/tmp/raw-canonicalizer-publisher.sock" c.canonicalizer_to_publisher;
  publisher_to_storage = nonempty_or "/tmp/raw-publisher-storage.sock" c.publisher_to_storage;
}

unfoldable pub processes_defaults : ProcessesConf → ProcessesConf
unfolding nonzero_or
processes_defaults c = record {
  adapter_health_port = nonzero_or (pos 8081) c.adapter_health_port;
  canonicalizer_health_port = nonzero_or (pos 8082) c.canonicalizer_health_port;
  publisher_health_port = nonzero_or (pos 8083) c.publisher_health_port;
  storage_health_port = nonzero_or (pos 8084) c.storage_health_port;
}

-- applyDefaults; its parts touch different sections
unfoldable pub apply_defaults : {F : Type 0} → (String → String) → Config F → Config F
unfolding pool_defaults dolphin_defaults wal_defaults zeromq_defaults binance_defaults ipc_defaults
    processes_defaults nonzero_or nonempty_or
apply_defaults normal c = record c {
  worker_pool = pool_defaults c.worker_pool;
  storage = record {
    wal = wal_defaults normal c.storage.wal;
    dolphin = dolphin_defaults c.storage.dolphin;
  };
  zeromq = zeromq_defaults c.zeromq;
  adapters = record c.adapters { binance = binance_defaults c.adapters.binance };
  ipc = ipc_defaults c.ipc;
  processes = processes_defaults c.processes;
  health = record c.health { http_port = nonzero_or (pos 8080) c.health.http_port };
  logging = record c.logging { level = nonempty_or "info" c.logging.level };
}
