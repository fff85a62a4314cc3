-- ===== src/Config/Stable.antt =====
-- applyDefaults of pkg/config/config.go applied again.
use text.Mathlib.Text.{◌==◌ as str_eq}
use spark_trade_mft_raw_data.Prelude.{
  String, Bool, List, [], ◌∷◌, ◌≡◌, refl, ap, ◌∙◌, if_cases, if◌then◌else◌,
}
use spark_trade_mft_raw_data.Prelude.Int.{ℤ, pos, lez, quot, is_zero}
use spark_trade_mft_raw_data.Prelude.Word.{mul_int64}
use spark_trade_mft_raw_data.Config.{
  Config, WorkerPoolConf, WalConf, DolphinConf, BinanceConfig, IpcConf, ProcessesConf,
}
use spark_trade_mft_raw_data.Config.Defaults.{
  positive_or, nonzero_or, nonempty_or, backoff_or, default_backoff_seconds, pool_defaults,
  dolphin_defaults, wal_defaults, binance_defaults, ipc_defaults, processes_defaults,
  apply_defaults,
}

positive_or-positive_or : (d n : ℤ) → positive_or d (positive_or d n) ≡ positive_or d n
unfolding positive_or
positive_or-positive_or d n =
    if_cases (λ m. (if lez m (pos 0) then d else m) ≡ m) (lez n (pos 0))
      (λ _. if_cases (λ m. m ≡ d) (lez d (pos 0)) (λ _. refl) (λ _. refl))
      (λ e. ap (λ (b : Bool). if b then d else n) e)

nonzero_or-nonzero_or : (d n : ℤ) → nonzero_or d (nonzero_or d n) ≡ nonzero_or d n
unfolding nonzero_or
nonzero_or-nonzero_or d n =
    if_cases (λ m. (if is_zero m then d else m) ≡ m) (is_zero n)
      (λ _. if_cases (λ m. m ≡ d) (is_zero d) (λ _. refl) (λ _. refl))
      (λ e. ap (λ (b : Bool). if b then d else n) e)

nonempty_or-nonempty_or : (d s : String) → nonempty_or d (nonempty_or d s) ≡ nonempty_or d s
unfolding nonempty_or
nonempty_or-nonempty_or d s =
    if_cases (λ t. (if str_eq t "" then d else t) ≡ t) (str_eq s "")
      (λ _. if_cases (λ t. t ≡ d) (str_eq d "") (λ _. refl) (λ _. refl))
      (λ e. ap (λ (b : Bool). if b then d else s) e)

backoff_or-backoff_or : (d ss : List ℤ) → backoff_or d (backoff_or d ss) ≡ backoff_or d ss
unfolding backoff_or
backoff_or-backoff_or [] [] = refl
backoff_or-backoff_or (_ ∷ _) [] = refl
backoff_or-backoff_or d (_ ∷ _) = refl

-- "batched" is put for a blank mode, and put again if it is blank itself
mode_again :
    (normal : String → String) (m : String)
    → let d = if str_eq (normal m) "" then "batched" else m in
      (if str_eq (normal d) "" then "batched" else d) ≡ d
mode_again normal m =
    if_cases (λ d. (if str_eq (normal d) "" then "batched" else d) ≡ d) (str_eq (normal m) "")
      (λ _. if_cases (λ d. d ≡ "batched") (str_eq (normal "batched") "") (λ _. refl) (λ _. refl))
      (λ e. ap (λ (b : Bool). if b then "batched" else m) e)

wal_defaults-wal_defaults :
    (normal : String → String) (c : WalConf)
    → wal_defaults normal (wal_defaults normal c) ≡ wal_defaults normal c
unfolding wal_defaults
wal_defaults-wal_defaults normal c = λ i. record c {
  rotation_size = positive_or-positive_or (pos 104857600) c.rotation_size i;
  rotation_count = positive_or-positive_or (pos 10000) c.rotation_count i;
  sync_interval = nonempty_or-nonempty_or "1s" c.sync_interval i;
  mode = mode_again normal c.mode i;
  batch_timeout_ms = positive_or-positive_or (pos 50) c.batch_timeout_ms i;
}

dolphin_defaults-dolphin_defaults :
    (c : DolphinConf) → dolphin_defaults (dolphin_defaults c) ≡ dolphin_defaults c
unfolding dolphin_defaults
dolphin_defaults-dolphin_defaults c = λ i. record c {
  database = nonempty_or-nonempty_or "dfs://raw_data" c.database i;
  batch_size = positive_or-positive_or (pos 1000) c.batch_size i;
  batch_timeout = nonempty_or-nonempty_or "1s" c.batch_timeout i;
}

binance_defaults-binance_defaults :
    (c : BinanceConfig) → binance_defaults (binance_defaults c) ≡ binance_defaults c
unfolding binance_defaults
binance_defaults-binance_defaults c = λ i. record c {
  heartbeat_interval = nonempty_or-nonempty_or "30s" c.heartbeat_interval i;
  reconnect = record c.reconnect {
    backoff_seconds = backoff_or-backoff_or default_backoff_seconds c.reconnect.backoff_seconds i;
  };
}

ipc_defaults-ipc_defaults : (c : IpcConf) → ipc_defaults (ipc_defaults c) ≡ ipc_defaults c
unfolding ipc_defaults
ipc_defaults-ipc_defaults c = λ i. record {
  adapter_to_canonicalizer =
      nonempty_or-nonempty_or "/tmp/raw-adapter-canonicalizer.sock" c.adapter_to_canonicalizer i;
  canonicalizer_to_publisher =
      nonempty_or-nonempty_or "/tmp/raw-canonicalizer-publisher.sock" c.canonicalizer_to_publisher
        i;
  publisher_to_storage =
      nonempty_or-nonempty_or "/tmp/raw-publisher-storage.sock" c.publisher_to_storage i;
}

processes_defaults-processes_defaults :
    (c : ProcessesConf) → processes_defaults (processes_defaults c) ≡ processes_defaults c
unfolding processes_defaults
processes_defaults-processes_defaults c = λ i. record {
  adapter_health_port = nonzero_or-nonzero_or (pos 8081) c.adapter_health_port i;
  canonicalizer_health_port = nonzero_or-nonzero_or (pos 8082) c.canonicalizer_health_port i;
  publisher_health_port = nonzero_or-nonzero_or (pos 8083) c.publisher_health_port i;
  storage_health_port = nonzero_or-nonzero_or (pos 8084) c.storage_health_port i;
}

pool_defaults-pool_defaults :
    {F : Type 0} (c : WorkerPoolConf F) → pool_defaults (pool_defaults c) ≡ pool_defaults c
unfolding pool_defaults
pool_defaults-pool_defaults c =
    let w = positive_or (pos 50) c.workers in
    let same = positive_or-positive_or (pos 50) c.workers in
    (λ i. record {
      workers = same i;
      queue_size = positive_or-positive_or (pos 10000) c.queue_size i;
      autoscale = record c.autoscale {
        max_workers =
            positive_or (mul_int64 (same i) 2)
              (positive_or (mul_int64 w 2) c.autoscale.max_workers);
        min_workers =
            positive_or (quot (same i) 2) (positive_or (quot w 2) c.autoscale.min_workers);
      };
    })
    ∙ (λ i. record (pool_defaults c) {
      autoscale = record c.autoscale {
        max_workers = positive_or-positive_or (mul_int64 w 2) c.autoscale.max_workers i;
        min_workers = positive_or-positive_or (quot w 2) c.autoscale.min_workers i;
      };
    })

pub apply_defaults-apply_defaults :
    {F : Type 0} (normal : String → String) (c : Config F)
    → apply_defaults normal (apply_defaults normal c) ≡ apply_defaults normal c
unfolding apply_defaults
apply_defaults-apply_defaults normal c = λ i. record c {
  worker_pool = pool_defaults-pool_defaults c.worker_pool i;
  storage = record {
    wal = wal_defaults-wal_defaults normal c.storage.wal i;
    dolphin = dolphin_defaults-dolphin_defaults c.storage.dolphin i;
  };
  zeromq = record c.zeromq {
    hwm = positive_or-positive_or (pos 10000) c.zeromq.hwm i;
    heartbeat_interval = nonempty_or-nonempty_or "5s" c.zeromq.heartbeat_interval i;
  };
  adapters = record c.adapters { binance = binance_defaults-binance_defaults c.adapters.binance i };
  ipc = ipc_defaults-ipc_defaults c.ipc i;
  processes = processes_defaults-processes_defaults c.processes i;
  health = record c.health { http_port = nonzero_or-nonzero_or (pos 8080) c.health.http_port i };
  logging = record c.logging { level = nonempty_or-nonempty_or "info" c.logging.level i };
}
