-- ===== src/Config/Usable.antt =====
-- What Load of pkg/config/config.go promises of the configuration it returns without an error.
use text.Mathlib.Text.{◌==◌ as str_eq}
use spark_trade_mft_raw_data.Prelude.{String, true, false, [], ◌≡◌, ◌≢◌}
use spark_trade_mft_raw_data.Prelude.Int.{ℤ, pos, ltz, is_zero}
use spark_trade_mft_raw_data.Config.{Config}

unfoldable pub IsPositive : ℤ → Type 0
IsPositive n = ltz (pos 0) n ≡ true

unfoldable pub IsFilled : String → Type 0
IsFilled s = str_eq s "" ≡ false

unfoldable pub IsNonzero : ℤ → Type 0
IsNonzero n = is_zero n ≡ false

-- each field that applyDefaults fills, but for the bounds of the autoscaling, which need not be positive
pub record IsUsable {F : Type 0} (normal : String → String) (c : Config F) : Type 0 where
  pub workers : IsPositive c.worker_pool.workers
  pub queue_size : IsPositive c.worker_pool.queue_size
  pub batch_size : IsPositive c.storage.dolphin.batch_size
  pub database : IsFilled c.storage.dolphin.database
  pub batch_timeout : IsFilled c.storage.dolphin.batch_timeout
  pub rotation_size : IsPositive c.storage.wal.rotation_size
  pub rotation_count : IsPositive c.storage.wal.rotation_count
  pub sync_interval : IsFilled c.storage.wal.sync_interval
  pub mode : IsFilled (normal c.storage.wal.mode)
  pub batch_timeout_ms : IsPositive c.storage.wal.batch_timeout_ms
  pub hwm : IsPositive c.zeromq.hwm
  pub heartbeat_interval : IsFilled c.zeromq.heartbeat_interval
  pub binance_interval : IsFilled c.adapters.binance.heartbeat_interval
  pub backoff_seconds : c.adapters.binance.reconnect.backoff_seconds ≢ []
  pub adapter_socket : IsFilled c.ipc.adapter_to_canonicalizer
  pub canonicalizer_socket : IsFilled c.ipc.canonicalizer_to_publisher
  pub publisher_socket : IsFilled c.ipc.publisher_to_storage
  pub adapter_port : IsNonzero c.processes.adapter_health_port
  pub canonicalizer_port : IsNonzero c.processes.canonicalizer_health_port
  pub publisher_port : IsNonzero c.processes.publisher_health_port
  pub storage_port : IsNonzero c.processes.storage_health_port
  pub http_port : IsNonzero c.health.http_port
  pub level : IsFilled c.logging.level
