-- ===== src/Config.antt =====
-- pkg/config/config.go: the configuration of the four processes. Go's int is the integer it holds,
-- and the water marks have a parameter for their float type.
pub mod Defaults
pub mod Load
pub mod Stable
pub mod Usable
use spark_trade_mft_raw_data.Prelude.{String, Bool, Option, List}
use spark_trade_mft_raw_data.Prelude.Int.{ℤ}

pub record ReconnectConf : Type 0 where
  pub max_attempts : ℤ
  pub backoff_seconds : List ℤ

pub record BinanceConfig : Type 0 where
  pub enabled : Bool
  pub endpoint : String
  pub symbols : List String
  pub reconnect : ReconnectConf
  pub heartbeat_interval : String
  pub session_rotation : String

pub record IbConfig : Type 0 where
  pub enabled : Bool
  pub host : String
  pub port : ℤ
  pub client_id : ℤ
  pub symbols : List String
  pub reconnect : ReconnectConf
  pub request_timeout : String

pub record Mt5Config : Type 0 where
  pub enabled : Bool
  pub endpoint : String
  pub symbols : List String
  pub reconnect : ReconnectConf
  pub heartbeat_interval : String

pub record AdaptersConfig : Type 0 where
  pub binance : BinanceConfig
  pub ib : IbConfig
  pub mt5 : Option Mt5Config

pub record AutoscaleConf (F : Type 0) : Type 0 where
  pub enabled : Bool
  pub high_water_mark : F
  pub low_water_mark : F
  pub max_workers : ℤ
  pub min_workers : ℤ

pub record WorkerPoolConf (F : Type 0) : Type 0 where
  pub workers : ℤ
  pub queue_size : ℤ
  pub autoscale : AutoscaleConf F

pub record ZmqConf : Type 0 where
  pub enabled : Bool
  pub protocol : String
  pub bind_address : String
  pub port : ℤ
  pub heartbeat_interval : String
  pub hwm : ℤ

pub record WalConf : Type 0 where
  pub enabled : Bool
  pub directory : String
  pub rotation_size : ℤ
  pub rotation_count : ℤ
  pub sync_interval : String
  pub mode : String
  pub batch_timeout_ms : ℤ

pub record ConnPoolConf : Type 0 where
  pub max_open : ℤ
  pub max_idle : ℤ
  pub max_lifetime : String

pub record DolphinConf : Type 0 where
  pub enabled : Bool
  pub host : String
  pub port : ℤ
  pub username : String
  pub password : String
  pub database : String
  pub batch_size : ℤ
  pub batch_timeout : String
  pub connection_pool : ConnPoolConf

pub record StorageConf : Type 0 where
  pub wal : WalConf
  pub dolphin : DolphinConf

pub record LayersConf : Type 0 where
  pub connectivity : Bool
  pub protocol : Bool
  pub data_integrity : Bool
  pub fault_tolerance : Bool
  pub performance : Bool

pub record ValidationConf : Type 0 where
  pub enabled : Bool
  pub layers : LayersConf

pub record HealthConf : Type 0 where
  pub http_port : ℤ
  pub metrics_port : ℤ
  pub readiness_path : String
  pub liveness_path : String

pub record FileConf : Type 0 where
  pub path : String
  pub max_size : ℤ
  pub max_backups : ℤ
  pub max_age : ℤ

pub record LoggingConf : Type 0 where
  pub level : String
  pub format : String
  pub output : String
  pub file : FileConf

pub record IpcConf : Type 0 where
  pub adapter_to_canonicalizer : String
  pub canonicalizer_to_publisher : String
  pub publisher_to_storage : String

pub record ProcessesConf : Type 0 where
  pub adapter_health_port : ℤ
  pub canonicalizer_health_port : ℤ
  pub publisher_health_port : ℤ
  pub storage_health_port : ℤ

-- Config; `zeromq` is the one field of PublisherConf
pub record Config (F : Type 0) : Type 0 where
  pub mappings_dir : String
  pub adapters : AdaptersConfig
  pub worker_pool : WorkerPoolConf F
  pub zeromq : ZmqConf
  pub storage : StorageConf
  pub validation : ValidationConf
  pub health : HealthConf
  pub logging : LoggingConf
  pub ipc : IpcConf
  pub processes : ProcessesConf
