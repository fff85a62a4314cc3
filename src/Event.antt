-- ===== src/Event.antt =====
-- CanonicalEvent of pkg/canonicalizer/worker.go, over a type of floats and a type of the values of
-- `map[string]interface{}`.
use spark_trade_mft_raw_data.Prelude.{ℕ, String, Option, List}
use spark_trade_mft_raw_data.Prelude.Int.{ℤ}

pub record Level (F : Type 0) : Type 0 where
  pub price : F
  pub size : F
  pub side : String
  pub order_id : ℤ

pub record ForexMetadata (F : Type 0) : Type 0 where
  pub currency_pair : String
  pub bid : F
  pub ask : F
  pub spread : F

pub record FuturesMetadata (F : Type 0) : Type 0 where
  pub contract_month : String
  pub open_interest : F
  pub settlement_price : F

pub record EquityMetadata : Type 0 where
  pub exchange : String
  pub mic : String
  pub condition_codes : List String

pub record CanonicalEvent (F J : Type 0) : Type 0 where
  pub event_id : String
  pub source : String
  pub canonical_symbol : String
  pub exchange_timestamp : ℤ
  pub local_hw_timestamp : ℤ
  pub event_type : String
  pub price : F
  pub size : F
  pub side : String
  pub levels : List (Level F)
  pub raw_payload : List ℕ
  pub raw_format : String
  pub forex_metadata : Option (ForexMetadata F)
  pub futures_metadata : Option (FuturesMetadata F)
  pub crypto_metadata : Option J
  pub equity_metadata : Option EquityMetadata
