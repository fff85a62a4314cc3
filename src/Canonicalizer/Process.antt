-- ===== src/Canonicalizer/Process.antt =====
-- Process of pkg/canonicalizer/worker.go, and the output loop of cmd/canonicalizer/main.go.
use text.Mathlib.Text.{◌==◌ as str_eq}
use spark_trade_mft_raw_data.Prelude.{String, Option, none, some, if◌then◌else◌}
use spark_trade_mft_raw_data.Event.{CanonicalEvent}
use spark_trade_mft_raw_data.Pipeline.{RawMessage}
use spark_trade_mft_raw_data.Axiom.{Prices}
use spark_trade_mft_raw_data.Mapper.{SymbolMapper, map_to_canonical}
use spark_trade_mft_raw_data.Workerpool.{ProcessedMessage, Outcome, returned}
use spark_trade_mft_raw_data.Canonicalizer.{Decoders, ParseError, unknown_source, Now, fill_unknown}
use spark_trade_mft_raw_data.Canonicalizer.Worker.{parse_binance_into, parse_ib_into}
use spark_trade_mft_raw_data.Canonicalizer.Mt5.{parse_mt5_into}

module _ (fl : Prices) {J : Type 0} (lower : String → String) (mapper : SymbolMapper)
    (json : Decoders (Prices.F fl)) where
  open fl use {F, zero, lt, sub}

  -- the `switch` of Process, on the acquired event
  unfoldable pub parse_into :
      RawMessage → Now → CanonicalEvent F J → Option ParseError × CanonicalEvent F J
  unfolding parse_binance_into parse_ib_into parse_mt5_into fill_unknown
  parse_into raw now ev =
      if str_eq raw.source "BINANCE"
      then parse_binance_into fl lower mapper json raw now ev
      else if str_eq raw.source "IB"
      then parse_ib_into fl lower mapper json raw now ev
      else if str_eq raw.source "MT5"
      then parse_mt5_into fl lower mapper json raw now ev
      else (some unknown_source, fill_unknown fl raw raw.source "UNKNOWN" now ev)

  -- Process, as the worker pool calls it; no code that may panic is left to its recover
  unfoldable pub canonicalize :
      RawMessage → Now → CanonicalEvent F J → Outcome RawMessage (CanonicalEvent F J) ParseError
  unfolding parse_into
  canonicalize raw now ev =
      let (err, ev1) = parse_into raw now ev in
      returned (record { raw = raw; canonical = some ev1; error = none }) err

  -- the output loop of cmd/canonicalizer: the event of a processed message, or one in its place
  unfoldable pub output_event :
      Now
      → CanonicalEvent F J
      → ProcessedMessage RawMessage (CanonicalEvent F J) ParseError
      → CanonicalEvent F J
  unfolding map_to_canonical
  output_event now fresh processed = elim processed.canonical [
    | some ev ↦ ev
    | none ↦ record fresh {
      event_id = now.id;
      source = processed.raw.source;
      canonical_symbol = map_to_canonical lower mapper processed.raw.source "";
      exchange_timestamp = processed.raw.received_at;
      local_hw_timestamp = now.nanos;
      event_type = "TRADE";
      raw_payload = processed.raw.payload;
      raw_format = "JSON";
    }
  ]
