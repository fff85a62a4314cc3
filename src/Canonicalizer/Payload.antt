-- ===== src/Canonicalizer/Payload.antt =====
-- What every event of the canonicalizer keeps of its raw message (pkg/canonicalizer, and the way
-- over pkg/workerpool and the output loop of cmd/canonicalizer to the codec).
use text.Mathlib.Text.{◌==◌ as str_eq}
use text.Mathlib.TextEquality.{eq_iff}
use spark_trade_mft_raw_data.Prelude.{String, ◌≡◌, refl, sym, true, Option, none, some, if_cases}
use spark_trade_mft_raw_data.Event.{CanonicalEvent}
use spark_trade_mft_raw_data.Proto.RoundTrip.{IsNamed, trade, quote, book_snapshot, unknown}
use spark_trade_mft_raw_data.Pipeline.{RawMessage}
use spark_trade_mft_raw_data.Axiom.{Prices}
use spark_trade_mft_raw_data.Mapper.{SymbolMapper}
use spark_trade_mft_raw_data.Canonicalizer.{
  Trade, Header, Tick, Depth, Decoded, decoded, malformed, panicked, Decoders, ParseError, Now,
  reset, fill_unknown,
}
use spark_trade_mft_raw_data.Canonicalizer.Worker.{
  parse_trade_into, fill_binance, parse_binance_into, parse_ib_into,
}
use spark_trade_mft_raw_data.Canonicalizer.Mt5.{
  mt5_symbol, fill_tick, fill_depth, fill_mt5, parse_mt5_into,
}
use spark_trade_mft_raw_data.Canonicalizer.Process.{parse_into}

-- The payload byte for byte, the source, and what the codec needs: a type of the schema and no
-- crypto metadata.
pub record Keeps {F J : Type 0} (raw : RawMessage) (ev : CanonicalEvent F J) : Type 0 where
  pub payload : ev.raw_payload ≡ raw.payload
  pub source : ev.source ≡ raw.source
  pub named : IsNamed ev.event_type
  pub no_crypto : ev.crypto_metadata ≡ none

abbrev Result : Type 0 → Type 0 → Type 0
Result F J = Option ParseError × CanonicalEvent F J

source_path : (s t : String) → str_eq s t ≡ true → t ≡ s
source_path s t h = sym ((eq_iff s t).0 h)

module _ (fl : Prices) {J : Type 0} (lower : String → String) (mapper : SymbolMapper)
    (json : Decoders (Prices.F fl)) where
  open fl use {F}

  unknown-Keeps :
      (raw : RawMessage) (source format : String) (now : Now) (ev : CanonicalEvent F J)
      → source ≡ raw.source
      → Keeps raw (fill_unknown fl raw source format now ev)
  unfolding fill_unknown reset
  unknown-Keeps raw source format now ev e = record {
    payload = refl;
    source = e;
    named = unknown;
    no_crypto = refl;
  }

  binance-Keeps :
      (raw : RawMessage) (now : Now) (o : Option Trade) (ev : CanonicalEvent F J)
      → "BINANCE" ≡ raw.source
      → ev.crypto_metadata ≡ none
      → Keeps raw (fill_binance fl lower mapper json raw now o ev).1
  unfolding fill_binance
  binance-Keeps raw now none ev e c = unknown-Keeps raw "BINANCE" "JSON" now ev e
  binance-Keeps raw now (some t) ev e c = record {
    payload = refl;
    source = e;
    named = trade;
    no_crypto = c;
  }

  tick-Keeps :
      (raw : RawMessage) (symbol : String) (now : Now) (d : Decoded (Tick F))
      (ev : CanonicalEvent F J)
      → "MT5" ≡ raw.source
      → ev.crypto_metadata ≡ none
      → Keeps raw (fill_tick fl lower mapper json raw symbol now d ev).1
  unfolding fill_tick
  tick-Keeps raw symbol now malformed ev e c = unknown-Keeps raw "MT5" "JSON" now ev e
  tick-Keeps raw symbol now panicked ev e c = unknown-Keeps raw "MT5" "JSON" now ev e
  tick-Keeps raw symbol now (decoded tick) ev e c = record {
    payload = refl;
    source = e;
    named = quote;
    no_crypto = c;
  }

  depth-Keeps :
      (raw : RawMessage) (symbol : String) (now : Now) (d : Decoded (Depth F))
      (ev : CanonicalEvent F J)
      → "MT5" ≡ raw.source
      → ev.crypto_metadata ≡ none
      → Keeps raw (fill_depth fl lower mapper json raw symbol now d ev).1
  unfolding fill_depth
  depth-Keeps raw symbol now malformed ev e c = unknown-Keeps raw "MT5" "JSON" now ev e
  depth-Keeps raw symbol now panicked ev e c = unknown-Keeps raw "MT5" "JSON" now ev e
  depth-Keeps raw symbol now (decoded depth) ev e c = record {
    payload = refl;
    source = e;
    named = book_snapshot;
    no_crypto = c;
  }

  mt5-Keeps :
      (raw : RawMessage) (now : Now) (d : Decoded Header) (ev : CanonicalEvent F J)
      → "MT5" ≡ raw.source
      → ev.crypto_metadata ≡ none
      → Keeps raw (fill_mt5 fl lower mapper json raw now d ev).1
  unfolding fill_mt5
  mt5-Keeps raw now malformed ev e c = unknown-Keeps raw "MT5" "JSON" now ev e
  mt5-Keeps raw now panicked ev e c = unknown-Keeps raw "MT5" "JSON" now ev e
  mt5-Keeps raw now (decoded header) ev e c =
      if_cases (λ (r : Result F J). Keeps raw r.1) (str_eq header.typ "L1_TICK")
        (λ _.
          tick-Keeps raw (mt5_symbol lower mapper header.symbol) now (json.tick raw.payload) ev e c)
        (λ _.
          if_cases (λ (r : Result F J). Keeps raw r.1) (str_eq header.typ "L2_DEPTH")
            (λ _.
              depth-Keeps raw (mt5_symbol lower mapper header.symbol) now (json.depth raw.payload)
                ev e c)
            (λ _. unknown-Keeps raw "MT5" "JSON" now ev e))

  pub parse_into-Keeps :
      (raw : RawMessage) (now : Now) (ev : CanonicalEvent F J)
      → ev.crypto_metadata ≡ none
      → Keeps raw (parse_into fl lower mapper json raw now ev).1
  unfolding parse_into parse_binance_into parse_ib_into parse_mt5_into
  parse_into-Keeps raw now ev c =
      if_cases (λ (r : Result F J). Keeps raw r.1) (str_eq raw.source "BINANCE")
        (λ e.
          binance-Keeps raw now (parse_trade_into fl json raw.payload) ev
            (source_path raw.source "BINANCE" e) c)
        (λ _.
          if_cases (λ (r : Result F J). Keeps raw r.1) (str_eq raw.source "IB")
            (λ e. record {
              payload = refl;
              source = source_path raw.source "IB" e;
              named = trade;
              no_crypto = c;
            })
            (λ _.
              if_cases (λ (r : Result F J). Keeps raw r.1) (str_eq raw.source "MT5")
                (λ e.
                  mt5-Keeps raw now (json.header raw.payload) ev (source_path raw.source "MT5" e) c)
                (λ _. unknown-Keeps raw raw.source "UNKNOWN" now ev refl)))
