-- ===== src/Canonicalizer/Worker.antt =====
-- The Binance and IB parsers of pkg/canonicalizer/worker.go, with ParseTradeInto of
-- pkg/parser/sonic.go.
use text.Mathlib.Text.{◌==◌ as str_eq}
use spark_trade_mft_raw_data.Prelude.{
  ℕ, String, Option, none, some, List, [], length, ◌==◌, if◌then◌else◌,
}
use spark_trade_mft_raw_data.Prelude.Int.{is_zero}
use spark_trade_mft_raw_data.Prelude.Word.{mul_int64}
use spark_trade_mft_raw_data.Event.{CanonicalEvent}
use spark_trade_mft_raw_data.Pipeline.{RawMessage}
use spark_trade_mft_raw_data.Axiom.{Prices, sanitize_price, sanitize_size}
use spark_trade_mft_raw_data.Mapper.{SymbolMapper, map_to_canonical}
use spark_trade_mft_raw_data.Canonicalizer.{
  Trade, decoded, malformed, panicked, Decoders, ParseError, decode_error, Now, fill_unknown,
}

module _ (fl : Prices) (json : Decoders (Prices.F fl)) where
  open fl use {F, zero}

  -- SonicParser.ParseTradeInto, which turns a panic into an error
  unfoldable pub parse_trade_into : List ℕ → Option Trade
  parse_trade_into payload =
      if length payload == 0
      then none
      else elim (json.trade payload) [ decoded t ↦ some t | malformed ↦ none | panicked ↦ none ]

  unfoldable pub float_or_zero : Option F → F
  float_or_zero none = zero
  float_or_zero (some x) = x

  -- parseFloat
  unfoldable pub parse_float : String → F
  unfolding float_or_zero
  parse_float s = float_or_zero (json.float s)

module _ (fl : Prices) {J : Type 0} (lower : String → String) (mapper : SymbolMapper)
    (json : Decoders (Prices.F fl)) where
  open fl use {zero}

  unfoldable pub fill_binance :
      RawMessage
      → Now
      → Option Trade
      → CanonicalEvent (Prices.F fl) J
      → Option ParseError × CanonicalEvent (Prices.F fl) J
  unfolding fill_unknown parse_float sanitize_price sanitize_size map_to_canonical mul_int64
  fill_binance raw now none ev = (some decode_error, fill_unknown fl raw "BINANCE" "JSON" now ev)
  fill_binance raw now (some t) ev =
      let mapped = map_to_canonical lower mapper "BINANCE" t.symbol in
      (
        none,
        record ev {
          event_id = now.id;
          source = "BINANCE";
          canonical_symbol = if str_eq mapped "" then t.symbol else mapped;
          exchange_timestamp =
              mul_int64 (if is_zero t.trade_time then t.time else t.trade_time) 1_000_000;
          local_hw_timestamp = raw.received_at;
          event_type = "TRADE";
          price = sanitize_price fl (parse_float fl json t.price);
          size = sanitize_size fl (parse_float fl json t.quantity);
          side = if t.is_buyer then "SELL" else "BUY";
          raw_payload = raw.payload;
          raw_format = "JSON";
        },
      )

  -- parseBinanceInto
  unfoldable pub parse_binance_into :
      RawMessage
      → Now
      → CanonicalEvent (Prices.F fl) J
      → Option ParseError × CanonicalEvent (Prices.F fl) J
  unfolding fill_binance parse_trade_into
  parse_binance_into raw now ev = fill_binance raw now (parse_trade_into fl json raw.payload) ev

  -- parseIBInto
  unfoldable pub parse_ib_into :
      RawMessage
      → Now
      → CanonicalEvent (Prices.F fl) J
      → Option ParseError × CanonicalEvent (Prices.F fl) J
  parse_ib_into raw now ev = (
    none,
    record ev {
      event_id = now.id;
      source = "IB";
      canonical_symbol = "UNKNOWN";
      exchange_timestamp = now.nanos;
      local_hw_timestamp = raw.received_at;
      event_type = "TRADE";
      price = zero;
      size = zero;
      side = "UNKNOWN";
      raw_payload = raw.payload;
      raw_format = "BINARY";
      equity_metadata = some (record { exchange = "IB"; mic = ""; condition_codes = [] });
    },
  )
