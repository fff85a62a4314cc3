-- ===== src/Canonicalizer/Mt5.antt =====
-- pkg/canonicalizer/mt5.go: quotes and order books of MT5.
use text.Mathlib.Text.{◌==◌ as str_eq}
use spark_trade_mft_raw_data.Prelude.{
  String, ◌||◌, ◌&&◌, Option, none, some, List, [], ◌∷◌, ◌++◌, if◌then◌else◌,
}
use spark_trade_mft_raw_data.Prelude.Int.{pos}
use spark_trade_mft_raw_data.Prelude.Word.{mul_int64}
use spark_trade_mft_raw_data.Event.{CanonicalEvent, Level, ForexMetadata}
use spark_trade_mft_raw_data.Pipeline.{RawMessage}
use spark_trade_mft_raw_data.Axiom.{Prices, sanitize_price, sanitize_size}
use spark_trade_mft_raw_data.Mapper.{SymbolMapper, map_to_canonical}
use spark_trade_mft_raw_data.Canonicalizer.{
  Header, Tick, Quote, Depth, Decoded, decoded, malformed, panicked, Decoders, ParseError,
  decode_error, unknown_type, Now, fill_unknown,
}

module _ (fl : Prices) where
  open fl use {F, zero, lt, sub}

  -- the spread, of two sides that are above zero
  unfoldable pub spread : F → F → F
  spread bid ask = if lt zero bid && lt zero ask then sub ask bid else zero

  unfoldable pub forex : String → F → F → ForexMetadata F
  unfolding spread
  forex symbol bid ask = record {
    currency_pair = symbol;
    bid = bid;
    ask = ask;
    spread = spread bid ask;
  }

  -- the loop over one side of a depth message: a level without a price is skipped
  unfoldable pub build_levels : String → List (Quote F) → List (Level F)
  unfolding sanitize_price sanitize_size
  build_levels side [] = []
  build_levels side (q ∷ qs) =
      let rest = build_levels side qs in
      if lt zero (sanitize_price fl q.price)
      then record {
        price = sanitize_price fl q.price;
        size = sanitize_size fl q.volume;
        side = side;
        order_id = pos 0;
      }
        ∷ rest
      else rest

  -- the first price of a side
  unfoldable pub best : List (Quote F) → F
  unfolding sanitize_price
  best [] = zero
  best (q ∷ qs) = sanitize_price fl q.price

module _ (lower : String → String) (mapper : SymbolMapper) where
  -- the symbol of an MT5 message: one that is not mapped stays
  unfoldable pub mt5_symbol : String → String
  unfolding map_to_canonical
  mt5_symbol symbol =
      let mapped = map_to_canonical lower mapper "MT5" symbol in
      if str_eq mapped "" || str_eq mapped "UNKNOWN" then symbol else mapped

module _ (fl : Prices) {J : Type 0} (lower : String → String) (mapper : SymbolMapper)
    (json : Decoders (Prices.F fl)) where
  open fl use {F, zero}

  -- parseMT5TickInto; its recovered panic leaves the error nil
  unfoldable pub fill_tick :
      RawMessage
      → String
      → Now
      → Decoded (Tick F)
      → CanonicalEvent F J
      → Option ParseError × CanonicalEvent F J
  unfolding fill_unknown sanitize_price sanitize_size forex mul_int64
  fill_tick raw symbol now malformed ev =
      (some decode_error, fill_unknown fl raw "MT5" "JSON" now ev)
  fill_tick raw symbol now panicked ev = (none, fill_unknown fl raw "MT5" "JSON" now ev)
  fill_tick raw symbol now (decoded tick) ev = (
    none,
    record ev {
      event_id = now.id;
      source = "MT5";
      canonical_symbol = symbol;
      exchange_timestamp = mul_int64 tick.time 1_000_000;
      local_hw_timestamp = raw.received_at;
      event_type = "QUOTE";
      price = sanitize_price fl tick.last;
      size = sanitize_size fl tick.volume;
      side = "UNKNOWN";
      raw_payload = raw.payload;
      raw_format = "JSON";
      forex_metadata =
          some (forex fl symbol (sanitize_price fl tick.bid) (sanitize_price fl tick.ask));
    },
  )

  -- parseMT5DepthInto
  unfoldable pub fill_depth :
      RawMessage
      → String
      → Now
      → Decoded (Depth F)
      → CanonicalEvent F J
      → Option ParseError × CanonicalEvent F J
  unfolding fill_unknown build_levels best forex
  fill_depth raw symbol now malformed ev =
      (some decode_error, fill_unknown fl raw "MT5" "JSON" now ev)
  fill_depth raw symbol now panicked ev = (none, fill_unknown fl raw "MT5" "JSON" now ev)
  fill_depth raw symbol now (decoded depth) ev = (
    none,
    record ev {
      event_id = now.id;
      source = "MT5";
      canonical_symbol = symbol;
      exchange_timestamp = raw.received_at;
      local_hw_timestamp = raw.received_at;
      event_type = "BOOK_SNAPSHOT";
      price = zero;
      size = zero;
      side = "UNKNOWN";
      levels = build_levels fl "BID" depth.bids ++ build_levels fl "ASK" depth.asks;
      raw_payload = raw.payload;
      raw_format = "JSON";
      forex_metadata = some (forex fl symbol (best fl depth.bids) (best fl depth.asks));
    },
  )

  unfoldable pub fill_mt5 :
      RawMessage
      → Now
      → Decoded Header
      → CanonicalEvent F J
      → Option ParseError × CanonicalEvent F J
  unfolding fill_unknown fill_tick fill_depth mt5_symbol
  fill_mt5 raw now malformed ev = (some decode_error, fill_unknown fl raw "MT5" "JSON" now ev)
  fill_mt5 raw now panicked ev = (none, fill_unknown fl raw "MT5" "JSON" now ev)
  fill_mt5 raw now (decoded header) ev =
      if str_eq header.typ "L1_TICK"
      then fill_tick raw (mt5_symbol lower mapper header.symbol) now (json.tick raw.payload) ev
      else if str_eq header.typ "L2_DEPTH"
      then fill_depth raw (mt5_symbol lower mapper header.symbol) now (json.depth raw.payload) ev
      else (some unknown_type, fill_unknown fl raw "MT5" "JSON" now ev)

  -- parseMT5Into
  unfoldable pub parse_mt5_into :
      RawMessage → Now → CanonicalEvent F J → Option ParseError × CanonicalEvent F J
  unfolding fill_mt5
  parse_mt5_into raw now ev = fill_mt5 raw now (json.header raw.payload) ev
