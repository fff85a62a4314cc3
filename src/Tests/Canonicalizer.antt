-- ===== src/Tests/Canonicalizer.antt =====
-- The canonicalizer, its symbol mapper and its sanitizer at concrete inputs.
use text.Mathlib.Text.{◌==◌ as str_eq}
use spark_trade_mft_raw_data.Prelude.{
  ap, sym, ℕ, String, Bool, true, false, ◌≡◌, refl, subst, Option, none, some, List, [], ◌∷◌, ltb,
  ◌==◌, All,
}
use spark_trade_mft_raw_data.Prelude.Int.{pos}
use spark_trade_mft_raw_data.Event.{CanonicalEvent}
use spark_trade_mft_raw_data.Prelude.Word.{mul_int64, int64, from_int64}
use spark_trade_mft_raw_data.Proto.{Json, Wire, to_proto, marshal_proto}
use spark_trade_mft_raw_data.Pipeline.{
  RawMessage, IpcMessage, encode_canonical, decode_canonical, encoded, new_message,
}
use spark_trade_mft_raw_data.Pipeline.RoundTrip.{ReadsBack}
use spark_trade_mft_raw_data.Axiom.{
  Prices, ZeroIsFinite, sanitize_price, sanitize_size, safe_divide, is_valid, IsPrice, IsSize,
  sanitized, detect_overflow,
}
use spark_trade_mft_raw_data.Mapper.{
  SymbolMapper, MappingFile, add_symbols, load_file, load_files, new_symbol_mapper,
  map_to_canonical, map_to_provider, or_unknown, look_up,
}
use spark_trade_mft_raw_data.Mapper.Inverse.{IsMap, IsDistinct, to_canonical-to_provider}
use spark_trade_mft_raw_data.Workerpool.{ProcessedMessage, PoolConfig, new_pool, process_message}
use spark_trade_mft_raw_data.Canonicalizer.{
  Trade, Decoders, ParseError, Now, decoded, malformed, panicked, acquire_event, new_event,
  release_event, reset,
}
use spark_trade_mft_raw_data.Canonicalizer.Worker.{
  parse_trade_into, float_or_zero, parse_float, fill_binance, parse_binance_into,
}
use spark_trade_mft_raw_data.Canonicalizer.Process.{parse_into, canonicalize, output_event}
use spark_trade_mft_raw_data.Canonicalizer.Output.{
  EventPoolOp, acquires, releases, event_pool_run, event_pool_step, canonicalize-pooled,
  published-Keeps,
}

-- numbers, and `none` for NaN
abbrev below : Option ℕ → Option ℕ → Bool
below none y = false
below (some a) none = false
below (some a) (some b) = ltb a b

abbrev equal : Option ℕ → Option ℕ → Bool
equal none y = false
equal (some a) none = false
equal (some a) (some b) = a == b

abbrev is_none : Option ℕ → Bool
is_none none = true
is_none (some a) = false

abbrev naturals : Prices
naturals = record {
  F = Option ℕ;
  zero = some 0;
  limit = some 1_000_000_000_000_000;
  lt = below;
  eq = equal;
  is_nan = is_none;
  is_inf = λ x. false;
  abs = λ x. x;
  sub = λ x y. x;
  div = λ x y. x;
}

ZeroIsFinite-naturals : ZeroIsFinite naturals
ZeroIsFinite-naturals = record {
  zero_nan = refl;
  zero_inf = refl;
  zero_lt = refl;
  zero_limit = refl;
}

sanitized_example :
    IsSize naturals (sanitize_size naturals none)
    × IsPrice naturals (sanitize_price naturals none)
    × (sanitize_size naturals (sanitize_price naturals none) ≡ sanitize_price naturals none)
    × (sanitize_price naturals (sanitize_price naturals none) ≡ sanitize_price naturals none)
    × (is_valid naturals (safe_divide naturals none (some 3)) ≡ true)
    × (sanitize_size naturals (some 7) ≡ some 7)
    × (sanitize_price naturals (some 5) ≡ some 5)
    × (safe_divide naturals (some 6) (some 3) ≡ naturals.div (some 6) (some 3))
unfolding is_valid detect_overflow
sanitized_example =
    sanitized naturals ZeroIsFinite-naturals none (some 3) (some 7) (some 5) (some 6) (some 3)
      (record { valid = refl; not_below = refl })
      (record { is_size = record { valid = refl; not_below = refl }; within = refl }) refl refl refl
      refl

-- two symbols of the provider for one canonical symbol
abbrev btc_symbols : List (String × String)
btc_symbols = ("BTCUSDT", "BTC-USD") ∷ ("BTCUSDC", "BTC-USD") ∷ []

abbrev mapping_files : List MappingFile
mapping_files = record { base = "BINANCE"; mapping = some btc_symbols } ∷ []

abbrev as_is : String → String
as_is s = s

or_nothing : Option (List (String × String)) → List (String × String)
or_nothing none = []
or_nothing (some es) = es

IsMap-mapping_files : All IsMap mapping_files
unfolding or_nothing
IsMap-mapping_files = (λ es e. subst IsDistinct (ap or_nothing e) ((refl, tt), (tt, tt)), tt)

abbrev loaded_or : Option SymbolMapper → SymbolMapper
loaded_or none = record { to_canonical = λ s. none; to_provider = λ s. none }
loaded_or (some m) = m

abbrev btc_mapper : SymbolMapper
btc_mapper = loaded_or (new_symbol_mapper as_is mapping_files)

new_symbol_mapper-btc : new_symbol_mapper as_is mapping_files ≡ some btc_mapper
unfolding new_symbol_mapper load_files load_file
new_symbol_mapper-btc = refl

map_to_provider-btc : str_eq (map_to_provider as_is btc_mapper "BINANCE" "BTC-USD") "" ≡ false
unfolding new_symbol_mapper load_files load_file map_to_provider add_symbols
map_to_provider-btc = refl

to_canonical-to_provider_example :
    map_to_canonical as_is btc_mapper "BINANCE"
      (map_to_provider as_is btc_mapper "BINANCE" "BTC-USD")
    ≡ "BTC-USD"
to_canonical-to_provider_example =
    to_canonical-to_provider as_is mapping_files btc_mapper "BINANCE" "BTC-USD" IsMap-mapping_files
      new_symbol_mapper-btc map_to_provider-btc

abbrev btc_trade : Trade
btc_trade = record {
  event = "trade";
  time = pos 1;
  symbol = "BTCUSDT";
  agg_id = pos 7;
  price = "50000.00";
  quantity = "2";
  trade_time = pos 0;
  is_buyer = true;
}

abbrev one_trade : Decoders (Option ℕ)
one_trade = record {
  trade = λ b. decoded btc_trade;
  header = λ b. malformed;
  tick = λ b. panicked;
  depth = λ b. malformed;
  float = λ s. some (some 2);
}

abbrev raw_trade : RawMessage
raw_trade = record {
  source = "BINANCE";
  payload = 1 ∷ 2 ∷ [];
  received_at = pos 3;
  sequence_num = 4;
}

abbrev at_five : Now
at_five = record { id = "evt_5"; nanos = pos 5 }

abbrev trade_out : CanonicalEvent (Option ℕ) ℕ
trade_out = record (new_event naturals) {
  event_id = "evt_5";
  source = "BINANCE";
  canonical_symbol = "BTC-USD";
  exchange_timestamp = pos 1_000_000;
  local_hw_timestamp = pos 3;
  event_type = "TRADE";
  price = some 2;
  size = some 2;
  side = "SELL";
  raw_payload = 1 ∷ 2 ∷ [];
  raw_format = "JSON";
}

-- an event that was used before is the one that the pool gives
abbrev used_once : List (EventPoolOp (CanonicalEvent (Option ℕ) ℕ))
used_once = acquires 0 ∷ releases (some trade_out) ∷ releases none ∷ []

abbrev processed_trade : ProcessedMessage RawMessage (CanonicalEvent (Option ℕ) ℕ) ParseError
processed_trade = record { raw = raw_trade; canonical = some trade_out; error = none }

canonicalize-pooled_example :
    let ev = (acquire_event naturals 0 (event_pool_run naturals used_once [])).0 in
    (canonicalize naturals as_is btc_mapper one_trade raw_trade at_five ev
      ≡ canonicalize naturals as_is btc_mapper one_trade raw_trade at_five (new_event naturals))
    × (output_event naturals as_is btc_mapper one_trade at_five ev processed_trade
        ≡ output_event naturals as_is btc_mapper one_trade at_five
            (new_event naturals)
            processed_trade)
canonicalize-pooled_example =
    canonicalize-pooled naturals as_is btc_mapper one_trade used_once 0 raw_trade at_five
      processed_trade

abbrev no_maps : Json ℕ
no_maps = record { marshal_map = λ m. none; unmarshal_map = λ blob. 0; nil_map = 0 }

abbrev trade_wire : Wire (Option ℕ)
trade_wire = record {
  marshal = λ p. some p.raw_payload;
  unmarshal = λ b. some (record (to_proto no_maps trade_out) { raw_payload = b });
}

abbrev small_pool : PoolConfig
small_pool = record { min_workers = 1; max_workers = 2; queue_size = 3 }

abbrev pooled : ℕ → CanonicalEvent (Option ℕ) ℕ
pooled k = (acquire_event naturals k (event_pool_run naturals used_once [])).0

abbrev out_of :
    ProcessedMessage RawMessage (CanonicalEvent (Option ℕ) ℕ) ParseError
    → CanonicalEvent (Option ℕ) ℕ
out_of processed = output_event naturals as_is btc_mapper one_trade at_five (pooled 0) processed

abbrev sent_trade : IpcMessage
sent_trade = record { typ = "canonical"; payload = 1 ∷ 2 ∷ []; seq = 6 }

delivered_trade :
    (process_message small_pool
      (canonicalize naturals as_is btc_mapper one_trade raw_trade at_five (pooled 0))
      raw_trade
      []
      new_pool).delivering
    ≡ processed_trade ∷ []
unfolding process_message canonicalize parse_into parse_binance_into fill_binance parse_trade_into
    parse_float float_or_zero map_to_canonical or_unknown look_up new_symbol_mapper load_files
    load_file add_symbols sanitize_price sanitize_size detect_overflow mul_int64 int64 from_int64
    acquire_event event_pool_run event_pool_step release_event reset
delivered_trade = refl

encode_canonical-trade_out :
    encode_canonical no_maps trade_wire (some (out_of processed_trade)) 5 ≡ (some sent_trade, 6)
unfolding output_event encode_canonical encoded new_message marshal_proto to_proto
encode_canonical-trade_out = refl

bytes_of : Option (List ℕ) → List ℕ
bytes_of none = []
bytes_of (some b) = b

ReadsBack-trade_out :
    ReadsBack trade_wire.marshal trade_wire.unmarshal (to_proto no_maps (out_of processed_trade))
unfolding output_event to_proto bytes_of
ReadsBack-trade_out b e =
    sym (ap (λ o. some (record (to_proto no_maps trade_out) { raw_payload = bytes_of o })) e)

published-Keeps_example :
    ((out_of processed_trade).raw_payload ≡ 1 ∷ 2 ∷ [])
    × ((out_of processed_trade).source ≡ "BINANCE")
    × (decode_canonical no_maps trade_wire (some sent_trade) ≡ some (out_of processed_trade))
published-Keeps_example =
    published-Keeps naturals as_is btc_mapper one_trade no_maps trade_wire used_once 0 0 raw_trade
      at_five at_five [] small_pool new_pool processed_trade [] 5 6 sent_trade delivered_trade
      encode_canonical-trade_out refl ReadsBack-trade_out
