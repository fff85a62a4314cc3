-- ===== src/Canonicalizer.antt =====
-- pkg/canonicalizer/worker.go and mt5.go: raw messages to canonical events, with the pool of
-- pkg/allocator/pool.go. The JSON libraries and strconv.ParseFloat are parameters, and so are the
-- readings of the clock and the text of an event's id.
pub mod Worker
pub mod Mt5
pub mod Process
pub mod Payload
pub mod Output
use text.Mathlib.Text.{◌==◌ as str_eq}
use spark_trade_mft_raw_data.Prelude.{
  ℕ, suc, String, Bool, true, false, ◌||◌, ◌&&◌, Option, none, some, List, [], ◌∷◌, ◌++◌, length,
  ◌==◌, get_elem?, if◌then◌else◌,
}
use spark_trade_mft_raw_data.Prelude.Int.{ℤ, pos, negsuc}
use spark_trade_mft_raw_data.Prelude.Word.{mul_int64}
use spark_trade_mft_raw_data.Event.{CanonicalEvent, Level, ForexMetadata, EquityMetadata}
use spark_trade_mft_raw_data.Pipeline.{RawMessage}
use spark_trade_mft_raw_data.Axiom.{Prices, sanitize_price, sanitize_size}
use spark_trade_mft_raw_data.Mapper.{SymbolMapper, map_to_canonical}
use spark_trade_mft_raw_data.Workerpool.{ProcessedMessage, Outcome, returned}

-- parser.Trade
pub record Trade : Type 0 where
  pub event : String
  pub time : ℤ
  pub symbol : String
  pub agg_id : ℤ
  pub price : String
  pub quantity : String
  pub trade_time : ℤ
  pub is_buyer : Bool

-- the structs that mt5.go decodes into, without the fields that it does not read
pub record Header : Type 0 where
  pub typ : String
  pub symbol : String

pub record Tick (F : Type 0) : Type 0 where
  pub bid : F
  pub ask : F
  pub last : F
  pub volume : F
  pub time : ℤ

pub record Quote (F : Type 0) : Type 0 where
  pub price : F
  pub volume : F

pub record Depth (F : Type 0) : Type 0 where
  pub bids : List (Quote F)
  pub asks : List (Quote F)

-- what a JSON library does with a payload
pub data Decoded (A : Type 0) : Type 0 where
  decoded : A → Decoded A
  malformed : Decoded A
  panicked : Decoded A

pub record Decoders (F : Type 0) : Type 0 where
  pub trade : List ℕ → Decoded Trade
  pub header : List ℕ → Decoded Header
  pub tick : List ℕ → Decoded (Tick F)
  pub depth : List ℕ → Decoded (Depth F)
  pub float : String → Option F  -- strconv.ParseFloat

pub data ParseError : Type 0 where
  decode_error unknown_type unknown_source : ParseError

-- generateEventID and time.Now in a call
pub record Now : Type 0 where
  pub id : String
  pub nanos : ℤ

module _ (fl : Prices) {J : Type 0} where
  open fl use {F, zero, lt, sub}

  -- a new event, &CanonicalEvent{}
  abbrev pub new_event : CanonicalEvent F J
  new_event = record {
    event_id = "";
    source = "";
    canonical_symbol = "";
    exchange_timestamp = pos 0;
    local_hw_timestamp = pos 0;
    event_type = "";
    price = zero;
    size = zero;
    side = "";
    levels = [];
    raw_payload = [];
    raw_format = "";
    forex_metadata = none;
    futures_metadata = none;
    crypto_metadata = none;
    equity_metadata = none;
  }

  -- Reset, field by field
  unfoldable pub reset : CanonicalEvent F J → CanonicalEvent F J
  reset e = record e {
    event_id = "";
    source = "";
    canonical_symbol = "";
    exchange_timestamp = pos 0;
    local_hw_timestamp = pos 0;
    event_type = "";
    price = zero;
    size = zero;
    side = "";
    levels = [];
    raw_payload = [];
    raw_format = "";
    forex_metadata = none;
    futures_metadata = none;
    crypto_metadata = none;
    equity_metadata = none;
  }

  -- AcquireEvent: sync.Pool gives any of its events, or a new one
  unfoldable pub acquire_event :
      ℕ → List (CanonicalEvent F J) → CanonicalEvent F J × List (CanonicalEvent F J)
  acquire_event k [] = (new_event, [])
  acquire_event ℕ.zero (e ∷ es) = (e, es)
  acquire_event (suc k) (e ∷ es) = let (d, ds) = acquire_event k es in (d, e ∷ ds)

  -- ReleaseEvent, of nil too
  unfoldable pub release_event :
      Option (CanonicalEvent F J) → List (CanonicalEvent F J) → List (CanonicalEvent F J)
  unfolding reset
  release_event none es = es
  release_event (some e) es = reset e ∷ es

  -- fillUnknown
  unfoldable pub fill_unknown :
      RawMessage → String → String → Now → CanonicalEvent F J → CanonicalEvent F J
  unfolding reset
  fill_unknown raw source format now ev = record (reset ev) {
    event_id = now.id;
    source = source;
    canonical_symbol = "UNKNOWN";
    exchange_timestamp = now.nanos;
    local_hw_timestamp = raw.received_at;
    event_type = "UNKNOWN";
    price = zero;
    size = zero;
    side = "UNKNOWN";
    raw_payload = raw.payload;
    raw_format = format;
  }
