-- ===== src/Proto.antt =====
-- pkg/canonicalizer/proto.go: the bridge between CanonicalEvent and the generated protobuf type,
-- whose marshalling is a parameter, as encoding/json is.
pub mod RoundTrip
use text.Mathlib.Text.{◌==◌ as str_eq}
use spark_trade_mft_raw_data.Prelude.{
  ℕ, String, Bool, true, false, Option, none, some, List, [], ◌∷◌, ◌==◌, length, map, if◌then◌else◌,
}
use spark_trade_mft_raw_data.Prelude.Int.{ℤ}
use spark_trade_mft_raw_data.Event.{
  CanonicalEvent, Level, ForexMetadata, FuturesMetadata, EquityMetadata,
}

-- EventType of the protobuf schema; `other` is a number that the schema does not name.
pub data EventType : Type 0 where
  unknown trade quote book_update book_snapshot : EventType
  other : ℕ → EventType

-- the generated CanonicalEvent; the elements of Levels are pointers
pub record ProtoEvent (F : Type 0) : Type 0 where
  pub event_id : String
  pub source : String
  pub canonical_symbol : String
  pub exchange_timestamp : ℤ
  pub local_hw_timestamp : ℤ
  pub event_type : EventType
  pub price : F
  pub size : F
  pub side : String
  pub levels : List (Option (Level F))
  pub raw_payload : List ℕ
  pub raw_format : String
  pub forex : Option (ForexMetadata F)
  pub futures : Option (FuturesMetadata F)
  pub crypto : Option String
  pub equity : Option EquityMetadata

-- eventTypeToProto
unfoldable pub event_type_to_proto : String → EventType
event_type_to_proto s =
    if str_eq s "TRADE"
    then trade
    else if str_eq s "QUOTE"
    then quote
    else if str_eq s "BOOK_UPDATE"
    then book_update
    else if str_eq s "BOOK_SNAPSHOT"
    then book_snapshot
    else unknown

-- eventTypeFromProto
unfoldable pub event_type_from_proto : EventType → String
event_type_from_proto trade = "TRADE"
event_type_from_proto quote = "QUOTE"
event_type_from_proto book_update = "BOOK_UPDATE"
event_type_from_proto book_snapshot = "BOOK_SNAPSHOT"
event_type_from_proto unknown = "UNKNOWN"
event_type_from_proto (other n) = "UNKNOWN"

-- the loop over the levels, which skips nil pointers
unfoldable pub levels_from_proto : {F : Type 0} → List (Option (Level F)) → List (Level F)
levels_from_proto [] = []
levels_from_proto (none ∷ ls) = levels_from_proto ls
levels_from_proto (some l ∷ ls) = l ∷ levels_from_proto ls

-- What encoding/json does with the maps of crypto metadata (J): Marshal may fail; Unmarshal leaves
-- a map, also when the text is malformed.
pub record Json (J : Type 0) : Type 0 where
  pub marshal_map : J → Option String
  pub unmarshal_map : String → J
  pub nil_map : J

module _ {J : Type 0} (json : Json J) where
  unfoldable pub crypto_to_proto : Option J → Option String
  crypto_to_proto none = none
  crypto_to_proto (some m) = json.marshal_map m

  unfoldable pub crypto_from_proto : Option String → Option J
  crypto_from_proto none = none
  crypto_from_proto (some blob) =
      some (if str_eq blob "" then json.nil_map else json.unmarshal_map blob)

  module _ {F : Type 0} where
    -- ToProto of an event that is not nil
    unfoldable pub to_proto : CanonicalEvent F J → ProtoEvent F
    unfolding event_type_to_proto crypto_to_proto
    to_proto ev = record {
      event_id = ev.event_id;
      source = ev.source;
      canonical_symbol = ev.canonical_symbol;
      exchange_timestamp = ev.exchange_timestamp;
      local_hw_timestamp = ev.local_hw_timestamp;
      event_type = event_type_to_proto ev.event_type;
      price = ev.price;
      size = ev.size;
      side = ev.side;
      levels = map some ev.levels;
      raw_payload = ev.raw_payload;
      raw_format = ev.raw_format;
      forex = ev.forex_metadata;
      futures = ev.futures_metadata;
      crypto = crypto_to_proto ev.crypto_metadata;
      equity = ev.equity_metadata;
    }

    -- FromProto of an event that is not nil
    unfoldable pub from_proto : ProtoEvent F → CanonicalEvent F J
    unfolding event_type_from_proto levels_from_proto crypto_from_proto
    from_proto p = record {
      event_id = p.event_id;
      source = p.source;
      canonical_symbol = p.canonical_symbol;
      exchange_timestamp = p.exchange_timestamp;
      local_hw_timestamp = p.local_hw_timestamp;
      event_type = event_type_from_proto p.event_type;
      price = p.price;
      size = p.size;
      side = p.side;
      levels = levels_from_proto p.levels;
      raw_payload = p.raw_payload;
      raw_format = p.raw_format;
      forex_metadata = p.forex;
      futures_metadata = p.futures;
      crypto_metadata = crypto_from_proto p.crypto;
      equity_metadata = p.equity;
    }

-- proto.Marshal and proto.Unmarshal of the generated type
pub record Wire (F : Type 0) : Type 0 where
  pub marshal : ProtoEvent F → Option (List ℕ)
  pub unmarshal : List ℕ → Option (ProtoEvent F)

module _ {F J : Type 0} (json : Json J) (wire : Wire F) where
  -- MarshalProto; a nil event is `none`
  unfoldable pub marshal_proto : Option (CanonicalEvent F J) → Option (List ℕ)
  unfolding to_proto
  marshal_proto none = none
  marshal_proto (some ev) = wire.marshal (to_proto json ev)

  from_unmarshalled : Option (ProtoEvent F) → Option (CanonicalEvent F J)
  unfolding from_proto
  from_unmarshalled none = none
  from_unmarshalled (some p) = some (from_proto json p)

  -- UnmarshalProto
  unfoldable pub unmarshal_proto : List ℕ → Option (CanonicalEvent F J)
  unfolding from_unmarshalled
  unmarshal_proto data_bytes =
      if length data_bytes == 0 then none else from_unmarshalled (wire.unmarshal data_bytes)
