-- ===== src/Proto/RoundTrip.antt =====
-- Events through the protobuf bridge (pkg/canonicalizer/proto.go).
use text.Mathlib.Text.{◌==◌ as str_eq}
use spark_trade_mft_raw_data.Prelude.{
  ℕ, ◌≡◌, refl, ap, String, false, Option, none, some, List, [], ◌∷◌, ◌==◌, length, map,
}
use spark_trade_mft_raw_data.Event.{CanonicalEvent, Level}
use spark_trade_mft_raw_data.Proto.{
  event_type_to_proto, event_type_from_proto, levels_from_proto, Json, crypto_to_proto,
  crypto_from_proto, to_proto, from_proto, Wire, marshal_proto, unmarshal_proto, from_unmarshalled,
}

levels_from_proto-map : {F : Type 0} (ls : List (Level F)) → levels_from_proto (map some ls) ≡ ls
unfolding levels_from_proto
levels_from_proto-map [] = refl
levels_from_proto-map (l ∷ ls) = ap (λ rest. l ∷ rest) (levels_from_proto-map ls)

-- the types of the schema
pub data IsNamed : String → Type 0 where
  trade : IsNamed "TRADE"
  quote : IsNamed "QUOTE"
  book_update : IsNamed "BOOK_UPDATE"
  book_snapshot : IsNamed "BOOK_SNAPSHOT"
  unknown : IsNamed "UNKNOWN"

event_type-IsNamed : {t : String} → IsNamed t → event_type_from_proto (event_type_to_proto t) ≡ t
unfolding event_type_from_proto event_type_to_proto
event_type-IsNamed trade = refl
event_type-IsNamed quote = refl
event_type-IsNamed book_update = refl
event_type-IsNamed book_snapshot = refl
event_type-IsNamed unknown = refl

-- An optional map that encoding/json gives back: its text is not empty and reads as the map.
abbrev pub CryptoReads : {J : Type 0} → Json J → Option J → Type 0
CryptoReads json none = Unit
CryptoReads json (some m) =
    (blob : String) × (json.marshal_map m ≡ some blob)
    × (str_eq blob "" ≡ false)
    × (json.unmarshal_map blob ≡ m)

crypto-reads :
    {J : Type 0} (json : Json J) (o : Option J)
    → CryptoReads json o
    → crypto_from_proto json (crypto_to_proto json o) ≡ o
unfolding crypto_from_proto crypto_to_proto
crypto-reads json none h = refl
crypto-reads json (some m) (blob, e1, e2, e3) = rw (e1, crypto_from_proto, e2, e3)

module _ {F J : Type 0} (json : Json J) where
  -- From the protobuf type an event comes back as it was, whatever it holds, in all but the event
  -- type and the crypto metadata.
  pub from-to_proto :
      (ev : CanonicalEvent F J)
      → record (from_proto json (to_proto json ev)) {
        event_type = ev.event_type;
        crypto_metadata = ev.crypto_metadata;
      }
        ≡ ev
  unfolding from_proto to_proto
  from-to_proto ev = rw (levels_from_proto-map ev.levels)

  from_proto_named :
      (ev : CanonicalEvent F J)
      → IsNamed ev.event_type
      → CryptoReads json ev.crypto_metadata
      → from_proto json (to_proto json ev) ≡ ev
  unfolding from_proto to_proto
  from_proto_named ev t c = rw (
    levels_from_proto-map ev.levels,
    event_type-IsNamed t,
    crypto-reads json ev.crypto_metadata c,
  )

  -- Take an event whose type the schema names and whose crypto metadata, if any, encoding/json
  -- gives back, and a protobuf library that reads what it wrote: the bytes that MarshalProto makes
  -- of the event, unless they are empty, are read by UnmarshalProto as the event.
  pub unmarshal-marshal_proto :
      (wire : Wire F) (ev : CanonicalEvent F J) (bytes : List ℕ)
      → ((b : List ℕ)
          → wire.marshal (to_proto json ev) ≡ some b
          → wire.unmarshal b ≡ some (to_proto json ev))
      → IsNamed ev.event_type
      → CryptoReads json ev.crypto_metadata
      → marshal_proto json wire (some ev) ≡ some bytes
      → (length bytes == 0) ≡ false
      → unmarshal_proto json wire bytes ≡ some ev
  unfolding marshal_proto unmarshal_proto
  unmarshal-marshal_proto wire ev bytes reads t c e l =
      rw (l, reads _ e, from_unmarshalled, from_proto_named ev t c)
