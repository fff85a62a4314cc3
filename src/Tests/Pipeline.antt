-- ===== src/Tests/Pipeline.antt =====
-- pkg/pipeline and the protobuf bridge at concrete messages, with small codecs for protobuf.
use spark_trade_mft_raw_data.Prelude.{
  ap, ℕ, ◌≡◌, refl, ap, Option, none, some, List, [], ◌∷◌, ◌++◌, arith,
}
use spark_trade_mft_raw_data.Prelude.Int.{pos}
use spark_trade_mft_raw_data.Ipc.{ok}
use spark_trade_mft_raw_data.Ipc.Frame.{read_frame, write_frame}
use spark_trade_mft_raw_data.Event.{CanonicalEvent}
use spark_trade_mft_raw_data.Proto.{Json, Wire, to_proto, marshal_proto}
use spark_trade_mft_raw_data.Proto.RoundTrip.{IsNamed}
use spark_trade_mft_raw_data.Pipeline.{
  RawMessage, RawFrame, IpcMessage, RawWire, encode_raw, encoded, new_message, frame_of, decode_raw,
  marshal_ipc, unmarshal_ipc, encode_canonical, decode_canonical,
}
use spark_trade_mft_raw_data.Pipeline.RoundTrip.{ReadsBack, raw_transport, decode-encode_canonical}

abbrev read_raw : List ℕ → Option RawFrame
read_raw [] = none
read_raw (n ∷ payload) =
    some (record { source = "MT5"; payload = payload; received_at = pos 7; sequence_num = n })

abbrev read_message : List ℕ → Option IpcMessage
read_message [] = none
read_message (n ∷ payload) = some (record { typ = "raw"; payload = payload; seq = n })

-- the numbers and the payload, for frames of one source and messages of one type
abbrev small_wire : RawWire
small_wire = record {
  marshal = λ rf. some (rf.sequence_num ∷ rf.payload);
  unmarshal = read_raw;
  marshal_message = λ m. some (m.seq ∷ m.payload);
  unmarshal_message = read_message;
}

abbrev tick : RawMessage
tick = record { source = "MT5"; payload = 1 ∷ 2 ∷ []; received_at = pos 7; sequence_num = 9 }

abbrev sent : IpcMessage
sent = record { typ = "raw"; payload = 9 ∷ 1 ∷ 2 ∷ []; seq = 1 }

from_some : {A : Type 0} → A → Option A → A
from_some d none = d
from_some d (some x) = x

some-injective : {A : Type 0} (x y : A) → some x ≡ some y → x ≡ y
unfolding from_some
some-injective x y e = ap (from_some x) e

ReadsBack-tick : ReadsBack small_wire.marshal small_wire.unmarshal (frame_of tick)
ReadsBack-tick b e = rw⁻¹ (some-injective _ _ e) refl

ReadsBack-sent : ReadsBack small_wire.marshal_message small_wire.unmarshal_message sent
ReadsBack-sent b e = rw⁻¹ (some-injective _ _ e) refl

encode_raw-tick : encode_raw small_wire tick 0 ≡ (some sent, 1)
unfolding encode_raw new_message encoded
encode_raw-tick = refl

marshal_ipc-sent : marshal_ipc small_wire (some sent) ≡ some (1 ∷ 9 ∷ 1 ∷ 2 ∷ [])
unfolding marshal_ipc
marshal_ipc-sent = refl

raw_transport_example :
    let (k, e, w) = write_frame (1 ∷ 9 ∷ 1 ∷ 2 ∷ []) (record { written = []; budget = 100 }) in
    (e ≡ none)
    × (read_frame (w.written ++ (5 ∷ [])) ≡ ok (1 ∷ 9 ∷ 1 ∷ 2 ∷ [], 5 ∷ []))
    × (unmarshal_ipc small_wire (1 ∷ 9 ∷ 1 ∷ 2 ∷ []) ≡ some sent)
    × (decode_raw small_wire (some sent) ≡ some tick)
raw_transport_example =
    raw_transport small_wire tick 0 1 100 sent (1 ∷ 9 ∷ 1 ∷ 2 ∷ []) (5 ∷ []) ReadsBack-tick
      ReadsBack-sent encode_raw-tick marshal_ipc-sent (omega arith) (omega arith) (omega arith)

-- maps are numbers, written in one fixed text
abbrev small_json : Json ℕ
small_json = record {
  marshal_map = λ m. some "{\"funding\":1}";
  unmarshal_map = λ blob. 1;
  nil_map = 0;
}

abbrev trade_event : CanonicalEvent ℕ ℕ
trade_event = record {
  event_id = "e1";
  source = "BINANCE";
  canonical_symbol = "BTC-USD";
  exchange_timestamp = pos 1_000;
  local_hw_timestamp = pos 2_000;
  event_type = "TRADE";
  price = 50_000;
  size = 2;
  side = "BUY";
  levels = record { price = 5; size = 6; side = "BUY"; order_id = pos 1 } ∷ [];
  raw_payload = 1 ∷ 2 ∷ [];
  raw_format = "JSON";
  forex_metadata = none;
  futures_metadata = none;
  crypto_metadata = some 1;
  equity_metadata = none;
}

-- the payload, for events that are the trade in all else
abbrev event_wire : Wire ℕ
event_wire = record {
  marshal = λ p. some p.raw_payload;
  unmarshal = λ b. some (record (to_proto small_json trade_event) { raw_payload = b });
}

abbrev sent_event : IpcMessage
sent_event = record { typ = "canonical"; payload = 1 ∷ 2 ∷ []; seq = 6 }

ReadsBack-trade_event :
    ReadsBack event_wire.marshal event_wire.unmarshal (to_proto small_json trade_event)
unfolding to_proto
ReadsBack-trade_event b e = rw⁻¹ (some-injective _ _ e) refl

encode_canonical-trade_event :
    encode_canonical small_json event_wire (some trade_event) 5 ≡ (some sent_event, 6)
unfolding encode_canonical encoded new_message marshal_proto to_proto
encode_canonical-trade_event = refl

decode-encode_canonical_example :
    decode_canonical small_json event_wire (some sent_event) ≡ some trade_event
decode-encode_canonical_example =
    decode-encode_canonical small_json event_wire trade_event 5 6 sent_event ReadsBack-trade_event
      IsNamed.trade ("{\"funding\":1}", refl, refl, refl) encode_canonical-trade_event refl
