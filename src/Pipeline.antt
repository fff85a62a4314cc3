-- ===== src/Pipeline.antt =====
-- pkg/pipeline/codec.go: messages and events in the payload of an IPC message, with RawMessage of
-- pkg/adapter/adapter.go and the constructors of pkg/ipc/message.go. Marshalling is a parameter.
pub mod RoundTrip
use spark_trade_mft_raw_data.Prelude.{
  ℕ, ◌+◌, ◌%◌, String, Bool, true, false, Option, none, some, List, ◌==◌, length, if◌then◌else◌,
}
use spark_trade_mft_raw_data.Prelude.Int.{ℤ}
use spark_trade_mft_raw_data.Prelude.Word.{inc_uint64}
use spark_trade_mft_raw_data.Event.{CanonicalEvent}
use spark_trade_mft_raw_data.Proto.{Json, Wire, marshal_proto, unmarshal_proto}

pub record RawMessage : Type 0 where
  pub source : String
  pub payload : List ℕ
  pub received_at : ℤ
  pub sequence_num : ℕ

-- the generated RawFrame
pub record RawFrame : Type 0 where
  pub source : String
  pub payload : List ℕ
  pub received_at : ℤ
  pub sequence_num : ℕ

abbrev pub frame_of : RawMessage → RawFrame
frame_of rm = record {
  source = rm.source;
  payload = rm.payload;
  received_at = rm.received_at;
  sequence_num = rm.sequence_num;
}

-- the generated IPCMessage
pub record IpcMessage : Type 0 where
  pub typ : String
  pub payload : List ℕ
  pub seq : ℕ

-- NewMessage under the number that NextSeq gives, and the counter after it
unfoldable pub new_message : String → List ℕ → ℕ → IpcMessage × ℕ
new_message typ payload seq =
    (record { typ = typ; payload = payload; seq = inc_uint64 seq }, inc_uint64 seq)

unfoldable pub encoded : String → ℕ → Option (List ℕ) → Option IpcMessage × ℕ
unfolding new_message
encoded typ seq none = (none, seq)
encoded typ seq (some payload) =
    (some (new_message typ payload seq).0, (new_message typ payload seq).1)

-- proto.Marshal and proto.Unmarshal of the generated types
pub record RawWire : Type 0 where
  pub marshal : RawFrame → Option (List ℕ)
  pub unmarshal : List ℕ → Option RawFrame
  pub marshal_message : IpcMessage → Option (List ℕ)
  pub unmarshal_message : List ℕ → Option IpcMessage

-- Marshal and Unmarshal of an IPC message; nil is `none`
module _ (wire : RawWire) where
  unfoldable pub marshal_ipc : Option IpcMessage → Option (List ℕ)
  marshal_ipc none = none
  marshal_ipc (some m) = wire.marshal_message m

  unfoldable pub unmarshal_ipc : List ℕ → Option IpcMessage
  unmarshal_ipc bytes = if length bytes == 0 then none else wire.unmarshal_message bytes

  -- EncodeRaw
  unfoldable pub encode_raw : RawMessage → ℕ → Option IpcMessage × ℕ
  unfolding encoded
  encode_raw rm seq = encoded "raw" seq (wire.marshal (frame_of rm))

  unfoldable raw_of : Option RawFrame → Option RawMessage
  raw_of none = none
  raw_of (some rf) = some (record {
    source = rf.source;
    payload = rf.payload;
    received_at = rf.received_at;
    sequence_num = rf.sequence_num;
  })

  -- DecodeRaw
  unfoldable pub decode_raw : Option IpcMessage → Option RawMessage
  unfolding raw_of
  decode_raw none = none
  decode_raw (some m) = raw_of (wire.unmarshal m.payload)

module _ {F J : Type 0} (json : Json J) (wire : Wire F) where
  -- EncodeCanonical
  unfoldable pub encode_canonical : Option (CanonicalEvent F J) → ℕ → Option IpcMessage × ℕ
  unfolding encoded
  encode_canonical ev seq = encoded "canonical" seq (marshal_proto json wire ev)

  -- DecodeCanonical
  unfoldable pub decode_canonical : Option IpcMessage → Option (CanonicalEvent F J)
  decode_canonical none = none
  decode_canonical (some m) = unmarshal_proto json wire m.payload
