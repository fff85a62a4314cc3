-- ===== src/Pipeline/RoundTrip.antt =====
-- Messages and events through the codec of pkg/pipeline/codec.go, and through the frames of
-- pkg/ipc/frame.go.
use spark_trade_mft_raw_data.Prelude.{
  String, ℕ, ◌+◌, ◌≤◌, ◌<◌, ◌≡◌, ap, false, Option, none, some, List, [], ◌++◌, ◌==◌, length, arith,
}
use spark_trade_mft_raw_data.Ipc.{ok, len_field_size, max_frame_size}
use spark_trade_mft_raw_data.Ipc.Frame.{read_frame, write_frame}
use spark_trade_mft_raw_data.Ipc.Frame.RoundTrip.{read-write_frame}
use spark_trade_mft_raw_data.Event.{CanonicalEvent}
use spark_trade_mft_raw_data.Proto.{Json, Wire, to_proto}
use spark_trade_mft_raw_data.Proto.RoundTrip.{IsNamed, CryptoReads, unmarshal-marshal_proto}
use spark_trade_mft_raw_data.Pipeline.{
  RawMessage, IpcMessage, RawWire, new_message, encoded, frame_of, encode_raw, raw_of, decode_raw,
  marshal_ipc, unmarshal_ipc, encode_canonical, decode_canonical,
}

-- What the protobuf library does with a message: what it wrote reads back as the message.
abbrev pub ReadsBack : {A : Type 0} → (A → Option (List ℕ)) → (List ℕ → Option A) → A → Type 0
ReadsBack write_of read_of x = (b : List ℕ) → write_of x ≡ some b → read_of b ≡ some x

payload_of : Option IpcMessage → Option (List ℕ)
payload_of none = none
payload_of (some m) = some m.payload

encoded-payload :
    (typ : String) (seq : ℕ) (o : Option (List ℕ)) (m : IpcMessage) (n : ℕ)
    → encoded typ seq o ≡ (some m, n)
    → o ≡ some m.payload
unfolding encoded new_message payload_of
encoded-payload typ seq none m n e = ap (λ r. payload_of r.0) e
encoded-payload typ seq (some payload) m n e = ap (λ r. payload_of r.0) e

module _ (wire : RawWire) where
  unmarshal-marshal_ipc :
      (m : IpcMessage) (body : List ℕ)
      → ReadsBack wire.marshal_message wire.unmarshal_message m
      → marshal_ipc wire (some m) ≡ some body
      → 0 < length body
      → unmarshal_ipc wire body ≡ some m
  unfolding marshal_ipc unmarshal_ipc
  unmarshal-marshal_ipc m body reads e h =
      let l : (length body == 0) ≡ false = ground arith in rw (l, reads body e)

  decode-encode_raw :
      (rm : RawMessage) (seq : ℕ) (m : IpcMessage) (n : ℕ)
      → ReadsBack wire.marshal wire.unmarshal (frame_of rm)
      → encode_raw wire rm seq ≡ (some m, n)
      → decode_raw wire (some m) ≡ some rm
  unfolding encode_raw decode_raw
  decode-encode_raw rm seq m n reads e = rw (reads _ (encoded-payload "raw" seq _ m n e), raw_of)

  -- A raw message on its way from the adapter to the canonicalizer, with a protobuf library that
  -- reads what it wrote: if EncodeRaw and Marshal succeed, and the body has 1 byte to 4 MiB and
  -- goes over a connection with room for its frame, then ReadFrame, Unmarshal and DecodeRaw at
  -- the other end give the message as it was, byte for byte, and leave what follows.
  pub raw_transport :
      (rm : RawMessage) (seq n room : ℕ) (m : IpcMessage) (body rest : List ℕ)
      → ReadsBack wire.marshal wire.unmarshal (frame_of rm)
      → ReadsBack wire.marshal_message wire.unmarshal_message m
      → encode_raw wire rm seq ≡ (some m, n)
      → marshal_ipc wire (some m) ≡ some body
      → 0 < length body
      → length body ≤ max_frame_size
      → len_field_size + length body ≤ room
      → let (k, e, w) = write_frame body (record { written = []; budget = room }) in
        (e ≡ none)
        × (read_frame (w.written ++ rest) ≡ ok (body, rest))
        × (unmarshal_ipc wire body ≡ some m)
        × (decode_raw wire (some m) ≡ some rm)
  raw_transport rm seq n room m body rest r1 r2 e1 e2 h1 h2 h3 =
      let f = read-write_frame body rest room h2 h3 in
      (f.1, f.2, unmarshal-marshal_ipc m body r2 e2 h1, decode-encode_raw rm seq m n r1 e1)

module _ {F J : Type 0} (json : Json J) where
  -- An event that EncodeCanonical turns into a message with a payload that is not empty is what
  -- DecodeCanonical gives for that message, if the schema names the event's type, encoding/json
  -- gives back its crypto metadata, and the protobuf library reads what it wrote.
  pub decode-encode_canonical :
      (wire : Wire F) (ev : CanonicalEvent F J) (seq n : ℕ) (m : IpcMessage)
      → ReadsBack wire.marshal wire.unmarshal (to_proto json ev)
      → IsNamed ev.event_type
      → CryptoReads json ev.crypto_metadata
      → encode_canonical json wire (some ev) seq ≡ (some m, n)
      → (length m.payload == 0) ≡ false
      → decode_canonical json wire (some m) ≡ some ev
  unfolding encode_canonical decode_canonical
  decode-encode_canonical wire ev seq n m reads t c e l =
      unmarshal-marshal_proto json wire ev m.payload reads t c
        (encoded-payload "canonical" seq _ m n e) l
