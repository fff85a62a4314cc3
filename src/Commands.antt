-- ===== src/Commands.antt =====
-- What the processes do with a message: sendRaw of cmd/adapter/main.go, and the handlers of the
-- inbound servers of cmd/publisher/main.go and cmd/storage/main.go. Logging is left out, and the calls
-- of a handler come one behind the other.
pub mod Hops
pub mod Spooled
pub mod Transport
use spark_trade_mft_raw_data.Prelude.{
  ℕ, suc, String, Bool, true, false, Option, none, some, List, [], ◌∷◌, ◌++◌, length,
}
use spark_trade_mft_raw_data.Event.{CanonicalEvent}
use spark_trade_mft_raw_data.Proto.{Json, Wire}
use spark_trade_mft_raw_data.Pipeline.{
  RawMessage, IpcMessage, RawWire, new_message, encode_raw, decode_canonical,
}
use spark_trade_mft_raw_data.Ipc.{IpcError}
use spark_trade_mft_raw_data.Ipc.Client.{Client, send}
use spark_trade_mft_raw_data.Publisher.{Publisher, Parts, publish}
use spark_trade_mft_raw_data.Dolphin.{WalWriter, DbWriter, write_db}
use spark_trade_mft_raw_data.Wal.Sync.{acked}

-- the client of the next process, and the counter of NextSeq
pub record Sending : Type 0 where
  pub client : Client
  pub seq : ℕ

-- a message goes to the client; an error of Send is only logged
unfoldable pub send_to : RawWire → Option IpcMessage × ℕ → Client → Sending
send_to wire (none, n) c = record { client = c; seq = n }
send_to wire (some m, n) c = record { client = (send wire.marshal_message (some m) c).1; seq = n }

-- sendRaw
unfoldable pub send_raw : RawWire → RawMessage → Sending → Sending
unfolding send_to
send_raw wire rm s = send_to wire (encode_raw wire rm s.seq) s.client

-- fanIn, with the raw messages in the order of its channel
unfoldable pub fan_in : RawWire → List RawMessage → Sending → Sending
unfolding send_raw
fan_in wire [] s = s
fan_in wire (rm ∷ rms) s = fan_in wire rms (send_raw wire rm s)

-- cmd/publisher: there is no publisher if ZeroMQ is disabled or its start failed
pub record PublisherProcess : Type 0 where
  pub zmq : Option Publisher
  pub out : Sending

-- the arguments are those of Publish, protobuf and encoding/json
module _ {F J : Type 0} (json : Json J) (wire : Wire F)
    (marshal : CanonicalEvent F J → Option (List ℕ)) where
  -- the publishing of an event if it can be decoded; its error is only logged
  unfoldable pub broadcast :
      Bool → Option (CanonicalEvent F J) → Option Publisher → List Parts × Option Publisher
  unfolding publish
  broadcast takes ev none = ([], none)
  broadcast takes none (some p) = ([], some p)
  broadcast takes (some ev) (some p) =
      let r = publish marshal takes ev p in (r.sent, some r.publisher)

  -- the handler of cmd/publisher, with whether the socket takes the message
  unfoldable pub forward :
      RawWire → Bool → IpcMessage → PublisherProcess → List Parts × PublisherProcess
  unfolding broadcast send_to new_message
  forward raw takes m p =
      let (parts, zmq) = broadcast takes (decode_canonical json wire (some m)) p.zmq in
      let (fwd, n) = new_message "canonical" m.payload p.out.seq in
      (parts, record { zmq = zmq; out = send_to raw (some fwd, n) p.out.client })

  -- a row of messages
  unfoldable pub forward_all :
      RawWire → List (Bool × IpcMessage) → PublisherProcess → List Parts × PublisherProcess
  unfolding forward
  forward_all raw [] p = ([], p)
  forward_all raw ((takes, m) ∷ ms) p =
      let s = forward raw takes m p in let rest = forward_all raw ms s.1 in (s.0 ++ rest.0, rest.1)

-- cmd/storage, over its log
module _ {F J : Type 0} (json : Json J) (wire : Wire F) (wal : WalWriter (CanonicalEvent F J)) where
  abbrev pub Storage : Type 0
  Storage = DbWriter (WalWriter.State wal) (CanonicalEvent F J)

  -- the writing of an event if it can be decoded: the event if Write gave no error
  unfoldable pub write_decoded :
      WalWriter.Env wal
      → Option (CanonicalEvent F J)
      → Storage
      → List (CanonicalEvent F J) × Storage
  unfolding write_db
  write_decoded env none w = ([], w)
  write_decoded env (some ev) w = let (e, w1) = write_db wal env ev w in (acked ev e, w1)

  -- the handler of cmd/storage
  unfoldable pub handle_event :
      WalWriter.Env wal → IpcMessage → Storage → List (CanonicalEvent F J) × Storage
  unfolding write_decoded
  handle_event env m w = write_decoded env (decode_canonical json wire (some m)) w

  -- a row of messages, with what befalls the disk at each, counted from the last
  unfoldable pub handle_all :
      (ℕ → WalWriter.Env wal) → List IpcMessage → Storage → List (CanonicalEvent F J) × Storage
  unfolding handle_event
  handle_all envs [] w = ([], w)
  handle_all envs (m ∷ ms) w =
      let s = handle_event (envs (length ms)) m w in
      let rest = handle_all envs ms s.1 in (s.0 ++ rest.0, rest.1)
