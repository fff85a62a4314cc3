-- ===== src/Tests/Commands.antt =====
-- Messages on their way through the publisher to storage.
use spark_trade_mft_raw_data.Prelude.{
  ℕ, ◌+◌, ◌<◌, ◌≤◌, length, ap, Bool, true, false, Option, none, some, List, [], ◌∷◌, ◌++◌, arith,
  ◌≡◌, refl, inr,
}
use spark_trade_mft_raw_data.Prelude.Int.{pos}
use spark_trade_mft_raw_data.Event.{CanonicalEvent}
use spark_trade_mft_raw_data.Proto.{Json, Wire, to_proto}
use spark_trade_mft_raw_data.Pipeline.{IpcMessage, RawWire, unmarshal_ipc}
use spark_trade_mft_raw_data.Ipc.Client.{new_client, round}
use spark_trade_mft_raw_data.Ipc.{Sink, eof, read_full}
use spark_trade_mft_raw_data.Prelude.Word.{
  put_uint32, put_uint64, uint32, uint64, uint64-put, IsU64,
}
use spark_trade_mft_raw_data.Ipc.Frame.{read_frame}
use spark_trade_mft_raw_data.Ipc.Spool.{no_faults}
use spark_trade_mft_raw_data.Ipc.Spool.Records.{file_of}
use spark_trade_mft_raw_data.Ipc.Server.{ServerConn, serve_conn, panics}
use spark_trade_mft_raw_data.Ipc.Server.Serving.{Sent, bodies, messages}
use spark_trade_mft_raw_data.Commands.Spooled.{arrived}
use spark_trade_mft_raw_data.Commands.Transport.{carried, spooled-handled}
use spark_trade_mft_raw_data.Dolphin.{WalWriter, new_db_writer}
use spark_trade_mft_raw_data.Commands.{PublisherProcess, forward_all, Storage, handle_all}
use spark_trade_mft_raw_data.Commands.Hops.{canonical, Carried}

abbrev read_canonical : List ℕ → Option IpcMessage
read_canonical (a ∷ b ∷ c ∷ d ∷ e ∷ f ∷ g ∷ h ∷ payload) =
    some (canonical payload (uint64 a b c d e f g h))
read_canonical _ = none

-- the eight bytes of the number in front of the payload
abbrev number_wire : RawWire
number_wire = record {
  marshal = λ _. none;
  unmarshal = λ _. none;
  marshal_message = λ m. some (put_uint64 m.seq ++ m.payload);
  unmarshal_message = read_canonical;
}

number_filled : (payload : List ℕ) (n : ℕ) → IsU64 n → 0 < length (put_uint64 n ++ payload)
unfolding put_uint64 put_uint32
number_filled payload n u = omega arith

number_reads :
    (payload : List ℕ) (n : ℕ)
    → IsU64 n
    → number_wire.unmarshal_message (put_uint64 n ++ payload) ≡ some (canonical payload n)
unfolding put_uint64 put_uint32
number_reads payload n u = ap (λ k. some (canonical payload k)) (uint64-put n u)

number_fits :
    (payload : List ℕ) (n : ℕ) → IsU64 n → length (put_uint64 n ++ payload) ≤ 8 + length payload
unfolding put_uint64 put_uint32
number_fits payload n u = omega arith

four_fits : (n : ℕ) → IsU64 n → length (put_uint64 n ++ (4 ∷ [])) ≤ 10
unfolding put_uint64 put_uint32
four_fits n u = omega arith

abbrev carried_number : (payload : List ℕ) → Carried number_wire payload
carried_number payload = record {
  bytes = λ n. put_uint64 n ++ payload;
  writes = λ _ _. refl;
  filled = number_filled payload;
  reads = number_reads payload;
}

abbrev no_maps : Json ℕ
no_maps = record { marshal_map = λ _. none; unmarshal_map = λ _. 0; nil_map = 0 }

abbrev plain_event : CanonicalEvent ℕ ℕ
plain_event = record {
  event_id = "e1";
  source = "IB";
  canonical_symbol = "AAPL";
  exchange_timestamp = pos 1;
  local_hw_timestamp = pos 2;
  event_type = "TRADE";
  price = 5;
  size = 6;
  side = "BUY";
  levels = [];
  raw_payload = [];
  raw_format = "JSON";
  forex_metadata = none;
  futures_metadata = none;
  crypto_metadata = none;
  equity_metadata = none;
}

-- the payload of an event that is the plain one in all else
abbrev payload_wire : Wire ℕ
payload_wire = record {
  marshal = λ p. some p.raw_payload;
  unmarshal = λ b. some (record (to_proto no_maps plain_event) { raw_payload = b });
}

abbrev of_payload : CanonicalEvent ℕ ℕ → Option (List ℕ)
of_payload e = some e.raw_payload

-- a log in memory
abbrev memory_wal : WalWriter (CanonicalEvent ℕ ℕ)
memory_wal = record {
  State = List (CanonicalEvent ℕ ℕ);
  Env = Bool;
  Cut = Bool;
  write = λ _ ev evs. (none, evs ++ (ev ∷ []));
  tick = λ _ evs. evs;
  replay = λ _ evs. evs;
}

-- ZeroMQ takes the first message and not the second
abbrev arriving : List (Bool × IpcMessage)
arriving = (true, canonical (1 ∷ 2 ∷ []) 3) ∷ (false, canonical (4 ∷ []) 5) ∷ []

abbrev body_before : List ℕ
body_before = 0 ∷ 0 ∷ 0 ∷ 0 ∷ 0 ∷ 0 ∷ 0 ∷ 9 ∷ 8 ∷ []

read_before : unmarshal_ipc number_wire body_before ≡ some (canonical (8 ∷ []) 9)
unfolding unmarshal_ipc uint64 uint32
read_before = refl

-- what was spilled before
abbrev spilled_before : List (Sent number_wire)
spilled_before =
    record {
      body = body_before;
      message = canonical (8 ∷ []) 9;
      is_body = (omega arith, omega arith);
      reads = read_before;
    }
    ∷ []

abbrev connection : Sink
connection = record { written = []; budget = 200 }

-- a client that spills, over a connection
abbrev spilling_process : PublisherProcess
spilling_process = record {
  zmq = none;
  out = record {
    client =
        record (new_client 2 100
          (record { written = file_of (bodies spilled_before); budget = 100 })) {
            spilling = true;
            connected = true;
            wire = record { conn = some connection; sent = 4 };
          };
    seq = 7;
  };
}

abbrev no_conn : ServerConn
no_conn = record { handled = []; recv = 0; sent = 0; errors = 0; out = connection }

spooled-handled_example :
    let c =
      (forward_all no_maps payload_wire of_payload number_wire arriving
        spilling_process).1.out.client in
    let stream = carried (round none no_faults c).wire.conn ++ [] in
    let w : Storage no_maps payload_wire memory_wal = new_db_writer 2 [] [] in
    handle_all no_maps payload_wire memory_wal
      (λ _. true)
      (serve_conn number_wire (λ _. panics) 3 stream no_conn).handled
      w
    ≡ handle_all no_maps payload_wire memory_wal
        (λ _. true)
        (messages spilled_before ++ arrived arriving)
        w
unfolding new_client read_frame put_uint32 read_full
spooled-handled_example =
    spooled-handled no_maps payload_wire of_payload memory_wal (λ _. panics) (λ _. inr refl) 10
      (omega arith) spilled_before arriving spilling_process none connection 3 [] eof no_conn
      (
        record { carried = carried_number (1 ∷ 2 ∷ []); fits = number_fits (1 ∷ 2 ∷ []) },
        (record { carried = carried_number (4 ∷ []); fits = four_fits }, tt),
      )
      (record {
        open_ = refl;
        spilling = refl;
        holds = record {
          bytes = refl;
          counted = refl;
          sendable = ((omega arith, omega arith), tt);
        };
        cap = omega arith;
        room = omega arith;
      })
      refl refl refl (omega arith) refl (omega arith) refl (λ _. true) (new_db_writer 2 [] [])
