-- ===== src/Adapter/Ib.antt =====
-- pkg/adapter/ib.go: Interactive Brokers over TCP.
pub mod Stream
use Prim.Native.String.{◌++◌ as str_append}
use spark_trade_mft_raw_data.Prelude.{
  ℕ, zero, suc, ◌*◌, String, Bool, true, false, Option, none, some, List, [], ◌∷◌, ◌++◌, length,
  ltb, ◌==◌, if◌then◌else◌,
}
use spark_trade_mft_raw_data.Prelude.Int.{ℤ}
use spark_trade_mft_raw_data.Pipeline.{RawMessage}
use spark_trade_mft_raw_data.Ipc.{Result, ok, err, read_full}
use spark_trade_mft_raw_data.Ipc.Frame.{header_size}
use spark_trade_mft_raw_data.Adapter.{
  Failure, new_adapter_error, error_connection, error_protocol, Adapter, new_adapter,
}
use spark_trade_mft_raw_data.Adapter.Loop.{
  ReadResult, fails, reads, Source, Attempt, Reconnect, Event, Feed, start, stop, reconnect,
  feed_run,
}

-- what is written: the client's number of the handshake, and the symbol of a subscription
pub data Request : Type 0 where
  handshake : ℤ → Request
  market_data : String → Request

-- A TCP connection: the bytes that will come in before a read fails, the number of writes before
-- a write fails, and what has been written.
pub record TcpConn : Type 0 where
  pub incoming : List ℕ
  pub writable : ℕ
  pub sent : List Request

pub data Dialled : Type 0 where
  refused : Dialled
  accepted : List ℕ → ℕ → Dialled

-- what the other goroutines do: Stop
pub data IbOp : Type 0 where
  stops : IbOp

-- Write, which fails with the error that is given
unfoldable pub write_request : Request → Failure → TcpConn → Option Failure × TcpConn
write_request q f c = elim c.writable [
  | zero ↦ (some f, c)
  | suc n ↦ (none, record c { writable = n; sent = c.sent ++ q ∷ [] })
]

abbrev pub ib_error : String → Option String → Failure
ib_error = new_adapter_error error_connection "IB"

-- sendHandshake
unfoldable pub send_handshake : ℤ → TcpConn → Option Failure × TcpConn
unfolding write_request
send_handshake client_id c =
    write_request (handshake client_id) (ib_error "handshake failed" (some "write")) c

-- subscribeSymbol
unfoldable pub subscribe_symbol : String → TcpConn → Option Failure × TcpConn
unfolding write_request
subscribe_symbol symbol c =
    write_request (market_data symbol) (ib_error "subscribe failed" (some "write")) c

-- the loop of subscribeSymbols, which ends at the first error
unfoldable pub subscribe_each : List String → TcpConn → Option Failure × TcpConn
unfolding subscribe_symbol
subscribe_each [] c = (none, c)
subscribe_each (s ∷ ss) c =
    let (e, d) = subscribe_symbol s c in
    elim e [ none ↦ subscribe_each ss d | some f ↦ (some f, d) ]

unfoldable pub subscribe_symbols : List String → TcpConn → Option Failure × TcpConn
unfolding subscribe_each
subscribe_symbols [] c =
    (some (new_adapter_error error_protocol "IB" "no symbols to subscribe" none), c)
subscribe_symbols (s ∷ ss) c = subscribe_each (s ∷ ss) c

-- what Connect does with the result of subscribeSymbols
unfoldable pub subscribed :
    Option Failure × TcpConn → Adapter TcpConn → Option Failure × Adapter TcpConn
subscribed (some f, c) a = (some f, record a { conn = none; connected = false })
subscribed (none, c) a = (none, record a { conn = some c; connected = true })

-- what it does with the result of sendHandshake
unfoldable pub greeted :
    Option Failure × TcpConn → Adapter TcpConn → Option Failure × Adapter TcpConn
unfolding subscribed subscribe_symbols
greeted (some f, c) a = (some f, record a { conn = none })
greeted (none, c) a = subscribed (subscribe_symbols a.symbols c) a

-- Connect
unfoldable pub connect : ℤ → Dialled → Adapter TcpConn → Option Failure × Adapter TcpConn
unfolding greeted send_handshake
connect client_id d a = if a.connected then (none, a) else (elim d [
  | refused ↦ (some (ib_error "failed to connect" (some "dial")), a)
  | accepted bytes writes ↦
      let c : TcpConn = record { incoming = bytes; writable = writes; sent = [] } in
      greeted (send_handshake client_id c) a
])

-- 1 MiB
abbrev pub max_message_size : ℕ
max_message_size = 1024 * 1024

-- safeRead on the connection: the error or the message, and the bytes behind what was read
unfoldable pub read_message : List ℕ → ReadResult × List ℕ
unfolding read_full header_size
read_message s = elim (read_full 4 s) [
  | err _ ↦ (fails (ib_error "read length failed" (some "read")), [])
  | ok (hdr, rest) ↦
      if ltb max_message_size (header_size hdr)
      then (fails (new_adapter_error error_protocol "IB" "message too large" none), rest)
      else (elim (read_full (header_size hdr) rest) [
        | err _ ↦ (fails (ib_error "read payload failed" (some "read")), [])
        | ok (payload, rest') ↦ (reads payload, rest')
      ])
]

-- every error of safeRead takes the connection for lost
unfoldable pub after_message :
    TcpConn → ReadResult × List ℕ → Adapter TcpConn → ReadResult × Adapter TcpConn
after_message c (fails f, s) a =
    (fails f, record a { conn = some (record c { incoming = s }); connected = false })
after_message c (r, s) a = (r, record a { conn = some (record c { incoming = s }) })

unfoldable pub read_conn : Option TcpConn → Adapter TcpConn → ReadResult × Adapter TcpConn
unfolding read_message after_message
read_conn none a = (fails (ib_error "no connection" none), record a { connected = false })
read_conn (some c) a = after_message c (read_message c.incoming) a

-- safeRead
unfoldable pub safe_read : Adapter TcpConn → ReadResult × Adapter TcpConn
unfolding read_conn
safe_read a = read_conn a.conn a

-- NewIBAdapter, and the operations whose text is that of binance.go: Start, Stop and reconnect
abbrev pub new_ib : List String → ℤ → List ℤ → Adapter TcpConn
new_ib symbols attempts backoff = new_adapter symbols attempts backoff

abbrev pub start_ib : Adapter TcpConn → Option Failure × Adapter TcpConn
start_ib a = start a

abbrev pub stop_ib : Adapter TcpConn → Adapter TcpConn
stop_ib a = stop a

abbrev pub ib_source : ℤ → Source TcpConn Dialled IbOp
ib_source client_id = record {
  name = "IB";
  connect = connect client_id;
  safe_read = safe_read;
  other = λ _ a. stop_ib a;
}

abbrev pub reconnect_ib : ℤ → (ℕ → Attempt Dialled) → Adapter TcpConn → Reconnect TcpConn
reconnect_ib client_id rs a = reconnect (ib_source client_id) rs a

-- receiveLoop, with what the other goroutines do meanwhile
abbrev pub receive_loop :
    ℤ → List (Event Dialled IbOp) → Feed TcpConn → List RawMessage × Feed TcpConn
receive_loop client_id es f = feed_run (ib_source client_id) es f
