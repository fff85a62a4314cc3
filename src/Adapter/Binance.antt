-- ===== src/Adapter/Binance.antt =====
-- pkg/adapter/binance.go: Binance over a web socket. The web socket and json.Unmarshal are
-- parameters.
pub mod Feeding
pub mod Delivery
use Prim.Native.String.{◌++◌ as str_append}
use spark_trade_mft_raw_data.Prelude.{
  ℕ, zero, suc, ◌+◌, String, Bool, true, false, Option, none, some, List, [], ◌∷◌, ◌++◌, map,
  if◌then◌else◌,
}
use spark_trade_mft_raw_data.Pipeline.{RawMessage}
use spark_trade_mft_raw_data.Adapter.{
  Failure, plain, new_adapter_error, error_connection, error_protocol, Adapter, add_error,
}
use spark_trade_mft_raw_data.Adapter.Loop.{
  ReadResult, fails, skips, reads, Source, Event, Feed, stop, feed_run,
}

pub data WsFrame : Type 0 where
  text : List ℕ → WsFrame
  not_text : WsFrame

-- A web socket: the frames that will come in before a read fails, the number of writes before a
-- write fails, the parameters of the subscriptions written, and the pings.
pub record WsConn : Type 0 where
  pub incoming : List WsFrame
  pub writable : ℕ
  pub subscribed : List (List String)
  pub pings : ℕ

pub data WsDialled : Type 0 where
  refused : WsDialled
  accepted : List WsFrame → ℕ → WsDialled

-- what the other goroutines do: Stop, and a tick of heartbeatLoop and of sessionRotationLoop
pub data BinanceOp : Type 0 where
  stops beats : BinanceOp
  rotates : WsDialled → BinanceOp

-- a value of a decoded JSON object, as far as it matters
pub data JsonValue : Type 0 where
  null not_null : JsonValue

abbrev pub binance_error : String → String → Failure
binance_error message cause = new_adapter_error error_connection "BINANCE" message (some cause)

-- subscribe
unfoldable pub subscribe : List String → WsConn → Option Failure × WsConn
subscribe [] c =
    (some (new_adapter_error error_protocol "BINANCE" "no symbols to subscribe" none), c)
subscribe (s ∷ ss) c = elim c.writable [
  | zero ↦ (some (plain "write"), c)
  | suc n ↦ (
    none,
    record c {
      writable = n;
      subscribed = c.subscribed ++ map (λ symbol. str_append symbol "@aggTrade") (s ∷ ss) ∷ [];
    },
  )
]

-- Close: it cannot be read or written any more
abbrev pub close : WsConn → WsConn
close c = record c { incoming = []; writable = 0 }

-- what Connect does with the result of subscribe
unfoldable pub subscribed_conn :
    Option Failure × WsConn → Adapter WsConn → Option Failure × Adapter WsConn
subscribed_conn (none, c) a = (none, record a { conn = some c; connected = true })
subscribed_conn (some f, c) a = (some f, record a { conn = some (close c); connected = false })

-- Connect
unfoldable pub connect : WsDialled → Adapter WsConn → Option Failure × Adapter WsConn
unfolding subscribed_conn subscribe
connect d a = if a.connected then (none, a) else (elim d [
  | refused ↦ (some (binance_error "failed to connect" "dial"), a)
  | accepted frames writes ↦
      let c : WsConn = record {
        incoming = frames;
        writable = writes;
        subscribed = [];
        pings = 0;
      } in
      subscribed_conn (subscribe a.symbols c) a
])

-- the ping of heartbeatLoop, with the number of writes before one fails
unfoldable pub ping : ℕ → WsConn → Adapter WsConn → Adapter WsConn
unfolding add_error
ping zero c a = record (add_error (plain "heartbeat failed") a) { connected = false }
ping (suc n) c a = record a { conn = some (record c { writable = n; pings = c.pings + 1 }) }

unfoldable pub beat : Option WsConn → Adapter WsConn → Adapter WsConn
unfolding ping
beat none a = a
beat (some c) a = ping c.writable c a

-- a tick of heartbeatLoop
unfoldable pub heartbeat : Adapter WsConn → Adapter WsConn
unfolding beat
heartbeat a = if a.connected then beat a.conn a else a

abbrev pub rotation_due : Failure
rotation_due = plain "proactive session rotation (24h limit approaching)"

-- a tick of sessionRotationLoop
unfoldable pub rotate_session : WsDialled → Adapter WsConn → Adapter WsConn
unfolding add_error stop connect
rotate_session d a = (connect d (stop (add_error rotation_due a))).1

unfoldable pub binance_step : BinanceOp → Adapter WsConn → Adapter WsConn
unfolding stop heartbeat rotate_session
binance_step stops a = stop a
binance_step beats a = heartbeat a
binance_step (rotates d) a = rotate_session d a

-- `unmarshal` gives the members of a JSON object
module _ (unmarshal : List ℕ → Option (String → Option JsonValue)) where
  -- whether a text is an acknowledgement: its member `result` is null
  unfoldable pub is_ack : List ℕ → Bool
  is_ack p = elim (unmarshal p) [
    | none ↦ false
    | some m ↦ elim (m "result") [ none ↦ false | some null ↦ true | some not_null ↦ false ]
  ]

  -- what safeRead makes of a frame
  unfoldable pub read_text : WsFrame → ReadResult
  unfolding is_ack
  read_text not_text = skips
  read_text (text p) = if is_ack p then skips else reads p

  -- safeRead on the connection
  unfoldable pub read_frames : WsConn → List WsFrame → Adapter WsConn → ReadResult × Adapter WsConn
  unfolding read_text
  read_frames c [] a = (fails (binance_error "read failed" "read"), record a { connected = false })
  read_frames c (f ∷ fs) a = (read_text f, record a { conn = some (record c { incoming = fs }) })

  unfoldable pub read_conn : Option WsConn → Adapter WsConn → ReadResult × Adapter WsConn
  unfolding read_frames
  read_conn none a = (
    fails (new_adapter_error error_connection "BINANCE" "no connection" none),
    record a { connected = false },
  )
  read_conn (some c) a = read_frames c c.incoming a

  -- safeRead
  unfoldable pub safe_read : Adapter WsConn → ReadResult × Adapter WsConn
  unfolding read_conn
  safe_read a = read_conn a.conn a

  abbrev pub binance_source : Source WsConn WsDialled BinanceOp
  binance_source = record {
    name = "BINANCE";
    connect = connect;
    safe_read = safe_read;
    other = binance_step;
  }

  -- receiveLoop, with what the other goroutines do meanwhile
  abbrev pub receive_loop :
      List (Event WsDialled BinanceOp) → Feed WsConn → List RawMessage × Feed WsConn
  receive_loop es f = feed_run binance_source es f
