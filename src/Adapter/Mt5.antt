-- ===== src/Adapter/Mt5.antt =====
-- pkg/adapter/mt5_zmq.go: MetaTrader 5 over a ZeroMQ socket. The socket and json.Valid are parameters. An
-- iteration of the loop and Stop are atomic.
pub mod Numbers
pub mod Reconnects
use spark_trade_mft_raw_data.Prelude.{
  ℕ, zero, suc, ◌+◌, String, Bool, true, false, ◌&&◌, ◌||◌, Option, none, some, List, [], ◌∷◌, ◌++◌,
  length, get_elem?, ltb, if◌then◌else◌,
}
use spark_trade_mft_raw_data.Prelude.Int.{ℤ, pos, negsuc, ltz}
use spark_trade_mft_raw_data.Prelude.Word.{inc_uint64}
use spark_trade_mft_raw_data.Pipeline.{RawMessage}
use spark_trade_mft_raw_data.Adapter.{
  Failure, plain, new_adapter_error, error_connection, error_protocol, Adapter, new_adapter,
  add_error, inc_int32, dec_uint64,
}

-- what RecvBytes returns: the error of a timeout, another error, or a message
pub data Received : Type 0 where
  again failed : Received
  received : List ℕ → Received

-- what becomes of a new socket; the last has what RecvBytes will return, and then timeouts
pub data SocketDial : Type 0 where
  no_socket no_connect no_subscription : SocketDial
  subscribed : List Received → SocketDial

-- the adapter, whose connection is what RecvBytes will return, and whether stopCh is closed
pub record Mt5 : Type 0 where
  pub adapter : Adapter (List Received)
  pub stopping : Bool

-- NewMT5ZMQAdapter
abbrev pub new_mt5 : ℤ → List ℤ → Mt5
new_mt5 attempts backoff = record { adapter = new_adapter [] attempts backoff; stopping = false }

abbrev pub mt5_error : String → Failure
mt5_error message = new_adapter_error error_connection "MT5" message (some "zmq")

-- Connect
unfoldable pub connect :
    SocketDial → Adapter (List Received) → Option Failure × Adapter (List Received)
connect d a = if a.connected then (none, a) else (elim d [
  | no_socket ↦ (some (mt5_error "failed to create ZMQ socket"), a)
  | no_connect ↦ (some (mt5_error "failed to connect"), a)
  | no_subscription ↦
      (some (new_adapter_error error_protocol "MT5" "failed to set subscription" (some "zmq")), a)
  | subscribed rs ↦ (none, record a { conn = some rs; connected = true })
])

-- getBackoff; none where the index is negative, which is a panic
unfoldable pub get_backoff : List ℤ → ℤ → Option ℤ
get_backoff ss (pos n) = if ltb n (length ss) then get_elem? ss n else some (pos 30)
get_backoff ss (negsuc n) = none

-- the error of reconnect, the seconds that it has slept, and the adapter
pub record Reconnected : Type 0 where
  pub error : Option Failure
  pub waits : List ℤ
  pub adapter : Adapter (List Received)

-- reconnect behind the closing of the socket; a panic is recovered, and there is no error
unfoldable pub sleep_and_connect : Option ℤ → SocketDial → Adapter (List Received) → Reconnected
unfolding connect add_error
sleep_and_connect none d a = record {
  error = none;
  waits = [];
  adapter = add_error (plain "panic in reconnect: index out of range") a;
}
sleep_and_connect (some s) d a =
    let (e, c) = connect d a in record { error = e; waits = s ∷ []; adapter = c }

-- reconnect
unfoldable pub reconnect : SocketDial → Adapter (List Received) → Reconnected
unfolding inc_int32 get_backoff sleep_and_connect
reconnect d a =
    let count = inc_int32 a.reconnect_count in
    let b = record a { reconnect_count = count } in
    if ltz (pos 0) a.reconnect_attempts && ltz a.reconnect_attempts count
    then record { error = some (plain "max reconnect attempts reached"); waits = []; adapter = b }
    else sleep_and_connect (get_backoff a.backoff_seconds count) d
        (record b { conn = none; connected = false })

-- Stop; closing stopCh again panics, which is recovered
unfoldable pub stop_mt5 : Mt5 → Mt5
unfolding add_error
stop_mt5 m =
    let a = record m.adapter { running = false } in
    if m.stopping
    then record m { adapter = add_error (plain "panic in Stop: close of closed channel") a }
    else record {
      adapter = record a { cancelled = true; conn = none; connected = false };
      stopping = true;
    }

-- Start, up to the loop: an error, or the adapter that it runs on
unfoldable pub start_mt5 : Mt5 → Option Failure × Mt5
start_mt5 m =
    if m.adapter.running
    then (some (plain "adapter already running"), m)
    else (none, record m { adapter = record m.adapter { running = true } })

-- safeRecv
unfoldable pub recv_from :
    Option (List Received) → Adapter (List Received) → Received × Adapter (List Received)
recv_from none a = (failed, a)
recv_from (some []) a = (again, a)
recv_from (some (r ∷ rs)) a = (r, record a { conn = some rs })

unfoldable pub safe_recv : Adapter (List Received) → Received × Adapter (List Received)
unfolding recv_from
safe_recv a = recv_from a.conn a

-- an iteration of the loop: whether its context has ended, the clock, the dialling if there is
-- one, and whether the output takes a message within five seconds
pub record Round : Type 0 where
  pub ctx_done : Bool
  pub now : ℤ
  pub dial : SocketDial
  pub takes : Bool

-- What an iteration does: the messages put out, the seconds slept in reconnect, whether the loop goes
-- on, and the adapter
pub record Outcome : Type 0 where
  pub output : List RawMessage
  pub waits : List ℤ
  pub going : Bool
  pub adapter : Adapter (List Received)

abbrev pub quiet : Bool → Adapter (List Received) → Outcome
quiet going a = record { output = []; waits = []; going = going; adapter = a }

-- what follows on an error that is no timeout
unfoldable pub after_reconnect : Reconnected → Outcome
unfolding add_error
after_reconnect r = record {
  output = [];
  waits = r.waits;
  going = true;
  adapter = elim r.error [ none ↦ r.adapter | some f ↦ add_error f r.adapter ];
}

-- the sending of a valid message: it is counted first
unfoldable pub send_message : Round → List ℕ → Adapter (List Received) → Outcome
unfolding add_error
send_message t p a =
    let b = record a { messages_recv = inc_uint64 a.messages_recv } in
    let m : RawMessage = record {
      source = "MT5";
      payload = p;
      received_at = t.now;
      sequence_num = b.messages_recv;
    } in
    if t.takes
    then record { output = m ∷ []; waits = []; going = true; adapter = b }
    else quiet true (record (add_error (plain "output channel blocked (backpressure)") b) {
      messages_recv = dec_uint64 b.messages_recv;
    })

module _ (valid : List ℕ → Bool) where
  -- what follows on safeRecv
  unfoldable pub after_recv : Round → Received × Adapter (List Received) → Outcome
  unfolding after_reconnect send_message reconnect add_error
  after_recv t (again, a) = quiet true a
  after_recv t (failed, a) = after_reconnect (reconnect t.dial (record a { connected = false }))
  after_recv t (received p, a) =
      if valid p
      then send_message t p a
      else quiet true (add_error (plain "invalid JSON received") a)

  -- an iteration of receiveLoop, which leaves the adapter running where it ends
  unfoldable pub receive_round : Round → Mt5 → Outcome
  unfolding after_recv safe_recv
  receive_round t m =
      if t.ctx_done || m.stopping then quiet false m.adapter else after_recv t (safe_recv m.adapter)

-- the loop, whether it is still going, with what has been put out and slept, and the adapter
pub data Mt5Event : Type 0 where
  round : Round → Mt5Event
  stops : Mt5Event

pub record Mt5Run : Type 0 where
  pub output : List RawMessage
  pub waits : List ℤ
  pub going : Bool
  pub mt5 : Mt5

module _ (valid : List ℕ → Bool) where
  unfoldable pub mt5_step : Mt5Event → Bool → Mt5 → Mt5Run
  unfolding receive_round stop_mt5
  mt5_step (round t) going m =
      if going
      then (let o = receive_round valid t m in
          record {
            output = o.output;
            waits = o.waits;
            going = o.going;
            mt5 = record m { adapter = o.adapter };
          })
      else record { output = []; waits = []; going = false; mt5 = m }
  mt5_step stops going m = record { output = []; waits = []; going = going; mt5 = stop_mt5 m }

  -- receiveLoop with the calls of Stop meanwhile
  unfoldable pub mt5_run : List Mt5Event → Bool → Mt5 → Mt5Run
  unfolding mt5_step
  mt5_run [] going m = record { output = []; waits = []; going = going; mt5 = m }
  mt5_run (e ∷ es) going m =
      let s = mt5_step e going m in
      let rest = mt5_run es s.going s.mt5 in
      record rest { output = s.output ++ rest.output; waits = s.waits ++ rest.waits }
