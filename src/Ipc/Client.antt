-- ===== src/Ipc/Client.antt =====
-- pkg/ipc/client.go: the client of a socket, with its in-memory queue and its spool. Sends, rounds
-- of `drainLoop`, broken connections and `Stop` are the steps of its state. The deadlines, the
-- waits and the error list, which only `Stats` shows, are left out.
pub mod Delivery
pub mod Queue
pub mod Undelivered
use spark_trade_mft_raw_data.Prelude.{
  ℕ, ◌+◌, ◌≡◌, Bool, true, false, not, Option, none, some, List, [], ◌∷◌, ◌++◌, ltb, ◌==◌,
  if◌then◌else◌, length,
}
use spark_trade_mft_raw_data.Ipc.{
  IpcError, Sink, client_closed, nil_message, marshal_failed, no_connection,
}
use spark_trade_mft_raw_data.Ipc.Frame.{write_frame}
use spark_trade_mft_raw_data.Ipc.Spool.{
  Spool, Drained, drained, lost, FileFaults, append, drain, new_spool,
}

-- What `writeFrame` touches: the connection, if there is one, and the counter of frames sent.
pub record Wire : Type 0 where
  pub conn : Option Sink
  pub sent : ℕ

pub record Client : Type 0 where
  pub queue : List (List ℕ)
  pub queue_size : ℕ
  pub spool : Spool
  pub spilling : Bool
  pub wire : Wire
  pub connected : Bool
  pub closed : Bool
  pub spooled : ℕ
  pub reconnects : ℕ

-- NewClient on a spool file that could be opened
unfoldable pub new_client : ℕ → ℕ → Sink → Client
unfolding new_spool
new_client queue_size max_spool_bytes f = record {
  queue = [];
  queue_size = if queue_size == 0 then 4096 else queue_size;
  spool = new_spool f max_spool_bytes;
  spilling = false;
  wire = record { conn = none; sent = 0 };
  connected = false;
  closed = false;
  spooled = 0;
  reconnects = 0;
}

spooled_to : Client → Option IpcError × Spool → Option IpcError × Client
spooled_to c (some e, s) = (some e, record c { spool = s })
spooled_to c (none, s) = (none, record c { spool = s; spooled = c.spooled + 1 })

-- Send behind the marshalling: to the spool while spilling, else to the queue if it has room.
unfoldable pub enqueue : List ℕ → Client → Option IpcError × Client
unfolding spooled_to
enqueue body c =
    if c.spilling
    then spooled_to c (append body c.spool)
    else if ltb (length c.queue) c.queue_size
    then (none, record c { queue = c.queue ++ (body ∷ []) })
    else spooled_to (record c { spilling = true }) (append body c.spool)

enqueue_marshalled : Option (List ℕ) → Client → Option IpcError × Client
unfolding enqueue
enqueue_marshalled none c = (some marshal_failed, c)
enqueue_marshalled (some body) c = enqueue body c

-- `marshal` is proto.Marshal of the generated message type; `none` stands for its error.
module _ {M : Type 0} (marshal : M → Option (List ℕ)) where
  send_message : Option M → Client → Option IpcError × Client
  unfolding enqueue_marshalled
  send_message none c = (some nil_message, c)
  send_message (some m) c = enqueue_marshalled (marshal m) c

  -- Send; a nil message is `none`.
  unfoldable pub send : Option M → Client → Option IpcError × Client
  unfolding send_message
  send m c = if c.closed then (some client_closed, c) else send_message m c

wrote_frame : ℕ → ℕ × Option IpcError × Sink → Option IpcError × Wire
wrote_frame sent (n, some e, w) = (some e, record { conn = some w; sent = sent })
wrote_frame sent (n, none, w) = (none, record { conn = some w; sent = sent + 1 })

write_to : List ℕ → Option Sink → ℕ → Option IpcError × Wire
unfolding wrote_frame
write_to body none sent = (some no_connection, record { conn = none; sent = sent })
write_to body (some w) sent = wrote_frame sent (write_frame body w)

-- writeFrame
unfoldable pub send_frame : List ℕ → Wire → Option IpcError × Wire
unfolding write_to
send_frame body w = write_to body w.conn w.sent

break_at : Option Sink → Client → Client
break_at none c = c
break_at (some w) c = record c {
  wire = record c.wire { conn = none };
  connected = false;
  reconnects = c.reconnects + 1;
}

-- breakConn
unfoldable pub break_conn : Client → Client
unfolding break_at
break_conn c = break_at c.wire.conn c

replayed : Client → Drained × Spool × Wire → Client
unfolding break_conn
replayed c (drained n none, s, w) = record c { spool = s; wire = w }
replayed c (drained n (some e), s, w) = break_conn (record c { spool = s; wire = w })
replayed c (lost, s, w) = c

-- Replay the spool over the connection; an error breaks the connection.
unfoldable pub replay : FileFaults → Client → Client
unfolding replayed
replay faults c =
    if c.spool.cur_bytes == 0 then c else replayed c (drain send_frame faults c.spool c.wire)

-- connect; the dial gives a connection or fails.
unfoldable pub connect : Option Sink → Client → Client
connect none c = c
connect (some w) c = record c { wire = record c.wire { conn = some w }; connected = true }

-- One round of drainLoop, up to its wait.
unfoldable pub round : Option Sink → FileFaults → Client → Client
unfolding replay connect
round dial faults c =
    if c.closed
    then c
    else (let c' = if c.connected then c else connect dial c in
        if c'.connected then replay faults c' else c')

-- Flush returns without an error as soon as this holds.
unfoldable pub flushed : Client → Bool
flushed c = c.spool.cur_bytes == 0

-- Stop: the connection is broken and the spool file is removed.
unfoldable pub stop : Client → Client
unfolding break_conn
stop c =
    if c.closed
    then c
    else (let c' = break_conn (record c { closed = true }) in
        record c' { spool = record c'.spool { file = record { written = []; budget = 0 } } })

-- What the goroutines of a client and its callers do to its state.
pub data Step {M : Type 0} (marshal : M → Option (List ℕ)) : Client → Client → Type 0 where
  sends : (m : Option M) (c : Client) → Step marshal c (send marshal m c).1
  drains :
      (dial : Option Sink) (faults : FileFaults) (c : Client) → Step marshal c (round dial faults c)
  breaks : (c : Client) → Step marshal c (break_conn c)
  stops : (c : Client) → Step marshal c (stop c)

pub data Reach {M : Type 0} (marshal : M → Option (List ℕ)) (c : Client) : Client → Type 0 where
  here : Reach marshal c c
  next : {d e : Client} → Reach marshal c d → Step marshal d e → Reach marshal c e
