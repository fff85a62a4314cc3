-- ===== src/Ipc/Server.antt =====
-- pkg/ipc/server.go: the loop of a connection (serveConn, safeHandle), over the bytes that arrive on
-- it, with the handler and the marshalling of replies as arguments.
pub mod Serving
pub mod Lifecycle
use spark_trade_mft_raw_data.Prelude.{
  ℕ, zero, suc, ◌+◌, Bool, true, false, Option, none, some, List, [], ◌∷◌, ◌++◌, length, ◌==◌,
  if◌then◌else◌,
}
use spark_trade_mft_raw_data.Prelude.Word.{inc_uint64}
use spark_trade_mft_raw_data.Ipc.{IpcError, Sink, ok, err}
use spark_trade_mft_raw_data.Ipc.Frame.{read_frame, write_frame}
use spark_trade_mft_raw_data.Pipeline.{IpcMessage, RawWire, marshal_ipc, unmarshal_ipc}

-- what a handler does with a message
pub data Handled : Type 0 where
  replies : Option IpcMessage → Handled
  panics : Handled

-- A connection as its loop sees it: the messages that the handler has been given, the server's
-- counters, the number of errors that addError has been given, and what the other end takes.
pub record ServerConn : Type 0 where
  pub handled : List IpcMessage
  pub recv : ℕ
  pub sent : ℕ
  pub errors : ℕ
  pub out : Sink

module _ (wire : RawWire) (handler : IpcMessage → Handled) where
  -- WriteFrame of a reply; a write that fails ends the loop
  unfoldable pub reply_written : ℕ × Option IpcError × Sink → ServerConn → Bool × ServerConn
  reply_written (n, some e, w) c = (false, record c { errors = suc c.errors; out = w })
  reply_written (n, none, w) c = (true, record c { sent = inc_uint64 c.sent; out = w })

  unfoldable pub write_reply : Option (List ℕ) → ServerConn → Bool × ServerConn
  unfolding reply_written write_frame
  write_reply none c = (true, record c { errors = suc c.errors })
  write_reply (some out) c = reply_written (write_frame out c.out) c

  -- safeHandle, and the reply that it gives
  unfoldable pub after_handle : Handled → ServerConn → Bool × ServerConn
  unfolding write_reply marshal_ipc
  after_handle panics c = (true, record c { errors = suc c.errors })
  after_handle (replies none) c = (true, c)
  after_handle (replies (some reply)) c = write_reply (marshal_ipc wire (some reply)) c

  unfoldable pub serve_message : Option IpcMessage → ServerConn → Bool × ServerConn
  unfolding after_handle
  serve_message none c = (true, record c { errors = suc c.errors })
  serve_message (some m) c =
      after_handle (handler m)
        (record c { handled = c.handled ++ (m ∷ []); recv = inc_uint64 c.recv })

  -- an iteration behind ReadFrame, and whether the loop goes on; a frame with no byte is passed over
  unfoldable pub serve_frame : List ℕ → ServerConn → Bool × ServerConn
  unfolding serve_message unmarshal_ipc
  serve_frame body c =
      if length body == 0 then (true, c) else serve_message (unmarshal_ipc wire body) c

  -- the loop, until the stream ends or breaks, or a reply cannot be written
  unfoldable pub serve_conn : ℕ → List ℕ → ServerConn → ServerConn
  unfolding serve_frame read_frame
  serve_conn zero s c = c
  serve_conn (suc fuel) s c = elim (read_frame s) [
    | err e ↦ c
    | ok (body, rest) ↦
        (let r = serve_frame body c in
          let next = serve_conn fuel rest r.1 in if r.0 then next else r.1)
  ]
