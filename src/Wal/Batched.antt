-- ===== src/Wal/Batched.antt =====
-- pkg/storage/wal_batched.go: the log that acknowledges an event when it is in the buffer, and
-- syncs at the next tick of its flush loop.
pub mod Stream
pub mod Held
pub mod Loss
pub mod Bound
pub mod Crash
use spark_trade_mft_raw_data.Prelude.{
  ℕ, suc, ◌+◌, Bool, true, false, Option, none, some, List, [], ◌∷◌, ◌++◌, length, if◌then◌else◌,
}
use spark_trade_mft_raw_data.Prelude.Word.{inc_uint64}
use spark_trade_mft_raw_data.Wal.{
  WalError, not_running, marshal_failed, no_writer, write_failed, Writer, bufio_write, bufio_flush,
  Log, Faults, rotate, closed, should_rotate, EventJson, new_log,
}
use spark_trade_mft_raw_data.Wal.Sync.{after_flush, counted, acked}

-- BatchedWAL, with the number of errors that addError has been given
pub record BatchedLog : Type 0 where
  pub log : Log
  pub pending : ℕ
  pub total_flushes : ℕ
  pub errors : ℕ

abbrev pub new_batched_log : ℕ → ℕ → BatchedLog
new_batched_log max_file_size max_messages = record {
  log = new_log max_file_size max_messages;
  pending = 0;
  total_flushes = 0;
  errors = 0;
}

flush_result : BatchedLog → Option WalError × Writer → Option WalError × BatchedLog
flush_result b (some e, w) =
    (some e, record b { log = record b.log { current = some w }; errors = suc b.errors })
flush_result b (none, w) = (
  none,
  record b {
    log = record b.log { current = some w };
    pending = 0;
    total_flushes = inc_uint64 b.total_flushes;
  },
)

-- flushLocked, on the current writer
unfoldable pub flush_current : Bool → Option Writer → BatchedLog → Option WalError × BatchedLog
unfolding flush_result after_flush bufio_flush
flush_current sync_fails none b = (none, b)
flush_current sync_fails (some w) b = flush_result b (after_flush sync_fails (bufio_flush w))

-- Flush
unfoldable pub flush : Bool → BatchedLog → Option WalError × BatchedLog
unfolding flush_current
flush sync_fails b = flush_current sync_fails b.log.current b

-- Stop
unfoldable pub stop_batched : Bool → BatchedLog → BatchedLog
unfolding flush closed
stop_batched sync_fails b =
    let b1 = (flush sync_fails b).1 in
    record b1 { log = record b1.log { running = false; current = closed b1.log.current } }

module _ (clock : ℕ → ℕ) where
  unfoldable pub rotate_result : BatchedLog → Option WalError × Log → Option WalError × BatchedLog
  rotate_result b (some e, log) = (some e, record b { log = log; errors = suc b.errors })
  rotate_result b (none, log) = (none, record b { log = log })

  -- rotateLocked: the old file is synced first, and an error of that is ignored
  unfoldable pub rotate_batched : Faults → BatchedLog → Option WalError × BatchedLog
  unfolding rotate_result rotate flush
  rotate_batched faults b =
      let b1 = (flush faults.sync_fails b).1 in rotate_result b1 (rotate clock faults b1.log)

  -- the end of Write, and a tick of rotationChecker
  unfoldable pub check_batched : Faults → BatchedLog → BatchedLog
  unfolding rotate_batched should_rotate
  check_batched faults b = if should_rotate b.log then (rotate_batched faults b).1 else b

  abbrev pub buffered : ℕ → Writer → BatchedLog → BatchedLog
  buffered n w b = record b { log = counted n w b.log; pending = suc b.pending }

  unfoldable pub buffer_result :
      Faults → ℕ → BatchedLog → Bool × Writer → Option WalError × BatchedLog
  unfolding check_batched
  buffer_result faults n b (true, w) = (
    some write_failed,
    record b { log = record b.log { current = some w }; errors = suc b.errors },
  )
  buffer_result faults n b (false, w) = (none, check_batched faults (buffered n w b))

  unfoldable pub buffer_data :
      Faults → List ℕ → Option Writer → BatchedLog → Option WalError × BatchedLog
  unfolding buffer_result bufio_write
  buffer_data faults bs none b = (some no_writer, b)
  buffer_data faults bs (some w) b = buffer_result faults (length bs) b (bufio_write bs w)

  unfoldable pub buffer_line : Faults → Option (List ℕ) → BatchedLog → Option WalError × BatchedLog
  unfolding buffer_data
  buffer_line faults none b = (some marshal_failed, record b { errors = suc b.errors })
  buffer_line faults (some line) b = buffer_data faults (line ++ (10 ∷ [])) b.log.current b

  unfoldable pub started_batched : Option WalError × BatchedLog → Option WalError × BatchedLog
  started_batched (some e, b) = (some e, b)
  started_batched (none, b) = (none, record b { log = record b.log { running = true } })

  -- Start
  unfoldable pub start_batched : Faults → BatchedLog → Option WalError × BatchedLog
  unfolding started_batched rotate_batched
  start_batched faults b = started_batched (rotate_batched faults b)

-- What is done to a batched log; `flushes` is a tick of flushLoop or a call of Flush.
pub data BatchedOp (Ev : Type 0) : Type 0 where
  starts : Faults → BatchedOp Ev
  writes : Bool → Faults → Ev → BatchedOp Ev
  flushes : Bool → BatchedOp Ev
  ticks : Faults → BatchedOp Ev
  stops : Bool → BatchedOp Ev

module _ (clock : ℕ → ℕ) {Ev : Type 0} (json : EventJson Ev) where
  -- Write, given what it has read of `running` before it takes the mutex
  unfoldable pub write_batched : Bool → Faults → Ev → BatchedLog → Option WalError × BatchedLog
  unfolding buffer_line
  write_batched running faults ev b =
      if running then buffer_line clock faults (json.marshal ev) b else (some not_running, b)

  unfoldable pub batched_step : BatchedOp Ev → BatchedLog → List Ev × BatchedLog
  unfolding start_batched write_batched check_batched flush stop_batched
  batched_step (starts faults) b = ([], (start_batched clock faults b).1)
  batched_step (writes running faults ev) b =
      let (e, b1) = write_batched running faults ev b in (acked ev e, b1)
  batched_step (flushes sync_fails) b = ([], (flush sync_fails b).1)
  batched_step (ticks faults) b = ([], check_batched clock faults b)
  batched_step (stops sync_fails) b = ([], stop_batched sync_fails b)

  -- A row of operations: the acknowledged events, and the log after them.
  unfoldable pub batched_run : List (BatchedOp Ev) → BatchedLog → List Ev × BatchedLog
  unfolding batched_step
  batched_run [] b = ([], b)
  batched_run (op ∷ ops) b =
      let (evs, b1) = batched_step op b in let (more, b2) = batched_run ops b1 in (evs ++ more, b2)
