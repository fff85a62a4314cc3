-- ===== src/Wal/Sync.antt =====
-- pkg/storage/wal.go: the log that writes and syncs every event before it acknowledges it. Every
-- method holds the mutex throughout; encoding/json and the clock are parameters.
pub mod Store
pub mod Written
pub mod Directory
pub mod Durable
pub mod Crash
use spark_trade_mft_raw_data.Prelude.{
  ℕ, ◌+◌, Bool, true, false, Option, none, some, List, [], ◌∷◌, ◌++◌, length, take, map, ltb,
  if◌then◌else◌,
}
use spark_trade_mft_raw_data.Prelude.Word.{inc_uint64}
use spark_trade_mft_raw_data.Wal.{
  WalError, not_running, marshal_failed, no_writer, write_failed, sync_failed, WalFile, Writer,
  bufio_write, bufio_flush, os_sync, Log, Faults, rotate, closed, should_rotate, EventJson,
  all_files, replay,
}

unfoldable pub after_sync : Writer → Bool × WalFile → Option WalError × Writer
after_sync w (true, f) = (some sync_failed, record w { file = f })
after_sync w (false, f) = (none, record w { file = f })

unfoldable pub after_flush : Bool → Bool × Writer → Option WalError × Writer
unfolding os_sync after_sync
after_flush sync_fails (true, w) = (some write_failed, w)
after_flush sync_fails (false, w) = after_sync w (os_sync sync_fails w.file)

after_write : Bool → Bool × Writer → Option WalError × Writer
unfolding after_flush bufio_flush
after_write sync_fails (true, w) = (some write_failed, w)
after_write sync_fails (false, w) = after_flush sync_fails (bufio_flush w)

-- Write, Flush and Sync of the current file in Write
unfoldable pub store : Bool → List ℕ → Writer → Option WalError × Writer
unfolding after_write bufio_write
store sync_fails bs w = after_write sync_fails (bufio_write bs w)

-- the counters after a write of `n` bytes
abbrev pub counted : ℕ → Writer → Log → Log
counted n w log = record log {
  current = some w;
  size = log.size + n;
  messages = log.messages + 1;
  total_written = inc_uint64 log.total_written;
}

module _ (clock : ℕ → ℕ) where
  -- a rotation if it is due, its error ignored: the end of Write, and a tick of rotationChecker
  unfoldable pub check_rotation : Faults → Log → Log
  unfolding rotate should_rotate
  check_rotation faults log = if should_rotate log then (rotate clock faults log).1 else log

  unfoldable pub commit : Faults → ℕ → Log → Option WalError × Writer → Option WalError × Log
  unfolding check_rotation
  commit faults n log (some e, w) = (some e, record log { current = some w })
  commit faults n log (none, w) = (none, check_rotation faults (counted n w log))

  unfoldable pub write_data : Faults → List ℕ → Option Writer → Log → Option WalError × Log
  unfolding commit store
  write_data faults bs none log = (some no_writer, log)
  write_data faults bs (some w) log = commit faults (length bs) log (store faults.sync_fails bs w)

  unfoldable pub write_line : Faults → Option (List ℕ) → Log → Option WalError × Log
  unfolding write_data
  write_line faults none log = (some marshal_failed, log)
  write_line faults (some line) log = write_data faults (line ++ (10 ∷ [])) log.current log

  unfoldable pub started : Option WalError × Log → Option WalError × Log
  started (some e, log) = (some e, log)
  started (none, log) = (none, record log { running = true })

  -- Start
  unfoldable pub start : Faults → Log → Option WalError × Log
  unfolding started rotate
  start faults log = started (rotate clock faults log)

  module _ {Ev : Type 0} (json : EventJson Ev) where
    -- Write, given what it has read of `running` before it takes the mutex
    unfoldable pub write_event : Bool → Faults → Ev → Log → Option WalError × Log
    unfolding write_line
    write_event running faults ev log =
        if running then write_line faults (json.marshal ev) log else (some not_running, log)

-- Stop
unfoldable pub stop : Log → Log
unfolding closed
stop log = record log { running = false; current = closed log.current }

-- What a file holds after a crash of the machine: the bytes that were synced and some of those
-- behind them. `cut` says how far each file reaches.
abbrev pub survives : (ℕ → ℕ) → WalFile → List ℕ
survives cut f = take (if ltb f.synced (cut f.name) then cut f.name else f.synced) f.sink.written

-- Replay after a crash, on the files in the order of their names
unfoldable pub recovered : {Ev : Type 0} → EventJson Ev → (ℕ → ℕ) → Log → List Ev
unfolding all_files replay
recovered json cut log = replay json (map (survives cut) (all_files log.current log.files))

-- What is done to a log.
pub data WalOp (Ev : Type 0) : Type 0 where
  starts : Faults → WalOp Ev
  writes : Bool → Faults → Ev → WalOp Ev
  ticks : Faults → WalOp Ev
  stops : WalOp Ev

-- the events of the calls of Write without an error
abbrev pub acked : {Ev : Type 0} → Ev → Option WalError → List Ev
acked ev none = ev ∷ []
acked ev (some e) = []

module _ (clock : ℕ → ℕ) {Ev : Type 0} (json : EventJson Ev) where
  unfoldable pub wal_step : WalOp Ev → Log → List Ev × Log
  unfolding start write_event check_rotation stop
  wal_step (starts faults) log = ([], (start clock faults log).1)
  wal_step (writes running faults ev) log =
      let (e, log1) = write_event clock json running faults ev log in (acked ev e, log1)
  wal_step (ticks faults) log = ([], check_rotation clock faults log)
  wal_step stops log = ([], stop log)

  -- A row of operations: the acknowledged events, and the log after them.
  unfoldable pub wal_run : List (WalOp Ev) → Log → List Ev × Log
  unfolding wal_step
  wal_run [] log = ([], log)
  wal_run (op ∷ ops) log =
      let (evs, log1) = wal_step op log in
      let (more, log2) = wal_run ops log1 in (evs ++ more, log2)
