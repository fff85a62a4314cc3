-- ===== src/Dolphin.antt =====
-- pkg/storage/dolphindb.go: the writer that keeps events in a write-ahead log and brings them to
-- DolphinDB in batches. The database is what its scripts have appended; a script that fails may
-- leave any rows. A flush is two
-- steps, on both sides of the batch's lock; Write is one, as no other step uses both the log and
-- the batch.
pub mod Recovery
pub mod Script
pub mod Reconnect
pub mod Durable
use spark_trade_mft_raw_data.Prelude.{
  ℕ, zero, suc, ◌+◌, ◌%◌, ◌≡◌, Bool, true, false, Option, none, some, List, [], ◌∷◌, ◌++◌, length,
  take, drop, ◌==◌, leb, if◌then◌else◌, Subseq,
}
use spark_trade_mft_raw_data.Wal.{WalError}
use spark_trade_mft_raw_data.Wal.Sync.{acked}

-- WALWriter of wal_writer.go, as the database's writer uses it: Write, what its own goroutines do
-- meanwhile, and Replay, which after a crash finds what the crash left.
pub record WalWriter (Ev : Type 0) : Type 1 where
  pub State : Type 0
  pub Env : Type 0
  pub Cut : Type 0
  pub write : Env → Ev → State → Option WalError × State
  pub tick : Env → State → State
  pub replay : Cut → State → List Ev

-- What a log promises for so many operations to come: Replay gives the events of all calls of Write
-- without an error, in their order.
pub record WalPromise {Ev : Type 0} (w : WalWriter Ev) : Type 1 where
  pub Holds : ℕ → WalWriter.State w → List Ev → Type 0
  pub IsFit : Ev → Type 0
  pub write_holds :
      (env : WalWriter.Env w) (ev : Ev) (s : WalWriter.State w) (k : ℕ) (evs : List Ev)
      → IsFit ev
      → Holds (suc k) s evs
      → let (e, s1) = WalWriter.write w env ev s in Holds k s1 (evs ++ acked ev e)
  pub tick_holds :
      (env : WalWriter.Env w) (s : WalWriter.State w) (k : ℕ) (evs : List Ev)
      → Holds (suc k) s evs
      → Holds k (WalWriter.tick w env s) evs
  pub rest_holds :
      (s : WalWriter.State w) (k : ℕ) (evs : List Ev) → Holds (suc k) s evs → Holds k s evs
  pub replay_holds :
      (cut : WalWriter.Cut w) (s : WalWriter.State w) (k : ℕ) (evs : List Ev)
      → Holds k s evs
      → Subseq evs (WalWriter.replay w cut s)

-- what a script of the database does
pub data Ran (Ev : Type 0) : Type 0 where
  appended : Ran Ev
  failed : List Ev → Ran Ev

-- DolphinDBWriter with its log and the rows of the database; `in_flight` are the batches that a
-- flush has taken and not yet written.
pub record DbWriter (S Ev : Type 0) : Type 0 where
  pub batch_size : ℕ
  pub connected : Bool
  pub batch : List Ev
  pub in_flight : List (List Ev)
  pub wal : S
  pub rows : List Ev
  pub total_written : ℕ
  pub total_failed : ℕ
  pub total_batches : ℕ

abbrev pub new_db_writer : {S Ev : Type 0} → ℕ → S → List Ev → DbWriter S Ev
new_db_writer batch_size wal rows = record {
  batch_size = batch_size;
  connected = false;
  batch = [];
  in_flight = [];
  wal = wal;
  rows = rows;
  total_written = 0;
  total_failed = 0;
  total_batches = 0;
}

abbrev pub add_uint64 : ℕ → ℕ → ℕ
add_uint64 n k = (n + k) % 0x1_0000_0000_0000_0000

unfoldable pub run_script : {Ev : Type 0} → Ran Ev → List Ev → List Ev → Bool × List Ev
run_script appended evs rows = (true, rows ++ evs)
run_script (failed part) evs rows = (false, rows ++ part)

-- writeBatch: whether it succeeds, and the rows; no events make no script
unfoldable pub write_batch : {Ev : Type 0} → Ran Ev → List Ev → List Ev → Bool × List Ev
unfolding run_script
write_batch ran evs rows = if length evs == 0 then (true, rows) else run_script ran evs rows

-- the loop of replayWAL, which stops at the first batch that fails
unfoldable pub replay_batches :
    {Ev : Type 0} → ℕ → ℕ → (ℕ → Ran Ev) → ℕ → List Ev → List Ev → List Ev
unfolding write_batch
replay_batches zero size runs i evs rows = rows
replay_batches (suc fuel) size runs i [] rows = rows
replay_batches (suc fuel) size runs i (ev ∷ evs) rows =
    let r = write_batch (runs i) (take size (ev ∷ evs)) rows in
    let rest = replay_batches fuel size runs (suc i) (drop size (ev ∷ evs)) r.1 in
    if r.0 then rest else r.1

-- flush up to the release of the lock: the batch is taken
unfoldable pub drain_batch : {S Ev : Type 0} → DbWriter S Ev → DbWriter S Ev
drain_batch w =
    if length w.batch == 0
    then w
    else record w { batch = []; in_flight = w.in_flight ++ (w.batch ∷ []) }

unfoldable pub flush_written :
    {S Ev : Type 0} → List Ev → Bool × List Ev → DbWriter S Ev → DbWriter S Ev
flush_written evs (false, rows) w = record w {
  rows = rows;
  total_failed = add_uint64 w.total_failed (length evs);
}
flush_written evs (true, rows) w = record w {
  rows = rows;
  total_written = add_uint64 w.total_written (length evs);
  total_batches = add_uint64 w.total_batches 1;
}

-- the rest of flush, for a batch that was taken: without a connection it only counts
unfoldable pub finish_flush : {S Ev : Type 0} → Ran Ev → List Ev → DbWriter S Ev → DbWriter S Ev
unfolding flush_written write_batch
finish_flush ran evs w =
    flush_written evs (if w.connected then write_batch ran evs w.rows else (true, w.rows)) w

unfoldable pub take_nth : {A : Type 0} → ℕ → List A → Option (A × List A)
take_nth k [] = none
take_nth zero (x ∷ xs) = some (x, xs)
take_nth (suc k) (x ∷ xs) = elim (take_nth k xs) [ none ↦ none | some r ↦ some (r.0, x ∷ r.1) ]

unfoldable pub finish_nth :
    {S Ev : Type 0} → Ran Ev → Option (List Ev × List (List Ev)) → DbWriter S Ev → DbWriter S Ev
unfolding finish_flush
finish_nth ran none w = w
finish_nth ran (some (evs, others)) w = finish_flush ran evs (record w { in_flight = others })

-- the end of Stop, behind the last flush of flushLoop
unfoldable pub stop_db : {S Ev : Type 0} → DbWriter S Ev → DbWriter S Ev
stop_db w = record w { connected = false }

module _ {Ev : Type 0} (wal : WalWriter Ev) where
  -- Connect, with replayWAL; an error of ensureTables is ignored
  unfoldable pub connect_db :
      Bool
      → WalWriter.Cut wal
      → (ℕ → Ran Ev)
      → DbWriter (WalWriter.State wal) Ev
      → DbWriter (WalWriter.State wal) Ev
  unfolding replay_batches
  connect_db false cut runs w = w
  connect_db true cut runs w =
      let evs = wal.replay cut w.wal in
      record w {
        connected = true;
        rows = replay_batches (length evs) w.batch_size runs 0 evs w.rows;
      }

  unfoldable pub queued :
      Ev
      → Option WalError × WalWriter.State wal
      → DbWriter (WalWriter.State wal) Ev
      → Option WalError × DbWriter (WalWriter.State wal) Ev
  queued ev (some e, s) w = (some e, record w { wal = s })
  queued ev (none, s) w = (none, record w { wal = s; batch = w.batch ++ (ev ∷ []) })

  -- Write; the flush of a full batch is a step of the goroutine that it starts
  unfoldable pub write_db :
      WalWriter.Env wal
      → Ev
      → DbWriter (WalWriter.State wal) Ev
      → Option WalError × DbWriter (WalWriter.State wal) Ev
  unfolding queued
  write_db env ev w = queued ev (wal.write env ev w.wal) w

  -- The steps of Write, the flushes, the log's goroutines, Connect and the end of Stop.
  pub data DbOp : Type 0 where
    writes : WalWriter.Env wal → Ev → DbOp
    drains : DbOp
    finishes : ℕ → Ran Ev → DbOp
    ticks : WalWriter.Env wal → DbOp
    connects : Bool → WalWriter.Cut wal → (ℕ → Ran Ev) → DbOp
    stops : DbOp

  unfoldable pub db_step :
      DbOp → DbWriter (WalWriter.State wal) Ev → List Ev × DbWriter (WalWriter.State wal) Ev
  unfolding write_db drain_batch finish_nth take_nth connect_db stop_db
  db_step (writes env ev) w = let (e, w1) = write_db env ev w in (acked ev e, w1)
  db_step drains w = ([], drain_batch w)
  db_step (finishes k ran) w = ([], finish_nth ran (take_nth k w.in_flight) w)
  db_step (ticks env) w = ([], record w { wal = wal.tick env w.wal })
  db_step (connects ok cut runs) w = ([], connect_db ok cut runs w)
  db_step stops w = ([], stop_db w)

  -- A row of steps: the acknowledged events, and the writer after them.
  unfoldable pub db_run :
      List DbOp → DbWriter (WalWriter.State wal) Ev → List Ev × DbWriter (WalWriter.State wal) Ev
  unfolding db_step
  db_run [] w = ([], w)
  db_run (op ∷ ops) w =
      let (evs, w1) = db_step op w in let (more, w2) = db_run ops w1 in (evs ++ more, w2)
