-- ===== src/Tests/Wal.antt =====
-- The write-ahead logs at concrete inputs.
use spark_trade_mft_raw_data.Prelude.{map, if◌then◌else◌, ◌==◌}
use spark_trade_mft_raw_data.Prelude.{
  ℕ, suc, ◌+◌, ◌-◌, ◌*◌, ◌≤◌, ◌≡◌, refl, subst, ap, true, false, Option, none, some, List, [], ◌∷◌,
  ◌++◌, length, Subseq, All, arith,
}
use spark_trade_mft_raw_data.Wal.{EventJson, Faults, Log, new_log}
use spark_trade_mft_raw_data.Wal.Reading.{IsLine, IsLogged}
use spark_trade_mft_raw_data.Wal.Sync.{
  WalOp, starts, writes, stops, wal_run, recovered, start, write_event,
}
use spark_trade_mft_raw_data.Wal.Sync.Crash.{OpIsLogged, recovered-wal_run}
use spark_trade_mft_raw_data.Wal.Batched.{
  BatchedOp, starts, writes, flushes, new_batched_log, batched_run,
}
use spark_trade_mft_raw_data.Wal.Batched.Crash.{BatchedOpIsLogged, recovered-batched_run}
use spark_trade_mft_raw_data.Dolphin.{DbOp, new_db_writer, connect_db, db_run, appended, failed}
use spark_trade_mft_raw_data.Dolphin.Script.{text_column, read_column, read_column-text_column}
use spark_trade_mft_raw_data.Dolphin.Recovery.{restarted-acked}
use spark_trade_mft_raw_data.Dolphin.Durable.{sync_wal, sync_promise, started-Lasts, stored-acked}
use spark_trade_mft_raw_data.Dolphin.Reconnect.{
  Reconnecting, LoopOp, loop_run, other_steps, loop_run-idle,
}
use spark_trade_mft_raw_data.Wal.Upkeep.{clean_old, younger, clean_old-replay}
use spark_trade_mft_raw_data.Wal.{WalFile, replay}

-- events that are numbers, each a line of two bytes
abbrev read_number : List ℕ → Option ℕ
read_number [] = none
read_number (b ∷ bs) = some (b - 100)

abbrev number_json : EventJson ℕ
number_json = record { marshal = λ n. some ((n + 100) ∷ 65 ∷ []); unmarshal = read_number }

abbrev tenths : ℕ → ℕ
tenths n = 5 + n * 10

tenths_grows : (n : ℕ) → tenths n ≤ tenths (suc n)
tenths_grows n = omega arith

line_of : Option (List ℕ) → List ℕ
line_of none = []
line_of (some l) = l

seven_IsLogged : IsLogged number_json 7
unfolding line_of
seven_IsLogged line e =
    subst (λ l. IsLine number_json 7 l) (ap line_of e)
      record {
        marshals = refl;
        reads = refl;
        inner = ((refl, refl), ((refl, refl), tt));
        filled = refl;
        short = omega arith;
      }

eight_IsLogged : IsLogged number_json 8
unfolding line_of
eight_IsLogged line e =
    subst (λ l. IsLine number_json 8 l) (ap line_of e)
      record {
        marshals = refl;
        reads = refl;
        inner = ((refl, refl), ((refl, refl), tt));
        filled = refl;
        short = omega arith;
      }

abbrev well : Faults
well = record { sync_fails = false; open_fails = false; room = 1000 }

abbrev no_sync : Faults
no_sync = record { sync_fails = true; open_fails = false; room = 1000 }

-- a rotation after two messages, a Sync that fails, and a Write after the Stop
abbrev two_files : List (WalOp ℕ)
two_files =
    starts well
    ∷ writes true well 7
    ∷ writes true well 8
    ∷ writes true no_sync 8
    ∷ stops
    ∷ writes true well 7
    ∷ []

acked_two : (wal_run tenths number_json two_files (new_log 1000 2)).0 ≡ 7 ∷ 8 ∷ []
unfolding wal_run
acked_two = refl

abbrev two_files_IsLogged : All (OpIsLogged number_json tenths tenths_grows) two_files
two_files_IsLogged =
    (tt, (seven_IsLogged, (eight_IsLogged, (eight_IsLogged, (tt, (seven_IsLogged, tt))))))

recovered-wal_run_example :
    Subseq
      (wal_run tenths number_json two_files (new_log 1000 2)).0
      (recovered number_json (λ name. 4) (wal_run tenths number_json two_files (new_log 1000 2)).1)
recovered-wal_run_example =
    recovered-wal_run number_json tenths tenths_grows two_files 1000 2 (λ name. 4) (omega arith)
      two_files_IsLogged

-- a flush between two events: the second is pending
abbrev one_pending : List (BatchedOp ℕ)
one_pending = starts well ∷ writes true well 7 ∷ flushes false ∷ writes true well 8 ∷ []

abbrev one_pending_IsLogged : All (BatchedOpIsLogged number_json tenths) one_pending
one_pending_IsLogged = (tt, (seven_IsLogged, (tt, (eight_IsLogged, tt))))

recovered-batched_run_example :
    let (evs, b) = batched_run tenths number_json one_pending (new_batched_log 1000 9) in
    (kept : List ℕ) × (lost : List ℕ) × (evs ≡ kept ++ lost)
    × (length lost ≡ b.pending)
    × Subseq kept (recovered number_json (λ name. 0) b.log)
unfolding batched_run
recovered-batched_run_example =
    recovered-batched_run number_json tenths tenths_grows one_pending 1000 9 (λ name. 0)
      (omega arith) one_pending_IsLogged refl

-- a database that fails in the flush, and takes all after the restart
abbrev storage_steps : List (DbOp (sync_wal number_json tenths))
storage_steps =
    DbOp.writes (true, well) 7
    ∷ DbOp.connects true (λ name. 0) (λ n. failed [])
    ∷ DbOp.drains
    ∷ DbOp.finishes 0 (failed (7 ∷ []))
    ∷ DbOp.writes (true, well) 8
    ∷ DbOp.ticks (true, no_sync)
    ∷ DbOp.stops
    ∷ []

storage_steps_acked :
    (db_run
      (sync_wal number_json tenths)
      storage_steps
      (new_db_writer 1000 (start tenths well (new_log 1000 2)).1 [])).0
    ≡ 7 ∷ 8 ∷ []
unfolding db_run write_event start
storage_steps_acked = refl

abbrev storage_log : Log
storage_log = (start tenths well (new_log 1000 2)).1

stored-acked_example :
    let (evs, w) =
      db_run (sync_wal number_json tenths) storage_steps (new_db_writer 1000 storage_log []) in
    Subseq evs
      (connect_db
        (sync_wal number_json tenths)
        true
        (λ name. 4)
        (λ n. appended)
        (new_db_writer 3 w.wal w.rows)).rows
stored-acked_example =
    stored-acked number_json tenths tenths_grows storage_steps well 1000 2 1000 3 (λ name. 4)
      (λ n. appended) (omega arith)
      (seven_IsLogged, (tt, (tt, (tt, (eight_IsLogged, (tt, (tt, tt))))))) (omega arith) (λ n. refl)

restarted-acked_example :
    let (evs, w) =
      db_run (sync_wal number_json tenths) storage_steps (new_db_writer 9 storage_log []) in
    Subseq evs
      (connect_db
        (sync_wal number_json tenths)
        true
        (λ name. 0)
        (λ n. appended)
        (new_db_writer 1 w.wal w.rows)).rows
restarted-acked_example =
    restarted-acked (sync_wal number_json tenths) (sync_promise number_json tenths tenths_grows)
      storage_steps storage_log 9 1 (λ name. 0) (λ n. appended)
      (started-Lasts number_json tenths tenths_grows well 1000 2 7 (omega arith))
      (seven_IsLogged, (tt, (tt, (tt, (eight_IsLogged, (tt, (tt, tt))))))) (omega arith) (λ n. refl)

-- a backslash and a quote in a text, and a comma and a bracket in another one
read_column-text_column_example :
    read_column 2
      (text_column (λ s. s) ((65 ∷ 92 ∷ 34 ∷ []) ∷ (44 ∷ 93 ∷ []) ∷ []) ++ (44 ∷ 34 ∷ []))
    ≡ some ((65 ∷ 92 ∷ 34 ∷ []) ∷ (44 ∷ 93 ∷ []) ∷ [], 44 ∷ 34 ∷ [])
read_column-text_column_example =
    read_column-text_column (λ s. s) (65 ∷ 92 ∷ 34 ∷ []) ((44 ∷ 93 ∷ []) ∷ []) (44 ∷ 34 ∷ [])

-- a connected writer, whose session breaks before the flush
abbrev broken_steps : List (LoopOp (sync_wal number_json tenths))
broken_steps =
    LoopOp.turn true (λ name. 0) (λ n. appended)
    ∷ LoopOp.other (DbOp.writes (true, well) 7)
    ∷ LoopOp.other DbOp.drains
    ∷ LoopOp.other (DbOp.finishes 0 (failed []))
    ∷ LoopOp.turn true (λ name. 0) (λ n. appended)
    ∷ []

abbrev connected_loop : Reconnecting Log ℕ
connected_loop = record {
  attempt = 0;
  writer = record (new_db_writer 1 storage_log []) { connected = true };
  waited = [];
}

loop_run-idle_example :
    let w = sync_wal number_json tenths in
    (loop_run w broken_steps connected_loop ≡ record connected_loop {
      writer = (db_run w (other_steps w broken_steps) connected_loop.writer).1;
      waited = 30 ∷ 30 ∷ [];
    })
    × ((loop_run w broken_steps connected_loop).writer.connected ≡ true)
loop_run-idle_example =
    loop_run-idle (sync_wal number_json tenths) broken_steps connected_loop refl
      (tt, (tt, (tt, (tt, (tt, tt)))))

abbrev log_file : ℕ → List ℕ → WalFile
log_file name bytes = record {
  name = name;
  sink = record { written = bytes; budget = 0 };
  synced = 0;
  is_open = false;
}

-- an old file, one that Stat fails for, and a young one, with an event each
abbrev three_files : List WalFile
three_files =
    log_file 1 (107 ∷ 10 ∷ []) ∷ log_file 2 (108 ∷ 10 ∷ []) ∷ log_file 3 (109 ∷ 10 ∷ []) ∷ []

abbrev changed_at : ℕ → Option ℕ
changed_at n = if n == 2 then none else some n

clean_old-replay_example :
    let bytes : WalFile → List ℕ = λ f. f.sink.written in
    let kept = clean_old changed_at (λ n. false) 3 three_files in
    Subseq (replay number_json (map bytes kept)) (replay number_json (map bytes three_files))
    × Subseq
        (replay number_json (map bytes (younger changed_at 3 three_files)))
        (replay number_json (map bytes kept))
clean_old-replay_example =
    clean_old-replay number_json (λ f. f.sink.written) changed_at (λ n. false) 3 three_files
