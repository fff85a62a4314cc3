-- ===== src/Dolphin/Durable.antt =====
-- The writer of pkg/storage/dolphindb.go over the synchronous log of pkg/storage/wal.go.
use spark_trade_mft_raw_data.Prelude.{
  ℕ, suc, ◌+◌, ◌≤◌, ◌<◌, ◌≡◌, refl, subst, append-nil, Bool, true, List, [], ◌++◌, length, Subseq,
  nil, All, arith,
}
use spark_trade_mft_raw_data.Wal.{Log, Faults, EventJson, new_log, replay}
use spark_trade_mft_raw_data.Wal.Reading.{IsLogged}
use spark_trade_mft_raw_data.Wal.Sync.{
  check_rotation, start, write_event, recovered, starts, writes, ticks, wal_step, acked,
}
use spark_trade_mft_raw_data.Wal.Sync.Durable.{IsDurable, recovered-Subseq}
use spark_trade_mft_raw_data.Wal.Sync.Crash.{wal_step-IsDurable, wal_step_seq}
use spark_trade_mft_raw_data.Dolphin.{
  WalWriter, WalPromise, Ran, appended, DbOp, new_db_writer, connect_db, db_run,
}
use spark_trade_mft_raw_data.Dolphin.Recovery.{OpIsFit, restarted-acked}

module _ {Ev : Type 0} (json : EventJson Ev) (clock : ℕ → ℕ) where
  -- the log as the writer uses it; Write has read `running` before it takes the mutex
  abbrev pub sync_wal : WalWriter Ev
  sync_wal = record {
    State = Log;
    Env = Bool × Faults;
    Cut = ℕ → ℕ;
    write = λ env ev log. write_event clock json env.0 env.1 ev log;
    tick = λ env log. check_rotation clock env.1 log;
    replay = λ cut log. recovered json cut log;
  }

  -- what is acknowledged is durable, and the counter of the files has room for the operations
  pub record Lasts (k : ℕ) (log : Log) (evs : List Ev) : Type 0 where
    pub durable : IsDurable json clock evs log
    pub room : k + log.rotation_seq < 1_000_000

  module _ (grows : (n : ℕ) → clock n ≤ clock (suc n)) where
    pub write-Lasts :
        (env : Bool × Faults) (ev : Ev) (log : Log) (k : ℕ) (evs : List Ev)
        → IsLogged json ev
        → Lasts (suc k) log evs
        → let (e, log1) = write_event clock json env.0 env.1 ev log in
          Lasts k log1 (evs ++ acked ev e)
    unfolding wal_step
    write-Lasts env ev log k evs l d =
        let h : suc log.rotation_seq < 1_000_000 = omega (arith, d.room) in
        record {
          durable = wal_step-IsDurable json clock grows (writes env.0 env.1 ev) log h l d.durable;
          room = omega (arith, d.room, wal_step_seq json clock grows (writes env.0 env.1 ev) log h);
        }

    pub tick-Lasts :
        (env : Bool × Faults) (log : Log) (k : ℕ) (evs : List Ev)
        → Lasts (suc k) log evs
        → Lasts k (check_rotation clock env.1 log) evs
    unfolding wal_step
    tick-Lasts env log k evs d =
        let h : suc log.rotation_seq < 1_000_000 = omega (arith, d.room) in
        record {
          durable =
              subst (λ xs. IsDurable json clock xs (check_rotation clock env.1 log))
                (append-nil evs)
                (wal_step-IsDurable json clock grows (ticks env.1) log h tt d.durable);
          room = omega (arith, d.room, wal_step_seq json clock grows (ticks env.1) log h);
        }

    abbrev pub sync_promise : WalPromise sync_wal
    sync_promise = record {
      Holds = Lasts;
      IsFit = IsLogged json;
      write_holds = write-Lasts;
      tick_holds = tick-Lasts;
      rest_holds = λ log k evs d. record { durable = d.durable; room = omega (arith, d.room) };
      replay_holds = λ cut log k evs d. recovered-Subseq json clock log d.durable cut;
    }

    pub started-Lasts :
        (faults : Faults) (max_file_size max_messages k : ℕ)
        → k < 999_999
        → Lasts k (start clock faults (new_log max_file_size max_messages)).1 []
    unfolding wal_step replay
    started-Lasts faults m n k h =
        let log = new_log m n in
        record {
          durable =
              wal_step-IsDurable json clock grows (starts faults) log {evs = []} (omega arith) tt
                record {
                  old = [];
                  new = [];
                  split = refl;
                  safe = λ c. nil;
                  current = refl;
                  named = refl;
                };
          room = omega (arith, wal_step_seq json clock grows (starts faults) log (omega arith));
        }

    -- The storage process on a new synchronous log, whatever happens to it: failures of the disk, of
    -- Sync, of opening files and of the scripts of the database, flushes without a connection, lost
    -- connections, and at last a crash that cuts the files behind what was synced. When a new writer
    -- connects to the database and the scripts of its replay succeed, the rows hold the events of
    -- all calls of Write that returned no error, in their order. It takes a clock that does not go
    -- back, fewer than 999999 steps, a batch size of 1 or more, and events whose lines
    -- encoding/json reads back, with no line end in them and shorter than 10 MiB.
    pub stored-acked :
        (ops : List (DbOp sync_wal)) (faults : Faults) (max_file_size max_messages size size1 : ℕ)
        (cut : ℕ → ℕ) (runs : ℕ → Ran Ev)
        → length ops < 999_999
        → All (OpIsFit sync_wal sync_promise) ops
        → 0 < size1
        → ((n : ℕ) → runs n ≡ appended)
        → let log = (start clock faults (new_log max_file_size max_messages)).1 in
          let (evs, w) = db_run sync_wal ops (new_db_writer size log []) in
          Subseq evs (connect_db sync_wal true cut runs (new_db_writer size1 w.wal w.rows)).rows
    stored-acked ops faults m n size size1 cut runs h f p a =
        restarted-acked sync_wal sync_promise ops (start clock faults (new_log m n)).1 size size1
          cut runs (started-Lasts faults m n (length ops) h) f p a
