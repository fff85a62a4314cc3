-- ===== src/Dolphin/Recovery.antt =====
-- Events reach the database after it was down and after a crash (pkg/storage/dolphindb.go).
use spark_trade_mft_raw_data.Prelude.{
  ℕ, zero, suc, ◌≤◌, ◌<◌, ◌≡◌, refl, sym, ◌∙◌, ap, subst, Bool, true, false, Option, none, some,
  List, [], ◌∷◌, ◌++◌, append-nil, append_assoc, length, length-drop, take, drop, take-append-drop,
  ◌==◌, if◌then◌else◌, if_cases, Subseq, Subseq-append, Subseq-nil, All, suc-eq-zero, arith,
}
use spark_trade_mft_raw_data.Wal.{WalError}
use spark_trade_mft_raw_data.Wal.Sync.{acked}
use spark_trade_mft_raw_data.Dolphin.{
  WalWriter, WalPromise, Ran, appended, failed, DbWriter, new_db_writer, run_script, write_batch,
  replay_batches, drain_batch, flush_written, finish_flush, take_nth, finish_nth, connect_db,
  queued, stop_db, write_db, DbOp, writes, drains, finishes, ticks, connects, stops, db_step,
  db_run,
}

write_batch_all :
    {Ev : Type 0} (ran : Ran Ev) (ev : Ev) (evs rows : List Ev)
    → ran ≡ appended
    → write_batch ran (ev ∷ evs) rows ≡ (true, rows ++ (ev ∷ evs))
unfolding write_batch run_script
write_batch_all appended ev evs rows e = rw (suc-eq-zero (length evs)) refl
write_batch_all (failed part) ev evs rows e = ground arith

-- batches of one event or more, all of which the database takes, bring all events
replay_batches_all :
    {Ev : Type 0} (fuel size : ℕ) (runs : ℕ → Ran Ev) (i : ℕ) (evs rows : List Ev)
    → ((n : ℕ) → runs n ≡ appended)
    → 0 < size
    → length evs ≤ fuel
    → replay_batches fuel size runs i evs rows ≡ rows ++ evs
unfolding replay_batches
replay_batches_all {Ev} zero size runs i [] rows h s l = sym (append-nil rows)
replay_batches_all {Ev} zero size runs i (ev ∷ evs) rows h s l = elim l [ ]
replay_batches_all {Ev} (suc fuel) size runs i [] rows h s l = sym (append-nil rows)
replay_batches_all {Ev} (suc fuel) zero runs i (ev ∷ evs) rows h s l = elim s [ ]
replay_batches_all {Ev} (suc fuel) (suc size) runs i (ev ∷ evs) rows h s l =
    subst
      (λ (r : Bool × List Ev).
        (if r.0 then replay_batches fuel (suc size) runs (suc i) (drop size evs) r.1 else r.1)
        ≡ rows ++ (ev ∷ evs))
      (sym (write_batch_all (runs i) ev (take size evs) rows (h i)))
      (replay_batches_all fuel (suc size) runs (suc i) (drop size evs)
          (rows ++ (ev ∷ take size evs)) h s (omega (arith, length-drop size evs))
        ∙ append_assoc rows (ev ∷ take size evs) (drop size evs)
        ∙ ap (λ xs. rows ++ (ev ∷ xs)) (take-append-drop size evs))

module _ {Ev : Type 0} (wal : WalWriter Ev) (promise : WalPromise wal) where
  open promise use {Holds, IsFit}

  abbrev pub OpIsFit : DbOp wal → Type 0
  OpIsFit (writes env ev) = IsFit ev
  OpIsFit _ = Unit

  queued_holds :
      (ev : Ev) (r : Option WalError × WalWriter.State wal) (w : DbWriter (WalWriter.State wal) Ev)
      (k : ℕ) (evs : List Ev)
      → Holds k r.1 (evs ++ acked ev r.0)
      → Holds k (queued wal ev r w).1.wal (evs ++ acked ev (queued wal ev r w).0)
  unfolding queued
  queued_holds ev (some e, s) w k evs h = h
  queued_holds ev (none, s) w k evs h = h

  drain_wal : (w : DbWriter (WalWriter.State wal) Ev) → (drain_batch w).wal ≡ w.wal
  unfolding drain_batch
  drain_wal w =
      if_cases (λ (v : DbWriter (WalWriter.State wal) Ev). v.wal ≡ w.wal) (length w.batch == 0)
        (λ _. refl) (λ _. refl)

  written_wal :
      (evs : List Ev) (r : Bool × List Ev) (w : DbWriter (WalWriter.State wal) Ev)
      → (flush_written evs r w).wal ≡ w.wal
  unfolding flush_written
  written_wal evs (true, rows) w = refl
  written_wal evs (false, rows) w = refl

  finish_wal :
      (ran : Ran Ev) (o : Option (List Ev × List (List Ev))) (w : DbWriter (WalWriter.State wal) Ev)
      → (finish_nth ran o w).wal ≡ w.wal
  unfolding finish_nth finish_flush
  finish_wal ran none w = refl
  finish_wal ran (some (evs, others)) w = written_wal evs _ (record w { in_flight = others })

  connect_wal :
      (ok : Bool) (cut : WalWriter.Cut wal) (runs : ℕ → Ran Ev)
      (w : DbWriter (WalWriter.State wal) Ev)
      → (connect_db wal ok cut runs w).wal ≡ w.wal
  unfolding connect_db
  connect_wal false cut runs w = refl
  connect_wal true cut runs w = refl

  -- a step that leaves the log alone
  rest :
      (k : ℕ) (evs : List Ev) (s t : WalWriter.State wal)
      → t ≡ s
      → Holds (suc k) s evs
      → Holds k t (evs ++ [])
  rest k evs s t e h =
      subst (λ xs. Holds k t xs) (sym (append-nil evs))
        (subst (λ u. Holds k u evs) (sym e) (promise.rest_holds s k evs h))

  step_holds :
      (op : DbOp wal) (w : DbWriter (WalWriter.State wal) Ev) (k : ℕ) (evs : List Ev)
      → OpIsFit op
      → Holds (suc k) w.wal evs
      → Holds k (db_step wal op w).1.wal (evs ++ (db_step wal op w).0)
  unfolding db_step write_db stop_db
  step_holds (writes env ev) w k evs f h =
      queued_holds ev (wal.write env ev w.wal) w k evs (promise.write_holds env ev w.wal k evs f h)
  step_holds drains w k evs f h = rest k evs w.wal (drain_batch w).wal (drain_wal w) h
  step_holds (finishes n ran) w k evs f h =
      rest k evs w.wal (finish_nth ran (take_nth n w.in_flight) w).wal
        (finish_wal ran (take_nth n w.in_flight) w) h
  step_holds (ticks env) w k evs f h =
      subst (λ xs. Holds k (wal.tick env w.wal) xs) (sym (append-nil evs))
        (promise.tick_holds env w.wal k evs h)
  step_holds (connects ok cut runs) w k evs f h =
      rest k evs w.wal (connect_db wal ok cut runs w).wal (connect_wal ok cut runs w) h
  step_holds stops w k evs f h = rest k evs w.wal w.wal refl h

  run_holds :
      (ops : List (DbOp wal)) (w : DbWriter (WalWriter.State wal) Ev) (evs : List Ev)
      → All OpIsFit ops
      → Holds (length ops) w.wal evs
      → Holds 0 (db_run wal ops w).1.wal (evs ++ (db_run wal ops w).0)
  unfolding db_run
  run_holds [] w evs f h = subst (λ xs. Holds 0 w.wal xs) (sym (append-nil evs)) h
  run_holds (op ∷ ops) w evs f h =
      let (evs1, w1) = db_step wal op w in
      subst (λ xs. Holds 0 (db_run wal ops w1).1.wal xs)
        (append_assoc evs evs1 (db_run wal ops w1).0)
        (run_holds ops w1 (evs ++ evs1) f.1 (step_holds op w (length ops) evs f.0 h))

  -- Whatever happened to a writer over a log that holds its promise, in whatever order: writes with
  -- errors or without, flushes without a connection or with scripts that failed and left any rows,
  -- connections, Stop. When a new writer with a batch size of 1 or more then connects to the same
  -- database and log, which a crash may have cut, and the scripts of its replay succeed, the rows
  -- hold the events of all calls of Write that returned no error, in their order.
  pub restarted-acked :
      (ops : List (DbOp wal)) (s : WalWriter.State wal) (size size1 : ℕ) (cut : WalWriter.Cut wal)
      (runs : ℕ → Ran Ev)
      → Holds (length ops) s []
      → All OpIsFit ops
      → 0 < size1
      → ((n : ℕ) → runs n ≡ appended)
      → let (evs, w) = db_run wal ops (new_db_writer size s []) in
        Subseq evs (connect_db wal true cut runs (new_db_writer size1 w.wal w.rows)).rows
  unfolding connect_db
  restarted-acked ops s size size1 cut runs h f p a =
      let w = (db_run wal ops (new_db_writer size s [])).1 in
      let evs = (db_run wal ops (new_db_writer size s [])).0 in
      let back = wal.replay cut w.wal in
      subst (λ xs. Subseq evs xs)
        (sym (replay_batches_all (length back) size1 runs 0 back w.rows a p (omega arith)))
        (Subseq-append (Subseq-nil w.rows)
          (promise.replay_holds cut w.wal 0 evs (run_holds ops (new_db_writer size s []) [] f h)))
