-- ===== src/Dolphin/Reconnect.antt =====
-- reconnectLoop of pkg/storage/dolphindb.go, beside the other steps of the writer.
use spark_trade_mft_raw_data.Prelude.{
  ℕ, suc, ◌%◌, ◌≡◌, refl, ap, ◌∙◌, Bool, true, false, List, [], ◌∷◌, ◌++◌, get_or, if◌then◌else◌,
  if_cases, All, append-nil, append_assoc, sym, Option, none, some, length, ◌==◌,
}
use spark_trade_mft_raw_data.Wal.{WalError}
use spark_trade_mft_raw_data.Dolphin.{
  WalWriter, Ran, DbWriter, drain_batch, finish_flush, finish_nth, flush_written, take_nth,
  connect_db, queued, write_db, DbOp, writes, drains, finishes, ticks, connects, stops, db_step,
  db_run,
}

abbrev pub reconnect_backoff : List ℕ
reconnect_backoff = 1 ∷ 2 ∷ 4 ∷ 8 ∷ 16 ∷ 30 ∷ []

-- The loop with its counter, beside the writer, and the seconds that it has waited.
pub record Reconnecting (S Ev : Type 0) : Type 0 where
  pub attempt : ℕ
  pub writer : DbWriter S Ev
  pub waited : List ℕ

module _ {Ev : Type 0} (wal : WalWriter Ev) where
  -- An iteration, up to the end of its wait where the writer is connected, and with what becomes of
  -- Connect where it is not. `attempt` is an int, taken as a plain number.
  unfoldable pub reconnect_turn :
      Bool
      → WalWriter.Cut wal
      → (ℕ → Ran Ev)
      → Reconnecting (WalWriter.State wal) Ev
      → Reconnecting (WalWriter.State wal) Ev
  unfolding connect_db
  reconnect_turn ok cut runs r =
      if r.writer.connected then record r { waited = r.waited ++ (30 ∷ []) } else record {
        attempt = if ok then 0 else suc r.attempt;
        writer = connect_db wal ok cut runs r.writer;
        waited = r.waited ++ (get_or reconnect_backoff (r.attempt % 6) 0 ∷ []);
      }

  -- An iteration of the loop, or another step of the writer.
  pub data LoopOp : Type 0 where
    turn : Bool → WalWriter.Cut wal → (ℕ → Ran Ev) → LoopOp
    other : DbOp wal → LoopOp

  unfoldable pub loop_run :
      List LoopOp → Reconnecting (WalWriter.State wal) Ev → Reconnecting (WalWriter.State wal) Ev
  unfolding reconnect_turn
  loop_run [] r = r
  loop_run (turn ok cut runs ∷ ops) r = loop_run ops (reconnect_turn ok cut runs r)
  loop_run (other op ∷ ops) r = loop_run ops (record r { writer = (db_step wal op r.writer).1 })

  -- before Stop comes to its end
  abbrev pub IsBeforeStop : LoopOp → Type 0
  IsBeforeStop (other stops) = ⊥
  IsBeforeStop _ = Unit

  -- the steps without those of the loop
  abbrev pub other_steps : List LoopOp → List (DbOp wal)
  other_steps [] = []
  other_steps (turn ok cut runs ∷ ops) = other_steps ops
  other_steps (other op ∷ ops) = op ∷ other_steps ops

  -- a wait of 30 seconds for each iteration
  abbrev pub idle_waits : List LoopOp → List ℕ
  idle_waits [] = []
  idle_waits (turn ok cut runs ∷ ops) = 30 ∷ idle_waits ops
  idle_waits (other op ∷ ops) = idle_waits ops

  queued_connected :
      (ev : Ev) (r : Option WalError × WalWriter.State wal) (w : DbWriter (WalWriter.State wal) Ev)
      → (queued wal ev r w).1.connected ≡ w.connected
  unfolding queued
  queued_connected ev (some e, s) w = refl
  queued_connected ev (none, s) w = refl

  written_connected :
      (evs : List Ev) (r : Bool × List Ev) (w : DbWriter (WalWriter.State wal) Ev)
      → (flush_written evs r w).connected ≡ w.connected
  unfolding flush_written
  written_connected evs (true, rows) w = refl
  written_connected evs (false, rows) w = refl

  finish_connected :
      (ran : Ran Ev) (o : Option (List Ev × List (List Ev))) (w : DbWriter (WalWriter.State wal) Ev)
      → (finish_nth ran o w).connected ≡ w.connected
  unfolding finish_nth finish_flush
  finish_connected ran none w = refl
  finish_connected ran (some (evs, others)) w =
      written_connected evs _ (record w { in_flight = others })

  stays_connected :
      (op : DbOp wal) (w : DbWriter (WalWriter.State wal) Ev)
      → IsBeforeStop (other op)
      → w.connected ≡ true
      → (db_step wal op w).1.connected ≡ true
  unfolding db_step write_db connect_db drain_batch
  stays_connected (writes env ev) w b c = queued_connected ev (wal.write env ev w.wal) w ∙ c
  stays_connected drains w b c =
      if_cases (λ (v : DbWriter (WalWriter.State wal) Ev). v.connected ≡ true) (length w.batch == 0)
        (λ _. c) (λ _. c)
  stays_connected (finishes k ran) w b c = finish_connected ran (take_nth k w.in_flight) w ∙ c
  stays_connected (ticks env) w b c = c
  stays_connected (connects false cut runs) w b c = c
  stays_connected (connects true cut runs) w b c = refl
  stays_connected stops w b c = absurd b

  turn_idle :
      (ok : Bool) (cut : WalWriter.Cut wal) (runs : ℕ → Ran Ev)
      (r : Reconnecting (WalWriter.State wal) Ev)
      → r.writer.connected ≡ true
      → reconnect_turn ok cut runs r ≡ record r { waited = r.waited ++ (30 ∷ []) }
  unfolding reconnect_turn
  turn_idle ok cut runs r c =
      if_cases
        (λ (t : Reconnecting (WalWriter.State wal) Ev).
          t ≡ record r { waited = r.waited ++ (30 ∷ []) })
        r.writer.connected (λ _. refl) (λ p. cc)

  -- From a connected writer on, until Stop ends: whatever else happens, flushes whose scripts fail
  -- because the session has broken included, each iteration of the reconnect loop waits 30 seconds
  -- and does nothing: it never connects and replays nothing, the writer is what it is without the
  -- loop, and it still counts as connected.
  pub loop_run-idle :
      (ops : List LoopOp) (r : Reconnecting (WalWriter.State wal) Ev)
      → r.writer.connected ≡ true
      → All IsBeforeStop ops
      → (loop_run ops r ≡ record r {
        writer = (db_run wal (other_steps ops) r.writer).1;
        waited = r.waited ++ idle_waits ops;
      })
        × ((loop_run ops r).writer.connected ≡ true)
  unfolding loop_run db_run
  loop_run-idle [] r c b = (λ i. record r { waited = sym (append-nil r.waited) i }, c)
  loop_run-idle (turn ok cut runs ∷ ops) r c (b, bs) =
      let next : Reconnecting (WalWriter.State wal) Ev = record r {
        waited = r.waited ++ (30 ∷ []);
      } in
      let (e, k) = loop_run-idle ops next c bs in
      let t = ap (loop_run ops) (turn_idle ok cut runs r c) in
      (
        t
            ∙ (e ∙ λ i. record r {
              writer = (db_run wal (other_steps ops) r.writer).1;
              waited = append_assoc r.waited (30 ∷ []) (idle_waits ops) i;
            }),
        ap (λ (u : Reconnecting (WalWriter.State wal) Ev). u.writer.connected) t ∙ k,
      )
  loop_run-idle (other op ∷ ops) r c (b, bs) =
      loop_run-idle ops (record r { writer = (db_step wal op r.writer).1 })
        (stays_connected op r.writer b c) bs
