-- ===== src/Wal/Sync/Crash.antt =====
-- Every operation of the log keeps its acknowledged events (pkg/storage/wal.go).
use spark_trade_mft_raw_data.Prelude.{
  ℕ, suc, ◌+◌, ◌≤◌, ◌<◌, ◌≡◌, refl, sym, ◌∙◌, subst, ap, Option, none, some, List, [], ◌∷◌, ◌++◌,
  append-nil, append_assoc, length, arith, if_cases, All, Subseq, nil,
}
use spark_trade_mft_raw_data.Wal.{
  WalError, Writer, Log, Faults, rotate, should_rotate, EventJson, opened, file_name, replay,
  new_log,
}
use spark_trade_mft_raw_data.Wal.Reading.{Entry, IsLine, IsLogged}
use spark_trade_mft_raw_data.Wal.Sync.{
  store, recovered, acked, check_rotation, counted, commit, write_data, write_line, started, start,
  write_event, stop, WalOp, starts, writes, ticks, stops, wal_step, wal_run,
}
use spark_trade_mft_raw_data.Wal.Sync.Written.{IsWritten}
use spark_trade_mft_raw_data.Wal.Sync.Directory.{AllBelow}
use spark_trade_mft_raw_data.Wal.Sync.Durable.{
  IsDurable, Named, IsCurrent, rotate-IsDurable, closed-IsCurrent, closed-Named, recovered-Subseq,
  store-IsWritten, store-name,
}

module _ {Ev : Type 0} (json : EventJson Ev) where
  module _ (clock : ℕ → ℕ) where
    module _ (grows : (n : ℕ) → clock n ≤ clock (suc n)) where
      check_rotation-IsDurable :
          (faults : Faults) (log : Log) {evs : List Ev}
          → suc log.rotation_seq < 1_000_000
          → IsDurable json clock evs log
          → IsDurable json clock evs (check_rotation clock faults log)
      unfolding check_rotation
      check_rotation-IsDurable faults log {evs} h d =
          if_cases (IsDurable json clock evs) (should_rotate log)
            (λ _. rotate-IsDurable json clock grows faults log h d) (λ _. d)

      -- the outcome of the write to the current file, before a rotation
      commit-IsDurable :
          (faults : Faults) (n : ℕ) (ev : Ev) (log : Log) (w : Writer)
          (r : Option WalError × Writer) {evs : List Ev}
          → suc log.rotation_seq < 1_000_000
          → (d : IsDurable json clock evs log)
          → Named json clock (some w) log.files log.rotation_seq
          → IsWritten json (d.new ++ acked ev r.0) r.1
          → r.1.file.name ≡ w.file.name
          → IsDurable json clock
              (evs ++ acked ev (commit clock faults n log r).0)
              (commit clock faults n log r).1
      unfolding commit
      commit-IsDurable faults n ev log w (some e, w1) {evs} h d k c q = record {
        old = d.old;
        new = d.new ++ [];
        split = ap (λ xs. xs ++ []) d.split ∙ append_assoc d.old d.new [];
        safe = d.safe;
        current = c;
        named =
            subst (λ m. AllBelow m log.files × (m ≤ file_name clock log.rotation_seq)) (sym q) k;
      }
      commit-IsDurable faults n ev log w (none, w1) {evs} h d k c q =
          check_rotation-IsDurable faults (counted n w1 log) h record {
            old = d.old;
            new = d.new ++ (ev ∷ []);
            split = ap (λ xs. xs ++ (ev ∷ [])) d.split ∙ append_assoc d.old d.new (ev ∷ []);
            safe = d.safe;
            current = c;
            named =
                subst (λ m. AllBelow m log.files × (m ≤ file_name clock log.rotation_seq)) (sym q)
                  k;
          }

      write_data-IsDurable :
          (faults : Faults) (e : Entry json) (o : Option Writer) (log : Log) {evs : List Ev}
          → suc log.rotation_seq < 1_000_000
          → log.current ≡ o
          → IsDurable json clock evs log
          → IsDurable json clock
              (evs ++ acked e.event (write_data clock faults (e.line ++ (10 ∷ [])) o log).0)
              (write_data clock faults (e.line ++ (10 ∷ [])) o log).1
      unfolding write_data
      write_data-IsDurable faults e none log {evs} h q d =
          subst (λ xs. IsDurable json clock xs log) (sym (append-nil evs)) d
      write_data-IsDurable faults e (some w) log h q d =
          let c : IsWritten json d.new w = subst (λ o. IsCurrent json o d.new) q d.current in
          commit-IsDurable faults (length (e.line ++ (10 ∷ []))) e.event log w
            (store faults.sync_fails (e.line ++ (10 ∷ [])) w) h d
            (subst (λ o. Named json clock o log.files log.rotation_seq) q d.named)
            (store-IsWritten json faults.sync_fails e c) (store-name json faults.sync_fails e c)

      write_line-IsDurable :
          (faults : Faults) (ev : Ev) (o : Option (List ℕ)) (log : Log) {evs : List Ev}
          → suc log.rotation_seq < 1_000_000
          → ((line : List ℕ) → o ≡ some line → IsLine json ev line)
          → IsDurable json clock evs log
          → IsDurable json clock
              (evs ++ acked ev (write_line clock faults o log).0)
              (write_line clock faults o log).1
      unfolding write_line
      write_line-IsDurable faults ev none log {evs} h l d =
          subst (λ xs. IsDurable json clock xs log) (sym (append-nil evs)) d
      write_line-IsDurable faults ev (some line) log h l d =
          write_data-IsDurable faults (record { event = ev; line = line; is_line = l line refl })
            log.current log h refl d

      abbrev pub OpIsLogged : WalOp Ev → Type 0
      OpIsLogged (writes running faults ev) = IsLogged json ev
      OpIsLogged _ = Unit

      start-IsDurable :
          (r : Option WalError × Log) {evs : List Ev}
          → IsDurable json clock evs r.1
          → IsDurable json clock evs (started clock r).1
      unfolding started
      start-IsDurable (some e, log) d = d
      start-IsDurable (none, log) d = record {
        old = d.old;
        new = d.new;
        split = d.split;
        safe = d.safe;
        current = d.current;
        named = d.named;
      }

      pub wal_step-IsDurable :
          (op : WalOp Ev) (log : Log) {evs : List Ev}
          → suc log.rotation_seq < 1_000_000
          → OpIsLogged op
          → IsDurable json clock evs log
          → IsDurable json clock
              (evs ++ (wal_step clock json op log).0)
              (wal_step clock json op log).1
      unfolding wal_step start stop write_event
      wal_step-IsDurable (starts faults) log {evs} h l d =
          subst (λ xs. IsDurable json clock xs (start clock faults log).1) (sym (append-nil evs))
            (start-IsDurable (rotate clock faults log)
              (rotate-IsDurable json clock grows faults log h d))
      wal_step-IsDurable (writes running faults ev) log {evs} h l d =
          if_cases (λ (r : Option WalError × Log). IsDurable json clock (evs ++ acked ev r.0) r.1)
            running (λ _. write_line-IsDurable faults ev (json.marshal ev) log h l d)
            (λ _. subst (λ xs. IsDurable json clock xs log) (sym (append-nil evs)) d)
      wal_step-IsDurable (ticks faults) log {evs} h l d =
          subst (λ xs. IsDurable json clock xs (check_rotation clock faults log))
            (sym (append-nil evs)) (check_rotation-IsDurable faults log h d)
      wal_step-IsDurable stops log {evs} h l d =
          subst (λ xs. IsDurable json clock xs (stop log)) (sym (append-nil evs))
            record {
              old = d.old;
              new = d.new;
              split = d.split;
              safe = d.safe;
              current = closed-IsCurrent json clock log.current d.new d.current;
              named =
                  closed-Named json clock log.current log.files log.rotation_seq d.new d.current
                    d.named;
            }

      -- an operation rotates once at most
      rotate_seq :
          (faults : Faults) (log : Log)
          → suc log.rotation_seq < 1_000_000
          → (rotate clock faults log).1.rotation_seq ≡ suc log.rotation_seq
      unfolding rotate opened
      rotate_seq faults log h =
          if_cases (λ (r : Option WalError × Log). r.1.rotation_seq ≡ suc log.rotation_seq)
            faults.open_fails (λ _. omega arith) (λ _. omega arith)

      check_rotation_seq :
          (faults : Faults) (log : Log)
          → suc log.rotation_seq < 1_000_000
          → (check_rotation clock faults log).rotation_seq ≤ suc log.rotation_seq
      unfolding check_rotation
      check_rotation_seq faults log h =
          if_cases (λ (l : Log). l.rotation_seq ≤ suc log.rotation_seq) (should_rotate log)
            (λ _. omega (arith, rotate_seq faults log h)) (λ _. omega arith)

      commit_seq :
          (faults : Faults) (n : ℕ) (log : Log) (r : Option WalError × Writer)
          → suc log.rotation_seq < 1_000_000
          → (commit clock faults n log r).1.rotation_seq ≤ suc log.rotation_seq
      unfolding commit
      commit_seq faults n log (some e, w) h = omega arith
      commit_seq faults n log (none, w) h = check_rotation_seq faults (counted n w log) h

      write_line_seq :
          (faults : Faults) (o : Option (List ℕ)) (log : Log) (w : Option Writer)
          → suc log.rotation_seq < 1_000_000
          → log.current ≡ w
          → (write_line clock faults o log).1.rotation_seq ≤ suc log.rotation_seq
      unfolding write_line write_data
      write_line_seq faults none log w h e = omega arith
      write_line_seq faults (some line) log none h e = rw (e, write_data) (omega arith)
      write_line_seq faults (some line) log (some w) h e =
          rw (e, write_data) (commit_seq faults _ log (store faults.sync_fails _ w) h)

      pub wal_step_seq :
          (op : WalOp Ev) (log : Log)
          → suc log.rotation_seq < 1_000_000
          → (wal_step clock json op log).1.rotation_seq ≤ suc log.rotation_seq
      unfolding wal_step start started stop write_event
      wal_step_seq (starts faults) log h =
          started_seq (rotate clock faults log) (omega (arith, rotate_seq faults log h))
        where
          started_seq :
              (r : Option WalError × Log)
              → r.1.rotation_seq ≤ suc log.rotation_seq
              → (started clock r).1.rotation_seq ≤ suc log.rotation_seq
          started_seq (some e, l) k = k
          started_seq (none, l) k = k
      wal_step_seq (writes running faults ev) log h =
          if_cases (λ (r : Option WalError × Log). r.1.rotation_seq ≤ suc log.rotation_seq) running
            (λ _. write_line_seq faults (json.marshal ev) log log.current h refl) (λ _. omega arith)
      wal_step_seq (ticks faults) log h = check_rotation_seq faults log h
      wal_step_seq stops log h = omega arith

      pub wal_run-IsDurable :
          (ops : List (WalOp Ev)) (log : Log) {evs : List Ev}
          → log.rotation_seq + length ops < 1_000_000
          → All OpIsLogged ops
          → IsDurable json clock evs log
          → IsDurable json clock
              (evs ++ (wal_run clock json ops log).0)
              (wal_run clock json ops log).1
      unfolding wal_run
      wal_run-IsDurable [] log {evs} h l d =
          subst (λ xs. IsDurable json clock xs log) (sym (append-nil evs)) d
      wal_run-IsDurable (op ∷ ops) log {evs} h l d =
          let (evs1, log1) = wal_step clock json op log in
          let d1 = wal_step-IsDurable op log (omega arith) l.0 d in
          subst (λ xs. IsDurable json clock xs (wal_run clock json ops log1).1)
            (append_assoc evs evs1 (wal_run clock json ops log1).0)
            (wal_run-IsDurable ops log1 (omega (arith, wal_step_seq op log (omega arith))) l.1 d1)

      -- Whatever is done to a new log in whatever order, Writes included that tested `running` before
      -- a Stop, and with whatever failures of the disk, of Sync and of opening
      -- files, and at whatever bytes behind the synced ones a crash then cuts the files: Replay
      -- gives the events of all calls of Write that returned without an error, in their order. It
      -- takes a clock that does not go back, fewer than a million operations, and events whose
      -- lines encoding/json reads back, with no line end in them and shorter than 10 MiB.
      pub recovered-wal_run :
          (ops : List (WalOp Ev)) (max_file_size max_messages : ℕ) (cut : ℕ → ℕ)
          → length ops < 1_000_000
          → All OpIsLogged ops
          → let (evs, log) = wal_run clock json ops (new_log max_file_size max_messages) in
            Subseq evs (recovered json cut log)
      unfolding replay
      recovered-wal_run ops s m cut h l =
          recovered-Subseq json clock (wal_run clock json ops (new_log s m)).1
            (wal_run-IsDurable ops (new_log s m) {evs = []} (omega arith) l record {
              old = [];
              new = [];
              split = refl;
              safe = λ c. nil;
              current = refl;
              named = refl;
            })
            cut
