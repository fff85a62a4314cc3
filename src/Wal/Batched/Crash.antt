-- ===== src/Wal/Batched/Crash.antt =====
-- A batched log after a crash (pkg/storage/wal_batched.go).
use spark_trade_mft_raw_data.Prelude.{
  ℕ, suc, ◌+◌, ◌≤◌, ◌<◌, ◌≡◌, refl, sym, ◌∙◌, subst, Bool, true, false, Option, none, some, List,
  [], ◌∷◌, ◌++◌, append-nil, append_assoc, length, arith, if_cases, All, Subseq, nil,
}
use spark_trade_mft_raw_data.Wal.{
  WalError, Writer, Faults, rotate, should_rotate, EventJson, bufio_write, replay,
}
use spark_trade_mft_raw_data.Wal.Reading.{Entry, IsLine, IsLogged, events, length-events}
use spark_trade_mft_raw_data.Wal.Sync.{recovered, acked}
use spark_trade_mft_raw_data.Wal.Sync.Durable.{Named}
use spark_trade_mft_raw_data.Wal.Batched.{
  BatchedLog, new_batched_log, BatchedOp, starts, writes, flushes, ticks, stops, flush,
  stop_batched, rotate_batched, check_batched, buffered, buffer_result, buffer_data, buffer_line,
  started_batched, start_batched, write_batched, batched_step, batched_run,
}
use spark_trade_mft_raw_data.Wal.Batched.Stream.{bufio_write-Buffers}
use spark_trade_mft_raw_data.Wal.Batched.Held.{Held, absent, held, IsHeld-recovered}
use spark_trade_mft_raw_data.Wal.Batched.Bound.{
  IsPending, IsPending-le, stop-IsPending, flushes-IsPending, rotate-IsPending, check-IsPending,
  buffer_result-IsPending, rotate_result_facts, flush_current_errors,
}

module _ {Ev : Type 0} (json : EventJson Ev) (clock : ℕ → ℕ) where
  flush_errors : (s : Bool) (b : BatchedLog) → b.errors ≤ (flush s b).1.errors
  unfolding flush
  flush_errors s b = flush_current_errors s b.log.current b

  rotate_errors :
      (faults : Faults) (b : BatchedLog) → b.errors ≤ (rotate_batched clock faults b).1.errors
  unfolding rotate_batched
  rotate_errors faults b =
      let b1 = (flush faults.sync_fails b).1 in
      omega (
        arith,
        flush_errors faults.sync_fails b,
        (rotate_result_facts json clock b1 (rotate clock faults b1.log)).0,
      )

  check_errors :
      (faults : Faults) (b : BatchedLog) → b.errors ≤ (check_batched clock faults b).errors
  unfolding check_batched
  check_errors faults b =
      if_cases (λ (c : BatchedLog). b.errors ≤ c.errors) (should_rotate b.log)
        (λ _. rotate_errors faults b) (λ _. omega arith)

  started_errors :
      (r : Option WalError × BatchedLog) → (started_batched clock r).1.errors ≡ r.1.errors
  unfolding started_batched
  started_errors (some e, b) = refl
  started_errors (none, b) = refl

  buffer_errors :
      (faults : Faults) (n : ℕ) (b : BatchedLog) (r : Bool × Writer)
      → b.errors ≤ (buffer_result clock faults n b r).1.errors
  unfolding buffer_result
  buffer_errors faults n b (true, w) = omega arith
  buffer_errors faults n b (false, w) = check_errors faults (buffered clock n w b)

  data_errors :
      (faults : Faults) (bs : List ℕ) (o : Option Writer) (b : BatchedLog)
      → b.errors ≤ (buffer_data clock faults bs o b).1.errors
  unfolding buffer_data
  data_errors faults bs none b = omega arith
  data_errors faults bs (some w) b = buffer_errors faults (length bs) b (bufio_write bs w)

  line_errors :
      (faults : Faults) (o : Option (List ℕ)) (b : BatchedLog)
      → b.errors ≤ (buffer_line clock faults o b).1.errors
  unfolding buffer_line
  line_errors faults none b = omega arith
  line_errors faults (some line) b = data_errors faults (line ++ (10 ∷ [])) b.log.current b

  step_errors :
      (op : BatchedOp Ev) (b : BatchedLog) → b.errors ≤ (batched_step clock json op b).1.errors
  unfolding batched_step start_batched write_batched stop_batched
  step_errors (starts faults) b =
      omega (arith, rotate_errors faults b, started_errors (rotate_batched clock faults b))
  step_errors (writes running faults ev) b =
      if_cases (λ (r : Option WalError × BatchedLog). b.errors ≤ r.1.errors) running
        (λ _. line_errors faults (json.marshal ev) b) (λ _. omega arith)
  step_errors (flushes s) b = flush_errors s b
  step_errors (ticks faults) b = check_errors faults b
  step_errors (stops s) b = flush_errors s b

  run_errors :
      (ops : List (BatchedOp Ev)) (b : BatchedLog)
      → b.errors ≤ (batched_run clock json ops b).1.errors
  unfolding batched_run
  run_errors [] b = omega arith
  run_errors (op ∷ ops) b =
      omega (arith, step_errors op b, run_errors ops (batched_step clock json op b).1)

  abbrev pub BatchedOpIsLogged : BatchedOp Ev → Type 0
  BatchedOpIsLogged (writes running faults ev) = IsLogged json ev
  BatchedOpIsLogged _ = Unit

  module _ (grows : (n : ℕ) → clock n ≤ clock (suc n)) where
    data-IsPending :
        (faults : Faults) (e : Entry json) (b : BatchedLog) (o : Option Writer) {evs : List Ev}
        {k : ℕ}
        → suc k < 1_000_000
        → b.log.current ≡ o
        → (d : IsPending json clock evs k b) → Held json d.es d.fs o
        → Named json clock o b.log.files b.log.rotation_seq
        → (buffer_data clock faults (e.line ++ (10 ∷ [])) o b).1.errors ≡ 0
        → IsPending json clock
            (evs ++ acked e.event (buffer_data clock faults (e.line ++ (10 ∷ [])) o b).0)
            (suc k)
            (buffer_data clock faults (e.line ++ (10 ∷ [])) o b).1
    unfolding buffer_data
    data-IsPending faults e b o {evs} {k} h q d (absent e1 e2) n z =
        subst (λ xs. IsPending json clock xs (suc k) b) (sym (append-nil evs))
          (IsPending-le json clock b d)
    data-IsPending faults e b o h q d (held f buf w l s) n z =
        buffer_result-IsPending json clock grows faults (length (e.line ++ (10 ∷ []))) e b f buf h d
          n w l s (bufio_write-Buffers f buf (e.line ++ (10 ∷ []))) z

    line-IsPending :
        (faults : Faults) (ev : Ev) (o : Option (List ℕ)) (b : BatchedLog) {evs : List Ev} {k : ℕ}
        → suc k < 1_000_000
        → ((line : List ℕ) → o ≡ some line → IsLine json ev line)
        → IsPending json clock evs k b
        → (buffer_line clock faults o b).1.errors ≡ 0
        → IsPending json clock
            (evs ++ acked ev (buffer_line clock faults o b).0)
            (suc k)
            (buffer_line clock faults o b).1
    unfolding buffer_line
    line-IsPending faults ev none b h l d z = absurd (omega arith)
    line-IsPending faults ev (some line) b h l d z =
        data-IsPending faults (record { event = ev; line = line; is_line = l line refl }) b
          b.log.current h refl d d.files.current d.files.named z

    started-IsPending :
        (r : Option WalError × BatchedLog) {evs : List Ev} {k : ℕ}
        → IsPending json clock evs k r.1
        → IsPending json clock evs k (started_batched clock r).1
    unfolding started_batched
    started-IsPending (some e, b) d = d
    started-IsPending (none, b) d = record {
      old = d.old;
      es = d.es;
      fs = d.fs;
      split = d.split;
      files = record {
        safe = d.files.safe;
        current = d.files.current;
        named = d.files.named;
        seq_le = d.files.seq_le;
      };
      pending_eq = d.pending_eq;
    }

    step-IsPending :
        (op : BatchedOp Ev) (b : BatchedLog) {evs : List Ev} {k : ℕ}
        → suc k < 1_000_000
        → BatchedOpIsLogged op
        → IsPending json clock evs k b
        → (batched_step clock json op b).1.errors ≡ 0
        → IsPending json clock
            (evs ++ (batched_step clock json op b).0)
            (suc k)
            (batched_step clock json op b).1
    unfolding batched_step start_batched write_batched
    step-IsPending (starts faults) b {evs} {k} h l d z =
        subst (λ xs. IsPending json clock xs (suc k) (start_batched clock faults b).1)
          (sym (append-nil evs))
          (started-IsPending (rotate_batched clock faults b) (
            rotate-IsPending json clock grows faults b h d
              (omega (arith, z, started_errors (rotate_batched clock faults b)))))
    step-IsPending (writes running faults ev) b {evs} {k} h l d z =
        if_cases
          (λ (r : Option WalError × BatchedLog).
            r.1.errors ≡ 0 → IsPending json clock (evs ++ acked ev r.0) (suc k) r.1)
          running (λ _ z. line-IsPending faults ev (json.marshal ev) b h l d z)
          (λ _ z.
            subst (λ xs. IsPending json clock xs (suc k) b) (sym (append-nil evs))
              (IsPending-le json clock b d))
          z
    step-IsPending (flushes s) b {evs} {k} h l d z =
        subst (λ xs. IsPending json clock xs (suc k) (flush s b).1) (sym (append-nil evs))
          (IsPending-le json clock (flush s b).1 (flushes-IsPending json clock s b d z))
    step-IsPending (ticks faults) b {evs} {k} h l d z =
        subst (λ xs. IsPending json clock xs (suc k) (check_batched clock faults b))
          (sym (append-nil evs)) (check-IsPending json clock grows faults b h d z)
    step-IsPending (stops s) b {evs} {k} h l d z =
        subst (λ xs. IsPending json clock xs (suc k) (stop_batched s b)) (sym (append-nil evs))
          (IsPending-le json clock (stop_batched s b) (stop-IsPending json clock s b d z))

    run-IsPending :
        (ops : List (BatchedOp Ev)) (b : BatchedLog) {evs : List Ev} {k : ℕ}
        → k + length ops < 1_000_000
        → All BatchedOpIsLogged ops
        → IsPending json clock evs k b
        → (batched_run clock json ops b).1.errors ≡ 0
        → IsPending json clock
            (evs ++ (batched_run clock json ops b).0)
            (k + length ops)
            (batched_run clock json ops b).1
    unfolding batched_run
    run-IsPending [] b {evs} {k} h l d z =
        subst (λ xs. IsPending json clock xs (k + 0) b) (sym (append-nil evs))
          (subst (λ n. IsPending json clock evs n b) (omega arith) d)
    run-IsPending (op ∷ ops) b {evs} {k} h l d z =
        let (evs1, b1) = batched_step clock json op b in
        let d1 = step-IsPending op b (omega arith) l.0 d (omega (arith, z, run_errors ops b1)) in
        subst
          (λ xs. IsPending json clock xs (k + suc (length ops)) (batched_run clock json ops b1).1)
          (append_assoc evs evs1 (batched_run clock json ops b1).0)
          (subst
            (λ n.
              IsPending json clock ((evs ++ evs1) ++ (batched_run clock json ops b1).0) n
                (batched_run clock json ops b1).1)
            (omega arith) (run-IsPending ops b1 (omega arith) l.1 d1 z))

    -- Whatever is done to a new batched log in whatever order, as long as it has recorded no error,
    -- and wherever a crash then cuts the files behind their synced bytes: the acknowledged events
    -- are some that Replay gives, in their order, though it may give others between and behind
    -- them, followed by as many more as PendingMessages says, of which nothing is promised. It takes a clock that does not go back, fewer than a
    -- million operations, and events whose lines encoding/json reads back, with no line end in
    -- them and shorter than 10 MiB.
    pub recovered-batched_run :
        (ops : List (BatchedOp Ev)) (max_file_size max_messages : ℕ) (cut : ℕ → ℕ)
        → length ops < 1_000_000
        → All BatchedOpIsLogged ops
        → (batched_run clock json ops (new_batched_log max_file_size max_messages)).1.errors ≡ 0
        → let (evs, b) = batched_run clock json ops (new_batched_log max_file_size max_messages) in
          (kept : List Ev) × (lost : List Ev) × (evs ≡ kept ++ lost)
          × (length lost ≡ b.pending)
          × Subseq kept (recovered json cut b.log)
    unfolding replay
    recovered-batched_run ops s m cut h l z =
        let d =
          run-IsPending ops (new_batched_log s m) {evs = []} {k = 0} (omega arith) l
            record {
              old = [];
              es = [];
              fs = [];
              split = refl;
              files = record {
                safe = λ c. nil;
                current = absent refl refl;
                named = refl;
                seq_le = omega arith;
              };
              pending_eq = refl;
            }
            z in
        (
          d.old ++ events d.es,
          events d.fs,
          d.split ∙ sym (append_assoc d.old (events d.es) (events d.fs)),
          length-events d.fs ∙ sym d.pending_eq,
          IsHeld-recovered json clock d.old d.es d.fs (0 + length ops)
              (batched_run clock json ops (new_batched_log s m)).1.log d.files cut,
        )
