-- ===== src/Wal/Batched/Bound.antt =====
-- What a batched log that has recorded no error can lose in a crash
-- (pkg/storage/wal_batched.go).
use spark_trade_mft_raw_data.Prelude.{
  ℕ, suc, ◌≤◌, ◌<◌, ◌≡◌, refl, sym, ◌∙◌, subst, ap, Bool, Option, none, some, List, [], ◌∷◌, ◌++◌,
  append-nil, append_assoc, length, length-append, arith, if_cases,
}
use spark_trade_mft_raw_data.Wal.{
  WalError, WalFile, Writer, Log, Faults, rotate, should_rotate, EventJson, file_name,
}
use spark_trade_mft_raw_data.Wal.Reading.{Entry, lines, events, events-append}
use spark_trade_mft_raw_data.Wal.Sync.{acked}
use spark_trade_mft_raw_data.Wal.Sync.Written.{lines-snoc}
use spark_trade_mft_raw_data.Wal.Sync.Directory.{AllBelow}
use spark_trade_mft_raw_data.Wal.Sync.Durable.{Named}
use spark_trade_mft_raw_data.Wal.Batched.{
  BatchedLog, flush_current, flush_result, flush, stop_batched, rotate_batched, rotate_result,
  check_batched, buffered, buffer_result,
}
use spark_trade_mft_raw_data.Wal.Batched.Stream.{holding, Buffers}
use spark_trade_mft_raw_data.Wal.Batched.Held.{held, Settled-Held, IsHeld}
use spark_trade_mft_raw_data.Wal.Batched.Loss.{
  IsSettled, flush-IsSettled, close-IsHeld, rotate_result-IsHeld,
}

-- errors are only added
pub flush_current_errors :
    (s : Bool) (o : Option Writer) (b : BatchedLog) → b.errors ≤ (flush_current s o b).1.errors
unfolding flush_current
flush_current_errors s none b = omega arith
flush_current_errors s (some w) b = of_result _
  where
    of_result : (r : Option WalError × Writer) → b.errors ≤ (flush_result b r).1.errors
    of_result (some e, w) = omega arith
    of_result (none, w) = omega arith

module _ {Ev : Type 0} (json : EventJson Ev) (clock : ℕ → ℕ) where
  -- The acknowledged events: those that are synced, and those that are pending.
  pub record IsPending (evs : List Ev) (k : ℕ) (b : BatchedLog) : Type 0 where
    pub old : List Ev
    pub es : List (Entry json)
    pub fs : List (Entry json)
    pub split : evs ≡ old ++ (events es ++ events fs)
    pub files : IsHeld json clock old es fs k b.log
    pub pending_eq : b.pending ≡ length fs

  pub IsPending-le :
      {evs : List Ev} {k : ℕ} (b : BatchedLog) → IsPending evs k b → IsPending evs (suc k) b
  IsPending-le b d = record {
    old = d.old;
    es = d.es;
    fs = d.fs;
    split = d.split;
    files = record {
      safe = d.files.safe;
      current = d.files.current;
      named = d.files.named;
      seq_le = omega (arith, d.files.seq_le);
    };
    pending_eq = d.pending_eq;
  }

  -- the outcome of a flush of pending events
  flush-IsPending :
      (sync_fails : Bool) (b : BatchedLog) {evs : List Ev} {k : ℕ}
      → (d : IsPending evs k b) → (flush sync_fails b).1.errors ≡ 0
      → IsSettled json clock d.old (d.es ++ d.fs) k (flush sync_fails b).1
        × (evs ≡ d.old ++ events (d.es ++ d.fs))
  flush-IsPending sync_fails b d z = (
    flush-IsSettled json clock sync_fails d.old d.es d.fs _ b d.files d.pending_eq z,
    d.split ∙ ap (λ xs. d.old ++ xs) (sym (events-append d.es d.fs)),
  )

  IsSettled-IsPending :
      (old : List Ev) (es : List (Entry json)) (k : ℕ) (b : BatchedLog) (log : Log) {evs : List Ev}
      → evs ≡ old ++ events es
      → b.pending ≡ 0
      → IsHeld json clock old es [] k log
      → IsPending evs k (record b { log = log })
  IsSettled-IsPending old es k b log e z d = record {
    old = old;
    es = es;
    fs = [];
    split = e ∙ ap (λ xs. old ++ xs) (sym (append-nil (events es)));
    files = d;
    pending_eq = z;
  }

  pub stop-IsPending :
      (sync_fails : Bool) (b : BatchedLog) {evs : List Ev} {k : ℕ}
      → IsPending evs k b
      → (stop_batched sync_fails b).errors ≡ 0
      → IsPending evs k (stop_batched sync_fails b)
  unfolding stop_batched
  stop-IsPending sync_fails b {evs} {k} d z =
      let (c, e) = flush-IsPending sync_fails b d z in
      IsSettled-IsPending d.old (d.es ++ d.fs) k (flush sync_fails b).1 _ e c.none_pending
        (close-IsHeld json clock d.old (d.es ++ d.fs) k (flush sync_fails b).1 c)

  pub flushes-IsPending :
      (sync_fails : Bool) (b : BatchedLog) {evs : List Ev} {k : ℕ}
      → IsPending evs k b
      → (flush sync_fails b).1.errors ≡ 0
      → IsPending evs k (flush sync_fails b).1
  flushes-IsPending sync_fails b {evs} {k} d z =
      let (c, e) = flush-IsPending sync_fails b d z in
      IsSettled-IsPending d.old (d.es ++ d.fs) k (flush sync_fails b).1 (flush sync_fails b).1.log e
        c.none_pending
        (record {
          safe = c.safe;
          current = Settled-Held json c.current;
          named = c.named;
          seq_le = c.seq_le;
        })

  pub rotate_result_facts :
      (b : BatchedLog) (r : Option WalError × Log)
      → (b.errors ≤ (rotate_result clock b r).1.errors)
        × ((rotate_result clock b r).1.pending ≡ b.pending)
  unfolding rotate_result
  rotate_result_facts b (some e, log) = (omega arith, refl)
  rotate_result_facts b (none, log) = (omega arith, refl)

  module _ (grows : (n : ℕ) → clock n ≤ clock (suc n)) where
    pub rotate-IsPending :
        (faults : Faults) (b : BatchedLog) {evs : List Ev} {k : ℕ}
        → suc k < 1_000_000
        → IsPending evs k b
        → (rotate_batched clock faults b).1.errors ≡ 0
        → IsPending evs (suc k) (rotate_batched clock faults b).1
    unfolding rotate_batched
    rotate-IsPending faults b {evs} {k} h d z =
        let b1 = (flush faults.sync_fails b).1 in
        let r = rotate clock faults b1.log in
        let facts = rotate_result_facts b1 r in
        let (c, e) = flush-IsPending faults.sync_fails b d (omega (arith, facts.0, z)) in
        IsSettled-IsPending (d.old ++ events (d.es ++ d.fs)) [] (suc k) (rotate_result clock b1 r).1
          (rotate_result clock b1 r).1.log (e ∙ sym (append-nil _)) (facts.1 ∙ c.none_pending)
          (rotate_result-IsHeld json clock grows faults d.old (d.es ++ d.fs) k b1 h c z)

    pub check-IsPending :
        (faults : Faults) (b : BatchedLog) {evs : List Ev} {k : ℕ}
        → suc k < 1_000_000
        → IsPending evs k b
        → (check_batched clock faults b).errors ≡ 0
        → IsPending evs (suc k) (check_batched clock faults b)
    unfolding check_batched
    check-IsPending faults b {evs} {k} h d =
        if_cases (λ (c : BatchedLog). c.errors ≡ 0 → IsPending evs (suc k) c) (should_rotate b.log)
          (λ _ z. rotate-IsPending faults b h d z) (λ _ z. IsPending-le b d)

    -- the outcome of the write to the buffer
    pub buffer_result-IsPending :
        (faults : Faults) (n : ℕ) (e : Entry json) (b : BatchedLog) (f : WalFile) (buf : List ℕ)
        {evs : List Ev} {k : ℕ}
        → suc k < 1_000_000
        → (d : IsPending evs k b)
        → Named json clock (some (holding f buf)) b.log.files b.log.rotation_seq
        → f.sink.written ++ buf ≡ lines d.es ++ lines d.fs
        → length (lines d.es) ≤ f.synced
        → f.synced ≤ length f.sink.written
        → {r : Bool × Writer} → Buffers f buf (e.line ++ (10 ∷ [])) r
        → (buffer_result clock faults n b r).1.errors ≡ 0
        → IsPending
            (evs ++ acked e.event (buffer_result clock faults n b r).0)
            (suc k)
            (buffer_result clock faults n b r).1
    unfolding buffer_result
    buffer_result-IsPending faults n e b f buf h d q w l s (Buffers.fails x) z =
        absurd (omega arith)
    buffer_result-IsPending faults n e b f buf {evs} {k} h d q w l s (Buffers.done g rest t u v m)
          z =
        check-IsPending faults (buffered clock n (holding g rest) b) h
          record {
            old = d.old;
            es = d.es;
            fs = d.fs ++ (e ∷ []);
            split =
                ap (λ xs. xs ++ (e.event ∷ [])) d.split
                ∙ append_assoc d.old (events d.es ++ events d.fs) (e.event ∷ [])
                ∙ ap (λ xs. d.old ++ xs)
                    (append_assoc (events d.es) (events d.fs) (e.event ∷ [])
                      ∙ ap (λ xs. events d.es ++ xs) (sym (events-append d.fs (e ∷ []))));
            files = record {
              safe = d.files.safe;
              current =
                  held g rest
                    (t
                      ∙ ap (λ xs. xs ++ (e.line ++ (10 ∷ []))) w
                      ∙ lines-snoc json (lines d.es ++ lines d.fs) d.es d.fs e refl)
                    (omega (arith, l, v)) (omega (arith, s, v, u));
              named =
                  subst (λ a. AllBelow a b.log.files × (a ≤ file_name clock b.log.rotation_seq))
                    (sym m) q;
              seq_le = d.files.seq_le;
            };
            pending_eq = omega (arith, d.pending_eq, length-append d.fs (e ∷ []));
          }
          z
