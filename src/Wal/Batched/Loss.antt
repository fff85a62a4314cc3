-- ===== src/Wal/Batched/Loss.antt =====
-- Flushes and rotations of a batched log that record no error (pkg/storage/wal_batched.go).
use spark_trade_mft_raw_data.Prelude.{
  ℕ, suc, ◌≤◌, ◌<◌, ◌≡◌, refl, sym, ◌∙◌, subst, ap, Bool, false, Option, some, List, [], ◌++◌, map,
  length, arith, if_cases, Subseq,
}
use spark_trade_mft_raw_data.Prelude.Word.{inc_uint64}
use spark_trade_mft_raw_data.Wal.{
  WalError, WalFile, Writer, Log, Faults, rotate, closed, bufio_flush, EventJson, all_files, opened,
  file_name, replay,
}
use spark_trade_mft_raw_data.Wal.Reading.{Entry, lines, events, lines-append}
use spark_trade_mft_raw_data.Wal.Sync.{survives}
use spark_trade_mft_raw_data.Wal.Sync.Directory.{AllBelow, AllBelow-le, new_file, open_file-new}
use spark_trade_mft_raw_data.Wal.Sync.Durable.{Named, all-AllBelow, next_name}
use spark_trade_mft_raw_data.Wal.Batched.{
  BatchedLog, flush_current, flush_result, flush, rotate_result,
}
use spark_trade_mft_raw_data.Wal.Batched.Stream.{holding, Synced, flush-Synced}
use spark_trade_mft_raw_data.Wal.Batched.Held.{
  Held, absent, held, Settled, settled, Settled-Held, IsHeld, all-kept,
}

module _ {Ev : Type 0} (json : EventJson Ev) (clock : ℕ → ℕ) where
  -- Everything is synced.
  pub record IsSettled (old : List Ev) (es : List (Entry json)) (k : ℕ) (b : BatchedLog)
      : Type 0 where
    pub safe : (cut : ℕ → ℕ) → Subseq old (replay json (map (survives cut) b.log.files))
    pub current : Settled json es b.log.current
    pub named : Named json clock b.log.current b.log.files b.log.rotation_seq
    pub seq_le : b.log.rotation_seq ≤ k
    pub none_pending : b.pending ≡ 0

  -- a flush that records no error
  flush_result-IsSettled :
      (old : List Ev) (es fs : List (Entry json)) (k : ℕ) (b : BatchedLog) (f : WalFile)
      (buf : List ℕ)
      → ((cut : ℕ → ℕ) → Subseq old (replay json (map (survives cut) b.log.files)))
      → Named json clock (some (holding f buf)) b.log.files b.log.rotation_seq
      → b.log.rotation_seq ≤ k
      → f.sink.written ++ buf ≡ lines es ++ lines fs
      → {r : Option WalError × Writer} → Synced f buf r
      → (flush_result b r).1.errors ≡ 0
      → IsSettled old (es ++ fs) k (flush_result b r).1
  unfolding flush_result
  flush_result-IsSettled old es fs k b f buf safe n s e (Synced.fails x w) z = absurd (omega arith)
  flush_result-IsSettled old es fs k b f buf safe n s e (Synced.done g w q m) z = record {
    safe = safe;
    current = settled g (w ∙ e ∙ sym (lines-append es fs)) q;
    named =
        subst (λ a. AllBelow a b.log.files × (a ≤ file_name clock b.log.rotation_seq)) (sym m) n;
    seq_le = s;
    none_pending = refl;
  }

  flush_current-IsSettled :
      (sync_fails : Bool) (old : List Ev) (es fs : List (Entry json)) (k : ℕ) (b : BatchedLog)
      (o : Option Writer)
      → b.log.current ≡ o
      → ((cut : ℕ → ℕ) → Subseq old (replay json (map (survives cut) b.log.files)))
      → Held json es fs o
      → Named json clock o b.log.files b.log.rotation_seq
      → b.log.rotation_seq ≤ k
      → b.pending ≡ length fs
      → (flush_current sync_fails o b).1.errors ≡ 0
      → IsSettled old (es ++ fs) k (flush_current sync_fails o b).1
  unfolding flush_current
  flush_current-IsSettled sync_fails old es fs k b o q safe (absent e1 e2) n s p z = record {
    safe = safe;
    current = subst (λ x. Settled json (es ++ fs) x) (sym q) (absent (rw (e1, e2) refl));
    named = subst (λ x. Named json clock x b.log.files b.log.rotation_seq) (sym q) n;
    seq_le = s;
    none_pending = p ∙ ap length e2;
  }
  flush_current-IsSettled sync_fails old es fs k b o q safe (held f buf e l s1) n s p z =
      flush_result-IsSettled old es fs k b f buf safe n s e (flush-Synced sync_fails f buf) z

  pub flush-IsSettled :
      (sync_fails : Bool) (old : List Ev) (es fs : List (Entry json)) (k : ℕ) (b : BatchedLog)
      → IsHeld json clock old es fs k b.log
      → b.pending ≡ length fs
      → (flush sync_fails b).1.errors ≡ 0
      → IsSettled old (es ++ fs) k (flush sync_fails b).1
  unfolding flush
  flush-IsSettled sync_fails old es fs k b d p z =
      flush_current-IsSettled sync_fails old es fs k b b.log.current refl d.safe d.current d.named
        d.seq_le p z

  closed-Settled :
      {es : List (Entry json)} {o : Option Writer} → Settled json es o → Settled json es (closed o)
  unfolding closed bufio_flush
  closed-Settled (absent e) = absent e
  closed-Settled (settled f e s) = settled (record f { is_open = false }) e s

  closed-Named :
      {es : List (Entry json)} {o : Option Writer} (gs : List WalFile) (seq : ℕ)
      → Settled json es o
      → Named json clock o gs seq
      → Named json clock (closed o) gs seq
  unfolding closed bufio_flush
  closed-Named gs seq (absent e) n = n
  closed-Named gs seq (settled f e s) n = n

  -- the file is closed when everything is synced
  pub close-IsHeld :
      (old : List Ev) (es : List (Entry json)) (k : ℕ) (b : BatchedLog)
      → IsSettled old es k b
      → IsHeld json clock old es [] k
          (record b.log { running = false; current = closed b.log.current })
  close-IsHeld old es k b d = record {
    safe = d.safe;
    current = Settled-Held json (closed-Settled d.current);
    named = closed-Named b.log.files b.log.rotation_seq d.current d.named;
    seq_le = d.seq_le;
  }

  module _ (grows : (n : ℕ) → clock n ≤ clock (suc n)) where
    pub rotate_result-IsHeld :
        (faults : Faults) (old : List Ev) (es : List (Entry json)) (k : ℕ) (b : BatchedLog)
        → suc k < 1_000_000
        → IsSettled old es k b
        → (rotate_result clock b (rotate clock faults b.log)).1.errors ≡ 0
        → IsHeld json clock
            (old ++ events es)
            []
            []
            (suc k)
            (rotate_result clock b (rotate clock faults b.log)).1.log
    unfolding rotate_result rotate opened
    rotate_result-IsHeld faults old es k b h d =
        let seq = inc_uint64 b.log.rotation_seq in
        let seq_eq : seq ≡ suc b.log.rotation_seq = omega (arith, d.seq_le) in
        let lt = next_name json clock grows b.log.rotation_seq (omega (arith, d.seq_le)) in
        let c = closed-Settled d.current in
        let n = closed-Named b.log.files b.log.rotation_seq d.current d.named in
        let gs = all_files (closed b.log.current) b.log.files in
        let below =
          AllBelow-le (suc (file_name clock b.log.rotation_seq)) (file_name clock seq) gs
            (omega (arith, lt))
            (all-AllBelow json clock (closed b.log.current) b.log.files b.log.rotation_seq n) in
        if_cases
          (λ (r : Option WalError × Log).
            (rotate_result clock b r).1.errors ≡ 0
            → IsHeld json clock (old ++ events es) [] [] (suc k) (rotate_result clock b r).1.log)
          faults.open_fails (λ _ z. absurd (omega arith))
          (λ _ z. rw (open_file-new (file_name clock seq) faults.room gs below) record {
            safe =
                all-kept json clock old es [] (closed b.log.current) b.log.files b.log.rotation_seq
                  d.safe (Settled-Held json c) n;
            current =
                held (new_file (file_name clock seq) faults.room) [] refl (omega arith)
                  (omega arith);
            named = (below, omega arith);
            seq_le = omega (arith, seq_eq, d.seq_le);
          })
