-- ===== src/Wal/Batched/Held.antt =====
-- The state of a batched log that has recorded no error (pkg/storage/wal_batched.go).
use spark_trade_mft_raw_data.Prelude.{
  ℕ, ◌-◌, ◌≤◌, ◌≡◌, refl, sym, ◌∙◌, subst, ap, Option, none, some, List, [], ◌++◌, map, append-nil,
  length, take, take-append, take-append_le, arith, Subseq, Subseq-append, Subseq-refl,
}
use spark_trade_mft_raw_data.Wal.{WalFile, Writer, Log, EventJson, all_files, replay}
use spark_trade_mft_raw_data.Wal.Reading.{Entry, lines, events, lines-append}
use spark_trade_mft_raw_data.Wal.Sync.{survives, recovered}
use spark_trade_mft_raw_data.Wal.Sync.Store.{clean}
use spark_trade_mft_raw_data.Wal.Sync.Written.{IsSafe, IsSafe-lines}
use spark_trade_mft_raw_data.Wal.Sync.Directory.{insert_file-last, replay-last}
use spark_trade_mft_raw_data.Wal.Sync.Durable.{Named}
use spark_trade_mft_raw_data.Wal.Batched.Stream.{holding}

module _ {Ev : Type 0} (json : EventJson Ev) where
  -- the current file and its buffer: synced lines, and lines that are not synced
  pub data Held (es fs : List (Entry json)) : Option Writer → Type 0 where
    absent : es ≡ [] → fs ≡ [] → Held es fs none
    held :
        (f : WalFile) (buf : List ℕ)
        → f.sink.written ++ buf ≡ lines es ++ lines fs
        → length (lines es) ≤ f.synced
        → f.synced ≤ length f.sink.written
        → Held es fs (some (holding f buf))

  -- all lines are synced
  pub data Settled (es : List (Entry json)) : Option Writer → Type 0 where
    absent : es ≡ [] → Settled es none
    settled :
        (f : WalFile)
        → f.sink.written ≡ lines es
        → f.synced ≡ length f.sink.written
        → Settled es (some (clean f))

  pub Settled-Held : {es : List (Entry json)} {o : Option Writer} → Settled es o → Held es [] o
  Settled-Held (absent e) = absent e refl
  Settled-Held {es} (settled f e s) =
      held f [] (ap (λ xs. xs ++ []) e) (omega (arith, s, ap (length {A = ℕ}) e)) (omega (arith, s))

  -- the synced lines are safe
  Held-IsSafe :
      (es fs : List (Entry json)) (f : WalFile) (buf : List ℕ)
      → f.sink.written ++ buf ≡ lines es ++ lines fs
      → length (lines es) ≤ f.synced
      → f.synced ≤ length f.sink.written
      → IsSafe json f (events es)
  Held-IsSafe es fs f buf e h s =
      let n = length f.sink.written in
      let t = sym (take-append f.sink.written buf) ∙ ap (take n) e in
      IsSafe-lines json f es (es ++ fs) n (take (n - length (lines es)) (lines fs))
        (t ∙ take-append_le n (lines es) (lines fs) (omega (arith, h, s)))
        (t ∙ ap (take n) (sym (lines-append es fs))) h (Subseq-refl (events es))

  module _ (clock : ℕ → ℕ) where
    -- The files before the current one, the current one, and a bound for the count of rotations.
    pub record IsHeld (old : List Ev) (es fs : List (Entry json)) (k : ℕ) (log : Log) : Type 0 where
      pub safe : (cut : ℕ → ℕ) → Subseq old (replay json (map (survives cut) log.files))
      pub current : Held es fs log.current
      pub named : Named json clock log.current log.files log.rotation_seq
      pub seq_le : log.rotation_seq ≤ k

    pub all-kept :
        (old : List Ev) (es fs : List (Entry json)) (o : Option Writer) (gs : List WalFile)
        (seq : ℕ)
        → ((cut : ℕ → ℕ) → Subseq old (replay json (map (survives cut) gs)))
        → Held es fs o
        → Named json clock o gs seq
        → (cut : ℕ → ℕ)
        → Subseq (old ++ events es) (replay json (map (survives cut) (all_files o gs)))
    unfolding all_files
    all-kept old es fs o gs seq safe (absent e e') n cut = rw (e, append-nil) (safe cut)
    all-kept old es fs o gs seq safe (held f buf e h s) n cut =
        subst (λ xs. Subseq (old ++ events es) xs)
          (sym (
            ap (λ hs. replay json (map (survives cut) hs)) (insert_file-last f gs n.0)
            ∙ replay-last json cut gs f))
          (Subseq-append (safe cut) ((Held-IsSafe es fs f buf e h s).at cut))

    -- what is synced is recovered
    pub IsHeld-recovered :
        (old : List Ev) (es fs : List (Entry json)) (k : ℕ) (log : Log)
        → IsHeld old es fs k log
        → (cut : ℕ → ℕ) → Subseq (old ++ events es) (recovered json cut log)
    unfolding recovered
    IsHeld-recovered old es fs k log d cut =
        all-kept old es fs log.current log.files log.rotation_seq d.safe d.current d.named cut
