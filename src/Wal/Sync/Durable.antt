-- ===== src/Wal/Sync/Durable.antt =====
-- The acknowledged events of the log after a crash (pkg/storage/wal.go).
use spark_trade_mft_raw_data.Prelude.{
  ℕ, suc, ◌≤◌, ◌<◌, ◌≡◌, refl, sym, ◌∙◌, subst, ap, Bool, true, false, Option, none, some, List, [],
  ◌∷◌, ◌++◌, map, append-nil, length-append, arith, if_cases, All-append, Subseq, Subseq-append,
  nil,
}
use spark_trade_mft_raw_data.Prelude.Word.{inc_uint64}
use spark_trade_mft_raw_data.Wal.{
  WalError, WalFile, Writer, bufio_write, bufio_flush, Log, Faults, rotate, closed, close_file,
  EventJson, all_files, opened, file_name, replay,
}
use spark_trade_mft_raw_data.Wal.Reading.{Entry}
use spark_trade_mft_raw_data.Wal.Sync.{after_write, store, survives, recovered, acked}
use spark_trade_mft_raw_data.Wal.Sync.Store.{store-Stored}
use spark_trade_mft_raw_data.Wal.Sync.Written.{
  IsWritten, sound, broken, IsWritten-IsSafe, Stored-IsWritten, Stored-name,
}
use spark_trade_mft_raw_data.Wal.Sync.Directory.{
  AllBelow, AllBelow-le, insert_file-last, new_file, open_file-new, replay-last, file_name-lt,
}

module _ {Ev : Type 0} (json : EventJson Ev) where
  pub store-IsWritten :
      (fails : Bool) (e : Entry json) {evs : List Ev} {w : Writer}
      → IsWritten json evs w
      → IsWritten json
          (evs ++ acked e.event (store fails (e.line ++ (10 ∷ [])) w).0)
          (store fails (e.line ++ (10 ∷ [])) w).1
  unfolding store bufio_write after_write
  store-IsWritten fails e {evs} (broken f buf h) =
      subst (λ xs. IsWritten json xs (record { file = f; buf = buf; failed = true }))
        (sym (append-nil evs)) (broken f buf h)
  store-IsWritten fails e (sound f es fs b h s k) =
      Stored-IsWritten json f es fs e b h s k (
        store-Stored fails (e.line ++ (10 ∷ [])) f (ground (arith, length-append e.line (10 ∷ []))))

  pub store-name :
      (fails : Bool) (e : Entry json) {evs : List Ev} {w : Writer}
      → IsWritten json evs w
      → (store fails (e.line ++ (10 ∷ [])) w).1.file.name ≡ w.file.name
  unfolding store bufio_write after_write
  store-name fails e (broken f buf h) = refl
  store-name fails e (sound f es fs b h s k) =
      Stored-name json (
        store-Stored fails (e.line ++ (10 ∷ [])) f (ground (arith, length-append e.line (10 ∷ []))))

  close-IsWritten :
      {evs : List Ev} {w : Writer}
      → IsWritten json evs w
      → IsWritten json evs (close_file (bufio_flush w))
  unfolding bufio_flush
  close-IsWritten (sound f es fs b h s k) = sound (record f { is_open = false }) es fs b h s k
  close-IsWritten (broken f buf h) =
      broken (record f { is_open = false }) buf (record { at = h.at })

  close-name :
      {evs : List Ev} {w : Writer}
      → IsWritten json evs w
      → (close_file (bufio_flush w)).file.name ≡ w.file.name
  unfolding bufio_flush
  close-name (sound f es fs b h s k) = refl
  close-name (broken f buf h) = refl

  abbrev pub IsCurrent : Option Writer → List Ev → Type 0
  IsCurrent none evs = evs ≡ []
  IsCurrent (some w) evs = IsWritten json evs w

  module _ (clock : ℕ → ℕ) where
    -- the names of the other files are below that of the current one, which is one of the past
    abbrev pub Named : Option Writer → List WalFile → ℕ → Type 0
    Named none fs seq = fs ≡ []
    Named (some w) fs seq = AllBelow w.file.name fs × (w.file.name ≤ file_name clock seq)

    -- The events are those of the other files and those of the current one.
    pub record IsDurable (evs : List Ev) (log : Log) : Type 0 where
      pub old : List Ev
      pub new : List Ev
      pub split : evs ≡ old ++ new
      pub safe : (cut : ℕ → ℕ) → Subseq old (replay json (map (survives cut) log.files))
      pub current : IsCurrent log.current new
      pub named : Named log.current log.files log.rotation_seq

    -- all files give the events back
    all-Subseq :
        (o : Option Writer) (fs : List WalFile) (seq : ℕ) (old new : List Ev)
        → ((cut : ℕ → ℕ) → Subseq old (replay json (map (survives cut) fs)))
        → IsCurrent o new
        → Named o fs seq
        → (cut : ℕ → ℕ) → Subseq (old ++ new) (replay json (map (survives cut) (all_files o fs)))
    unfolding all_files
    all-Subseq none fs seq old new safe c n cut = rw (c, append-nil) (safe cut)
    all-Subseq (some w) fs seq old new safe c n cut =
        subst (λ xs. Subseq (old ++ new) xs)
          (sym (
            ap (λ gs. replay json (map (survives cut) gs)) (insert_file-last w.file fs n.0)
            ∙ replay-last json cut fs w.file))
          (Subseq-append (safe cut) ((IsWritten-IsSafe json c).at cut))

    pub recovered-Subseq :
        {evs : List Ev} (log : Log)
        → IsDurable evs log
        → (cut : ℕ → ℕ) → Subseq evs (recovered json cut log)
    unfolding recovered
    recovered-Subseq log d cut =
        subst (λ xs. Subseq xs (recovered json cut log)) (sym d.split)
          (all-Subseq log.current log.files log.rotation_seq d.old d.new d.safe d.current d.named
            cut)

    pub closed-IsCurrent :
        (o : Option Writer) (evs : List Ev) → IsCurrent o evs → IsCurrent (closed o) evs
    unfolding closed
    closed-IsCurrent none evs c = c
    closed-IsCurrent (some w) evs c = close-IsWritten c

    pub all-AllBelow :
        (o : Option Writer) (fs : List WalFile) (seq : ℕ)
        → Named o fs seq
        → AllBelow (suc (file_name clock seq)) (all_files o fs)
    unfolding all_files
    all-AllBelow none fs seq n = rw n tt
    all-AllBelow (some w) fs seq n = rw (insert_file-last w.file fs n.0) (
        All-append (λ f. f.name < suc (file_name clock seq)) fs (w.file ∷ [])
          (AllBelow-le w.file.name (suc (file_name clock seq)) fs (omega (arith, n.1)) n.0)
          (omega (arith, n.1), tt))

    pub closed-Named :
        (o : Option Writer) (fs : List WalFile) (seq : ℕ) (evs : List Ev)
        → IsCurrent o evs
        → Named o fs seq
        → Named (closed o) fs seq
    unfolding closed
    closed-Named none fs seq evs c n = n
    closed-Named (some w) fs seq evs c n =
        subst (λ m. AllBelow m fs × (m ≤ file_name clock seq)) (sym (close-name c)) n

    pub Named-le :
        (o : Option Writer) (fs : List WalFile) (n m : ℕ)
        → file_name clock n ≤ file_name clock m
        → Named o fs n
        → Named o fs m
    Named-le none fs n m h k = k
    Named-le (some w) fs n m h k = (k.0, omega (arith, h, k.1))

    module _ (grows : (n : ℕ) → clock n ≤ clock (suc n)) where
      pub next_name :
          (n : ℕ) → suc n < 1_000_000 → file_name clock n < file_name clock (inc_uint64 n)
      next_name n h =
          let e : inc_uint64 n ≡ suc n = omega arith in rw e (file_name-lt clock n (grows n) h)

      pub rotate-IsDurable :
          (faults : Faults) (log : Log) {evs : List Ev}
          → suc log.rotation_seq < 1_000_000
          → IsDurable evs log
          → IsDurable evs (rotate clock faults log).1
      unfolding rotate opened
      rotate-IsDurable faults log {evs} h d =
          let seq = inc_uint64 log.rotation_seq in
          let lt = next_name log.rotation_seq h in
          let c = closed-IsCurrent log.current d.new d.current in
          let n = closed-Named log.current log.files log.rotation_seq d.new d.current d.named in
          let fs = all_files (closed log.current) log.files in
          let below =
            AllBelow-le (suc (file_name clock log.rotation_seq)) (file_name clock seq) fs
              (omega (arith, lt))
              (all-AllBelow (closed log.current) log.files log.rotation_seq n) in
          if_cases (λ (r : Option WalError × Log). IsDurable evs r.1) faults.open_fails
            (λ _. record {
              old = d.old;
              new = d.new;
              split = d.split;
              safe = d.safe;
              current = c;
              named =
                  Named-le (closed log.current) log.files log.rotation_seq seq (omega (arith, lt))
                    n;
            })
            (λ _. rw (open_file-new (file_name clock seq) faults.room fs below) record {
              old = d.old ++ d.new;
              new = [];
              split = d.split ∙ sym (append-nil (d.old ++ d.new));
              safe =
                  all-Subseq (closed log.current) log.files log.rotation_seq d.old d.new d.safe c n;
              current =
                  sound (new_file (file_name clock seq) faults.room) [] [] refl (omega arith)
                    (omega arith) nil;
              named = (below, omega arith);
            })
