-- ===== src/Wal/Sync/Written.antt =====
-- The current file of the log (pkg/storage/wal.go) and the acknowledged events that it holds.
use spark_trade_mft_raw_data.Prelude.{
  ℕ, ◌+◌, ◌-◌, ◌≤◌, ◌≡◌, sym, ◌∙◌, subst, ap, true, false, Option, List, [], ◌∷◌, ◌++◌, append-nil,
  append_assoc, length, length-append, take, take_all, take-append_le, take-append-drop, drop, ltb,
  arith, if_cases, Subseq, Subseq-append, Subseq-right, Subseq-nil, nil, keep, ltb→lt,
}
use spark_trade_mft_raw_data.Wal.{WalError, WalFile, Writer, EventJson, file_events, scan, max_line}
use spark_trade_mft_raw_data.Wal.Reading.{
  Entry, lines, events, events-append, lines-append, file_events-lines, scan-cut, scan-prefix,
}
use spark_trade_mft_raw_data.Wal.Sync.{survives, acked}
use spark_trade_mft_raw_data.Wal.Sync.Store.{clean, Stored, synced, unsynced, torn}

module _ {Ev : Type 0} (json : EventJson Ev) where
  -- After any crash the file gives back the events, in their order.
  pub record IsSafe (f : WalFile) (evs : List Ev) : Type 0 where
    pub at : (cut : ℕ → ℕ) → Subseq evs (file_events json (survives cut f))

  -- The current file: its lines, those of the acknowledged events synced; or a failed writer.
  pub data IsWritten (evs : List Ev) : Writer → Type 0 where
    sound :
        (f : WalFile) (es fs : List (Entry json))
        → f.sink.written ≡ lines es ++ lines fs
        → length (lines es) ≤ f.synced
        → f.synced ≤ length f.sink.written
        → Subseq evs (events es)
        → IsWritten evs (clean f)
    broken :
        (f : WalFile) (buf : List ℕ)
        → IsSafe f evs
        → IsWritten evs (record { file = f; buf = buf; failed = true })

  -- A file that starts with the lines, and whose bytes are lines that may be cut off, gives their
  -- events back from any cut behind them.
  module _ (bs : List ℕ) (es fs : List (Entry json)) (n : ℕ) (more : List ℕ) {evs : List Ev}
      (begins : bs ≡ lines es ++ more) (cut_lines : bs ≡ take n (lines fs))
      (kept : Subseq evs (events es)) where
    readable : (m : ℕ) → (scan max_line [] (take m bs)).1 ≡ false
    readable m =
        scan-prefix max_line [] (take m bs) (drop m bs)
          (ap (λ xs. (scan max_line [] xs).1) (take-append-drop m bs ∙ cut_lines) ∙ scan-cut fs n)

    kept_at : (m : ℕ) → length (lines es) ≤ m → Subseq evs (file_events json (take m bs))
    kept_at m h =
        let e = ap (take m) begins ∙ take-append_le m (lines es) more h in
        let (rest, q) =
          file_events-lines es (take (m - length (lines es)) more)
            (subst (λ xs. (scan max_line [] xs).1 ≡ false) e (readable m)) in
        subst (λ xs. Subseq evs (file_events json xs)) (sym e)
          (subst (λ xs. Subseq evs xs) (sym q) (Subseq-right rest kept))

  pub IsSafe-lines :
      (f : WalFile) (es fs : List (Entry json)) (n : ℕ) (more : List ℕ) {evs : List Ev}
      → f.sink.written ≡ lines es ++ more
      → f.sink.written ≡ take n (lines fs)
      → length (lines es) ≤ f.synced
      → Subseq evs (events es)
      → IsSafe f evs
  IsSafe-lines f es fs n more {evs} e1 e2 h k = record {
    at = λ cut.
        if_cases (λ m. Subseq evs (file_events json (take m f.sink.written)))
          (ltb f.synced (cut f.name))
          (λ t. kept_at f.sink.written es fs n more e1 e2 k _ (omega (arith, h, ltb→lt _ _ t)))
          (λ _. kept_at f.sink.written es fs n more e1 e2 k _ h);
  }

  -- whatever the writer's state, the file is safe
  pub IsWritten-IsSafe : {evs : List Ev} {w : Writer} → IsWritten evs w → IsSafe w.file evs
  IsWritten-IsSafe (sound f es fs e h _ k) =
      IsSafe-lines f es (es ++ fs) (length (lines (es ++ fs))) (lines fs) e
        (e ∙ sym (lines-append es fs) ∙ sym (take_all _ (lines (es ++ fs)) (omega arith))) h k
  IsWritten-IsSafe (broken f buf h) = h

  take-lines :
      (es : List (Entry json)) (e : Entry json) (k : ℕ)
      → lines es ++ take k (e.line ++ (10 ∷ []))
        ≡ take (length (lines es) + k) (lines (es ++ (e ∷ [])))
  take-lines es e k = sym (
      ap (take (length (lines es) + k)) (lines-append es (e ∷ []))
      ∙ take-append_le (length (lines es) + k) (lines es) (lines (e ∷ [])) (omega arith)
      ∙ ap (λ n. lines es ++ take n (lines (e ∷ []))) (omega arith))

  Subseq-snoc :
      {evs : List Ev} (es fs : List (Entry json)) (e : Entry json)
      → Subseq evs (events es)
      → Subseq (evs ++ (e.event ∷ [])) (events (es ++ (fs ++ (e ∷ []))))
  Subseq-snoc {evs} es fs e k =
      subst (λ xs. Subseq (evs ++ (e.event ∷ [])) xs)
        (sym (
          events-append es (fs ++ (e ∷ []))
          ∙ ap (λ xs. events es ++ xs) (events-append fs (e ∷ []))))
        (Subseq-append k (Subseq-append (Subseq-nil (events fs)) (keep e.event nil)))

  pub lines-snoc :
      (bs : List ℕ) (es fs : List (Entry json)) (e : Entry json)
      → bs ≡ lines es ++ lines fs
      → bs ++ (e.line ++ (10 ∷ [])) ≡ lines es ++ lines (fs ++ (e ∷ []))
  lines-snoc bs es fs e b =
      ap (λ xs. xs ++ (e.line ++ (10 ∷ []))) b
      ∙ append_assoc (lines es) (lines fs) (e.line ++ (10 ∷ []))
      ∙ ap (λ xs. lines es ++ xs) (sym (lines-append fs (e ∷ [])))

  -- One write of an event's line to a sound file: the event is added if there was no error.
  pub Stored-IsWritten :
      (f : WalFile) (es fs : List (Entry json)) (e : Entry json) {evs : List Ev}
      → f.sink.written ≡ lines es ++ lines fs
      → length (lines es) ≤ f.synced
      → f.synced ≤ length f.sink.written
      → Subseq evs (events es)
      → {r : Option WalError × Writer} → Stored (e.line ++ (10 ∷ [])) f r
      → IsWritten (evs ++ acked e.event r.0) r.1
  Stored-IsWritten f es fs e b h s k (synced g t q) =
      let c =
        t.bytes ∙ lines-snoc f.sink.written es fs e b ∙ sym (lines-append es (fs ++ (e ∷ []))) in
      sound g (es ++ (fs ++ (e ∷ []))) [] (c ∙ sym (append-nil _))
        (omega (arith, q, ap (length {A = ℕ}) c)) (omega (arith, q)) (Subseq-snoc es fs e k)
  Stored-IsWritten f es fs e {evs} b h s k (unsynced g t) =
      subst (λ xs. IsWritten xs (clean g)) (sym (append-nil evs))
        (sound g es (fs ++ (e ∷ [])) (t.bytes ∙ lines-snoc f.sink.written es fs e b)
          (omega (arith, h, t.synced_eq))
          (omega (
            arith,
            s,
            t.synced_eq,
            ap (length {A = ℕ}) t.bytes,
            length-append f.sink.written (e.line ++ (10 ∷ [])),
          ))
          k)
  Stored-IsWritten f es fs e {evs} b h s k (torn n g buf t) =
      subst (λ xs. IsWritten xs (record { file = g; buf = buf; failed = true }))
        (sym (append-nil evs))
        (broken g buf (
          IsSafe-lines g es ((es ++ fs) ++ (e ∷ [])) (length (lines (es ++ fs)) + n)
            (lines fs ++ take n (e.line ++ (10 ∷ [])))
            (t.bytes
              ∙ ap (λ xs. xs ++ take n (e.line ++ (10 ∷ []))) b
              ∙ append_assoc (lines es) (lines fs) (take n (e.line ++ (10 ∷ []))))
            (t.bytes
              ∙ ap (λ xs. xs ++ take n (e.line ++ (10 ∷ []))) (b ∙ sym (lines-append es fs))
              ∙ take-lines (es ++ fs) e n)
            (omega (arith, h, t.synced_eq)) k))

  -- a write keeps the name of the file
  pub Stored-name :
      {bs : List ℕ} {f : WalFile} {r : Option WalError × Writer}
      → Stored bs f r
      → r.1.file.name ≡ f.name
  Stored-name (synced g t q) = t.name_eq
  Stored-name (unsynced g t) = t.name_eq
  Stored-name (torn n g buf t) = t.name_eq
