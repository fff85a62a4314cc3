-- ===== src/Wal/Sync/Store.antt =====
-- One write to the current file of the log (pkg/storage/wal.go): what it leaves in the file.
use spark_trade_mft_raw_data.Prelude.{
  ℕ, ◌≡◌, refl, sym, append-nil, Bool, true, false, ◌||◌, not, Option, none, some, List, [], ◌++◌,
  length, take, ltb, leb, ◌==◌, if_cases,
}
use spark_trade_mft_raw_data.Ipc.{write}
use spark_trade_mft_raw_data.Wal.{
  WalError, write_failed, sync_failed, WalFile, Writer, os_write, os_sync, wrote, flushed, sent_on,
  bufio_write, bufio_flush, buf_size,
}
use spark_trade_mft_raw_data.Wal.Sync.{after_sync, after_flush, after_write, store}

abbrev pub clean : WalFile → Writer
clean f = record { file = f; buf = []; failed = false }

-- A file that has taken more bytes and is otherwise the same.
pub record Took (bs : List ℕ) (f g : WalFile) : Type 0 where
  pub bytes : g.sink.written ≡ f.sink.written ++ bs
  pub synced_eq : g.synced ≡ f.synced
  pub name_eq : g.name ≡ f.name

-- all bytes are taken, or some and the write fails
pub data Writes (bs : List ℕ) (f : WalFile) : ℕ × Bool × WalFile → Type 0 where
  whole : (g : WalFile) → Took bs f g → Writes bs f (length bs, false, g)
  part : (n k : ℕ) (g : WalFile) → Took (take k bs) f g → Writes bs f (n, true, g)

pub os_write-Writes : (bs : List ℕ) (f : WalFile) → Writes bs f (os_write bs f)
unfolding os_write wrote write
os_write-Writes bs f =
    if_cases (Writes bs f) f.is_open
      (λ _.
        if_cases (λ r. Writes bs f (wrote f r)) (ltb f.sink.budget (length bs))
          (λ _.
            part f.sink.budget f.sink.budget _
              (record { bytes = refl; synced_eq = refl; name_eq = refl }))
          (λ _. whole _ (record { bytes = refl; synced_eq = refl; name_eq = refl })))
      (λ _.
        part 0 0 f
          (record { bytes = sym (append-nil f.sink.written); synced_eq = refl; name_eq = refl }))

-- What `store` leaves of a file: the bytes and their sync, the bytes alone, or a part of them and a
-- writer that has failed.
pub data Stored (bs : List ℕ) (f : WalFile) : Option WalError × Writer → Type 0 where
  synced :
      (g : WalFile)
      → Took bs (record f { synced = g.synced }) g
      → g.synced ≡ length g.sink.written
      → Stored bs f (none, clean g)
  unsynced : (g : WalFile) → Took bs f g → Stored bs f (some sync_failed, clean g)
  torn :
      (k : ℕ) (g : WalFile) (buf : List ℕ)
      → Took (take k bs) f g
      → Stored bs f (some write_failed, record { file = g; buf = buf; failed = true })

sync-Stored :
    (fails : Bool) (bs : List ℕ) (f g : WalFile)
    → Took bs f g
    → Stored bs f (after_sync (clean g) (os_sync fails g))
unfolding after_sync os_sync
sync-Stored fails bs f g h =
    if_cases (λ r. Stored bs f (after_sync (clean g) r)) (not g.is_open || fails)
      (λ _. unsynced g h)
      (λ _.
        synced (record g { synced = length g.sink.written })
          (record { bytes = h.bytes; synced_eq = refl; name_eq = h.name_eq }) refl)

-- through the buffer
flushed-Stored :
    (fails : Bool) (bs : List ℕ) (f : WalFile) {r : ℕ × Bool × WalFile}
    → Writes bs f r
    → Stored bs f (after_flush fails (flushed (record { file = f; buf = bs; failed = false }) r))
unfolding after_flush flushed
flushed-Stored fails bs f (whole g h) = sync-Stored fails bs f g h
flushed-Stored fails bs f (part n k g h) = torn k g _ h

-- past the buffer
sent_on-Stored :
    (fails : Bool) (bs : List ℕ) (f : WalFile) {r : ℕ × Bool × WalFile}
    → Writes bs f r
    → Stored bs f (after_write fails (sent_on (clean f) r))
unfolding after_write after_flush sent_on bufio_flush
sent_on-Stored fails bs f (whole g h) = sync-Stored fails bs f g h
sent_on-Stored fails bs f (part n k g h) = torn k g _ h

pub store-Stored :
    (fails : Bool) (bs : List ℕ) (f : WalFile)
    → (length bs == 0) ≡ false
    → Stored bs f (store fails bs (clean f))
unfolding store bufio_write
store-Stored fails bs f e =
    if_cases (λ r. Stored bs f (after_write fails r)) (leb (length bs) buf_size)
      (λ _. rw e (flushed-Stored fails bs f (os_write-Writes bs f)))
      (λ _. sent_on-Stored fails bs f (os_write-Writes bs f))
