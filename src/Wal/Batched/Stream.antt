-- ===== src/Wal/Batched/Stream.antt =====
-- The buffer and the file of a batched log together (pkg/storage/wal_batched.go).
use spark_trade_mft_raw_data.Prelude.{
  ℕ, ◌-◌, ◌≤◌, ◌≡◌, refl, sym, ap, ◌∙◌, Bool, true, false, ◌||◌, not, Option, none, some, List, [],
  ◌∷◌, ◌++◌, append-nil, append_assoc, length, length-append, take, drop, take-append-drop, ltb,
  leb, arith, if_cases, suc-eq-zero,
}
use spark_trade_mft_raw_data.Wal.{
  WalError, WalFile, Writer, os_sync, flushed, sent_on, overflowed, bufio_write, bufio_flush,
  buf_size,
}
use spark_trade_mft_raw_data.Wal.Sync.{after_sync, after_flush}
use spark_trade_mft_raw_data.Wal.Sync.Store.{clean, Took, Writes, whole, part, os_write-Writes}

abbrev pub holding : WalFile → List ℕ → Writer
holding f buf = record { file = f; buf = buf; failed = false }

-- a flush that worked, or failed
data Flushes (f : WalFile) (buf : List ℕ) : Bool × Writer → Type 0 where
  done : (g : WalFile) → Took buf f g → Flushes f buf (false, clean g)
  fails : (w : Writer) → Flushes f buf (true, w)

flushed-Flushes :
    (f : WalFile) (buf : List ℕ) {r : ℕ × Bool × WalFile}
    → Writes buf f r
    → Flushes f buf (flushed (holding f buf) r)
unfolding flushed
flushed-Flushes f buf (whole g h) = done g h
flushed-Flushes f buf (part n k g h) = fails _

bufio_flush-Flushes : (f : WalFile) (buf : List ℕ) → Flushes f buf (bufio_flush (holding f buf))
unfolding bufio_flush
bufio_flush-Flushes f [] =
    done f (record { bytes = sym (append-nil f.sink.written); synced_eq = refl; name_eq = refl })
bufio_flush-Flushes f (b ∷ bs) =
    rw (suc-eq-zero (length bs)) (flushed-Flushes f (b ∷ bs) (os_write-Writes (b ∷ bs) f))

-- a flush and a sync that worked, or one that failed
pub data Synced (f : WalFile) (buf : List ℕ) : Option WalError × Writer → Type 0 where
  done :
      (g : WalFile)
      → g.sink.written ≡ f.sink.written ++ buf
      → g.synced ≡ length g.sink.written
      → g.name ≡ f.name
      → Synced f buf (none, clean g)
  fails : (e : WalError) (w : Writer) → Synced f buf (some e, w)

after_flush-Synced :
    (sync_fails : Bool) (f : WalFile) (buf : List ℕ) {r : Bool × Writer}
    → Flushes f buf r
    → Synced f buf (after_flush sync_fails r)
unfolding after_flush after_sync os_sync
after_flush-Synced sync_fails f buf (Flushes.fails w) = Synced.fails _ w
after_flush-Synced sync_fails f buf (Flushes.done g h) =
    if_cases (λ r. Synced f buf (after_sync (clean g) r)) (not g.is_open || sync_fails)
      (λ _. Synced.fails _ _)
      (λ _. Synced.done (record g { synced = length g.sink.written }) h.bytes refl h.name_eq)

pub flush-Synced :
    (sync_fails : Bool) (f : WalFile) (buf : List ℕ)
    → Synced f buf (after_flush sync_fails (bufio_flush (holding f buf)))
flush-Synced sync_fails f buf = after_flush-Synced sync_fails f buf (bufio_flush-Flushes f buf)

-- a write to the buffer that worked, or one that failed
pub data Buffers (f : WalFile) (buf bs : List ℕ) : Bool × Writer → Type 0 where
  done :
      (g : WalFile) (rest : List ℕ)
      → g.sink.written ++ rest ≡ (f.sink.written ++ buf) ++ bs
      → length f.sink.written ≤ length g.sink.written
      → g.synced ≡ f.synced
      → g.name ≡ f.name
      → Buffers f buf bs (false, holding g rest)
  fails : (w : Writer) → Buffers f buf bs (true, w)

sent_on-Buffers :
    (f g : WalFile) (buf bs rest : List ℕ) {r : ℕ × Bool × WalFile}
    → Writes rest g r
    → g.sink.written ++ rest ≡ (f.sink.written ++ buf) ++ bs
    → length f.sink.written ≤ length g.sink.written
    → g.synced ≡ f.synced
    → g.name ≡ f.name
    → Buffers f buf bs (sent_on (clean g) r)
unfolding sent_on
sent_on-Buffers f g buf bs rest (whole k h) e l s n =
    Buffers.done k [] (append-nil _ ∙ h.bytes ∙ e)
      (omega (arith, l, ap (length {A = ℕ}) h.bytes, length-append g.sink.written rest))
      (h.synced_eq ∙ s) (h.name_eq ∙ n)
sent_on-Buffers f g buf bs rest (part n k w h) e l s q = Buffers.fails _

overflowed-Buffers :
    (f : WalFile) (buf : List ℕ) (n : ℕ) (bs : List ℕ) {r : Bool × Writer}
    → Flushes f (buf ++ take n bs) r
    → Buffers f buf bs (overflowed (drop n bs) r)
unfolding overflowed
overflowed-Buffers f buf n bs (Flushes.fails w) = Buffers.fails w
overflowed-Buffers f buf n bs (Flushes.done g h) =
    let e : g.sink.written ++ drop n bs ≡ (f.sink.written ++ buf) ++ bs =
      ap (λ xs. xs ++ drop n bs) (h.bytes ∙ sym (append_assoc f.sink.written buf (take n bs)))
      ∙ append_assoc (f.sink.written ++ buf) (take n bs) (drop n bs)
      ∙ ap (λ xs. (f.sink.written ++ buf) ++ xs) (take-append-drop n bs) in
    let l : length f.sink.written ≤ length g.sink.written =
      omega (arith, ap (length {A = ℕ}) h.bytes, length-append f.sink.written (buf ++ take n bs)) in
    if_cases (Buffers f buf bs) (ltb buf_size (length (drop n bs)))
      (λ _.
        sent_on-Buffers f g buf bs (drop n bs) (os_write-Writes (drop n bs) g) e l h.synced_eq
          h.name_eq)
      (λ _. Buffers.done g (drop n bs) e l h.synced_eq h.name_eq)

pub bufio_write-Buffers :
    (f : WalFile) (buf bs : List ℕ) → Buffers f buf bs (bufio_write bs (holding f buf))
unfolding bufio_write
bufio_write-Buffers f [] bs =
    let e = ap (λ xs. xs ++ bs) (sym (append-nil f.sink.written)) in
    if_cases (Buffers f [] bs) (leb (length bs) buf_size)
      (λ _. Buffers.done f bs e (omega arith) refl refl)
      (λ _. sent_on-Buffers f f [] bs bs (os_write-Writes bs f) e (omega arith) refl refl)
bufio_write-Buffers f (b ∷ buf) bs =
    let room = buf_size - length (b ∷ buf) in
    if_cases (Buffers f (b ∷ buf) bs) (leb (length bs) room)
      (λ _.
        Buffers.done f ((b ∷ buf) ++ bs) (sym (append_assoc f.sink.written (b ∷ buf) bs))
          (omega arith) refl refl)
      (λ _. rw (suc-eq-zero (length buf)) (
        overflowed-Buffers f (b ∷ buf) room bs (bufio_flush-Flushes f ((b ∷ buf) ++ take room bs))))
