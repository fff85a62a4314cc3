-- ===== src/Orderbook/Sequence.antt =====
-- The sequence number of the books of pkg/orderbook/lockfree.go.
use spark_trade_mft_raw_data.Prelude.{ℕ, zero, suc, ◌+◌, ◌%◌, ◌<◌, ◌≡◌, refl, List, [], ◌∷◌, arith}
use spark_trade_mft_raw_data.Orderbook.{
  LockFreeBook, new_lock_free_book, WriterStep, store_bids, store_asks, add_seq, add_to,
  writer_step, writers, SetCall, set_bids, set_asks, set_all, MutexBook, new_mutex_book, mutex_set,
  mutex_set_all,
}

module _ {F : Type 0} where
  -- how many of the steps store a side
  abbrev pub stores : List (WriterStep F) → ℕ
  stores [] = 0
  stores (store_bids levels ∷ ws) = suc (stores ws)
  stores (store_asks levels ∷ ws) = suc (stores ws)
  stores (add_seq ∷ ws) = stores ws

  add_to-seq :
      (n : ℕ) (ob : LockFreeBook F)
      → ob.adding ≡ n
      → ((add_to n ob).seq + (add_to n ob).adding) % 0x1_0000_0000_0000_0000
        ≡ (ob.seq + ob.adding) % 0x1_0000_0000_0000_0000
  unfolding add_to
  add_to-seq zero ob e = refl
  add_to-seq (suc n) ob e = omega (arith, e)

  -- the number and the writers that have yet to add count the stores
  writers-seq :
      (ws : List (WriterStep F)) (ob : LockFreeBook F)
      → ((writers ws ob).seq + (writers ws ob).adding) % 0x1_0000_0000_0000_0000
        ≡ (ob.seq + ob.adding + stores ws) % 0x1_0000_0000_0000_0000
  unfolding writers writer_step
  writers-seq [] ob = omega arith
  writers-seq (store_bids levels ∷ ws) ob =
      omega (arith, writers-seq ws (writer_step (store_bids levels) ob))
  writers-seq (store_asks levels ∷ ws) ob =
      omega (arith, writers-seq ws (writer_step (store_asks levels) ob))
  writers-seq (add_seq ∷ ws) ob =
      omega (arith, writers-seq ws (add_to ob.adding ob), add_to-seq ob.adding ob refl)

  -- Two reads of a lock-free book with steps of any writers between them, of which at least one and
  -- fewer than 2 ^ 64 store a side: if at neither read a writer has stored a side without having
  -- added to the sequence number, the two reads find different sequence numbers.
  pub changed_seq :
      (ws : List (WriterStep F)) (ob : LockFreeBook F)
      → 0 < stores ws
      → stores ws < 0x1_0000_0000_0000_0000
      → ob.seq < 0x1_0000_0000_0000_0000
      → ob.adding ≡ 0
      → (writers ws ob).adding ≡ 0
      → ¬ ((writers ws ob).seq ≡ ob.seq)
  changed_seq ws ob k h l a1 a2 e = absurd (omega (arith, writers-seq ws ob))

  -- what a reader of the lock-free book sees
  abbrev pub view : LockFreeBook F → MutexBook F
  view ob = record { bids = ob.bids; asks = ob.asks; seq = ob.seq }

  set_all-view :
      (cs : List (SetCall F)) (ob : LockFreeBook F)
      → ob.adding ≡ 0
      → (view (set_all cs ob) ≡ mutex_set_all cs (view ob)) × ((set_all cs ob).adding ≡ 0)
  unfolding set_all mutex_set_all mutex_set writers writer_step add_to
  set_all-view [] ob e = (refl, e)
  set_all-view (set_bids levels ∷ cs) ob e = set_all-view cs _ e
  set_all-view (set_asks levels ∷ cs) ob e = set_all-view cs _ e

  -- Whatever calls of SetBids and SetAsks follow each other on new books: the lock-free book shows
  -- the bids, the asks and the sequence number of the book behind the mutex.
  pub set_all-mutex_set_all :
      (cs : List (SetCall F))
      → view (set_all cs new_lock_free_book) ≡ mutex_set_all cs new_mutex_book
  set_all-mutex_set_all cs = (set_all-view cs new_lock_free_book refl).0
