-- ===== src/Tests/Orderbook.antt =====
-- pkg/orderbook at concrete books.
use spark_trade_mft_raw_data.Prelude.{ℕ, ◌≡◌, refl, List, [], ◌∷◌, arith}
use spark_trade_mft_raw_data.Prelude.Int.{pos}
use spark_trade_mft_raw_data.Event.{Level}
use spark_trade_mft_raw_data.Orderbook.{
  new_lock_free_book, WriterStep, store_bids, store_asks, add_seq, writer_step, writers, add_to,
  set_bids, set_asks, set_all, new_mutex_book, mutex_set_all,
}
use spark_trade_mft_raw_data.Orderbook.Sequence.{view, changed_seq, set_all-mutex_set_all}

abbrev levels : List (Level ℕ)
levels = record { price = 5; size = 6; side = "BUY"; order_id = pos 1 } ∷ []

-- two writers at once
abbrev two_writers : List (WriterStep ℕ)
two_writers = store_bids levels ∷ store_asks [] ∷ add_seq ∷ add_seq ∷ []

-- between the store and the addition a reader sees the new side under the old number
unseen :
    writers (store_bids levels ∷ []) new_lock_free_book
    ≡ record { bids = levels; asks = []; seq = 0; adding = 1 }
unfolding writers writer_step
unseen = refl

changed_seq_example : ¬ ((writers two_writers new_lock_free_book).seq ≡ 0)
unfolding writers writer_step add_to
changed_seq_example =
    changed_seq two_writers new_lock_free_book (omega arith) (omega arith) (omega arith) refl refl

set_all-mutex_set_all_example :
    view (set_all (set_bids levels ∷ set_asks [] ∷ set_bids [] ∷ []) new_lock_free_book)
    ≡ mutex_set_all (set_bids levels ∷ set_asks [] ∷ set_bids [] ∷ []) new_mutex_book
set_all-mutex_set_all_example =
    set_all-mutex_set_all (set_bids levels ∷ set_asks [] ∷ set_bids [] ∷ [])
