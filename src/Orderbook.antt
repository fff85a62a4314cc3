-- ===== src/Orderbook.antt =====
-- pkg/orderbook/lockfree.go: the lock-free book, whose writers store a side and add to the sequence
-- number in two steps, and the book behind a mutex. A snapshot is not written to once it is stored,
-- so a side is its list of levels.
pub mod Sequence
use spark_trade_mft_raw_data.Prelude.{ℕ, zero, suc, ◌+◌, ◌%◌, List, [], ◌∷◌}
use spark_trade_mft_raw_data.Prelude.Word.{inc_uint64}
use spark_trade_mft_raw_data.Event.{Level}

-- LockFreeOrderBook, and how many writers have stored a side and have yet to add
pub record LockFreeBook (F : Type 0) : Type 0 where
  pub bids : List (Level F)
  pub asks : List (Level F)
  pub seq : ℕ
  pub adding : ℕ

abbrev pub new_lock_free_book : {F : Type 0} → LockFreeBook F
new_lock_free_book = record { bids = []; asks = []; seq = 0; adding = 0 }

-- what a step of SetBids or SetAsks does
pub data WriterStep (F : Type 0) : Type 0 where
  store_bids : List (Level F) → WriterStep F
  store_asks : List (Level F) → WriterStep F
  add_seq : WriterStep F

unfoldable pub add_to : {F : Type 0} → ℕ → LockFreeBook F → LockFreeBook F
add_to zero ob = ob
add_to (suc n) ob = record ob { seq = inc_uint64 ob.seq; adding = n }

unfoldable pub writer_step : {F : Type 0} → WriterStep F → LockFreeBook F → LockFreeBook F
unfolding add_to
writer_step (store_bids levels) ob = record ob { bids = levels; adding = suc ob.adding }
writer_step (store_asks levels) ob = record ob { asks = levels; adding = suc ob.adding }
writer_step add_seq ob = add_to ob.adding ob

unfoldable pub writers : {F : Type 0} → List (WriterStep F) → LockFreeBook F → LockFreeBook F
unfolding writer_step
writers [] ob = ob
writers (w ∷ ws) ob = writers ws (writer_step w ob)

-- a whole call, SetBids or SetAsks
pub data SetCall (F : Type 0) : Type 0 where
  set_bids : List (Level F) → SetCall F
  set_asks : List (Level F) → SetCall F

abbrev pub steps_of : {F : Type 0} → SetCall F → List (WriterStep F)
steps_of (set_bids levels) = store_bids levels ∷ add_seq ∷ []
steps_of (set_asks levels) = store_asks levels ∷ add_seq ∷ []

-- calls that follow each other
unfoldable pub set_all : {F : Type 0} → List (SetCall F) → LockFreeBook F → LockFreeBook F
unfolding writers
set_all [] ob = ob
set_all (c ∷ cs) ob = set_all cs (writers (steps_of c) ob)

-- MutexOrderBook: a call changes it in one step
pub record MutexBook (F : Type 0) : Type 0 where
  pub bids : List (Level F)
  pub asks : List (Level F)
  pub seq : ℕ

abbrev pub new_mutex_book : {F : Type 0} → MutexBook F
new_mutex_book = record { bids = []; asks = []; seq = 0 }

unfoldable pub mutex_set : {F : Type 0} → SetCall F → MutexBook F → MutexBook F
mutex_set (set_bids levels) ob = record ob { bids = levels; seq = inc_uint64 ob.seq }
mutex_set (set_asks levels) ob = record ob { asks = levels; seq = inc_uint64 ob.seq }

unfoldable pub mutex_set_all : {F : Type 0} → List (SetCall F) → MutexBook F → MutexBook F
unfolding mutex_set
mutex_set_all [] ob = ob
mutex_set_all (c ∷ cs) ob = mutex_set_all cs (mutex_set c ob)
