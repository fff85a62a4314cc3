-- ===== src/Adapter/Loop/Calm.antt =====
-- Iterations of the receive loop of pkg/adapter that nothing disturbs.
use spark_trade_mft_raw_data.Prelude.{ℕ, zero, suc, true, false, some, List, [], ◌∷◌}
use spark_trade_mft_raw_data.Prelude.Int.{ℤ}
use spark_trade_mft_raw_data.Adapter.{Adapter}
use spark_trade_mft_raw_data.Adapter.Loop.{Attempt, Turn, Event, turn, Feed}

-- the context has not ended and the output takes the message
abbrev pub calm : {D : Type 0} → ℤ → (ℕ → Attempt D) → Turn D
calm now rs = record { ctx_done = false; now = now; attempts = rs; takes = true }

-- `n` of them, at the times that the clock gives
unfoldable pub calm_turns : {D X : Type 0} → (ℕ → ℤ) → (ℕ → Attempt D) → ℕ → List (Event D X)
calm_turns clock rs zero = []
calm_turns clock rs (suc n) = turn (calm (clock n) rs) ∷ calm_turns clock rs n

-- the loop on a connection
abbrev pub feed_on : {C : Type 0} → C → Adapter C → Feed C
feed_on c a = record { going = true; adapter = record a { conn = some c; cancelled = false } }
