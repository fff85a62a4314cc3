-- ===== src/Adapter/Loop/Laws.antt =====
-- What the receive loop of pkg/adapter keeps, whatever the connection.
use spark_trade_mft_raw_data.Prelude.{ℕ, zero, suc, false, Option, none, some, if_cases}
use spark_trade_mft_raw_data.Prelude.Int.{ℤ}
use spark_trade_mft_raw_data.Adapter.{Failure, Adapter, add_error, backoff_at, rounds}
use spark_trade_mft_raw_data.Adapter.Loop.{
  Source, Attempt, Reconnect, Feed, after_dial, try_round, reconnect_from, reconnect, after_error,
}

-- A property of adapters that connecting and the bookkeeping of errors keep
pub record IsKept {C D X : Type 0} (src : Source C D X) (P : Adapter C → Type 0) : Type 0 where
  pub of_connect : (d : D) (a : Adapter C) → P a → P (src.connect d a).1
  pub of_error : (f : Failure) (a : Adapter C) → P a → P (add_error f a)
  pub of_reconnect : (n : ℤ) (a : Adapter C) → P a → P (record a { reconnect_count = n })
  pub of_running : (a : Adapter C) → P a → P (record a { running = false })

module _ {C D X : Type 0} (src : Source C D X) (P : Adapter C → Type 0) (kept : IsKept src P) where
  open kept use {of_connect, of_error, of_reconnect, of_running}

  after_dial-IsKept :
      (rest : Adapter C → Reconnect C) (k : ℕ) (s : ℤ) (r : Option Failure × Adapter C)
      → ((a : Adapter C) → P a → P (rest a).adapter)
      → P r.1
      → P (after_dial src rest k s r).adapter
  unfolding after_dial
  after_dial-IsKept rest k s (none, a) h p = of_reconnect _ a p
  after_dial-IsKept rest k s (some f, a) h p = h _ (of_error _ a p)

  try_round-IsKept :
      (rest : Adapter C → Reconnect C) (k : ℕ) (t : Attempt D) (b : Option ℤ) (a : Adapter C)
      → ((a : Adapter C) → P a → P (rest a).adapter)
      → P a
      → P (try_round src rest k t b a).adapter
  unfolding try_round
  try_round-IsKept rest k t none a h p = p
  try_round-IsKept rest k t (some s) a h p =
      if_cases (λ (r : Reconnect C). P r.adapter) t.gone (λ _. p)
        (λ _. after_dial-IsKept rest k s (src.connect t.dial a) h (of_connect t.dial a p))

  reconnect_from-IsKept :
      (n k : ℕ) (rs : ℕ → Attempt D) (a : Adapter C) → P a → P (reconnect_from src n k rs a).adapter
  unfolding reconnect_from
  reconnect_from-IsKept zero k rs a p = of_error _ a p
  reconnect_from-IsKept (suc n) k rs a p =
      try_round-IsKept (reconnect_from src n (suc k) rs) k (rs k) (backoff_at a.backoff_seconds k) a
        (reconnect_from-IsKept n (suc k) rs) p

  pub after_error-IsKept :
      (rs : ℕ → Attempt D) (a : Adapter C) → P a → P (after_error src rs a).adapter
  unfolding after_error reconnect
  after_error-IsKept rs a p =
      let q = reconnect_from-IsKept (rounds a.reconnect_attempts) 0 rs a p in
      if_cases (λ (f : Feed C). P f.adapter) a.connected (λ _. p)
        (λ _.
          if_cases (λ (f : Feed C). P f.adapter) (reconnect src rs a).panicked
            (λ _. of_running _ (of_error _ _ q)) (λ _. q))
