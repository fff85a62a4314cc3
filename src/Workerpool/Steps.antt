-- ===== src/Workerpool/Steps.antt =====
-- The interleavings of the goroutines of pkg/workerpool/pool.go.
use spark_trade_mft_raw_data.Prelude.{ℕ, Bool, List, [], ◌∷◌}
use spark_trade_mft_raw_data.Workerpool.{
  Outcome, Pool, PoolConfig, add_worker, settle_worker, start, check_scale, submit, enqueue,
  count_submit, receive, count_receive, process, deliver, time_out, consume, stop, close_output,
}
use spark_trade_mft_raw_data.Workerpool.Picks.{pick}

-- One step of one goroutine; a number says which of those that stand at the same point.
pub data Action (M C E : Type 0) : Type 0 where
  starts : Action M C E
  submits : M → Action M C E
  enqueues : ℕ → Action M C E
  counts : Action M C E
  receives : Action M C E
  counts_receive : ℕ → Action M C E
  processes : ℕ → (M → Outcome M C E) → Action M C E
  delivers : ℕ → Action M C E
  times_out : ℕ → Action M C E
  consumes : Action M C E
  scales : Bool → Action M C E
  adds : Action M C E
  settles : Action M C E
  stops : Action M C E
  closes : Action M C E

unfoldable pub step : {M C E : Type 0} → PoolConfig → Action M C E → Pool M C E → Pool M C E
unfolding start add_worker settle_worker check_scale submit enqueue count_submit receive
    count_receive process deliver time_out consume stop close_output pick
step config starts p = start config p
step config (submits msg) p = submit config msg p
step config (enqueues n) p = enqueue config (pick n p.submitting) p
step config counts p = count_submit config p.counting p
step config receives p = receive config p.idle p.input p
step config (counts_receive n) p = count_receive config (pick n p.received) p
step config (processes n processor) p = process config processor (pick n p.working) p
step config (delivers n) p = deliver config (pick n p.delivering) p
step config (times_out n) p = time_out config (pick n p.delivering) p
step config consumes p = consume config p.output p
step config (scales filling) p = check_scale config filling p
step config adds p = add_worker config p.to_spawn p.spawning p
step config settles p = settle_worker config p.spawning p
step config stops p = stop config p
step config closes p = close_output config p

unfoldable pub run : {M C E : Type 0} → PoolConfig → List (Action M C E) → Pool M C E → Pool M C E
unfolding step
run config [] p = p
run config (action ∷ actions) p = run config actions (step config action p)
