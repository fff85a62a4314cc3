-- ===== src/Tests/Workerpool.antt =====
-- pkg/workerpool at a concrete interleaving.
use spark_trade_mft_raw_data.Prelude.{
  ℕ, zero, suc, ◌≡◌, refl, Bool, true, none, some, List, [], ◌∷◌, arith,
}
use spark_trade_mft_raw_data.Prelude.Int.{pos, negsuc}
use spark_trade_mft_raw_data.Workerpool.{
  Outcome, PoolConfig, returned, panicked, new_config, or_default, new_pool, add_worker,
  settle_worker, spawns_done, process_message, start, submit, enqueue, receive, count_receive,
  process, deliver,
}
use spark_trade_mft_raw_data.Workerpool.Steps.{
  Action, starts, submits, enqueues, counts, receives, counts_receive, processes, delivers,
  consumes, scales, adds, settles, stops, run, step,
}
use spark_trade_mft_raw_data.Workerpool.Picks.{pick}
use spark_trade_mft_raw_data.Workerpool.Conserved.{IsConserved, KeepsRaw, run-new_pool-IsConserved}
use spark_trade_mft_raw_data.Workerpool.Staffed.{IsStaffed}
use spark_trade_mft_raw_data.Workerpool.Staffed.Run.{run-new_pool-IsStaffed}

-- two workers at the start, at most three, a queue of two
abbrev small_pool : PoolConfig
small_pool = record { min_workers = 2; max_workers = 3; queue_size = 2 }

-- panics at 0, fails at 1, keeps the others
abbrev kept : ℕ → Outcome ℕ ℕ Bool
kept zero = panicked
kept (suc zero) = returned (record { raw = 1; canonical = some 6; error = none }) (some true)
kept (suc (suc n)) = returned (record { raw = suc (suc n); canonical = some n; error = none }) none

abbrev actions : List (Action ℕ ℕ Bool)
actions =
    starts
    ∷ adds
    ∷ settles
    ∷ adds
    ∷ settles
    ∷ submits 0
    ∷ submits 1
    ∷ submits 2
    ∷ enqueues 0
    ∷ receives
    ∷ enqueues 0
    ∷ counts
    ∷ receives
    ∷ enqueues 0
    ∷ counts_receive 1
    ∷ processes 0 kept
    ∷ counts_receive 0
    ∷ processes 0 kept
    ∷ delivers 0
    ∷ counts
    ∷ scales true
    ∷ adds
    ∷ settles
    ∷ adds
    ∷ stops
    ∷ consumes
    ∷ []

defaults :
    new_config (pos 0) (negsuc 4) (pos 7)
    ≡ record { min_workers = 50; max_workers = 100; queue_size = 7 }
unfolding new_config or_default
defaults = refl

-- a worker takes a message, fails at it, and the error goes to the output
fails :
    (run small_pool
      (starts
        ∷ adds
        ∷ settles
        ∷ submits 1
        ∷ enqueues 0
        ∷ receives
        ∷ counts_receive 0
        ∷ processes 0 kept
        ∷ delivers 0
        ∷ [])
      new_pool).output
    ≡ record { raw = 1; canonical = none; error = some true } ∷ []
unfolding run step start spawns_done add_worker settle_worker submit enqueue receive count_receive
    process process_message deliver pick
fails = refl

kept_keeps : (msg : ℕ) → KeepsRaw msg (kept msg)
kept_keeps zero = tt
kept_keeps (suc zero) = refl
kept_keeps (suc (suc n)) = refl

run-new_pool-IsConserved_example : IsConserved (run small_pool actions new_pool)
run-new_pool-IsConserved_example = run-new_pool-IsConserved small_pool actions (
  tt,
  (
    tt,
    (
      tt,
      (
        tt,
        (
          tt,
          (
            tt,
            (
              tt,
              (
                tt,
                (
                  tt,
                  (
                    tt,
                    (
                      tt,
                      (
                        tt,
                        (
                          tt,
                          (
                            tt,
                            (
                              tt,
                              (
                                kept_keeps,
                                (
                                  tt,
                                  (kept_keeps, (tt, (tt, (tt, (tt, (tt, (tt, (tt, (tt, tt))))))))),
                                ),
                              ),
                            ),
                          ),
                        ),
                      ),
                    ),
                  ),
                ),
              ),
            ),
          ),
        ),
      ),
    ),
  ),
)

run-new_pool-IsStaffed_example : IsStaffed small_pool (run small_pool actions new_pool)
run-new_pool-IsStaffed_example = run-new_pool-IsStaffed small_pool actions (omega arith)
