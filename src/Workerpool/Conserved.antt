-- ===== src/Workerpool/Conserved.antt =====
-- Where the messages of the pool are (pkg/workerpool/pool.go).
use spark_trade_mft_raw_data.Prelude.{
  All, ◌&&◌, ap, ltb, ℕ, zero, suc, ◌+◌, ◌≡◌, ◌==◌, refl, Bool, Option, none, some, List, [], ◌∷◌,
  length, arith, if_cases,
}
use spark_trade_mft_raw_data.Workerpool.{
  ProcessedMessage, Outcome, Pool, PoolConfig, returned, panicked, add_worker, settle_worker,
  spawns_done, crew, start, check_scale, submit, enqueue, count_submit, receive, count_receive,
  process_message, process, deliver, time_out, consume, stop, close_output, new_pool,
}
use spark_trade_mft_raw_data.Workerpool.Steps.{
  Action, starts, submits, enqueues, counts, receives, counts_receive, processes, delivers,
  times_out, consumes, scales, adds, settles, stops, closes, step, run,
}
use spark_trade_mft_raw_data.Workerpool.Picks.{one_if, count, count-append, IsPick, pick-IsPick}

module _ {M C E : Type 0} where
  abbrev pub count_raw : (M → Bool) → List (ProcessedMessage M C E) → ℕ
  count_raw q results = count (λ result. q result.raw) results

  -- every message that was accepted stands at exactly one place
  pub record IsConserved (p : Pool M C E) : Type 0 where
    pub conserved :
        (q : M → Bool)
        → count q p.accepted
          ≡ count q p.input
            + count q p.received
            + count q p.working
            + count_raw q p.delivering
            + count_raw q p.output
            + count_raw q p.consumed
            + count_raw q p.timed_out
            + count q p.lost

  -- the processor keeps the message in what it returns
  abbrev pub KeepsRaw : M → Outcome M C E → Type 0
  KeepsRaw msg (returned result error) = result.raw ≡ msg
  KeepsRaw msg panicked = Unit

  abbrev pub ActionKeepsRaw : Action M C E → Type 0
  ActionKeepsRaw (processes n processor) = (msg : M) → KeepsRaw msg (processor msg)
  ActionKeepsRaw _ = Unit

  module _ (config : PoolConfig) where
    add_worker-IsConserved :
        (n : ℕ) (o : Option ℕ) (p : Pool M C E)
        → IsConserved p
        → IsConserved (add_worker config n o p)
    unfolding add_worker
    add_worker-IsConserved zero o p h = h
    add_worker-IsConserved (suc n) none p h = record { conserved = h.conserved }
    add_worker-IsConserved (suc n) (some current) p h = h

    settle_worker-IsConserved :
        (o : Option ℕ) (p : Pool M C E) → IsConserved p → IsConserved (settle_worker config o p)
    unfolding settle_worker
    settle_worker-IsConserved none p h = h
    settle_worker-IsConserved (some current) p h =
        if_cases IsConserved (ltb config.max_workers current)
          (λ e. record { conserved = h.conserved }) (λ e. record { conserved = h.conserved })

    enqueue-IsConserved :
        (o : Option (M × List M)) (p : Pool M C E)
        → IsConserved p
        → IsConserved (enqueue config o p)
    unfolding enqueue
    enqueue-IsConserved none p h = h
    enqueue-IsConserved (some (msg, others)) p h =
        if_cases IsConserved (ltb (length p.input) config.queue_size)
          (λ e. record {
            conserved = λ q. omega (
              arith,
              h.conserved q,
              count-append q p.input (msg ∷ []),
              count-append q p.accepted (msg ∷ []),
            );
          })
          (λ e. record { conserved = h.conserved })

    receive-IsConserved :
        (n : ℕ) (input : List M) (p : Pool M C E)
        → p.input ≡ input
        → IsConserved p
        → IsConserved (receive config n input p)
    unfolding receive
    receive-IsConserved zero input p e h = h
    receive-IsConserved (suc n) [] p e h =
        if_cases IsConserved _ (λ e. record { conserved = h.conserved }) (λ e. h)
    receive-IsConserved (suc n) (msg ∷ input) p e h = record {
      conserved = λ q. omega (arith, h.conserved q, ap (count q) e);
    }

    count_receive-IsConserved :
        (o : Option (M × List M)) (p : Pool M C E)
        → IsPick p.received o
        → IsConserved p
        → IsConserved (count_receive config o p)
    unfolding count_receive
    count_receive-IsConserved none p k h = h
    count_receive-IsConserved (some (msg, others)) p k h = record {
      conserved = λ q. omega (arith, h.conserved q, k.counts q);
    }

    process-IsConserved :
        (processor : M → Outcome M C E) (o : Option (M × List M)) (p : Pool M C E)
        → ((msg : M) → KeepsRaw msg (processor msg))
        → IsPick p.working o
        → IsConserved p
        → IsConserved (process config processor o p)
    unfolding process process_message
    process-IsConserved processor none p r k h = h
    process-IsConserved processor (some (msg, others)) p r k h = by_outcome (processor msg) (r msg)
      where
        by_outcome :
            (o : Outcome M C E)
            → KeepsRaw msg o
            → IsConserved (process_message config o msg others p)
        by_outcome panicked e = record { conserved = λ q. omega (arith, h.conserved q, k.counts q) }
        by_outcome (returned result none) e = record {
          conserved = λ q. omega (arith, h.conserved q, k.counts q, ap (λ m. one_if (q m)) e);
        }
        by_outcome (returned result (some error)) e = record {
          conserved = λ q. omega (arith, h.conserved q, k.counts q);
        }

    deliver-IsConserved :
        (o : Option (ProcessedMessage M C E × List (ProcessedMessage M C E))) (p : Pool M C E)
        → IsPick p.delivering o
        → IsConserved p
        → IsConserved (deliver config o p)
    unfolding deliver
    deliver-IsConserved none p k h = h
    deliver-IsConserved (some (result, others)) p k h =
        if_cases IsConserved p.closed
          (λ e. record { conserved = λ q. omega (arith, h.conserved q, k.counts (λ r. q r.raw)) })
          (λ e.
            if_cases IsConserved (ltb (length p.output) config.queue_size)
              (λ e'. record {
                conserved = λ q. omega (
                  arith,
                  h.conserved q,
                  k.counts (λ r. q r.raw),
                  count-append (λ r. q r.raw) p.output (result ∷ []),
                );
              })
              (λ e'. h))

    time_out-IsConserved :
        (o : Option (ProcessedMessage M C E × List (ProcessedMessage M C E))) (p : Pool M C E)
        → IsPick p.delivering o
        → IsConserved p
        → IsConserved (time_out config o p)
    unfolding time_out
    time_out-IsConserved none p k h = h
    time_out-IsConserved (some (result, others)) p k h = record {
      conserved = λ q. omega (arith, h.conserved q, k.counts (λ r. q r.raw));
    }

    consume-IsConserved :
        (output : List (ProcessedMessage M C E)) (p : Pool M C E)
        → p.output ≡ output
        → IsConserved p
        → IsConserved (consume config output p)
    unfolding consume
    consume-IsConserved [] p e h = h
    consume-IsConserved (result ∷ output) p e h = record {
      conserved = λ q. omega (
        arith,
        h.conserved q,
        ap (count_raw q) e,
        count-append (λ r. q r.raw) p.consumed (result ∷ []),
      );
    }

    count_submit-IsConserved :
        (n : ℕ) (p : Pool M C E) → IsConserved p → IsConserved (count_submit config n p)
    unfolding count_submit
    count_submit-IsConserved zero p h = h
    count_submit-IsConserved (suc n) p h = record { conserved = h.conserved }

    step-IsConserved :
        (action : Action M C E) (p : Pool M C E)
        → ActionKeepsRaw action
        → IsConserved p
        → IsConserved (step config action p)
    unfolding step start submit check_scale stop close_output
    step-IsConserved starts p k h =
        if_cases IsConserved (spawns_done p.to_spawn p.spawning)
          (λ e. record { conserved = h.conserved }) (λ e. h)
    step-IsConserved adds p k h = add_worker-IsConserved p.to_spawn p.spawning p h
    step-IsConserved settles p k h = settle_worker-IsConserved p.spawning p h
    step-IsConserved (submits msg) p k h =
        if_cases IsConserved p.stopped (λ e. record { conserved = h.conserved })
          (λ e. record { conserved = h.conserved })
    step-IsConserved (enqueues n) p k h = enqueue-IsConserved _ p h
    step-IsConserved counts p k h = count_submit-IsConserved p.counting p h
    step-IsConserved receives p k h = receive-IsConserved p.idle p.input p refl h
    step-IsConserved (counts_receive n) p k h =
        count_receive-IsConserved _ p (pick-IsPick n p.received) h
    step-IsConserved (processes n processor) p k h =
        process-IsConserved processor _ p k (pick-IsPick n p.working) h
    step-IsConserved (delivers n) p k h = deliver-IsConserved _ p (pick-IsPick n p.delivering) h
    step-IsConserved (times_out n) p k h = time_out-IsConserved _ p (pick-IsPick n p.delivering) h
    step-IsConserved consumes p k h = consume-IsConserved p.output p refl h
    step-IsConserved (scales filling) p k h =
        if_cases IsConserved
          (spawns_done p.to_spawn p.spawning
            && (filling && ltb p.active_workers config.max_workers))
          (λ e. record { conserved = h.conserved }) (λ e. h)
    step-IsConserved stops p k h = record { conserved = h.conserved }
    step-IsConserved closes p k h =
        if_cases IsConserved (p.stopped && (crew p == 0)) (λ e. record { conserved = h.conserved })
          (λ e. h)

    run-IsConserved :
        (actions : List (Action M C E)) (p : Pool M C E)
        → All ActionKeepsRaw actions
        → IsConserved p
        → IsConserved (run config actions p)
    unfolding run
    run-IsConserved [] p k h = h
    run-IsConserved (action ∷ actions) p (k, ks) h =
        run-IsConserved actions _ ks (step-IsConserved action p k h)

  -- However the goroutines of a new pool are interleaved, if the processor keeps the message in
  -- what it returns: every message for which Submit gave nil stands exactly once in the input, in
  -- a worker, in the output, with the consumer, among the deliveries that timed out, or among the
  -- messages lost to a panic.
  pub run-new_pool-IsConserved :
      (config : PoolConfig) (actions : List (Action M C E))
      → All ActionKeepsRaw actions
      → IsConserved (run config actions new_pool)
  run-new_pool-IsConserved config actions k =
      run-IsConserved config actions new_pool k (record { conserved = λ q. refl })
