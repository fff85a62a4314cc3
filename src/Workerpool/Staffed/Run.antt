-- ===== src/Workerpool/Staffed/Run.antt =====
-- The counters and bounds after every interleaving (pkg/workerpool/pool.go).
use spark_trade_mft_raw_data.Prelude.{
  ◌&&◌, ◌==◌, ap, ltb, ltb→lt, ℕ, suc, ◌<◌, ◌≡◌, refl, Option, none, some, List, [], ◌∷◌, length,
  length-append, arith, if_cases,
}
use spark_trade_mft_raw_data.Workerpool.{
  ProcessedMessage, Outcome, Pool, PoolConfig, spawns_done, crew, returned, panicked, start,
  check_scale, process_message, process, deliver, time_out, consume, stop, close_output, new_pool,
}
use spark_trade_mft_raw_data.Workerpool.Steps.{
  Action, starts, submits, enqueues, counts, receives, counts_receive, processes, delivers,
  times_out, consumes, scales, adds, settles, stops, closes, step, run,
}
use spark_trade_mft_raw_data.Workerpool.Picks.{IsPick, pick-IsPick}
use spark_trade_mft_raw_data.Workerpool.Staffed.{
  IsStaffed, IsRoom, IsRoom-mono, add_worker-IsStaffed, settle_worker-IsStaffed, submit-IsStaffed,
  enqueue-IsStaffed, count_submit-IsStaffed, receive-IsStaffed, count_receive-IsStaffed,
}

module _ {M C E : Type 0} where
  module _ (config : PoolConfig) (small : config.max_workers < 0x8000_0000) where
    process_message-IsStaffed :
        (o : Outcome M C E) (msg : M) (others : List M) (p : Pool M C E)
        → length p.working ≡ suc (length others)
        → IsStaffed config p
        → IsStaffed config (process_message config o msg others p)
    unfolding process_message
    process_message-IsStaffed panicked msg others p k h = record {
      staff = omega (arith, k, h.staff);
      staff_le = IsRoom-mono config.max_workers p.spawning (omega (arith, k)) h.staff_le;
      depth_lt = h.depth_lt;
      depth = h.depth;
      input_le = h.input_le;
      output_le = h.output_le;
      drops = h.drops;
    }
    process_message-IsStaffed (returned result none) msg others p k h = record {
      staff = omega (arith, k, h.staff);
      staff_le = IsRoom-mono config.max_workers p.spawning (omega (arith, k)) h.staff_le;
      depth_lt = h.depth_lt;
      depth = h.depth;
      input_le = h.input_le;
      output_le = h.output_le;
      drops = h.drops;
    }
    process_message-IsStaffed (returned result (some error)) msg others p k h = record {
      staff = omega (arith, k, h.staff);
      staff_le = IsRoom-mono config.max_workers p.spawning (omega (arith, k)) h.staff_le;
      depth_lt = h.depth_lt;
      depth = h.depth;
      input_le = h.input_le;
      output_le = h.output_le;
      drops = h.drops;
    }

    process-IsStaffed :
        (processor : M → Outcome M C E) (o : Option (M × List M)) (p : Pool M C E)
        → IsPick p.working o
        → IsStaffed config p
        → IsStaffed config (process config processor o p)
    unfolding process
    process-IsStaffed processor none p k h = h
    process-IsStaffed processor (some (msg, others)) p k h =
        process_message-IsStaffed (processor msg) msg others p k.lengths h

    deliver-IsStaffed :
        (o : Option (ProcessedMessage M C E × List (ProcessedMessage M C E))) (p : Pool M C E)
        → IsPick p.delivering o
        → IsStaffed config p
        → IsStaffed config (deliver config o p)
    unfolding deliver
    deliver-IsStaffed none p k h = h
    deliver-IsStaffed (some (result, others)) p k h =
        let l = length-append p.output (result ∷ []) in
        if_cases (IsStaffed config) p.closed
          (λ e. record {
            staff = omega (arith, k.lengths, h.staff);
            staff_le =
                IsRoom-mono config.max_workers p.spawning (omega (arith, k.lengths)) h.staff_le;
            depth_lt = h.depth_lt;
            depth = h.depth;
            input_le = h.input_le;
            output_le = h.output_le;
            drops = h.drops;
          })
          (λ e.
            if_cases (IsStaffed config) (ltb (length p.output) config.queue_size)
              (λ e'. record {
                staff = omega (arith, k.lengths, h.staff);
                staff_le =
                    IsRoom-mono config.max_workers p.spawning (omega (arith, k.lengths)) h.staff_le;
                depth_lt = h.depth_lt;
                depth = h.depth;
                input_le = h.input_le;
                output_le = omega (arith, l, ltb→lt _ _ e');
                drops = h.drops;
              })
              (λ e'. h))

    time_out-IsStaffed :
        (o : Option (ProcessedMessage M C E × List (ProcessedMessage M C E))) (p : Pool M C E)
        → IsPick p.delivering o
        → IsStaffed config p
        → IsStaffed config (time_out config o p)
    unfolding time_out
    time_out-IsStaffed none p k h = h
    time_out-IsStaffed (some (result, others)) p k h = record {
      staff = omega (arith, k.lengths, h.staff);
      staff_le = IsRoom-mono config.max_workers p.spawning (omega (arith, k.lengths)) h.staff_le;
      depth_lt = h.depth_lt;
      depth = h.depth;
      input_le = h.input_le;
      output_le = h.output_le;
      drops = omega (arith, h.drops);
    }

    consume-IsStaffed :
        (output : List (ProcessedMessage M C E)) (p : Pool M C E)
        → p.output ≡ output
        → IsStaffed config p
        → IsStaffed config (consume config output p)
    unfolding consume
    consume-IsStaffed [] p e h = h
    consume-IsStaffed (result ∷ output) p e h = record {
      staff = h.staff;
      staff_le = h.staff_le;
      depth_lt = h.depth_lt;
      depth = h.depth;
      input_le = h.input_le;
      output_le = omega (arith, ap length e, h.output_le);
      drops = h.drops;
    }

    -- the calls of spawnWorker that are still to be made
    planned :
        (p : Pool M C E) (n : ℕ) → IsStaffed config p → IsStaffed config (record p { to_spawn = n })
    planned p n h = record {
      staff = h.staff;
      staff_le = h.staff_le;
      depth_lt = h.depth_lt;
      depth = h.depth;
      input_le = h.input_le;
      output_le = h.output_le;
      drops = h.drops;
    }

    step-IsStaffed :
        (action : Action M C E) (p : Pool M C E)
        → IsStaffed config p
        → IsStaffed config (step config action p)
    unfolding step start check_scale stop close_output
    step-IsStaffed starts p h =
        if_cases (IsStaffed config) (spawns_done p.to_spawn p.spawning) (λ e. planned p _ h)
          (λ e. h)
    step-IsStaffed adds p h = add_worker-IsStaffed config small p.to_spawn p.spawning p refl h
    step-IsStaffed settles p h = settle_worker-IsStaffed config small p.spawning p refl h
    step-IsStaffed (submits msg) p h = submit-IsStaffed config small msg p h
    step-IsStaffed (enqueues n) p h = enqueue-IsStaffed config small _ p h
    step-IsStaffed counts p h = count_submit-IsStaffed config small p.counting p refl h
    step-IsStaffed receives p h = receive-IsStaffed config small p.idle p.input p refl refl h
    step-IsStaffed (counts_receive n) p h =
        count_receive-IsStaffed config small _ p (pick-IsPick n p.received) h
    step-IsStaffed (processes n processor) p h =
        process-IsStaffed processor _ p (pick-IsPick n p.working) h
    step-IsStaffed (delivers n) p h = deliver-IsStaffed _ p (pick-IsPick n p.delivering) h
    step-IsStaffed (times_out n) p h = time_out-IsStaffed _ p (pick-IsPick n p.delivering) h
    step-IsStaffed consumes p h = consume-IsStaffed p.output p refl h
    step-IsStaffed (scales filling) p h =
        if_cases (IsStaffed config)
          (spawns_done p.to_spawn p.spawning
            && (filling && ltb p.active_workers config.max_workers))
          (λ e. planned p _ h) (λ e. h)
    step-IsStaffed stops p h = record {
      staff = h.staff;
      staff_le = h.staff_le;
      depth_lt = h.depth_lt;
      depth = h.depth;
      input_le = h.input_le;
      output_le = h.output_le;
      drops = h.drops;
    }
    step-IsStaffed closes p h =
        if_cases (IsStaffed config) (p.stopped && (crew p == 0))
          (λ e. record {
            staff = h.staff;
            staff_le = h.staff_le;
            depth_lt = h.depth_lt;
            depth = h.depth;
            input_le = h.input_le;
            output_le = h.output_le;
            drops = h.drops;
          })
          (λ e. h)

    run-IsStaffed :
        (actions : List (Action M C E)) (p : Pool M C E)
        → IsStaffed config p
        → IsStaffed config (run config actions p)
    unfolding run
    run-IsStaffed [] p h = h
    run-IsStaffed (action ∷ actions) p h = run-IsStaffed actions _ (step-IsStaffed action p h)

  -- However the goroutines of a new pool with a limit below 2 ^ 31 are interleaved, where
  -- Start and the checkScale of its autoscaler call spawnWorker one behind the other: the workers
  -- stay within the limit; the counter of the workers is their number, and one more while
  -- spawnWorker stands between its Add(1) and the end of its comparison; the queue depth is, modulo
  -- 2 ^ 32, the number of messages queued, with those received but not yet taken off and less those
  -- sent but not yet added; both channels stay within the queue size; and the count of drops is, modulo
  -- 2 ^ 64, the calls of Submit with an error and the deliveries that timed out.
  pub run-new_pool-IsStaffed :
      (config : PoolConfig) (actions : List (Action M C E))
      → config.max_workers < 0x8000_0000
      → IsStaffed config (run config actions new_pool)
  unfolding IsRoom
  run-new_pool-IsStaffed config actions small = run-IsStaffed config small actions new_pool record {
    staff = refl;
    staff_le = omega arith;
    depth_lt = omega arith;
    depth = refl;
    input_le = omega arith;
    output_le = omega arith;
    drops = refl;
  }
