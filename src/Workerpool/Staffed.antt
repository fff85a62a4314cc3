-- ===== src/Workerpool/Staffed.antt =====
-- The counters and bounds of the pool (pkg/workerpool/pool.go).
pub mod Run
use spark_trade_mft_raw_data.Prelude.{
  ◌&&◌, ◌-◌, ◌==◌, ap, subst, ltb, ltb→lt, ℕ, zero, suc, ◌+◌, ◌%◌, ◌<◌, ◌≤◌, ◌≡◌, refl, Option,
  none, some, List, [], ◌∷◌, length, length-append, arith, if_cases,
}
use spark_trade_mft_raw_data.Workerpool.{
  ProcessedMessage, Outcome, Pool, PoolConfig, returned, panicked, add_worker, settle_worker,
  spawns_done, crew, start, check_scale, submit, enqueue, count_submit, receive, count_receive,
  process_message, process, deliver, time_out, consume, stop, close_output, workers_to_add,
  new_pool, inc_int32,
}
use spark_trade_mft_raw_data.Workerpool.Steps.{
  Action, starts, submits, enqueues, counts, receives, counts_receive, processes, delivers,
  times_out, consumes, scales, adds, settles, stops, closes, step, run,
}
use spark_trade_mft_raw_data.Workerpool.Picks.{IsPick, pick-IsPick}

-- what a call of spawnWorker has added to the counter for a worker that is not there yet
abbrev pub awaited : Option ℕ → ℕ
awaited none = 0
awaited (some current) = 1

-- The workers are within the limit; and with the one that a call of spawnWorker is about, they are no
-- more than what its Add(1) has given, which is at most one above the limit.
unfoldable pub IsRoom : ℕ → Option ℕ → ℕ → Type 0
IsRoom max none workers = workers ≤ max
IsRoom max (some current) workers = (workers ≤ max) × (suc workers ≤ current) × (current ≤ suc max)

pub IsRoom-mono : (max : ℕ) (o : Option ℕ) {w v : ℕ} → v ≤ w → IsRoom max o w → IsRoom max o v
unfolding IsRoom
IsRoom-mono max none l h = omega arith
IsRoom-mono max (some current) l (a, b, c) = (omega arith, omega arith, c)

-- the counter is then at most one above the limit
IsRoom-le : (max : ℕ) (o : Option ℕ) (w : ℕ) → IsRoom max o w → w + awaited o ≤ suc max
unfolding IsRoom
IsRoom-le max none w h = omega arith
IsRoom-le max (some current) w (a, b, c) = omega arith

module _ {M C E : Type 0} where
  pub record IsStaffed (config : PoolConfig) (p : Pool M C E) : Type 0 where
    -- the counter of workers is their number, and one more while spawnWorker stands between its
    -- Add(1) and the end of its comparison
    pub staff : p.active_workers ≡ crew p + awaited p.spawning
    pub staff_le : IsRoom config.max_workers p.spawning (crew p)
    -- the queue depth is the length of the queue, but for the calls that have yet to count
    pub depth_lt : p.queue_depth < 0x1_0000_0000
    pub depth :
        (p.queue_depth + p.counting) % 0x1_0000_0000
        ≡ (length p.input + length p.received) % 0x1_0000_0000
    pub input_le : length p.input ≤ config.queue_size
    pub output_le : length p.output ≤ config.queue_size
    -- the drops are the calls of Submit with an error and the deliveries that timed out
    pub drops : p.dropped ≡ (p.rejected + length p.timed_out) % 0x1_0000_0000_0000_0000

  module _ (config : PoolConfig) (small : config.max_workers < 0x8000_0000) where
    pub add_worker-IsStaffed :
        (n : ℕ) (o : Option ℕ) (p : Pool M C E)
        → p.spawning ≡ o
        → IsStaffed config p
        → IsStaffed config (add_worker config n o p)
    unfolding add_worker IsRoom
    add_worker-IsStaffed zero o p e h = h
    add_worker-IsStaffed (suc n) (some current) p e h = h
    add_worker-IsStaffed (suc n) none p e h =
        let free : crew p ≤ config.max_workers =
          subst (λ o. IsRoom config.max_workers o (crew p)) e h.staff_le in
        let counter : p.active_workers ≡ crew p = omega (arith, h.staff, ap awaited e) in
        record {
          staff = omega (arith, counter, free);
          staff_le = (free, omega (arith, counter, free), omega (arith, counter, free));
          depth_lt = h.depth_lt;
          depth = h.depth;
          input_le = h.input_le;
          output_le = h.output_le;
          drops = h.drops;
        }

    pub settle_worker-IsStaffed :
        (o : Option ℕ) (p : Pool M C E)
        → p.spawning ≡ o
        → IsStaffed config p
        → IsStaffed config (settle_worker config o p)
    unfolding settle_worker IsRoom
    settle_worker-IsStaffed none p e h = h
    settle_worker-IsStaffed (some current) p e h =
        let (free, below, high) = subst (λ o. IsRoom config.max_workers o (crew p)) e h.staff_le in
        let counter : p.active_workers ≡ crew p + 1 = omega (arith, h.staff, ap awaited e) in
        if_cases (IsStaffed config) (ltb config.max_workers current)
          (λ _. record {
            staff = omega (arith, counter, free);
            staff_le = free;
            depth_lt = h.depth_lt;
            depth = h.depth;
            input_le = h.input_le;
            output_le = h.output_le;
            drops = h.drops;
          })
          (λ past. record {
            staff = omega (arith, counter);
            staff_le = ground (arith, below, past);
            depth_lt = h.depth_lt;
            depth = h.depth;
            input_le = h.input_le;
            output_le = h.output_le;
            drops = h.drops;
          })

    pub enqueue-IsStaffed :
        (o : Option (M × List M)) (p : Pool M C E)
        → IsStaffed config p
        → IsStaffed config (enqueue config o p)
    unfolding enqueue
    enqueue-IsStaffed none p h = h
    enqueue-IsStaffed (some (msg, others)) p h =
        let l = length-append p.input (msg ∷ []) in
        if_cases (IsStaffed config) (ltb (length p.input) config.queue_size)
          (λ e. record {
            staff = h.staff;
            staff_le = h.staff_le;
            depth_lt = h.depth_lt;
            depth = omega (arith, l, h.depth);
            input_le = omega (arith, l, ltb→lt _ _ e);
            output_le = h.output_le;
            drops = h.drops;
          })
          (λ e. record {
            staff = h.staff;
            staff_le = h.staff_le;
            depth_lt = h.depth_lt;
            depth = h.depth;
            input_le = h.input_le;
            output_le = h.output_le;
            drops = omega (arith, h.drops);
          })

    pub submit-IsStaffed :
        (msg : M) (p : Pool M C E) → IsStaffed config p → IsStaffed config (submit config msg p)
    unfolding submit
    submit-IsStaffed msg p h =
        if_cases (IsStaffed config) p.stopped
          (λ e. record {
            staff = h.staff;
            staff_le = h.staff_le;
            depth_lt = h.depth_lt;
            depth = h.depth;
            input_le = h.input_le;
            output_le = h.output_le;
            drops = omega (arith, h.drops);
          })
          (λ e. record {
            staff = h.staff;
            staff_le = h.staff_le;
            depth_lt = h.depth_lt;
            depth = h.depth;
            input_le = h.input_le;
            output_le = h.output_le;
            drops = h.drops;
          })

    pub count_submit-IsStaffed :
        (n : ℕ) (p : Pool M C E)
        → p.counting ≡ n
        → IsStaffed config p
        → IsStaffed config (count_submit config n p)
    unfolding count_submit
    count_submit-IsStaffed zero p e h = h
    count_submit-IsStaffed (suc n) p e h = record {
      staff = h.staff;
      staff_le = h.staff_le;
      depth_lt = omega arith;
      depth = omega (arith, e, h.depth);
      input_le = h.input_le;
      output_le = h.output_le;
      drops = h.drops;
    }

    pub receive-IsStaffed :
        (n : ℕ) (input : List M) (p : Pool M C E)
        → p.idle ≡ n
        → p.input ≡ input
        → IsStaffed config p
        → IsStaffed config (receive config n input p)
    unfolding receive
    receive-IsStaffed zero input p i e h = h
    receive-IsStaffed (suc n) [] p i e h =
        if_cases (IsStaffed config) p.stopped
          (λ e. record {
            staff =
                omega
                  (arith, i, h.staff, IsRoom-le config.max_workers p.spawning (crew p) h.staff_le);
            staff_le = IsRoom-mono config.max_workers p.spawning (omega (arith, i)) h.staff_le;
            depth_lt = h.depth_lt;
            depth = h.depth;
            input_le = h.input_le;
            output_le = h.output_le;
            drops = h.drops;
          })
          (λ e. h)
    receive-IsStaffed (suc n) (msg ∷ input) p i e h =
        let l = ap length e in
        record {
          staff = omega (arith, i, h.staff);
          staff_le = IsRoom-mono config.max_workers p.spawning (omega (arith, i)) h.staff_le;
          depth_lt = h.depth_lt;
          depth = omega (arith, l, h.depth);
          input_le = omega (arith, l, h.input_le);
          output_le = h.output_le;
          drops = h.drops;
        }

    pub count_receive-IsStaffed :
        (o : Option (M × List M)) (p : Pool M C E)
        → IsPick p.received o
        → IsStaffed config p
        → IsStaffed config (count_receive config o p)
    unfolding count_receive
    count_receive-IsStaffed none p k h = h
    count_receive-IsStaffed (some (msg, others)) p k h = record {
      staff = omega (arith, k.lengths, h.staff);
      staff_le = IsRoom-mono config.max_workers p.spawning (omega (arith, k.lengths)) h.staff_le;
      depth_lt = omega arith;
      depth = omega (arith, k.lengths, h.depth);
      input_le = h.input_le;
      output_le = h.output_le;
      drops = h.drops;
    }
