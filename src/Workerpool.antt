-- ===== src/Workerpool.antt =====
-- pkg/workerpool/pool.go: the pool of workers between the inbound frames and the outbound events.
-- Every step that one goroutine takes alone is one function, so that every interleaving of the
-- submitters, the workers, the autoscaler, the consumer and Stop is a list of actions. An action
-- that is not possible leaves the pool as it is. Deadlines of a context, the error list and the
-- metrics are left out; the clock's readings are.
pub mod Picks
pub mod Steps
pub mod Conserved
pub mod Staffed
use spark_trade_mft_raw_data.Prelude.{
  ℕ, zero, suc, ◌+◌, ◌*◌, ◌-◌, ◌/◌, ◌%◌, Bool, true, false, ◌&&◌, not, Option, none, some, List, [],
  ◌∷◌, ◌++◌, length, ltb, leb, ◌==◌, if◌then◌else◌,
}
use spark_trade_mft_raw_data.Prelude.Int.{ℤ, pos, negsuc}
use spark_trade_mft_raw_data.Prelude.Word.{inc_uint64}
use spark_trade_mft_raw_data.Floats.{Floats}

-- ProcessedMessage: messages M, canonical events C, errors E
pub record ProcessedMessage (M C E : Type 0) : Type 0 where
  pub raw : M
  pub canonical : Option C
  pub error : Option E

-- what a call of the processor does
pub data Outcome (M C E : Type 0) : Type 0 where
  returned : ProcessedMessage M C E → Option E → Outcome M C E
  panicked : Outcome M C E

-- atomic.Int32, by its 32 bits
abbrev pub inc_int32 : ℕ → ℕ
inc_int32 n = (n + 1) % 0x1_0000_0000

abbrev pub dec_int32 : ℕ → ℕ
dec_int32 n = (n + 0xffff_ffff) % 0x1_0000_0000

-- The fields of Pool that change, where its goroutines stand, and what has come out.
pub record Pool (M C E : Type 0) : Type 0 where
  pub input : List M
  pub output : List (ProcessedMessage M C E)
  pub active_workers : ℕ
  pub queue_depth : ℕ
  pub processed : ℕ
  pub dropped : ℕ
  pub errors : ℕ
  pub stopped : Bool
  pub closed : Bool  -- the output channel
  -- the calls of Submit that have seen `stopped` false, and those that have yet to count
  pub submitting : List M
  pub counting : ℕ
  -- the calls of spawnWorker that Start or checkScale have still to make, and what Add(1) has given to
  -- the one that has not yet compared it
  pub to_spawn : ℕ
  pub spawning : Option ℕ
  -- the workers that wait, have a message, run the processor, and deliver
  pub idle : ℕ
  pub received : List M
  pub working : List M
  pub delivering : List (ProcessedMessage M C E)
  -- the messages for which Submit gave nil, the other calls, and where the messages went
  pub accepted : List M
  pub rejected : ℕ
  pub consumed : List (ProcessedMessage M C E)
  pub timed_out : List (ProcessedMessage M C E)
  pub lost : List M

-- PoolConfig and its defaults in NewPool
pub record PoolConfig : Type 0 where
  pub min_workers : ℕ
  pub max_workers : ℕ
  pub queue_size : ℕ

unfoldable pub or_default : ℕ → ℤ → ℕ
or_default d (pos zero) = d
or_default d (pos (suc n)) = suc n
or_default d (negsuc n) = d

unfoldable pub new_config : ℤ → ℤ → ℤ → PoolConfig
unfolding or_default
new_config min_workers max_workers queue_size = record {
  min_workers = or_default 50 min_workers;
  max_workers = or_default 100 max_workers;
  queue_size = or_default 10000 queue_size;
}

abbrev pub new_pool : {M C E : Type 0} → Pool M C E
new_pool = record {
  input = [];
  output = [];
  active_workers = 0;
  queue_depth = 0;
  processed = 0;
  dropped = 0;
  errors = 0;
  stopped = false;
  closed = false;
  submitting = [];
  counting = 0;
  to_spawn = 0;
  spawning = none;
  idle = 0;
  received = [];
  working = [];
  delivering = [];
  accepted = [];
  rejected = 0;
  consumed = [];
  timed_out = [];
  lost = [];
}

-- `toAdd` of checkScale: a quarter of the workers that are missing, but no fewer than 10
unfoldable pub workers_to_add : ℕ → ℕ
workers_to_add missing = if ltb (missing / 4) 10 then 10 else missing / 4

-- no call of spawnWorker is under way or left
unfoldable pub spawns_done : ℕ → Option ℕ → Bool
spawns_done zero none = true
spawns_done zero (some current) = false
spawns_done (suc n) spawning = false

-- The loop of checkScale: it calls spawnWorker at most `to_add` times, as long as its own count is
-- below the limit.
unfoldable pub scale_calls : ℕ → ℕ → ℕ → ℕ
scale_calls max_workers zero workers = zero
scale_calls max_workers (suc to_add) workers =
    let rest = scale_calls max_workers to_add (suc workers) in
    if ltb workers max_workers then suc rest else zero

-- the workers, which the WaitGroup counts
abbrev pub crew : {M C E : Type 0} → Pool M C E → ℕ
crew p = p.idle + length p.received + length p.working + length p.delivering

module _ (config : PoolConfig) {M C E : Type 0} where
  -- the Add(1) of a call of spawnWorker, behind the call before it
  unfoldable pub add_worker : ℕ → Option ℕ → Pool M C E → Pool M C E
  add_worker zero spawning p = p
  add_worker (suc n) (some current) p = p
  add_worker (suc n) none p = record p {
    to_spawn = n;
    active_workers = inc_int32 p.active_workers;
    spawning = some (inc_int32 p.active_workers);
  }

  -- its comparison, with the Add(-1) or the new worker
  unfoldable pub settle_worker : Option ℕ → Pool M C E → Pool M C E
  settle_worker none p = p
  settle_worker (some current) p =
      if ltb config.max_workers current
      then record p { spawning = none; active_workers = dec_int32 p.active_workers }
      else record p { spawning = none; idle = suc p.idle }

  -- Start, which has to call spawnWorker so often; its autoscaler begins behind these calls
  unfoldable pub start : Pool M C E → Pool M C E
  unfolding spawns_done
  start p =
      if spawns_done p.to_spawn p.spawning then record p { to_spawn = config.min_workers } else p

  -- checkScale up to its loop, given whether the utilization has reached the threshold; the
  -- autoscaler calls it once the calls of spawnWorker before it have ended
  unfoldable pub check_scale : Bool → Pool M C E → Pool M C E
  unfolding scale_calls workers_to_add spawns_done
  check_scale filling p =
      if spawns_done p.to_spawn p.spawning && (filling && ltb p.active_workers config.max_workers)
      then record p {
        to_spawn =
            scale_calls config.max_workers (workers_to_add (config.max_workers - p.active_workers))
              p.active_workers;
      }
      else p

  -- Submit up to its test of `stopped`
  unfoldable pub submit : M → Pool M C E → Pool M C E
  submit msg p =
      if p.stopped
      then record p { dropped = inc_uint64 p.dropped; rejected = suc p.rejected }
      else record p { submitting = msg ∷ p.submitting }

  -- the `select` of Submit
  unfoldable pub enqueue : Option (M × List M) → Pool M C E → Pool M C E
  enqueue none p = p
  enqueue (some (msg, others)) p =
      if ltb (length p.input) config.queue_size
      then record p {
        submitting = others;
        input = p.input ++ (msg ∷ []);
        counting = suc p.counting;
        accepted = p.accepted ++ (msg ∷ []);
      }
      else record p {
        submitting = others;
        dropped = inc_uint64 p.dropped;
        rejected = suc p.rejected;
      }

  -- `p.queueDepth.Add(1)` of a Submit
  unfoldable pub count_submit : ℕ → Pool M C E → Pool M C E
  count_submit zero p = p
  count_submit (suc n) p = record p { counting = n; queue_depth = inc_int32 p.queue_depth }

  -- A worker that waits, with the input: it receives the first message; when there is none, it
  -- exits if the context is cancelled.
  unfoldable pub receive : ℕ → List M → Pool M C E → Pool M C E
  receive zero input p = p
  receive (suc n) [] p =
      if p.stopped then record p { idle = n; active_workers = dec_int32 p.active_workers } else p
  receive (suc n) (msg ∷ input) p = record p {
    idle = n;
    input = input;
    received = msg ∷ p.received;
  }

  -- `p.queueDepth.Add(-1)` of a worker
  unfoldable pub count_receive : Option (M × List M) → Pool M C E → Pool M C E
  count_receive none p = p
  count_receive (some (msg, others)) p = record p {
    received = others;
    working = msg ∷ p.working;
    queue_depth = dec_int32 p.queue_depth;
  }

  -- processMessage up to its `select`, by what the processor does: a panic of it is recovered and
  -- counted, an error of it replaces what it returned
  unfoldable pub process_message : Outcome M C E → M → List M → Pool M C E → Pool M C E
  process_message panicked msg others p = record p {
    working = others;
    errors = inc_uint64 p.errors;
    idle = suc p.idle;
    lost = msg ∷ p.lost;
  }
  process_message (returned result none) msg others p = record p {
    working = others;
    processed = inc_uint64 p.processed;
    delivering = result ∷ p.delivering;
  }
  process_message (returned result (some err)) msg others p = record p {
    working = others;
    errors = inc_uint64 p.errors;
    processed = inc_uint64 p.processed;
    delivering = record { raw = msg; canonical = none; error = some err } ∷ p.delivering;
  }

  unfoldable pub process : (M → Outcome M C E) → Option (M × List M) → Pool M C E → Pool M C E
  unfolding process_message
  process processor none p = p
  process processor (some (msg, others)) p = process_message (processor msg) msg others p

  -- The `select` of processMessage, its output side: it waits while the buffer is full; a send on
  -- the closed channel panics, which is recovered and counted.
  unfoldable pub deliver :
      Option (ProcessedMessage M C E × List (ProcessedMessage M C E)) → Pool M C E → Pool M C E
  deliver none p = p
  deliver (some (result, others)) p =
      if p.closed
      then record p {
        delivering = others;
        errors = inc_uint64 p.errors;
        idle = suc p.idle;
        lost = result.raw ∷ p.lost;
      }
      else if ltb (length p.output) config.queue_size
      then record p { delivering = others; output = p.output ++ (result ∷ []); idle = suc p.idle }
      else p

  -- and its timer
  unfoldable pub time_out :
      Option (ProcessedMessage M C E × List (ProcessedMessage M C E)) → Pool M C E → Pool M C E
  time_out none p = p
  time_out (some (result, others)) p = record p {
    delivering = others;
    dropped = inc_uint64 p.dropped;
    idle = suc p.idle;
    timed_out = result ∷ p.timed_out;
  }

  -- a receive from Output()
  unfoldable pub consume : List (ProcessedMessage M C E) → Pool M C E → Pool M C E
  consume [] p = p
  consume (result ∷ output) p = record p { output = output; consumed = p.consumed ++ (result ∷ []) }

  -- Stop, up to its wait, and after it
  unfoldable pub stop : Pool M C E → Pool M C E
  stop p = record p { stopped = true }

  unfoldable pub close_output : Pool M C E → Pool M C E
  close_output p = if p.stopped && (crew p == 0) then record p { closed = true } else p
