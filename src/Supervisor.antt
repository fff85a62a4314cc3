-- ===== src/Supervisor.antt =====
-- pkg/process/process.go: a child process, restarted by its monitor. How a run of the child ends is
-- an argument of the step; `launches` and `waits` record what the monitor has done.
pub mod Schedule
pub mod Waits
pub mod Retries
pub mod Manager
use spark_trade_mft_raw_data.Prelude.{
  ℕ, suc, ◌+◌, ◌-◌, Bool, true, false, ◌&&◌, ◌||◌, not, List, [], ◌∷◌, ◌++◌, length, get_or, ltb,
  leb, ◌==◌, if◌then◌else◌,
}
use spark_trade_mft_raw_data.Prelude.Int.{ℤ, pos, negsuc}
use spark_trade_mft_raw_data.Workerpool.{inc_int32}

-- DefaultBackoff, in seconds
abbrev pub default_backoff : List ℕ
default_backoff = 1 ∷ 2 ∷ 4 ∷ 8 ∷ 16 ∷ 30 ∷ []

-- Process with its RestartPolicy; no retries stand for any number of them
pub record Process : Type 0 where
  pub max_retries : ℕ
  pub backoff : List ℕ
  pub started : Bool
  pub stopped : Bool
  pub cancelled : Bool  -- the context
  pub running : Bool
  pub finished : Bool  -- the monitor has returned
  pub waiting : Bool  -- the monitor is in backoffWait
  pub restarts : ℕ
  pub attempt : ℕ
  pub exit_code : ℤ
  pub launches : ℕ
  pub waits : List ℕ

-- New, with a policy
abbrev pub new_process : ℕ → List ℕ → Process
new_process max_retries backoff = record {
  max_retries = max_retries;
  backoff = backoff;
  started = false;
  stopped = false;
  cancelled = false;
  running = false;
  finished = false;
  waiting = false;
  restarts = 0;
  attempt = 0;
  exit_code = pos 0;
  launches = 0;
  waits = [];
}

-- Start: whether it is the first one
unfoldable pub start_process : Process → Bool × Process
start_process p =
    if p.started then (false, p) else (true, record p { started = true; exit_code = negsuc 0 })

-- the wait that backoffWait takes from the policy
unfoldable pub backoff_delay : List ℕ → ℕ → ℕ
backoff_delay backoff attempt =
    let bp = if length backoff == 0 then default_backoff else backoff in
    let idx = if leb (length bp) attempt then length bp - 1 else attempt in get_or bp idx 0

-- `restarts > MaxRetries`, on the int32 that the counter's bits stand for
abbrev pub is_past : ℕ → ℕ → Bool
is_past max_retries restarts =
    ltb 0 max_retries && (ltb max_retries restarts && ltb restarts 0x8000_0000)

-- the end of an iteration of monitor, up to its wait: the child has crashed or did not start
unfoldable pub crashed : Process → Process
crashed p =
    let n = inc_int32 p.restarts in
    if is_past p.max_retries n
    then record p { restarts = n; finished = true }
    else record p { restarts = n; waiting = true }

-- The end of backoffWait: by its timer, or, once the context is cancelled, after a time that is no
-- longer than that.
unfoldable pub wake : ℕ → Process → Process
unfolding backoff_delay
wake elapsed p =
    let d = backoff_delay p.backoff p.attempt in
    if p.waiting
    then record p {
      waits = p.waits ++ ((if p.cancelled && ltb elapsed d then elapsed else d) ∷ []);
      attempt = p.attempt + 1;
      waiting = false;
    }
    else p

-- Stop, up to its wait for the monitor, and whether it gets there: the cancel function is nil before
-- Start, and calling it panics.
unfoldable pub stop_process : Process → Bool × Process
stop_process p =
    if p.stopped
    then (true, p)
    else if p.started
    then (true, record p { stopped = true; cancelled = true })
    else (false, record p { stopped = true })

-- How a run of the child ends: it does not start, or it exits with a code, and Stop was called
-- meanwhile or not.
pub data ChildRun : Type 0 where
  start_failed : ChildRun
  exited : ℤ → Bool → ChildRun

unfoldable pub after_exit : ℤ → Process → Process
unfolding crashed
after_exit code p =
    let q : Process = record p { launches = p.launches + 1; running = false; exit_code = code } in
    if p.stopped then record q { finished = true } else crashed q

unfoldable pub after_run : ChildRun → Process → Process
unfolding crashed after_exit stop_process
after_run start_failed p = crashed (record p { launches = p.launches + 1 })
after_run (exited code true) p = after_exit code (stop_process p).1
after_run (exited code false) p = after_exit code p

-- an iteration of monitor up to its wait; it ends at its top when the context is cancelled
unfoldable pub monitor_step : ChildRun → Process → Process
unfolding after_run
monitor_step run p =
    if not p.started || (p.finished || p.waiting)
    then p
    else if p.cancelled
    then record p { finished = true }
    else after_run run p

pub data ProcessOp : Type 0 where
  starts stops : ProcessOp
  runs : ChildRun → ProcessOp
  wakes : ℕ → ProcessOp

unfoldable pub process_step : ProcessOp → Process → Process
unfolding start_process monitor_step stop_process wake
process_step starts p = (start_process p).1
process_step stops p = (stop_process p).1
process_step (runs run) p = monitor_step run p
process_step (wakes elapsed) p = wake elapsed p

unfoldable pub process_run : List ProcessOp → Process → Process
unfolding process_step
process_run [] p = p
process_run (op ∷ ops) p = process_run ops (process_step op p)
