-- ===== src/Supervisor/Manager.antt =====
-- pkg/process/manager.go: several processes together.
use text.Mathlib.Text.{◌==◌ as str_eq}
use spark_trade_mft_raw_data.Prelude.{
  ℕ, zero, suc, ◌+◌, ◌≤◌, ◌<◌, String, not, ◌&&◌, Option, none, some, List, [], ◌∷◌, ◌++◌, map,
  if◌then◌else◌, Bool, true, false,
}
use spark_trade_mft_raw_data.Supervisor.{
  Process, new_process, start_process, stop_process, wake, ChildRun, monitor_step,
}
use spark_trade_mft_raw_data.Supervisor.Retries.{IsBounded}
use spark_trade_mft_raw_data.Supervisor.Waits.{IsWaited}

pub record Managed : Type 0 where
  pub name : String
  pub process : Process

-- add, and NewManager; nil is `none`
unfoldable pub add : Option Managed → List Managed → List Managed
add none ps = ps
add (some p) ps = ps ++ (p ∷ [])

unfoldable pub add_all : List (Option Managed) → List Managed → List Managed
unfolding add
add_all [] ps = ps
add_all (p ∷ rest) ps = add_all rest (add p ps)

-- Get: the last process with the name, which the map has kept; none has the empty name
unfoldable pub get : String → List Managed → Option Managed
get name [] = none
get name (p ∷ ps) = elim (get name ps) [
  | none ↦ if str_eq p.name name && not (str_eq p.name "") then some p else none
  | some q ↦ some q
]

-- Names
abbrev pub names : List Managed → List String
names ps = map (λ (p : Managed). p.name) ps

-- StartAll: the number of errors
unfoldable pub start_all : List Managed → ℕ × List Managed
unfolding start_process
start_all [] = (0, [])
start_all (p ∷ ps) =
    let (ok, q) = start_process p.process in
    let (errs, qs) = start_all ps in (if ok then errs else suc errs, record p { process = q } ∷ qs)

-- StopAll, from the last to the first, less its waits for the monitors, and whether it gets through:
-- a Stop that panics ends it
unfoldable pub stop_all : List Managed → Bool × List Managed
unfolding stop_process
stop_all [] = (true, [])
stop_all (p ∷ ps) =
    let (ok, qs) = stop_all ps in
    let (stopped, q) = stop_process p.process in
    if ok then (stopped, record p { process = q } ∷ qs) else (false, p ∷ qs)

-- an iteration of the monitor of one process
unfoldable pub child_ran : ℕ → ChildRun → List Managed → List Managed
unfolding monitor_step
child_ran k run [] = []
child_ran zero run (p ∷ ps) = record p { process = monitor_step run p.process } ∷ ps
child_ran (suc k) run (p ∷ ps) = p ∷ child_ran k run ps

-- the end of the wait of the monitor of one process
unfoldable pub child_woke : ℕ → ℕ → List Managed → List Managed
unfolding wake
child_woke k elapsed [] = []
child_woke zero elapsed (p ∷ ps) = record p { process = wake elapsed p.process } ∷ ps
child_woke (suc k) elapsed (p ∷ ps) = p ∷ child_woke k elapsed ps

pub data ManagerOp : Type 0 where
  starts_all stops_all : ManagerOp
  runs_child : ℕ → ChildRun → ManagerOp
  wakes_child : ℕ → ℕ → ManagerOp

unfoldable pub manager_step : ManagerOp → List Managed → List Managed
unfolding start_all stop_all child_ran child_woke
manager_step starts_all ps = (start_all ps).1
manager_step stops_all ps = (stop_all ps).1
manager_step (runs_child k run) ps = child_ran k run ps
manager_step (wakes_child k elapsed) ps = child_woke k elapsed ps

unfoldable pub manager_run : List ManagerOp → List Managed → List Managed
unfolding manager_step
manager_run [] ps = ps
manager_run (op ∷ ops) ps = manager_run ops (manager_step op ps)

-- a name with the retries and the backoff of a process
pub record Policy : Type 0 where
  pub name : String
  pub max_retries : ℕ
  pub backoff : List ℕ

abbrev pub fresh : Policy → Managed
fresh c = record { name = c.name; process = new_process c.max_retries c.backoff }

abbrev pub IsLimited : Policy → Type 0
IsLimited c = (0 < c.max_retries) × (c.max_retries < 0x7fff_ffff)

-- bounded with the policy `c`
pub record IsWell (p : Managed) : Type 0 where
  pub m : ℕ
  pub backoff : List ℕ
  pub some_retries : 0 < m
  pub few : m < 0x7fff_ffff
  pub bounded : IsBounded m backoff p.process

-- Within the retries of its policy, with one wait of its schedule behind every launch but for the
-- last; the last wait may be shorter if the context was cancelled.
pub record IsWithin (p : Managed) : Type 0 where
  pub launches : p.process.launches ≤ p.process.max_retries + 1
  pub behind : p.process.launches ≤ p.process.attempt + 1
  pub waits : IsWaited p.process.backoff p.process
