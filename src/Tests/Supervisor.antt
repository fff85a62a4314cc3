-- ===== src/Tests/Supervisor.antt =====
-- The supervisor of pkg/process with a child that crashes.
use spark_trade_mft_raw_data.Prelude.{◌≡◌, refl, false, List, [], ◌∷◌, map}
use spark_trade_mft_raw_data.Prelude.Int.{pos, negsuc}
use spark_trade_mft_raw_data.Supervisor.{
  new_process, ProcessOp, starts, stops, runs, wakes, stop_process, start_failed, exited,
  process_run, start_process,
}
use spark_trade_mft_raw_data.Supervisor.Manager.{
  Policy, fresh, ManagerOp, starts_all, stops_all, runs_child, wakes_child, stop_all, start_all,
}

-- a crash, a wait of 1, a second crash, and Stop after 3 of the 5 seconds that follow
abbrev crashes : List ProcessOp
crashes =
    starts
    ∷ runs (exited (pos 1) false)
    ∷ runs start_failed
    ∷ wakes 7
    ∷ starts
    ∷ runs (exited (negsuc 0) false)
    ∷ stops
    ∷ wakes 3
    ∷ runs start_failed
    ∷ []

launches_crashes : (process_run crashes (new_process 2 (1 ∷ 5 ∷ []))).launches ≡ 2
unfolding process_run
launches_crashes = refl

waits_crashes : (process_run crashes (new_process 2 (1 ∷ 5 ∷ []))).waits ≡ 1 ∷ 3 ∷ []
unfolding process_run
waits_crashes = refl

abbrev two_policies : List Policy
two_policies =
    record { name = "storage"; max_retries = 2; backoff = 1 ∷ 5 ∷ [] }
    ∷ record { name = "adapter"; max_retries = 1; backoff = [] }
    ∷ []

abbrev some_crashes : List ManagerOp
some_crashes =
    starts_all
    ∷ runs_child 0 (exited (pos 1) false)
    ∷ runs_child 1 start_failed
    ∷ wakes_child 1 9
    ∷ runs_child 1 start_failed
    ∷ starts_all
    ∷ runs_child 1 start_failed
    ∷ stops_all
    ∷ wakes_child 0 0
    ∷ runs_child 0 start_failed
    ∷ []

-- StopAll before StartAll panics at the last process and leaves the others
stop_first : (stop_all (map fresh two_policies)).0 ≡ false
unfolding stop_all stop_process
stop_first = refl

start_again : (start_all (start_all (map fresh two_policies)).1).0 ≡ 2
unfolding start_all start_process
start_again = refl
