-- ===== src/Scheduler/Workload.antt =====
-- cpu/scheduler_tunables_test.py: a run of the workload under perf stat, and the averages of several.
pub mod Report
use avocado_misc_tests.Prelude.{
  ℕ, zero, suc, ◌+◌, String, ◌<>◌, Bool, true, false, ◌||◌, ◌&&◌, not, Option, none, some, List, [],
  ◌∷◌, map, str_eq, if◌then◌else◌,
}
use avocado_misc_tests.Prelude.Dict.{get, has}
use avocado_misc_tests.Prelude.Int.{ℤ, pos, ◌==ℤ◌, ◌+ℤ◌, leb_ℤ}
use avocado_misc_tests.Prelude.Lists.{length}
use avocado_misc_tests.Python.{Result, ok, err, overflow_error, pure, or_raise, gets, ◌>>=◌, ◌>>◌}
use avocado_misc_tests.Scheduler.{Kernel, Value, whole, real, Metrics, Averages, Session, Action}
use avocado_misc_tests.Scheduler.Means.{Workload, log_metrics, summary}
use avocado_misc_tests.Scheduler.Perf.{build_stress_command, parse_perf_output}

abbrev perf_events : String
perf_events =
    "perf stat -e context-switches,cpu-migrations,page-faults,"
    <> "task-clock,branch-misses,branches,cpu-cycles,instructions "

module _ ⦃K : Kernel⦄ where
  unfoldable pub parsed : ℤ → Result Unit × Metrics K → Option (Metrics K)
  parsed status (ok u, metrics) =
      if log_metrics metrics then (if status ==ℤ pos 0 then some metrics else none) else none
  parsed status (err e, metrics) = none

  -- The metrics of a run that was a success; a command that raises, an output that cannot be read and
  -- metrics that cannot be logged are none.
  unfoldable pub outcome : Option (ℤ × String) → Option (Metrics K)
  unfolding parsed
  outcome none = none
  outcome (some (exit_status, stderr)) = parsed exit_status (parse_perf_output stderr)

  unfoldable pub run : String → Action (Option (ℤ × String))
  run command s = pure (K.run command s.world).0 (record s { world = (K.run command s.world).1 })

  -- `_run_workload_single`
  unfoldable pub run_workload_single : ℕ → String → Action (Option (Metrics K))
  run_workload_single duration workload_type = do
    stress_cmd ←
        gets (λ s. build_stress_command s.stress_workers s.total_cpus workload_type duration)
    result ← run (perf_events <> stress_cmd)
    pure (outcome result)

  abbrev pub cons_opt : {A : Type 0} → Option A → List A → List A
  cons_opt none xs = xs
  cons_opt (some x) xs = x ∷ xs

  -- the runs of so many iterations that were a success
  unfoldable pub runs : ℕ → ℕ → String → Action (List (Metrics K))
  runs zero duration workload_type = pure []
  runs (suc n) duration workload_type = do
    result ← run_workload_single duration workload_type
    all_runs ← runs n duration workload_type
    pure (cons_opt result all_runs)

  -- `_run_workload`
  unfoldable pub run_workload : ℕ → String → ℕ → Action (Workload K)
  run_workload duration workload_type iterations = do
    all_runs ← runs iterations duration workload_type
    or_raise (summary iterations all_runs) overflow_error
