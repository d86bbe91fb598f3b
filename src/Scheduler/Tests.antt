-- ===== src/Scheduler/Tests.antt =====
-- cpu/scheduler_tunables_test.py: the test on a kernel whose tunables take four values.
mod Host
use Prim.{⊥, absurd}
use avocado_misc_tests.Prelude.{
  ℕ, zero, suc, ◌+◌, ◌*◌, ◌/◌, ◌-◌, String, ◌<>◌, ◌≡◌, refl, sym, ◌∙◌, ap, Bool, true, false, ◌||◌,
  Bool-cases, Option, none, some, Option-cases, List, [], ◌∷◌, inl, inr, str_eq, str_eq_iff, ltb,
  if◌then◌else◌,
}
use avocado_misc_tests.Prelude.Dict.{get, has, set, str_eq_refl}
use avocado_misc_tests.Prelude.Int.{ℤ, leb_ℤ, pos, negsuc, ◌+ℤ◌}
use avocado_misc_tests.Text.Words.{split_on, split_words, remove_char}
use avocado_misc_tests.Text.{strip, int_of_string, string_of_int}
use avocado_misc_tests.Python.{Result, ok, or_raise, ◌>>=◌, for_each}
use avocado_misc_tests.Scheduler.{Kernel, whole, real, Metrics, Session, Averages, read_value}
use avocado_misc_tests.Scheduler.Tunables.{
  first_existing, save, save_value, save_tunable, check_and_save_tunables, write, get_tunable,
  get_tunable_path, value_at, set_tunable,
}
use avocado_misc_tests.Scheduler.Perf.{
  count_of, first_part, neighbours, rates, parse_perf_rate, put_count, put, no_metrics, nought,
  nought_float, parse_line, parse_perf_output,
}
use avocado_misc_tests.Scheduler.Perf.Keys.{keys, metric_names, parse_perf_output-keys}
use avocado_misc_tests.Scheduler.Means.{
  Workload, averaged, log_metrics, put_value, deviation, deviation_keys, has_deviation, mean, total,
  values_of, per_key, metric_keys, summary,
}
use avocado_misc_tests.Scheduler.Workload.{
  run, run_workload_single, parsed, outcome, runs, run_workload,
}
use avocado_misc_tests.Scheduler.Workload.Report.{IsReport, run_workload-IsReport}
use avocado_misc_tests.Scheduler.Cases.{
  install_package, configure, mount_debugfs, auto_workers, run_averaged, averages, set_up,
  low_latency, run_test, tear_down, is_positive, test_01_baseline, both_given, read_int,
  read_factor, scaled, sleep, scale_both, two_tunables, test_02_low_latency,
}
use avocado_misc_tests.Scheduler.Saved.Restored.{TunableFiles, tear_down-restores}
use avocado_misc_tests.Scheduler.Bounded.{test_02_low_latency-bounded}
use avocado_misc_tests.Scheduler.Ends.{get_tunable-set, test_01_baseline-stored}
use avocado_misc_tests.Scheduler.Tests.Host.{
  text_of, level_of, slice, cost, low_slice, low_cost, kernel, perf_text, tunable_files,
  quiet_files,
}

abbrev start : Session kernel
start = record {
  total_cpus = 0;
  stress_workers = 0;
  original_tunables = none;
  baseline_metrics = none;
  world = λ path. if str_eq path "/sys/kernel/debug/sched/latency_ns" then slice else cost;
}

abbrev ready : Session kernel
ready = record start {
  total_cpus = 4;
  stress_workers = 16;
  original_tunables = some (
      ("/sys/kernel/debug/sched/latency_ns", "3000000")
      ∷ ("/proc/sys/kernel/sched_migration_cost_ns", "500000")
      ∷ []);
}

tear_down-restores_example :
    ((tear_down ⦃K = kernel⦄ (run_test ⦃K = kernel⦄ low_latency ready).1).0 ≡ ok tt)
    × (read_value ⦃K = kernel⦄
          (tear_down ⦃K = kernel⦄ (run_test ⦃K = kernel⦄ low_latency ready).1).1.world
          "/sys/kernel/debug/sched/latency_ns"
        ≡ some "3000000")
unfolding set_up get_tunable_path read_value ◌>>=◌ for_each install_package configure mount_debugfs
    run check_and_save_tunables save_tunable first_existing get save_value save auto_workers set
    strip
tear_down-restores_example =
    tear_down-restores ⦃K = kernel⦄ tunable_files low_latency start ready tt "base_slice_ns"
      "/sys/kernel/debug/sched/latency_ns" "3000000" refl (inl refl) refl refl

parse_perf_output-keys_example :
    keys (parse_perf_output ⦃K = kernel⦄ "x branches\n").1 ≡ metric_names
parse_perf_output-keys_example = parse_perf_output-keys ⦃K = kernel⦄ "x branches\n"

run_workload-IsReport_example :
    (r : Result (Workload kernel)) × (t : Session kernel) × (run_workload ⦃K = kernel⦄ 10 "fork" 3
        ready
      ≡ (r, t))
    × IsReport ⦃K = kernel⦄ 3 r
run_workload-IsReport_example = run_workload-IsReport ⦃K = kernel⦄ 10 "fork" 3 ready

abbrev set_low : Session kernel
set_low = record ready {
  world = λ q. if str_eq "/sys/kernel/debug/sched/latency_ns" q then low_slice else start.world q;
}

get_tunable-set_example :
    get_tunable ⦃K = kernel⦄ set_low.world "base_slice_ns" ≡ some (string_of_int (pos 750000))
unfolding set_tunable get_tunable_path ◌>>=◌ first_existing get write string_of_int tunable_files
get_tunable-set_example =
    get_tunable-set ⦃K = kernel⦄ tunable_files ready set_low tt "base_slice_ns"
      "/sys/kernel/debug/sched/latency_ns" (pos 750000) (λ w p q text. refl) refl refl refl

-- what one run of the kernel's perf text gives
abbrev once : Metrics kernel
once =
    ("context_switches", whole (pos 1205))
    ∷ ("cs_per_second", real 0)
    ∷ ("cpu_migrations", whole (pos 17))
    ∷ ("migrations_per_second", real 0)
    ∷ ("page_faults", whole (pos 0))
    ∷ ("task_clock_ms", real 0)
    ∷ ("cpus_utilized", real 0)
    ∷ ("branch_misses", whole (pos 0))
    ∷ ("branch_miss_rate", real 0)
    ∷ ("branches", whole (pos 0))
    ∷ ("cpu_cycles", whole (pos 0))
    ∷ ("instructions", whole (pos 0))
    ∷ ("insn_per_cycle", real 0)
    ∷ ("time_elapsed", real 0)
    ∷ []

outcome-once : outcome ⦃K = kernel⦄ (some (pos 0, perf_text)) ≡ some once
unfolding outcome parsed log_metrics parse_perf_output parse_line for_each ◌>>=◌ split_on
    split_words remove_char strip count_of first_part neighbours rates parse_perf_rate put_count put
    set no_metrics nought nought_float int_of_string has get
outcome-once = refl

abbrev copies : ℕ → List (Metrics kernel)
copies zero = []
copies (suc n) = once ∷ copies n

runs-once :
    (n duration : ℕ) (workload_type : String) (s : Session kernel)
    → runs ⦃K = kernel⦄ n duration workload_type s ≡ (ok (copies n), s)
unfolding runs run_workload_single run ◌>>=◌
runs-once zero duration workload_type s = refl
runs-once (suc n) duration workload_type s =
    rw (runs, outcome-once, runs-once n duration workload_type s) refl

abbrev baseline_averages : Averages kernel
baseline_averages =
    ("context_switches", 120500)
    ∷ ("cs_per_second", 0)
    ∷ ("cpu_migrations", 1700)
    ∷ ("migrations_per_second", 0)
    ∷ ("page_faults", 0)
    ∷ ("task_clock_ms", 0)
    ∷ ("cpus_utilized", 0)
    ∷ ("branch_misses", 0)
    ∷ ("branch_miss_rate", 0)
    ∷ ("branches", 0)
    ∷ ("cpu_cycles", 0)
    ∷ ("instructions", 0)
    ∷ ("insn_per_cycle", 0)
    ∷ ("time_elapsed", 0)
    ∷ []

abbrev stored : Session kernel
stored = record ready { baseline_metrics = some baseline_averages }

baseline_passes : test_01_baseline ⦃K = kernel⦄ ready ≡ (ok tt, stored)
unfolding test_01_baseline run_averaged run_workload summary per_key put_value deviation
    deviation_keys has_deviation mean total values_of metric_keys get is_positive averages ◌>>=◌
    ◌+ℤ◌
baseline_passes = rw (test_01_baseline, runs-once 10 10 "mixed" ready) refl

test_01_baseline-stored_example :
    (metrics : Averages kernel) × (stored.baseline_metrics ≡ some metrics)
    × (keys metrics ≡ metric_names)
    × (is_positive ⦃K = kernel⦄ "context_switches" metrics ≡ true)
    × (is_positive ⦃K = kernel⦄ "cpu_migrations" metrics ≡ true)
test_01_baseline-stored_example =
    test_01_baseline-stored ⦃K = kernel⦄ ready stored tt baseline_passes

abbrev no_deviations : Averages kernel
no_deviations = ("context_switches", 0) ∷ ("cpu_migrations", 0) ∷ ("page_faults", 0) ∷ []

abbrev ten_runs : Workload kernel
ten_runs = averaged baseline_averages no_deviations (copies 10) 10

ten_summed : summary ⦃K = kernel⦄ 10 (copies 10) ≡ some ten_runs
unfolding summary per_key put_value deviation deviation_keys has_deviation mean total values_of
    metric_keys get ◌+ℤ◌
ten_summed = refl

run_averaged-once :
    (workload_type : String) (s : Session kernel)
    → run_averaged ⦃K = kernel⦄ workload_type s ≡ (ok ten_runs, s)
unfolding run_averaged run_workload ◌>>=◌
run_averaged-once workload_type s =
    rw (run_averaged, run_workload, runs-once 10 10 workload_type s, ten_summed) refl

abbrev lowered : Session kernel
lowered = record ready {
  world = λ q.
      if str_eq "/proc/sys/kernel/sched_migration_cost_ns" q then low_cost else set_low.world q;
}

low_latency_passes : test_02_low_latency ⦃K = kernel⦄ ready ≡ (ok tt, lowered)
unfolding test_02_low_latency two_tunables scale_both both_given read_int read_factor scaled
    set_tunable write sleep averages summary get_tunable get_tunable_path value_at first_existing
    get read_value strip int_of_string string_of_int ◌>>=◌
low_latency_passes =
    rw (test_02_low_latency, run_averaged-once "cpu" ready, run_averaged-once "cpu" lowered) refl

test_02_low_latency-bounded_example :
    (base : ℤ) × (cost : ℤ) × (leb_ℤ (pos 750000) base ≡ true)
    × (leb_ℤ (pos 50000) cost ≡ true)
    × (get_tunable ⦃K = kernel⦄ lowered.world "base_slice_ns" ≡ some (string_of_int base))
    × (get_tunable ⦃K = kernel⦄ lowered.world "sched_migration_cost_ns" ≡ some (string_of_int cost))
test_02_low_latency-bounded_example =
    test_02_low_latency-bounded ⦃K = kernel⦄ quiet_files ready lowered tt low_latency_passes
