-- ===== src/Scheduler/Cases.antt =====
-- cpu/scheduler_tunables_test.py: `setUp`, the four tests, and `tearDown`.
use avocado_misc_tests.Prelude.{
  ℕ, ◌*◌, String, ◌<>◌, Bool, true, false, Option, none, some, [], ◌∷◌, leb, ◌==◌, if◌then◌else◌,
}
use avocado_misc_tests.Prelude.Dict.{get}
use avocado_misc_tests.Prelude.Int.{ℤ, pos, leb_ℤ}
use avocado_misc_tests.Text.{is_empty, int_of_string}
use avocado_misc_tests.Python.{
  value_error, fail, cancel, pure, raise, gets, modify, or_raise, for_each, ◌>>=◌, ◌>>◌,
}
use avocado_misc_tests.Scheduler.{Kernel, Averages, Action}
use avocado_misc_tests.Scheduler.Tunables.{
  get_tunable, check_and_save_tunables, set_tunable, restore_tunables,
}
use avocado_misc_tests.Scheduler.Means.{Workload, no_success, averaged}
use avocado_misc_tests.Scheduler.Workload.{run, run_workload}

-- `max(a, b)` and `min(a, b)`
abbrev pub max_ℤ : ℤ → ℤ → ℤ
max_ℤ a b = if leb_ℤ a b then b else a

abbrev pub min_ℤ : ℤ → ℤ → ℤ
min_ℤ a b = if leb_ℤ a b then a else b

-- both values, where neither is missing nor empty
abbrev given : Option String → Option String
given none = none
given (some value) = if is_empty value then none else some value

abbrev both : Option String → Option String → Option (String × String)
both none y = none
both (some x) none = none
both (some x) (some y) = some (x, y)

unfoldable pub both_given : Option String → Option String → Option (String × String)
both_given x y = both (given x) (given y)

-- the workers for so many CPUs, when none are configured
unfoldable pub auto_workers : ℕ → ℕ
auto_workers total_cpus = total_cpus * (if leb total_cpus 8 then 4 else 8)

-- the tests of the class
pub data TestName : Type 0 where
  baseline low_latency high_throughput migration_behavior : TestName

module _ ⦃K : Kernel⦄ where
  unfoldable pub install_package : String → Action Unit
  install_package name s =
      (if (K.provide name s.world).0
          then pure tt
          else raise (cancel ("Failed to install " <> name)))
        (record s { world = (K.provide name s.world).1 })

  -- the workers, and nothing saved yet
  unfoldable pub configure : Action Unit
  configure = modify (λ s. record s {
    total_cpus = K.online_count s.world;
    stress_workers =
        if K.configured_workers == 0
        then auto_workers (K.online_count s.world)
        else K.configured_workers;
    original_tunables = some [];
  })

  -- A mount that fails is logged.
  unfoldable pub mount_debugfs : Action Unit
  mount_debugfs = do
    mounted ← gets (λ s. K.is_mount s.world "/sys/kernel/debug")
    (if mounted
        then pure tt
        else (do result ← run "mount -t debugfs none /sys/kernel/debug"; pure tt))

  -- `setUp`
  unfoldable pub set_up : Action Unit
  set_up = do
    for_each ("stress-ng" ∷ "perf" ∷ []) install_package
    configure
    mount_debugfs
    check_and_save_tunables

  -- `metrics.get(key, 0) > 0`
  unfoldable pub is_positive : String → Averages K → Bool
  is_positive key metrics = elim (get key metrics) [
    | none ↦ false
    | some x ↦ K.gt x (K.hundredths 0)
  ]

  abbrev pub fail_unless : Bool → String → Action Unit
  fail_unless true message = pure tt
  fail_unless false message = raise (fail message)

  -- `self._run_workload(workload_type=…)`
  unfoldable pub run_averaged : String → Action (Workload K)
  run_averaged workload_type = run_workload K.test_duration workload_type 10

  -- the averages of a workload with a successful run
  unfoldable pub averages : Workload K → String → Action (Averages K)
  averages no_success message = raise (fail message)
  averages (averaged avg_metrics std_dev all_runs total_runs) message = pure avg_metrics

  unfoldable pub test_01_baseline : Action Unit
  test_01_baseline = do
    result ← run_averaged (K.workload_type "/tests/baseline/*" "mixed")
    metrics ← averages result "Baseline test failed"
    fail_unless (is_positive "context_switches" metrics)
        "No context switches detected - scheduler may not be functioning correctly"
    fail_unless (is_positive "cpu_migrations" metrics)
        "No CPU migrations detected - load balancing may not be functioning correctly"
    modify (λ s. record s { baseline_metrics = some metrics })

  -- `int(float(value) * factor)`
  unfoldable pub scaled : String → K.Float → Action ℤ
  scaled value factor = do
    x ← or_raise (K.float_of_string value) value_error
    or_raise (K.int_of_float (K.mul x factor)) value_error

  unfoldable pub read_int : String → Action ℤ
  read_int value = or_raise (int_of_string value) value_error

  unfoldable pub read_factor : String → String → K.Float → Action K.Float
  read_factor key path default = or_raise (K.factor key path default) value_error

  unfoldable pub sleep : ℕ → Action Unit
  sleep n = modify (λ s. record s { world = K.sleep n s.world })

  -- What `test_02_low_latency` and `test_03_high_throughput` do with the two values: they differ in the
  -- path of their parameters, the defaults and the bounds.
  unfoldable pub scale_both :
      String
      → String
      → K.Float
      → K.Float
      → (ℤ → ℤ)
      → (ℤ → ℤ)
      → String
      → String × String
      → Action Unit
  unfolding read_int read_factor
  scale_both path workload base_default cost_default base_bound cost_bound failure
        (base_slice, migration_cost) =
      do
        base_ns ← read_int base_slice
        cost_ns ← read_int migration_cost
        base_factor ← read_factor "base_slice_ns_factor" (path <> "tunables/*") base_default
        cost_factor ← read_factor "migration_cost_ns_factor" (path <> "tunables/*") cost_default
        before ← run_averaged (K.workload_type (path <> "*") workload)
        averages before "Baseline workload failed"
        new_base ← scaled base_slice base_factor
        new_cost ← scaled migration_cost cost_factor
        set_tunable "base_slice_ns" (base_bound new_base)
        set_tunable "sched_migration_cost_ns" (cost_bound new_cost)
        sleep 2
        result ← run_averaged (K.workload_type (path <> "*") workload)
        averages result failure
        pure tt

  -- A test without its tunables is cancelled.
  abbrev pub unless_missing : {A : Type 0} → Option A → String → (A → Action Unit) → Action Unit
  unless_missing none message body = raise (cancel message)
  unless_missing (some a) message body = body a

  unfoldable pub two_tunables : (String × String → Action Unit) → Action Unit
  two_tunables body = do
    base_slice ← gets (λ s. get_tunable s.world "base_slice_ns")
    migration_cost ← gets (λ s. get_tunable s.world "sched_migration_cost_ns")
    unless_missing (both_given base_slice migration_cost)
        ("Required tunables (base_slice_ns/latency_ns and "
          <> "sched_migration_cost_ns) not available on this kernel")
        body

  unfoldable pub test_02_low_latency : Action Unit
  unfolding two_tunables
  test_02_low_latency = two_tunables (
      scale_both "/tests/low_latency/" "cpu" (K.hundredths 25) (K.hundredths 10)
        (max_ℤ (pos 750000)) (max_ℤ (pos 50000)) "Low latency test failed")

  unfoldable pub test_03_high_throughput : Action Unit
  unfolding two_tunables
  test_03_high_throughput = two_tunables (
      scale_both "/tests/high_throughput/" "context-switch" (K.hundredths 300) (K.hundredths 200)
        (λ n. n) (λ n. n) "High throughput test failed")

  unfoldable pub scale_nr_migrate : String → Action Unit
  unfolding read_int read_factor
  scale_nr_migrate nr_migrate = do
    factor ←
        read_factor "nr_migrate_factor" "/tests/migration_behavior/tunables/*" (K.hundredths 200)
    before ← run_averaged (K.workload_type "/tests/migration_behavior/*" "fork")
    averages before "Baseline workload failed"
    new ← scaled nr_migrate factor
    tasks ← read_int nr_migrate
    set_tunable "sched_nr_migrate" (min_ℤ (pos 128) new)
    sleep 2
    result ← run_averaged (K.workload_type "/tests/migration_behavior/*" "fork")
    averages result "Migration behavior test failed"
    pure tt

  unfoldable pub test_04_migration_behavior : Action Unit
  test_04_migration_behavior = do
    nr_migrate ← gets (λ s. get_tunable s.world "sched_nr_migrate")
    unless_missing (given nr_migrate) "sched_nr_migrate tunable not available" scale_nr_migrate

  unfoldable pub run_test : TestName → Action Unit
  run_test baseline = test_01_baseline
  run_test low_latency = test_02_low_latency
  run_test high_throughput = test_03_high_throughput
  run_test migration_behavior = test_04_migration_behavior

  -- `tearDown`
  abbrev pub tear_down : Action Unit
  tear_down = restore_tunables
