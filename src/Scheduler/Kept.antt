-- ===== src/Scheduler/Kept.antt =====
-- cpu/scheduler_tunables_test.py: no test changes what was saved of the tunables.
use avocado_misc_tests.Prelude.{
  ℕ, zero, suc, String, ◌≡◌, refl, ◌∙◌, Bool, true, false, Option, none, some, [], if◌then◌else◌,
}
use avocado_misc_tests.Prelude.Int.{ℤ}
use avocado_misc_tests.Python.{Error, Result, ok, err, pure, raise, gets, or_raise, continue, ◌>>=◌}
use avocado_misc_tests.Scheduler.{Kernel, Session, Action}
use avocado_misc_tests.Scheduler.Tunables.{write, set_tunable}
use avocado_misc_tests.Scheduler.Means.{Workload, no_success, averaged}
use avocado_misc_tests.Scheduler.Workload.{run, run_workload_single, runs, run_workload}
use avocado_misc_tests.Scheduler.Cases.{
  mount_debugfs, fail_unless, averages, run_averaged, unless_missing, scaled, sleep, scale_both,
  scale_nr_migrate, test_01_baseline, test_02_low_latency, test_03_high_throughput,
  test_04_migration_behavior, TestName, baseline, low_latency, high_throughput, migration_behavior,
  run_test,
}

module _ ⦃K : Kernel⦄ where
  pub record Keeps {A : Type 0} (m : Action A) : Type 0 where
    pub kept : (s : Session K) → (m s).1.original_tunables ≡ s.original_tunables

  module _ {A B : Type 0} where
    Keeps-continue :
        (r : Result A) (f : A → Action B) (s : Session K)
        → ((a : A) → Keeps (f a))
        → (continue r f s).1.original_tunables ≡ s.original_tunables
    Keeps-continue (ok a) f s h = (h a).kept s
    Keeps-continue (err e) f s h = refl

    pub Keeps-bind :
        (m : Action A) (f : A → Action B) → Keeps m → ((a : A) → Keeps (f a)) → Keeps (m >>= f)
    unfolding ◌>>=◌
    Keeps-bind m f h k = record { kept = λ s. Keeps-continue (m s).0 f (m s).1 k ∙ h.kept s }

  pub Keeps-pure : {A : Type 0} (a : A) → Keeps (pure a)
  Keeps-pure a = record { kept = λ s. refl }

  pub Keeps-raise : {A : Type 0} (e : Error) → Keeps {A = A} (raise e)
  Keeps-raise e = record { kept = λ s. refl }

  pub Keeps-gets : {A : Type 0} (f : Session K → A) → Keeps (gets f)
  Keeps-gets f = record { kept = λ s. refl }

  pub Keeps-or_raise : {A : Type 0} (o : Option A) (e : Error) → Keeps (or_raise o e)
  Keeps-or_raise none e = Keeps-raise e
  Keeps-or_raise (some a) e = Keeps-pure a

  pub Keeps-if :
      {A : Type 0} (b : Bool) (m n : Action A) → Keeps m → Keeps n → Keeps (if b then m else n)
  Keeps-if true m n h k = h
  Keeps-if false m n h k = k

  Keeps-fail_unless : (b : Bool) (message : String) → Keeps (fail_unless b message)
  Keeps-fail_unless true message = Keeps-pure tt
  Keeps-fail_unless false message = Keeps-raise _

  Keeps-averages : (w : Workload K) (message : String) → Keeps (averages w message)
  unfolding averages
  Keeps-averages no_success message = Keeps-raise _
  Keeps-averages (averaged a d r n) message = Keeps-pure a

  Keeps-write : (path text : String) → Keeps (write path text)
  unfolding write
  Keeps-write path text = record { kept = λ s. refl }

  Keeps-run : (command : String) → Keeps (run command)
  unfolding run
  Keeps-run command = record { kept = λ s. refl }

  Keeps-sleep : (n : ℕ) → Keeps (sleep n)
  unfolding sleep
  Keeps-sleep n = record { kept = λ s. refl }

  ruleset kept_rules = (
    Keeps-bind, Keeps-pure, Keeps-raise, Keeps-gets, Keeps-or_raise, Keeps-if, Keeps-fail_unless,
    Keeps-averages, Keeps-write, Keeps-run, Keeps-sleep,
  )

  Keeps-set_tunable : (name : String) (value : ℤ) → Keeps (set_tunable name value)
  unfolding set_tunable
  Keeps-set_tunable name value = search kept_rules

  Keeps-run_workload_single :
      (duration : ℕ) (workload_type : String) → Keeps (run_workload_single duration workload_type)
  unfolding run_workload_single
  Keeps-run_workload_single duration workload_type = search kept_rules

  Keeps-runs : (n duration : ℕ) (workload_type : String) → Keeps (runs n duration workload_type)
  unfolding runs
  Keeps-runs zero duration workload_type = Keeps-pure []
  Keeps-runs (suc n) duration workload_type =
      search (kept_rules, Keeps-run_workload_single, Keeps-runs n)

  Keeps-run_averaged : (workload_type : String) → Keeps (run_averaged workload_type)
  unfolding run_averaged run_workload
  Keeps-run_averaged workload_type = search (kept_rules, Keeps-runs)

  Keeps-scaled : (value : String) (factor : K.Float) → Keeps (scaled value factor)
  unfolding scaled
  Keeps-scaled value factor = search kept_rules

  ruleset test_rules = (kept_rules, Keeps-set_tunable, Keeps-run_averaged, Keeps-scaled)

  Keeps-scale_both :
      (path workload : String) (base cost : K.Float) (base_bound cost_bound : ℤ → ℤ)
      (failure : String) (values : String × String)
      → Keeps (scale_both path workload base cost base_bound cost_bound failure values)
  unfolding scale_both
  Keeps-scale_both path workload base cost base_bound cost_bound failure (x, y) =
      search test_rules depth 24

  Keeps-scale_nr_migrate : (value : String) → Keeps (scale_nr_migrate value)
  unfolding scale_nr_migrate
  Keeps-scale_nr_migrate value = search test_rules depth 24

  Keeps-unless_missing :
      {A : Type 0} (o : Option A) (message : String) (body : A → Action Unit)
      → ((a : A) → Keeps (body a))
      → Keeps (unless_missing o message body)
  Keeps-unless_missing none message body h = Keeps-raise _
  Keeps-unless_missing (some a) message body h = h a

  pub run_test-Keeps : (name : TestName) → Keeps (run_test name)
  unfolding run_test test_01_baseline test_02_low_latency test_03_high_throughput
      test_04_migration_behavior
  run_test-Keeps baseline = Keeps-bind _ _ (Keeps-run_averaged _) (λ r.
      Keeps-bind _ _ (Keeps-averages r _) (λ m.
        Keeps-bind _ _ (Keeps-fail_unless _ _)
          (λ u. Keeps-bind _ _ (Keeps-fail_unless _ _) (λ v. record { kept = λ s. refl }))))
  run_test-Keeps low_latency = search (test_rules, Keeps-unless_missing, Keeps-scale_both)
  run_test-Keeps high_throughput = search (test_rules, Keeps-unless_missing, Keeps-scale_both)
  run_test-Keeps migration_behavior =
      search (test_rules, Keeps-unless_missing, Keeps-scale_nr_migrate)

  pub mount_debugfs-Keeps : Keeps mount_debugfs
  unfolding mount_debugfs
  mount_debugfs-Keeps = search kept_rules
