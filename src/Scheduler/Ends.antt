-- ===== src/Scheduler/Ends.antt =====
-- cpu/scheduler_tunables_test.py: what holds when `_set_tunable` and `test_01_baseline` return.
use mathlib.Core.Path.{subst}
use avocado_misc_tests.Prelude.{
  ℕ, String, ◌<>◌, ◌≡◌, refl, sym, ◌∙◌, ap, Bool, true, false, some, if◌then◌else◌,
}
use avocado_misc_tests.Prelude.Dict.{get}
use avocado_misc_tests.Prelude.Int.{ℤ}
use avocado_misc_tests.Text.{string_of_int}
use avocado_misc_tests.Python.{ok, fail, pure, raise, modify, or_raise, ◌>>=◌, ◌>>◌}
use avocado_misc_tests.Python.Inversion.{>>=-eq-ok}
use avocado_misc_tests.Scheduler.{Kernel, Session, Averages, Action}
use avocado_misc_tests.Scheduler.Tunables.{
  or_none, tunable_paths, get_tunable_path, get_tunable, value_at, write, set_tunable,
}
use avocado_misc_tests.Scheduler.Perf.Keys.{keys, metric_names}
use avocado_misc_tests.Scheduler.Means.{Workload, no_success, averaged}
use avocado_misc_tests.Scheduler.Workload.Report.{run_workload-IsReport, IsReport, IsSummary}
use avocado_misc_tests.Scheduler.Files.{first_existing-same}
use avocado_misc_tests.Scheduler.Saved.Restored.{TunableFiles}
use avocado_misc_tests.Scheduler.Cases.{
  is_positive, fail_unless, averages, run_averaged, test_01_baseline,
}

module _ ⦃K : Kernel⦄ where
  written-lem :
      (b : Bool) (name : String) (s t : Session K) (u : Unit)
      → (if b then pure tt else raise (fail ("Failed to set " <> name))) s ≡ (ok u, t)
      → t ≡ s
  written-lem true name s t u h = sym (ap (λ r. r.1) h)
  written-lem false name s t u h = cc

  -- the state behind a write that returned
  set_tunable-world :
      (s t : Session K) (u : Unit) (name path : String) (value : ℤ)
      → set_tunable name value s ≡ (ok u, t)
      → get_tunable_path s.world name ≡ some path
      → t.world ≡ (K.write_file s.world path (string_of_int value)).1
  unfolding set_tunable write ◌>>=◌
  set_tunable-world s t u name path value h found =
      let text = string_of_int value in
      let writes : (or_raise (get_tunable_path s.world name)
                (fail ("Tunable " <> (name <> " not found")))
              >>= λ p. write p text >>= λ b.
                  if b then pure tt else raise (fail ("Failed to set " <> name)))
            s
          ≡ (ok u, t) =
        h in
      let at_path : (or_raise (some path) (fail ("Tunable " <> (name <> " not found"))) >>= λ p.
      write p text >>= λ b. if b then pure tt else raise (fail ("Failed to set " <> name)))
            s
          ≡ (ok u, t) =
        rw found at writes in
      ap (λ r. r.world) (written-lem _ name _ t u at_path)

  -- Where the tunables' files keep to the kernel's documentation and no write adds or removes one: if
  -- `_set_tunable` returned, and the value is one that the tunable's file may be given, then `_get_tunable`
  -- reads the value.
  pub get_tunable-set :
      (F : TunableFiles) (s t : Session K) (u : Unit) (name path : String) (value : ℤ)
      → ((w : K.World) (p q text : String) → K.exists (K.write_file w p text).1 q ≡ K.exists w q)
      → set_tunable name value s ≡ (ok u, t)
      → get_tunable_path s.world name ≡ some path
      → F.legal path (string_of_int value) ≡ true
      → get_tunable t.world name ≡ some (string_of_int value)
  unfolding get_tunable get_tunable_path value_at
  get_tunable-set F s t u name path value stays h found legal =
      let world_is = set_tunable-world s t u name path value h found in
      let found_again : get_tunable_path (K.write_file s.world path (string_of_int value)).1 name
          ≡ some path =
        first_existing-same s.world (K.write_file s.world path (string_of_int value)).1
          (or_none (get name tunable_paths)) (λ q. stays s.world path q (string_of_int value))
        ∙ found in
      rw (world_is, get_tunable, found_again, value_at, world_is)
        (F.write_shows s.world path (string_of_int value) legal)

  fail_unless-ok :
      (b : Bool) (message : String) (s t : Session K) (u : Unit)
      → fail_unless b message s ≡ (ok u, t)
      → (b ≡ true) × (t ≡ s)
  fail_unless-ok true message s t u h = (refl, sym (ap (λ r. r.1) h))
  fail_unless-ok false message s t u h = cc

  averages-ok :
      (w : Workload K) (n : ℕ) (message : String) (s t : Session K) (metrics : Averages K)
      → IsSummary n w
      → averages w message s ≡ (ok metrics, t)
      → keys metrics ≡ metric_names
  unfolding averages
  averages-ok no_success n message s t metrics report h = cc
  averages-ok (averaged avg dev all_runs total) n message s t metrics report h =
      let is : avg ≡ metrics = cc in rw (sym is) report.0

  baseline_checks : Averages K → Action Unit
  baseline_checks metrics = do
    fail_unless (is_positive "context_switches" metrics)
        "No context switches detected - scheduler may not be functioning correctly"
    fail_unless (is_positive "cpu_migrations" metrics)
        "No CPU migrations detected - load balancing may not be functioning correctly"
    modify (λ s. record s { baseline_metrics = some metrics })

  baseline_checks-ok :
      (metrics : Averages K) (s t : Session K) (u : Unit)
      → baseline_checks metrics s ≡ (ok u, t)
      → (t.baseline_metrics ≡ some metrics)
        × (is_positive "context_switches" metrics ≡ true)
        × (is_positive "cpu_migrations" metrics ≡ true)
  unfolding baseline_checks
  baseline_checks-ok metrics s t u h =
      let store : Action Unit = modify (λ r. record r { baseline_metrics = some metrics }) in
      let migrations : Action Unit =
        fail_unless (is_positive "cpu_migrations" metrics)
          "No CPU migrations detected - load balancing may not be functioning correctly" in
      let switches : Action Unit =
        fail_unless (is_positive "context_switches" metrics)
          "No context switches detected - scheduler may not be functioning correctly" in
      let (u1, s1, first, h1) = >>=-eq-ok switches (λ _. migrations >> store) {s = s} h in
      let (u2, s2, second, h2) = >>=-eq-ok migrations (λ _. store) {s = s1} h1 in
      (
        sym (ap (λ r. r.1.baseline_metrics) h2),
        (fail_unless-ok (is_positive "context_switches" metrics) _ s s1 u1 first).0,
        (fail_unless-ok (is_positive "cpu_migrations" metrics) _ s1 s2 u2 second).0,
      )

  -- If `test_01_baseline` passes, the baseline that it has stored has all metrics, and counts context switches
  -- and migrations.
  pub test_01_baseline-stored :
      (s t : Session K) (u : Unit)
      → test_01_baseline s ≡ (ok u, t)
      → (metrics : Averages K) × (t.baseline_metrics ≡ some metrics)
        × (keys metrics ≡ metric_names)
        × (is_positive "context_switches" metrics ≡ true)
        × (is_positive "cpu_migrations" metrics ≡ true)
  unfolding test_01_baseline run_averaged baseline_checks
  test_01_baseline-stored s t u h =
      let (w, s1, ran, h1) =
        >>=-eq-ok (run_averaged (K.workload_type "/tests/baseline/*" "mixed"))
          (λ result. averages result "Baseline test failed" >>= baseline_checks) {s = s} h in
      let (metrics, s2, averaged_ok, h2) =
        >>=-eq-ok (averages w "Baseline test failed") baseline_checks {s = s1} h1 in
      let (r, t_run, ends, report) =
        run_workload-IsReport K.test_duration (K.workload_type "/tests/baseline/*" "mixed") 10 s in
      let same : ok w ≡ r = ap (λ x. x.0) (sym ran ∙ ends) in
      let summed : IsSummary 10 w = subst (λ x. IsReport 10 x) (sym same) report in
      let (stored, switches, migrations) = baseline_checks-ok metrics s2 t u h2 in
      (
        metrics,
        stored,
        averages-ok w 10 "Baseline test failed" s1 s2 metrics summed averaged_ok,
        switches,
        migrations,
      )
