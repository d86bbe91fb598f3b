-- ===== src/Scheduler/Bounded.antt =====
-- cpu/scheduler_tunables_test.py: the values that `test_02_low_latency` leaves in the tunables.
use avocado_misc_tests.Prelude.{
  ℕ, zero, suc, String, ◌<>◌, ◌≡◌, ◌∙◌, ap, true, Bool-cases, Option, none, some, [], inl, inr,
  arith,
}
use avocado_misc_tests.Prelude.Int.{ℤ, pos, negsuc, leb_ℤ}
use avocado_misc_tests.Text.{string_of_int}
use avocado_misc_tests.Python.{Error, Result, ok, err, pure, or_raise, gets, continue, ◌>>=◌, ◌>>◌}
use avocado_misc_tests.Python.Inversion.{>>=-eq-ok, >>=-inv}
use avocado_misc_tests.Scheduler.{Kernel, Session, Action, read_value}
use avocado_misc_tests.Scheduler.Tunables.{get_tunable_path, get_tunable, set_tunable}
use avocado_misc_tests.Scheduler.Means.{Workload, no_success, averaged}
use avocado_misc_tests.Scheduler.Workload.{run, run_workload_single, runs, run_workload}
use avocado_misc_tests.Scheduler.Cases.{
  averages, run_averaged, read_int, read_factor, scaled, both_given, unless_missing, two_tunables,
  sleep, scale_both, max_ℤ, test_02_low_latency,
}
use avocado_misc_tests.Scheduler.Files.{
  SameFiles, QuietFiles, same_refl, same_trans, path-same, value_at-some, apart, set_tunable-Set,
  set-reads, set-elsewhere, set-there,
}

module _ ⦃K : Kernel⦄ where
  module _ (Q : QuietFiles) where
    record Quiet {A : Type 0} (m : Action A) : Type 0 where
      quiet : (s : Session K) → SameFiles s.world (m s).1.world

    module _ {A B : Type 0} where
      Quiet-continue :
          (r : Result A) (f : A → Action B) (s : Session K)
          → ((a : A) → Quiet (f a))
          → SameFiles s.world (continue r f s).1.world
      Quiet-continue (ok a) f s h = (h a).quiet s
      Quiet-continue (err e) f s h = same_refl s.world

      Quiet-bind :
          (m : Action A) (f : A → Action B) → Quiet m → ((a : A) → Quiet (f a)) → Quiet (m >>= f)
      unfolding ◌>>=◌
      Quiet-bind m f h k = record {
        quiet = λ s. same_trans _ _ _ (h.quiet s) (Quiet-continue (m s).0 f (m s).1 k);
      }

    Quiet-pure : {A : Type 0} (a : A) → Quiet (pure a)
    Quiet-pure a = record { quiet = λ s. same_refl s.world }

    Quiet-gets : {A : Type 0} (f : Session K → A) → Quiet (gets f)
    Quiet-gets f = record { quiet = λ s. same_refl s.world }

    Quiet-run : (command : String) → Quiet (run command)
    unfolding run
    Quiet-run command = record { quiet = λ s. Q.run_same command s.world }

    Quiet-sleep : (n : ℕ) → Quiet (sleep n)
    unfolding sleep
    Quiet-sleep n = record { quiet = λ s. Q.sleep_same n s.world }

    Quiet-averages : (w : Workload K) (message : String) → Quiet (averages w message)
    unfolding averages
    Quiet-averages no_success message = record { quiet = λ s. same_refl s.world }
    Quiet-averages (averaged a d r n) message = Quiet-pure a

    Quiet-or_raise : {A : Type 0} (o : Option A) (e : Error) → Quiet (or_raise o e)
    Quiet-or_raise none e = record { quiet = λ s. same_refl s.world }
    Quiet-or_raise (some a) e = Quiet-pure a

    ruleset quiet_rules =
        (Quiet-bind, Quiet-or_raise, Quiet-pure, Quiet-gets, Quiet-run, Quiet-sleep, Quiet-averages)

    Quiet-runs : (n duration : ℕ) (workload_type : String) → Quiet (runs n duration workload_type)
    unfolding runs run_workload_single
    Quiet-runs zero duration workload_type = Quiet-pure []
    Quiet-runs (suc n) duration workload_type = search (quiet_rules, Quiet-runs n) depth 12

    Quiet-run_averaged : (workload_type : String) → Quiet (run_averaged workload_type)
    unfolding run_averaged run_workload
    Quiet-run_averaged workload_type = search (quiet_rules, Quiet-runs) depth 12

    -- the end of a test, behind the second tunable
    ending : String → String → Action Unit
    ending workload failure = do
      sleep 2
      result ← run_averaged workload
      averages result failure
      pure tt

    Quiet-ending : (workload failure : String) → Quiet (ending workload failure)
    unfolding ending
    Quiet-ending workload failure = search (quiet_rules, Quiet-run_averaged) depth 12

    -- both values at the end of a test
    record BothSet (base cost : ℤ) (t : Session K) : Type 0 where
      base_is : get_tunable t.world "base_slice_ns" ≡ some (string_of_int base)
      cost_is : get_tunable t.world "sched_migration_cost_ns" ≡ some (string_of_int cost)

    -- a world later than another, with the same files at the same places
    reads-later :
        (w v : K.World) (name path value : String)
        → ((p : String) → K.exists v p ≡ K.exists w p)
        → get_tunable_path w name ≡ some path
        → read_value v path ≡ some value
        → get_tunable v name ≡ some value
    reads-later w v name path value there found reads =
        value_at-some v name path (path-same w v name there ∙ found) ∙ reads

    sets-BothSet :
        (base cost : ℤ) (workload failure : String) (s t : Session K) (u : Unit)
        → (set_tunable "base_slice_ns" base >>= λ a.
              set_tunable "sched_migration_cost_ns" cost >>= λ b. ending workload failure)
            s
          ≡ (ok u, t)
        → BothSet base cost t
    sets-BothSet base cost workload failure s t u h =
        let (_, s1, first, h1) =
          >>=-eq-ok (set_tunable "base_slice_ns" base)
            (λ a. set_tunable "sched_migration_cost_ns" cost >>= λ b. ending workload failure)
            {s = s} h in
        let (_, s2, second, h2) =
          >>=-eq-ok (set_tunable "sched_migration_cost_ns" cost) (λ b. ending workload failure)
            {s = s1} h1 in
        let base_set = set_tunable-Set "base_slice_ns" base s s1 tt first in
        let cost_set = set_tunable-Set "sched_migration_cost_ns" cost s1 s2 tt second in
        let same : SameFiles s2.world t.world =
          rw (ap (λ r. r.1) h2) at ((Quiet-ending workload failure).quiet s2) in
        record {
          base_is =
              reads-later s.world t.world "base_slice_ns" base_set.path (string_of_int base)
                (λ p.
                  same.there p
                  ∙ set-there Q "sched_migration_cost_ns" cost s1 s2 cost_set p
                  ∙ set-there Q "base_slice_ns" base s s1 base_set p)
                base_set.found
                (same.reads base_set.path
                  ∙ set-elsewhere Q "sched_migration_cost_ns" cost s1 s2 cost_set base_set.path (
                      apart s.world s1.world base_set.path cost_set.path base_set.found
                        cost_set.found)
                  ∙ set-reads Q "base_slice_ns" base s s1 base_set);
          cost_is =
              reads-later s1.world t.world "sched_migration_cost_ns" cost_set.path
                (string_of_int cost)
                (λ p. same.there p ∙ set-there Q "sched_migration_cost_ns" cost s1 s2 cost_set p)
                cost_set.found
                (same.reads cost_set.path
                  ∙ set-reads Q "sched_migration_cost_ns" cost s1 s2 cost_set);
        }

    scale_both-BothSet :
        (path workload : String) (base_default cost_default : K.Float)
        (base_bound cost_bound : ℤ → ℤ) (failure : String) (values : String × String)
        (s t : Session K) (u : Unit)
        → scale_both path workload base_default cost_default base_bound cost_bound failure values s
          ≡ (ok u, t)
        → (base : ℤ) × (cost : ℤ) × BothSet (base_bound base) (cost_bound cost) t
    unfolding scale_both ending
    scale_both-BothSet path workload bd cd bb cb failure (x, y) s t u h =
        >>=-inv (read_int x) _ h (λ base_ns s1 e1 h1. >>=-inv (read_int y) _ h1 (λ cost_ns s2 e2 h2.
          >>=-inv (read_factor "base_slice_ns_factor" (path <> "tunables/*") bd) _ h2
            (λ bf s3 e3 h3.
              >>=-inv (read_factor "migration_cost_ns_factor" (path <> "tunables/*") cd) _ h3
                (λ cf s4 e4 h4.
                  >>=-inv (run_averaged (K.workload_type (path <> "*") workload)) _ h4
                    (λ w s5 e5 h5.
                      >>=-inv (averages w "Baseline workload failed") _ h5 (λ m s6 e6 h6.
                        >>=-inv (scaled x bf) _ h6 (λ base s7 e7 h7.
                          >>=-inv (scaled y cf) _ h7 (λ cost s8 e8 h8. (
                            base,
                            cost,
                            sets-BothSet (bb base) (cb cost)
                                (K.workload_type (path <> "*") workload) failure s8 t u h8,
                          )))))))))

    unless_missing-ok :
        {A : Type 0} (o : Option A) (message : String) (body : A → Action Unit) (s t : Session K)
        (u : Unit)
        → unless_missing o message body s ≡ (ok u, t)
        → (a : A) × (body a s ≡ (ok u, t))
    unless_missing-ok none message body s t u h = cc
    unless_missing-ok (some a) message body s t u h = (a, h)

    two_tunables-ok :
        (body : String × String → Action Unit) (s t : Session K) (u : Unit)
        → two_tunables body s ≡ (ok u, t)
        → (values : String × String) × (body values s ≡ (ok u, t))
    unfolding two_tunables ◌>>=◌
    two_tunables-ok body s t u h =
        unless_missing-ok
          (both_given (get_tunable s.world "base_slice_ns")
            (get_tunable s.world "sched_migration_cost_ns"))
          _ body s t u h

max_ℤ-le : (a b : ℤ) → leb_ℤ a (max_ℤ a b) ≡ true
max_ℤ-le a b = elim (Bool-cases (leb_ℤ a b)) [
  | inl below ↦ rw below below
  | inr above ↦ rw above (leb_ℤ_refl a)
]
  where
    leb_ℤ_refl : (a : ℤ) → leb_ℤ a a ≡ true
    leb_ℤ_refl (pos n) = ground arith
    leb_ℤ_refl (negsuc n) = ground arith

module _ ⦃K : Kernel⦄ where
  -- Where the tunables' files keep to the kernel's documentation and no workload changes them: if
  -- `test_02_low_latency` passes, the base slice is then a number that is 750000 or more, and the migration
  -- cost one that is 50000 or more.
  pub test_02_low_latency-bounded :
      (Q : QuietFiles) (s t : Session K) (u : Unit)
      → test_02_low_latency s ≡ (ok u, t)
      → (base : ℤ) × (cost : ℤ) × (leb_ℤ (pos 750000) base ≡ true)
        × (leb_ℤ (pos 50000) cost ≡ true)
        × (get_tunable t.world "base_slice_ns" ≡ some (string_of_int base))
        × (get_tunable t.world "sched_migration_cost_ns" ≡ some (string_of_int cost))
  unfolding test_02_low_latency
  test_02_low_latency-bounded Q s t u h =
      let (values, body) = two_tunables-ok Q _ s t u h in
      let (base, cost, both) = scale_both-BothSet Q _ _ _ _ _ _ _ values s t u body in
      (
        max_ℤ (pos 750000) base,
        max_ℤ (pos 50000) cost,
        max_ℤ-le (pos 750000) base,
        max_ℤ-le (pos 50000) cost,
        both.base_is,
        both.cost_is,
      )
