-- ===== src/Dlpar/Dedicated/Operations.antt =====
-- dlpar/dlpar_api/api.py: what `add_ded_cpu` and `rem_ded_cpu` have done when they return.
use avocado_misc_tests.Prelude.{ℕ, ◌≡◌, refl, ◌∙◌, ap, Option, some, arith}
use avocado_misc_tests.Prelude.Int.{ℤ, ◌+ℤ◌, ◌-ℤ◌}
use avocado_misc_tests.Text.{string_of_int}
use avocado_misc_tests.Python.{ok, ◌>>=◌}
use avocado_misc_tests.Python.Inversion.{>>=-inv}
use avocado_misc_tests.Dlpar.Host.{Host}
use avocado_misc_tests.Dlpar.Num.{int, num_str}
use avocado_misc_tests.Dlpar.Session.{Machine, Session}
use avocado_misc_tests.Dlpar.Engine.{proc_query, change_command}
use avocado_misc_tests.Dlpar.Engine.Replies.{console, cpu_int-ok, dlpar_engine-ok, sleep-ok}
use avocado_misc_tests.Dlpar.Validate.Passed.{cpu_validation_a-ok, cpu_validation_r-ok}
use avocado_misc_tests.Dlpar.Dedicated.{
  self_linux_1, procs_flag, add_dedicated_cpu, remove_dedicated_cpu, add_ded_cpu, rem_ded_cpu,
}
use avocado_misc_tests.Dlpar.Dedicated.Outcome.{
  Concluded, Answered, conclude, console-slept, Read-Asked, rest_a_while-quiet, gets-same,
  Asked-rest_a_while, report-Answered,
}

module _ ⦃H : Host⦄ where
  add_dedicated_cpu-Concluded :
      (m : Machine) (quantity : ℤ) (s t : Session H) (r : Option ℕ)
      → add_dedicated_cpu m (int quantity) s ≡ (ok r, t)
      → Concluded
          (proc_query m "curr_procs")
          (change_command (procs_flag "a") m (string_of_int quantity))
          (λ b. b +ℤ quantity)
          r
          s
          t
  unfolding add_dedicated_cpu num_str
  add_dedicated_cpu-Concluded m quantity s t r h = >>=-inv _ _ h λ before s1 asked h.
      >>=-inv _ _ h λ pause s2 same h. >>=-inv _ _ h λ _ s3 slept h. >>=-inv _ _ h λ out s4 sent h.
        >>=-inv _ _ h λ _ s5 rested h.
          let quiet = rest_a_while-quiet _ _ s4 s5 rested in
          conclude _ _ out before (λ b. b +ℤ quantity) _ (cpu_int-ok m "curr_procs" asked)
            (console-slept (sleep-ok pause slept)
              ∙ ap (λ x. console x.history) (gets-same (λ x. x.sleep_time) same))
            (dlpar_engine-ok (procs_flag "a") m (int quantity) refl sent) quiet.0 quiet.1
            (λ u v validated. Read-Asked (cpu_validation_a-ok m quantity before validated)) h

  remove_dedicated_cpu-Concluded :
      (m : Machine) (quantity : ℤ) (s t : Session H) (r : Option ℕ)
      → remove_dedicated_cpu m (int quantity) s ≡ (ok r, t)
      → Concluded
          (proc_query m "curr_procs")
          (change_command (procs_flag "r") m (string_of_int quantity))
          (λ b. b -ℤ quantity)
          r
          s
          t
  unfolding remove_dedicated_cpu num_str
  remove_dedicated_cpu-Concluded m quantity s t r h = >>=-inv _ _ h λ before s1 asked h.
      >>=-inv _ _ h λ out s2 sent h.
        conclude _ _ out before (λ b. b -ℤ quantity) _ (cpu_int-ok m "curr_procs" asked) refl
          (dlpar_engine-ok (procs_flag "r") m (int quantity) refl sent) refl refl
          (λ u v both. >>=-inv _ _ both λ _ s3 rested validated.
            Asked-rest_a_while (rest_a_while-quiet _ _ s2 s3 rested).0
              (Read-Asked (cpu_validation_r-ok m quantity before validated)))
          h

  pub self_linux_1-ok :
      (m m' : Machine) (s s' : Session H)
      → s.linux_1 ≡ some m
      → self_linux_1 s ≡ (ok m', s')
      → (m' ≡ m) × (s' ≡ s)
  unfolding ◌>>=◌
  self_linux_1-ok m m' s s' e h = ground arith

  -- Whenever `add_ded_cpu` returns, it returns 0 or 1. It returns 0 only where the console showed the
  -- processors of the primary partition, took the command that adds the amount in silence, and then
  -- showed exactly so many more; it returns 1 only where the console printed something on the
  -- command, whose text is kept for the caller. The console was sent nothing else.
  pub add_ded_cpu-Answered :
      (m : Machine) (quantity : ℤ) (s t : Session H) (n : ℕ)
      → s.linux_1 ≡ some m
      → add_ded_cpu (int quantity) s ≡ (ok n, t)
      → Answered
          (proc_query m "curr_procs")
          (change_command (procs_flag "a") m (string_of_int quantity))
          (λ b. b +ℤ quantity)
          n
          s
          t
  unfolding add_ded_cpu
  add_ded_cpu-Answered m quantity s t n primary h = >>=-inv _ _ h λ m' s1 self h.
      >>=-inv _ _ h λ r s2 done h.
        let is_m = self_linux_1-ok m m' s s1 primary self in
        report-Answered r
          (add_dedicated_cpu-Concluded m quantity s s2 r (rw (is_m.0, is_m.1) at done)) h

  -- Whenever `rem_ded_cpu` returns, it returns 0 or 1. It returns 0 only where the console showed the
  -- processors of the primary partition, took the command that removes the amount in silence, and
  -- then showed exactly so many less; it returns 1 only where the console printed something on the
  -- command, whose text is kept for the caller. The console was sent nothing else.
  pub rem_ded_cpu-Answered :
      (m : Machine) (quantity : ℤ) (s t : Session H) (n : ℕ)
      → s.linux_1 ≡ some m
      → rem_ded_cpu (int quantity) s ≡ (ok n, t)
      → Answered
          (proc_query m "curr_procs")
          (change_command (procs_flag "r") m (string_of_int quantity))
          (λ b. b -ℤ quantity)
          n
          s
          t
  unfolding rem_ded_cpu
  rem_ded_cpu-Answered m quantity s t n primary h = >>=-inv _ _ h λ m' s1 self h.
      >>=-inv _ _ h λ r s2 done h.
        let is_m = self_linux_1-ok m m' s s1 primary self in
        report-Answered r
          (remove_dedicated_cpu-Concluded m quantity s s2 r (rw (is_m.0, is_m.1) at done)) h
