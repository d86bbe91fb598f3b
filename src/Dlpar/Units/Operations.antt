-- ===== src/Dlpar/Units/Operations.antt =====
-- dlpar/dlpar_api/api.py: what an addition or a removal of processing units has done when it returns.
use avocado_misc_tests.Prelude.{ℕ, ◌≡◌, refl, ◌∙◌, Option, arith}
use avocado_misc_tests.Python.{ok}
use avocado_misc_tests.Python.Inversion.{>>=-inv}
use avocado_misc_tests.Dlpar.Host.{Host}
use avocado_misc_tests.Dlpar.Num.{Number, float, num_str, num_add, num_sub}
use avocado_misc_tests.Dlpar.Session.{Machine, Session}
use avocado_misc_tests.Dlpar.Engine.{proc_query, change_command}
use avocado_misc_tests.Dlpar.Engine.Replies.{console, cpu_int-ok, dlpar_engine-ok}
use avocado_misc_tests.Dlpar.Dedicated.Outcome.{rest_a_while-quiet}
use avocado_misc_tests.Dlpar.Units.{units_flag, add_cpu_units, remove_cpu_units}
use avocado_misc_tests.Dlpar.Units.Outcome.{
  Printed-quiet, UnitsAnswered, cpu_float-Printed, units_a-Printed, units_r-Printed, conclude_units,
}

module _ ⦃H : Host⦄ where
  -- Whenever an addition of processing units returns, the console was asked for the units and the
  -- processors and sent the command, and nothing else. Where the method comes to its end, the console
  -- printed nothing on the command, and then printed the units before and the amount added, as `str`
  -- prints their sum; where it returns 1, the console printed something on the command, whose text is
  -- kept for the caller.
  pub add_cpu_units-UnitsAnswered :
      (m : Machine) (quantity : Number) (s t : Session H) (r : Option ℕ)
      → add_cpu_units m quantity "--procunits" s ≡ (ok r, t)
      → UnitsAnswered
          (proc_query m "curr_proc_units")
          (proc_query m "curr_procs")
          (change_command (units_flag "a" "--procunits") m (num_str quantity))
          (λ x. num_add (float x) quantity)
          r
          s
          t
  unfolding add_cpu_units
  add_cpu_units-UnitsAnswered m quantity s t r h = >>=-inv _ _ h λ before s1 read_units h.
      >>=-inv _ _ h λ procs s2 read_procs h. >>=-inv _ _ h λ sent_out s3 sent h.
        >>=-inv _ _ h λ out s4 last h.
          let (text, value, units) = cpu_float-Printed m "curr_proc_units" before s s1 read_units in
          conclude_units m _ text sent_out out before procs (λ x. num_add (float x) quantity) _
            value units (cpu_int-ok m "curr_procs" read_procs)
            (dlpar_engine-ok (units_flag "a" "--procunits") m quantity refl sent) last
            (λ silent. >>=-inv _ _ silent λ _ s5 rested h. >>=-inv _ _ h λ _ s6 validated over. (
              ground (arith, over),
              Printed-quiet (rest_a_while-quiet _ _ s4 s5 rested).0
                  (units_a-Printed m quantity (float before) s5 s6 _ validated)
                  (ground (arith, over)),
            ))
            h

  -- Whenever a removal of processing units returns, the console was asked for the units and the
  -- processors and sent the command, and nothing else. Where the method comes to its end, the console
  -- printed nothing on the command, and then printed the units before and the amount taken off, as `str`
  -- prints the difference; where it returns 1, the console printed something on the command, whose text is
  -- kept for the caller.
  pub remove_cpu_units-UnitsAnswered :
      (m : Machine) (quantity : Number) (s t : Session H) (r : Option ℕ)
      → remove_cpu_units m quantity "--procunits" s ≡ (ok r, t)
      → UnitsAnswered
          (proc_query m "curr_proc_units")
          (proc_query m "curr_procs")
          (change_command (units_flag "r" "--procunits") m (num_str quantity))
          (λ x. num_sub (float x) quantity)
          r
          s
          t
  unfolding remove_cpu_units
  remove_cpu_units-UnitsAnswered m quantity s t r h = >>=-inv _ _ h λ before s1 read_units h.
      >>=-inv _ _ h λ procs s2 read_procs h. >>=-inv _ _ h λ sent_out s3 sent h.
        >>=-inv _ _ h λ out s4 last h.
          let (text, value, units) = cpu_float-Printed m "curr_proc_units" before s s1 read_units in
          conclude_units m _ text sent_out out before procs (λ x. num_sub (float x) quantity) _
            value units (cpu_int-ok m "curr_procs" read_procs)
            (dlpar_engine-ok (units_flag "r" "--procunits") m quantity refl sent) last
            (λ silent. >>=-inv _ _ silent λ _ s5 logged h. >>=-inv _ _ h λ _ s6 rested h.
              >>=-inv _ _ h λ _ s7 validated over.
                let same : console s5.history ≡ console s4.history = ground (arith, logged) in
                (
                  ground (arith, over),
                  Printed-quiet ((rest_a_while-quiet _ _ s5 s6 rested).0 ∙ same)
                      (units_r-Printed m quantity (float before) s6 s7 _ validated)
                      (ground (arith, over)),
                ))
            h
