-- ===== src/Dlpar/Mem/Operations.antt =====
-- dlpar/dlpar_api/api.py: what `mem_add` and `mem_rem` have done when they return.
use avocado_misc_tests.Prelude.{ℕ, ◌≡◌, refl, Option}
use avocado_misc_tests.Prelude.Int.{ℤ, ◌+ℤ◌, ◌-ℤ◌}
use avocado_misc_tests.Text.{string_of_int}
use avocado_misc_tests.Python.{ok}
use avocado_misc_tests.Python.Inversion.{>>=-inv}
use avocado_misc_tests.Dlpar.Host.{Host}
use avocado_misc_tests.Dlpar.Num.{int, num_str}
use avocado_misc_tests.Dlpar.Session.{Machine, Session}
use avocado_misc_tests.Dlpar.Connections.{Config}
use avocado_misc_tests.Dlpar.Engine.{mem_query, change_command}
use avocado_misc_tests.Dlpar.Engine.Replies.{mem_int-ok, dlpar_engine-ok}
use avocado_misc_tests.Dlpar.Validate.Passed.{mem_validation_a-ok, mem_validation_r-ok}
use avocado_misc_tests.Dlpar.Mem.{self_linux, mem_flag, add_memory, remove_memory, mem_add, mem_rem}
use avocado_misc_tests.Dlpar.Dedicated.Outcome.{
  Concluded, Answered, conclude, Read-Asked, rest_a_while-quiet, Asked-rest_a_while,
  report-Answered,
}

module _ ⦃H : Host⦄ where
  add_memory-Concluded :
      (m : Machine) (quantity : ℤ) (s t : Session H) (r : Option ℕ)
      → add_memory m (int quantity) s ≡ (ok r, t)
      → Concluded
          (mem_query m "curr_mem")
          (change_command (mem_flag "a") m (string_of_int quantity))
          (λ b. b +ℤ quantity)
          r
          s
          t
  unfolding add_memory num_str
  add_memory-Concluded m quantity s t r h = >>=-inv _ _ h λ before s1 asked h.
      >>=-inv _ _ h λ out s2 sent h.
        conclude _ _ out before (λ b. b +ℤ quantity) _ (mem_int-ok m "curr_mem" asked) refl
          (dlpar_engine-ok (mem_flag "a") m (int quantity) refl sent) refl refl
          (λ u v both. >>=-inv _ _ both λ _ s3 rested validated.
            Asked-rest_a_while (rest_a_while-quiet _ _ s2 s3 rested).0
              (Read-Asked (mem_validation_a-ok m quantity before validated)))
          h

  remove_memory-Concluded :
      (m : Machine) (quantity : ℤ) (s t : Session H) (r : Option ℕ)
      → remove_memory m (int quantity) s ≡ (ok r, t)
      → Concluded
          (mem_query m "curr_mem")
          (change_command (mem_flag "r") m (string_of_int quantity))
          (λ b. b -ℤ quantity)
          r
          s
          t
  unfolding remove_memory num_str
  remove_memory-Concluded m quantity s t r h = >>=-inv _ _ h λ before s1 asked h.
      >>=-inv _ _ h λ out s2 sent h.
        conclude _ _ out before (λ b. b -ℤ quantity) _ (mem_int-ok m "curr_mem" asked) refl
          (dlpar_engine-ok (mem_flag "r") m (int quantity) refl sent) refl refl
          (λ u v both. >>=-inv _ _ both λ _ s3 rested validated.
            Asked-rest_a_while (rest_a_while-quiet _ _ s2 s3 rested).0
              (Read-Asked (mem_validation_r-ok m quantity before validated)))
          h

  -- Whenever `mem_add` returns, it returns 0 or 1. It returns 0 only where the console showed the
  -- memory of the chosen partition, took the command that adds the amount in silence, and then showed
  -- exactly so much more; it returns 1 only where the console printed something on the command, whose
  -- text is kept for the caller. The console was sent nothing else.
  pub mem_add-Answered :
      (c : Config H) (m : Machine) (quantity : ℤ) (s t : Session H) (n : ℕ)
      → self_linux c s ≡ (ok m, s)
      → mem_add c (int quantity) s ≡ (ok n, t)
      → Answered
          (mem_query m "curr_mem")
          (change_command (mem_flag "a") m (string_of_int quantity))
          (λ b. b +ℤ quantity)
          n
          s
          t
  unfolding mem_add
  mem_add-Answered c m quantity s t n chosen h = >>=-inv _ _ h λ m' s1 self h.
      >>=-inv _ _ h λ r s2 done h.
        let same_machine : m' ≡ m = cc in
        let same_state : s1 ≡ s = cc in
        report-Answered r
          (add_memory-Concluded m quantity s s2 r (rw (same_machine, same_state) at done)) h

  -- Whenever `mem_rem` returns, it returns 0 or 1. It returns 0 only where the console showed the
  -- memory of the chosen partition, took the command that removes the amount in silence, and then
  -- showed exactly so much less; it returns 1 only where the console printed something on the
  -- command, whose text is kept for the caller. The console was sent nothing else.
  pub mem_rem-Answered :
      (c : Config H) (m : Machine) (quantity : ℤ) (s t : Session H) (n : ℕ)
      → self_linux c s ≡ (ok m, s)
      → mem_rem c (int quantity) s ≡ (ok n, t)
      → Answered
          (mem_query m "curr_mem")
          (change_command (mem_flag "r") m (string_of_int quantity))
          (λ b. b -ℤ quantity)
          n
          s
          t
  unfolding mem_rem
  mem_rem-Answered c m quantity s t n chosen h = >>=-inv _ _ h λ m' s1 self h.
      >>=-inv _ _ h λ r s2 done h.
        let same_machine : m' ≡ m = cc in
        let same_state : s1 ≡ s = cc in
        report-Answered r
          (remove_memory-Concluded m quantity s s2 r (rw (same_machine, same_state) at done)) h
