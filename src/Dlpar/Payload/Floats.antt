-- ===== src/Dlpar/Payload/Floats.antt =====
-- dlpar/dlpar_main.py, `cpu_payload_data` on Python's numbers: the amounts are floats, because the index
-- starts at 0.0, and on whole numbers that floats represent they are exact.
use avocado_misc_tests.Prelude.{
  ℕ, zero, suc, ◌+◌, ◌-◌, ◌*◌, ◌≤◌, ◌<◌, ◌≡◌, refl, sym, ◌∙◌, ap, Option, none, some, List, [], ◌∷◌,
  map, arith, leb, inl, inr, Bool-cases, tests, false,
}
use avocado_misc_tests.Prelude.Int.{pos}
use avocado_misc_tests.Prelude.Lists.{All, sum}
use avocado_misc_tests.Python.{ok, or_raise, out_of_fuel}
use avocado_misc_tests.Dlpar.Host.{Host, ExactFloats}
use avocado_misc_tests.Dlpar.Num.{Number, int, float, num_add, num_le}
use avocado_misc_tests.Dlpar.Session.{Session}
use avocado_misc_tests.Dlpar.Payload.{nat_amounts, cpu_rounds, nonzero, cpu_payload_data, cons_opt}
use avocado_misc_tests.Dlpar.Payload.Cpu.{progression, exact_rounds}
use avocado_misc_tests.Dlpar.Payload.Numbers.{number_amounts, cpu_amounts}

module _ ⦃H : Host⦄ where
  -- the float of a whole number
  abbrev pub whole : ℕ → Number
  whole n = float (H.float_of_int (pos n))

  floats : Option (List ℕ) → Option (List Number)
  floats none = none
  floats (some xs) = some (map whole xs)

  floats-cons :
      (n : ℕ) (xs : Option (List ℕ)) → floats (cons_opt n xs) ≡ cons_opt (whole n) (floats xs)
  unfolding floats
  floats-cons n none = refl
  floats-cons n (some xs) = refl

module _ ⦃H : Host⦄ (X : ExactFloats H) where
  whole-add : (a b : ℕ) → a + b ≤ X.bound → num_add (whole a) (whole b) ≡ whole (a + b)
  unfolding num_add
  whole-add a b fits = ap float (X.adds a b fits)

  whole-add_int : (a b : ℕ) → a + b ≤ X.bound → num_add (whole a) (int (pos b)) ≡ whole (a + b)
  unfolding num_add
  whole-add_int a b fits = ap float (X.adds a b fits)

  whole-le : (a b : ℕ) → a ≤ X.bound → b ≤ X.bound → num_le (whole a) (int (pos b)) ≡ leb a b
  unfolding num_le
  whole-le a b small_a small_b = X.compares a b small_a small_b

  le-whole : (a b : ℕ) → a ≤ X.bound → b ≤ X.bound → num_le (int (pos a)) (whole b) ≡ leb a b
  unfolding num_le
  le-whole a b small_a small_b = X.compares a b small_a small_b

  -- the loop on floats does what it does with exact amounts
  cpu_rounds-floats :
      (fuel max_value step total index : ℕ)
      → 2 * (max_value + step) ≤ X.bound
      → total ≤ max_value
      → index ≤ total + step
      → cpu_rounds fuel (int (pos max_value)) (int (pos step)) (whole total) (whole index)
        ≡ floats (cpu_rounds fuel max_value step total index)
  unfolding cpu_rounds floats
  cpu_rounds-floats zero max_value step total index wide room ahead = refl
  cpu_rounds-floats (suc fuel) max_value step total index wide room ahead =
      let sum_is = whole-add total index (omega arith) in
      let test_is = whole-le (total + index) max_value (omega arith) (omega arith) in
      let next_is = whole-add_int index step (omega arith) in
      elim (Bool-cases (leb (total + index) max_value)) [
        | inr over ↦ rw (sum_is, test_is, over) refl
        | inl fit ↦
            let rest =
              cpu_rounds-floats fuel max_value step (total + index) (index + step) wide
                (omega tests) (omega tests) in
            rw (sum_is, test_is, fit, next_is, rest)
              (sym
                (floats-cons index (cpu_rounds fuel max_value step (total + index) (index + step))))
      ]

  -- The first round adds 0.0 to an int.
  cpu_rounds-start :
      (fuel : ℕ) (max_value step : Number) (curr_proc : ℕ)
      → cpu_rounds fuel max_value step (int (pos curr_proc)) (whole 0)
        ≡ cpu_rounds fuel max_value step (whole curr_proc) (whole 0)
  unfolding cpu_rounds num_add
  cpu_rounds-start zero max_value step curr_proc = refl
  cpu_rounds-start (suc fuel) max_value step curr_proc = refl

  nonzero-whole :
      (xs : List ℕ) → All (λ x. 0 < x) xs → sum xs ≤ X.bound → nonzero (map whole xs) ≡ map whole xs
  unfolding nonzero
  nonzero-whole [] above small = refl
  nonzero-whole (x ∷ xs) (here, above) small =
      let rest = nonzero-whole xs above (omega (arith, small)) in
      let test_is = whole-le x 0 (omega (arith, small)) (omega arith) in
      let not_zero : leb x 0 ≡ false = ground (arith, here) in rw (test_is, not_zero, rest) refl

  progression-above : (index step n : ℕ) → 0 < index → All (λ x. 0 < x) (progression index step n)
  progression-above index step zero above = tt
  progression-above index step (suc n) above =
      (above, progression-above (index + step) step n (omega (arith, above)))

  -- Of whole numbers in the range of the floats, from a partition that has no more than the maximum, with a
  -- positive step and rounds for the room, `cpu_payload_data` returns the floats step, 2 * step, …,
  -- n * step for some n; added to what the partition has they fit under the maximum, and one more
  -- amount would not.
  pub cpu_payload_data-progression :
      (rounds max_value curr_proc step : ℕ) (s : Session H)
      → curr_proc ≤ max_value
      → 0 < step
      → max_value - curr_proc + 1 < rounds
      → 2 * (max_value + step) ≤ X.bound
      → (n : ℕ) × (cpu_amounts rounds (int (pos max_value)) (int (pos curr_proc)) (int (pos step)) s
          ≡ (ok (map whole (progression step step n)), s))
        × (curr_proc + sum (progression step step n) ≤ max_value)
        × (max_value < curr_proc + sum (progression step step n) + (n + 1) * step)
  unfolding cpu_amounts cpu_payload_data nonzero floats
  cpu_payload_data-progression rounds max_value curr_proc step s room above enough wide =
      let (n, made, fits, full) = exact_rounds rounds max_value curr_proc step room above enough in
      let looped : cpu_rounds rounds (int (pos max_value)) (int (pos step)) (int (pos curr_proc))
            (float (H.hundredths 0))
          ≡ some (whole 0 ∷ map whole (progression step step n)) =
        ap
          (λ x.
            cpu_rounds rounds (int (pos max_value)) (int (pos step)) (int (pos curr_proc))
              (float x))
          X.zero_is
        ∙ cpu_rounds-start rounds (int (pos max_value)) (int (pos step)) curr_proc
        ∙ cpu_rounds-floats rounds max_value step curr_proc 0 wide room (omega arith)
        ∙ ap floats made in
      let kept =
        nonzero-whole (progression step step n) (progression-above step step n above)
          (omega (arith, fits)) in
      let below_zero = whole-le 0 0 (omega arith) (omega arith) in
      let zero_below = le-whole 0 0 (omega arith) (omega arith) in
      let dropped : nonzero (whole 0 ∷ map whole (progression step step n))
          ≡ map whole (progression step step n) =
        rw (nonzero, below_zero, zero_below) kept in
      let returned : cpu_payload_data rounds (int (pos max_value)) (int (pos curr_proc))
            (int (pos step))
          ≡ some (map whole (progression step step n)) =
        ap (λ o. elim o [ none ↦ none | some xs ↦ some (nonzero xs) ]) looped ∙ ap some dropped in
      (n, ap (λ o. or_raise o out_of_fuel s) returned, fits, full)
