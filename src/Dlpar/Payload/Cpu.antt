-- ===== src/Dlpar/Payload/Cpu.antt =====
-- dlpar/dlpar_main.py, `cpu_payload_data` with exact amounts: they are step, 2 * step, 3 * step, …, as many as
-- fit under the maximum.
use avocado_misc_tests.Prelude.{
  ℕ, zero, suc, ◌+◌, ◌-◌, ◌*◌, ◌≤◌, ◌<◌, ◌≡◌, inl, inr, some, List, [], ◌∷◌, arith, leb, Bool-cases,
  tests,
}
use native.Mathlib.Nat.{add-zero, zero-add}
use avocado_misc_tests.Prelude.Lists.{sum}
use avocado_misc_tests.Dlpar.Payload.{nat_amounts, cpu_rounds}

-- n amounts, the first of which is `index`
abbrev pub progression : ℕ → ℕ → ℕ → List ℕ
progression index step zero = []
progression index step (suc n) = index ∷ progression (index + step) step n

-- A list of amounts that the loop gives from here: it fits, and the next amount does not.
record IsFull (max_value step total index n : ℕ) : Type 0 where
  fits : total + sum (progression index step n) ≤ max_value
  no_more : max_value < total + sum (progression index step n) + (index + n * step)

module _ (max_value step : ℕ) where
  cpu_rounds_lem :
      (fuel total index : ℕ)
      → max_value - total < fuel
      → total ≤ max_value
      → 0 < index
      → (n : ℕ) × (cpu_rounds fuel max_value step total index ≡ some (progression index step n))
        × IsFull max_value step total index n
  unfolding cpu_rounds
  cpu_rounds_lem zero total index enough room pos = absurd (omega arith)
  cpu_rounds_lem (suc fuel) total index enough room pos =
      elim (Bool-cases (leb (total + index) max_value)) [
        | inr over ↦ (0, ground arith, record { fits = ground arith; no_more = ground arith })
        | inl fit ↦
            let (n, e, full) =
              cpu_rounds_lem fuel (total + index) (index + step) (omega tests) (omega tests)
                (omega arith) in
            (
              suc n,
              ground (arith, e),
              record { fits = omega (arith, full.fits); no_more = omega (arith, full.no_more) },
            )
      ]

-- With exact amounts, from a partition that has no more than the maximum, with a positive step and fuel
-- for one round per unit of room, the loop gives 0, step, 2 * step, …, n * step for some n; added to
-- what the partition has they fit under the maximum, and one more amount would not.
pub exact_rounds :
    (fuel max_value curr_proc step : ℕ)
    → curr_proc ≤ max_value
    → 0 < step
    → max_value - curr_proc + 1 < fuel
    → (n : ℕ) × (cpu_rounds fuel max_value step curr_proc 0 ≡ some (0 ∷ progression step step n))
      × (curr_proc + sum (progression step step n) ≤ max_value)
      × (max_value < curr_proc + sum (progression step step n) + (n + 1) * step)
unfolding cpu_rounds
exact_rounds zero max_value curr_proc step room pos enough = absurd (omega arith)
exact_rounds (suc fuel) max_value curr_proc step room pos enough =
    let (n, e, full) = cpu_rounds_lem max_value step fuel curr_proc step (omega arith) room pos in
    let same : cpu_rounds fuel max_value step (curr_proc + 0) (0 + step)
        ≡ some (progression step step n) =
      simp (add-zero, zero-add) e in
    (n, ground (arith, same), full.fits, omega (arith, full.no_more))
