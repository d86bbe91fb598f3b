-- ===== src/Dlpar/Payload/Mem.antt =====
-- dlpar/dlpar_main.py, `mem_payload_data`: the amounts double from one to the next, and the last one
-- fills what is left.
use avocado_misc_tests.Prelude.{
  ℕ, zero, suc, ◌+◌, ◌-◌, ◌*◌, ◌^◌, ◌≤◌, ◌<◌, ◌≡◌, refl, ap, some, List, [], ◌∷◌, ◌++◌, inl, inr,
  arith, leb, Bool-cases, tests,
}
use native.Mathlib.Nat.{pow-succ'}
use avocado_misc_tests.Prelude.Lists.{sum, drop_last}
use avocado_misc_tests.Dlpar.Payload.{nat_amounts, mem_rounds}

-- n amounts, each twice the one before it
abbrev pub doubling : ℕ → ℕ → List ℕ
doubling index zero = []
doubling index (suc n) = index ∷ doubling (index + index) n

-- how a list of n doublings and a last amount fills the room
pub record Fills (max_value total index n last : ℕ) : Type 0 where
  pub full : total + sum (doubling index n) + last ≡ max_value
  pub positive : 0 < last
  pub bounded : last ≤ index * 2 ^ n

module _ (max_value : ℕ) where
  -- an amount that is all that is left ends the loop
  last_round :
      (fuel total index : ℕ)
      → 0 < fuel
      → total + index ≡ max_value
      → mem_rounds fuel max_value total index ≡ some (index ∷ [])
  unfolding mem_rounds
  last_round zero total index h e = absurd (omega arith)
  last_round (suc fuel) total index h e = ground arith

  mem_step_double :
      (fuel total index : ℕ) {xs : List ℕ}
      → total + index + (index + index) ≤ max_value
      → 0 < index
      → mem_rounds fuel max_value (total + index) (index + index) ≡ some xs
      → mem_rounds (suc fuel) max_value total index ≡ some (index ∷ xs)
  unfolding mem_rounds
  mem_step_double fuel total index room pos e = ground arith

  mem_step_rest :
      (fuel total index : ℕ)
      → total + index < max_value
      → max_value < total + index + (index + index)
      → 0 < fuel
      → mem_rounds (suc fuel) max_value total index
        ≡ some (index ∷ (max_value - (total + index)) ∷ [])
  unfolding mem_rounds
  mem_step_rest fuel total index room tight pos =
      ground (arith, last_round fuel (total + index) (max_value - (total + index)))

  mem_rounds_lem :
      (fuel total index : ℕ)
      → max_value - total < fuel
      → 0 < index
      → total + index ≤ max_value
      → (n last : ℕ) × (mem_rounds fuel max_value total index
          ≡ some (doubling index n ++ last ∷ []))
        × Fills max_value total index n last
  mem_rounds_lem zero total index enough pos room = absurd (omega arith)
  mem_rounds_lem (suc fuel) total index enough pos room =
      elim (Bool-cases (leb max_value (total + index))) [
        | inl all ↦ (
          0,
          index,
          last_round (suc fuel) total index (omega arith) (omega tests),
          record { full = omega tests; positive = pos; bounded = omega arith },
        )
        | inr part ↦ elim (Bool-cases (leb (total + index + (index + index)) max_value)) [
          | inl double ↦
              let (n, last, e, fills) =
                mem_rounds_lem fuel (total + index) (index + index) (omega tests) (omega arith)
                  (omega tests) in
              (
                suc n,
                last,
                mem_step_double fuel total index (omega tests) pos e,
                record {
                  full = omega (arith, fills.full);
                  positive = fills.positive;
                  bounded = rw pow-succ' (omega (arith, fills.bounded));
                },
              )
          | inr rest ↦ (
            1,
            max_value - (total + index),
            mem_step_rest fuel total index (omega tests) (omega tests) (omega tests),
            record { full = omega tests; positive = omega tests; bounded = omega tests },
          )
        ]
      ]

drop_last-snoc : (xs : List ℕ) (x : ℕ) → drop_last (xs ++ x ∷ []) ≡ xs
drop_last-snoc [] x = refl
drop_last-snoc (y ∷ []) x = refl
drop_last-snoc (y ∷ (z ∷ zs)) x = ap (λ l. y ∷ l) (drop_last-snoc (z ∷ zs) x)

-- From an amount in use that leaves room for one block of `lmb`, and with fuel for the room, the loop
-- of `mem_payload_data` returns blocks of lmb, 2 * lmb, 4 * lmb, … and one last amount, which is
-- positive and no larger than the next doubling; together they fill the room exactly.
pub mem_rounds_fill :
    (fuel max_value current_sum lmb : ℕ)
    → max_value - current_sum < fuel
    → 0 < lmb
    → current_sum + lmb ≤ max_value
    → (n last : ℕ) × (mem_rounds fuel max_value current_sum lmb
        ≡ some (doubling lmb n ++ last ∷ []))
      × (drop_last (doubling lmb n ++ last ∷ []) ≡ doubling lmb n)
      × (current_sum + sum (doubling lmb n) + last ≡ max_value)
      × (0 < last)
      × (last ≤ lmb * 2 ^ n)
mem_rounds_fill fuel max_value current_sum lmb enough pos room =
    let (n, last, e, fills) = mem_rounds_lem max_value fuel current_sum lmb enough pos room in
    (n, last, e, drop_last-snoc (doubling lmb n) last, fills.full, fills.positive, fills.bounded)
