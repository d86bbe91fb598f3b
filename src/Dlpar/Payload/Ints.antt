-- ===== src/Dlpar/Payload/Ints.antt =====
-- dlpar/dlpar_main.py: `mem_payload_data` with a maximum, which then runs on ints alone, and the
-- rounding of an amount of memory to blocks.
use native.Mathlib.Nat.{mod-add-div', mod-lt, add-mul}
use avocado_misc_tests.Prelude.{
  ℕ, zero, suc, ◌+◌, ◌-◌, ◌*◌, ◌%◌, ◌/◌, ◌^◌, ◌++◌, ◌≤◌, ◌<◌, ◌≡◌, refl, Option, none, some, List,
  [], ◌∷◌, map, arith, Bool-cases, Bool, true, false, leb, inl, inr, if◌then◌else◌, leb→le,
}
use avocado_misc_tests.Prelude.Int.{pos, ◌+ℤ◌, ◌-ℤ◌, int_mod, leb_ℤ, ◌==ℤ◌}
use avocado_misc_tests.Prelude.Lists.{sum, sum-append}
use avocado_misc_tests.Python.{ok}
use avocado_misc_tests.Dlpar.Host.{Host}
use avocado_misc_tests.Dlpar.Num.{Number, int, num_add, num_sub, num_le}
use avocado_misc_tests.Dlpar.Session.{Session}
use avocado_misc_tests.Dlpar.Payload.{mem_rounds, next_index, cons_opt, nat_amounts}
use avocado_misc_tests.Dlpar.Payload.Mem.{doubling, mem_rounds_fill}
use avocado_misc_tests.Dlpar.Payload.Numbers.{number_amounts, mem_payload_data, round_up}

module _ ⦃H : Host⦄ where
  abbrev pub of_ℕ : ℕ → Number
  of_ℕ n = int (pos n)

  abbrev pub ints : Option (List ℕ) → Option (List Number)
  ints none = none
  ints (some xs) = some (map of_ℕ xs)

  add_pos : (a b : ℕ) → pos a +ℤ pos b ≡ pos (a + b)
  unfolding ◌+ℤ◌
  add_pos a b = ground arith

  sub_pos : (a b : ℕ) → b ≤ a → pos a -ℤ pos b ≡ pos (a - b)
  unfolding ◌-ℤ◌
  sub_pos a b h = ground arith

  leb_pos : (a b : ℕ) → leb_ℤ (pos a) (pos b) ≡ leb a b
  leb_pos a b = ground arith

  next_pos :
      (index remaining : ℕ)
      → next_index (of_ℕ index) (of_ℕ remaining) ≡ of_ℕ (next_index index remaining)
  unfolding num_add num_le ◌+ℤ◌
  next_pos index remaining = ground arith

  ints-if :
      (b : Bool) (x y : Option (List ℕ))
      → ints (if b then x else y) ≡ (if b then ints x else ints y)
  ints-if true x y = refl
  ints-if false x y = refl

  ints-cons : (n : ℕ) (xs : Option (List ℕ)) → ints (cons_opt n xs) ≡ cons_opt (of_ℕ n) (ints xs)
  ints-cons n none = refl
  ints-cons n (some xs) = refl

  -- the loop on ints does what it does on naturals
  mem_rounds-ints :
      (fuel max_value current_sum index : ℕ)
      → mem_rounds fuel (of_ℕ max_value) (of_ℕ current_sum) (of_ℕ index)
        ≡ ints (mem_rounds fuel max_value current_sum index)
  unfolding mem_rounds num_add num_sub num_le
  mem_rounds-ints zero max_value current_sum index = refl
  mem_rounds-ints (suc fuel) max_value current_sum index =
      let sum = current_sum + index in
      let rest = mem_rounds-ints fuel max_value sum (next_index index (max_value - sum)) in
      elim (Bool-cases (leb sum max_value)) [
        | inl within ↦
            rw
              (
                add_pos current_sum index,
                leb_pos sum max_value,
                within,
                sub_pos max_value sum (leb→le _ _ within),
                leb_pos (max_value - sum) 0,
                next_pos index (max_value - sum),
                rest,
                ints-if,
                ints-if,
                ints-cons,
              )
              refl
        | inr over ↦ rw (add_pos current_sum index, leb_pos sum max_value, over) refl
      ]

  -- `mem_payload_data` with a maximum above 0 that leaves room for a block, on a partition with
  -- current_mem and with rounds for that room, returns and leaves the session as it is. Its amounts
  -- start at a block and double; only the last, which is above 0, may be less than the next doubling,
  -- and together with what the partition has they make the maximum exactly.
  pub mem_payload_data-fill :
      (rounds current_mem lmb max_value : ℕ) (s : Session H)
      → max_value - current_mem < rounds
      → 0 < lmb
      → current_mem + lmb ≤ max_value
      → (n last : ℕ) × (mem_payload_data rounds (pos current_mem) (pos lmb) (pos max_value) s
          ≡ (ok (map of_ℕ (doubling lmb n ++ last ∷ [])), s))
        × (current_mem + sum (doubling lmb n ++ last ∷ []) ≡ max_value)
        × (0 < last)
        × (last ≤ lmb * 2 ^ n)
  unfolding mem_payload_data
  mem_payload_data-fill rounds current_mem lmb max_value s enough block room =
      let (n, last, e, _, full, positive, bounded) =
        mem_rounds_fill rounds max_value current_mem lmb enough block room in
      let on_ints = mem_rounds-ints rounds max_value current_mem lmb in
      (
        n,
        last,
        ground (arith, room, block, e, on_ints),
        omega (arith, full, sum-append (doubling lmb n) (last ∷ [])),
        positive,
        bounded,
      )

  -- `i += lmb - i % lmb` takes an amount above its last multiple of a block up to the next one: what
  -- comes out is a multiple, larger than the amount, and by one block at most.
  pub round_up-multiple :
      (i lmb : ℕ) (s : Session H)
      → 0 < lmb
      → (n : ℕ) × (round_up (pos i) (pos lmb) s ≡ (ok (pos (n * lmb)), s))
        × (i < n * lmb)
        × (n * lmb ≤ i + lmb)
  unfolding round_up int_mod
  round_up-multiple i lmb s block =
      let split = mod-add-div' i lmb in
      let less = mod-lt i block in
      let up : (i / lmb + 1) * lmb ≡ i / lmb * lmb + lmb = omega (arith, add-mul (i / lmb) 1 lmb) in
      let top : i + (lmb - i % lmb) ≡ (i / lmb + 1) * lmb = omega (arith, split, less, up) in
      let some_block : (pos lmb ==ℤ pos 0) ≡ false = ground (arith, block) in
      (
        i / lmb + 1,
        rw (some_block, sub_pos lmb (i % lmb) (omega (arith, less)), add_pos i (lmb - i % lmb), top)
            refl,
        omega (arith, split, less, up),
        omega (arith, split, less, up),
      )
