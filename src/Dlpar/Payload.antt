-- ===== src/Dlpar/Payload.antt =====
-- dlpar/dlpar_main.py: the amounts that the tests add and remove. `cpu_payload_data` and
-- `mem_payload_data` run on ints and on floats alike, so their loops are over any amounts.
pub mod Cpu
pub mod Mem
pub mod Mix
pub mod Numbers
pub mod Ints
pub mod Floats
use avocado_misc_tests.Prelude.{
  ℕ, zero, suc, ◌+◌, ◌-◌, ◌≡◌, refl, Bool, not, Option, none, some, List, [], ◌∷◌, leb,
  if◌then◌else◌,
}

-- What the loops use of a number.
pub record Amounts (A : Type 0) : Type 0 where
  pub nought : A
  -- `0.0`, where the index of `cpu_payload_data` starts
  pub float_nought : A
  pub add : A → A → A
  pub sub : A → A → A
  pub le : A → A → Bool

-- Exact amounts, with which theorems compare what the loops make of Python's numbers.
instance abbrev pub nat_amounts : Amounts ℕ
nat_amounts = record { nought = 0; float_nought = 0; add = ◌+◌; sub = ◌-◌; le = leb }

module _ {A : Type 0} where
  abbrev pub cons_opt : A → Option (List A) → Option (List A)
  cons_opt x none = none
  cons_opt x (some xs) = some (x ∷ xs)

module _ {A : Type 0} ⦃o : Amounts A⦄ where
  -- `a < b`, `a == 0`
  abbrev pub below : A → A → Bool
  below a b = not (o.le b a)

  -- The `while True` loop of `cpu_payload_data`: `index` is added as long as the sum stays within
  -- `max_value`, and grows by `step`. `none` means that the fuel ran out.
  unfoldable pub cpu_rounds : ℕ → A → A → A → A → Option (List A)
  cpu_rounds zero max_value step current_sum index = none
  cpu_rounds (suc fuel) max_value step current_sum index =
      let rest =
        cons_opt index
          (cpu_rounds fuel max_value step (o.add current_sum index) (o.add index step)) in
      if below max_value (o.add current_sum index) then some [] else rest

  -- `[value for value in index_list if value != 0]`
  unfoldable pub nonzero : List A → List A
  nonzero [] = []
  nonzero (x ∷ xs) =
      let rest = nonzero xs in
      if o.le x o.nought then (if o.le o.nought x then rest else x ∷ rest) else x ∷ rest

  unfoldable pub cpu_payload_data : ℕ → A → A → A → Option (List A)
  unfolding cpu_rounds nonzero
  cpu_payload_data fuel max_value curr_proc step =
      elim (cpu_rounds fuel max_value step curr_proc o.float_nought) [
        | none ↦ none
        | some index_list ↦ some (nonzero index_list)
      ]

  abbrev pub smaller : A → A → A
  smaller a b = if below b a then b else a

  -- The next amount: what is left if that is less, else twice this one and at most what is left.
  abbrev pub next_index : A → A → A
  next_index index remaining =
      if below remaining index then remaining else smaller (o.add index index) remaining

  -- The `while` loop of `mem_payload_data`.
  unfoldable pub mem_rounds : ℕ → A → A → A → Option (List A)
  mem_rounds zero max_value current_sum index = none
  mem_rounds (suc fuel) max_value current_sum index =
      let sum = o.add current_sum index in
      let remaining = o.sub max_value sum in
      let rest = cons_opt index (mem_rounds fuel max_value sum (next_index index remaining)) in
      if o.le sum max_value
      then (if o.le remaining o.nought then some (index ∷ []) else rest)
      else some []

cpu_payload_run : cpu_payload_data {A = ℕ} 9 10 2 1 ≡ some (1 ∷ 2 ∷ 3 ∷ [])
unfolding cpu_payload_data
cpu_payload_run = refl

mem_rounds_run : mem_rounds {A = ℕ} 9 3000 1000 256 ≡ some (256 ∷ 512 ∷ 1024 ∷ 208 ∷ [])
unfolding mem_rounds
mem_rounds_run = refl
