-- ===== src/Dlpar/Payload/Mix.antt =====
-- dlpar/dlpar_main.py, `mix_payload_data`: random amounts with the sum of the given ones.
use avocado_misc_tests.Prelude.{ℕ, zero, suc, ◌-◌, ◌≤◌, ◌<◌, ◌≡◌, refl, List, [], ◌∷◌, arith}
use avocado_misc_tests.Prelude.Int.{pos, pos_part}
use avocado_misc_tests.Prelude.Lists.{All, sum}
use avocado_misc_tests.Python.{ok, out_of_fuel, Result, pure, raise, ◌>>=◌}
use avocado_misc_tests.Dlpar.Host.{Host, RandintInRange}
use avocado_misc_tests.Dlpar.Num.{Number, int, num_add, num_int}
use avocado_misc_tests.Dlpar.Session.{Session, Action}

module _ ⦃H : Host⦄ where
  -- `random.randint(1, n)`
  randint : ℕ → Action ℕ
  randint n s = let (v, w) = H.randint n s.world in (ok v, record s { world = w })

  -- `while remaining_sum > 0`; a round takes at least 1, so the sum is fuel enough. A sum below 0
  -- makes no round, as 0 does.
  unfoldable pub mix_rounds : ℕ → ℕ → Action (List ℕ)
  unfolding randint
  mix_rounds fuel zero = pure []
  mix_rounds zero (suc n) = raise out_of_fuel
  mix_rounds (suc fuel) (suc n) = do
    value ← randint (suc n)
    rest ← mix_rounds fuel (suc n - value)
    pure (value ∷ rest)

  -- `sum(values)`
  unfoldable pub num_sum : Number → List Number → Number
  num_sum total [] = total
  num_sum total (x ∷ xs) = num_sum (num_add total x) xs

  unfoldable pub mix_payload_data : List Number → Action (List ℕ)
  unfolding mix_rounds num_sum
  mix_payload_data values =
      let total = pos_part (num_int (num_sum (int (pos 0)) values)) in mix_rounds total total

  -- The amounts are positive and sum up to what was to be split.
  record Splits (n : ℕ) (out : Result (List ℕ) × Session H) : Type 0 where
    amounts : List ℕ
    after : Session H
    result : out ≡ (ok amounts, after)
    positive : All (λ x. 0 < x) amounts
    total : sum amounts ≡ n

  mix_rounds_lem :
      RandintInRange H → (fuel n : ℕ) (s : Session H) → n ≤ fuel → Splits n (mix_rounds fuel n s)
  unfolding mix_rounds ◌>>=◌
  mix_rounds_lem r fuel zero s h = record {
    amounts = [];
    after = s;
    result = refl;
    positive = tt;
    total = refl;
  }
  mix_rounds_lem r zero (suc n) s h = absurd (omega arith)
  mix_rounds_lem r (suc fuel) (suc n) s h =
      let (v, w) = H.randint (suc n) s.world in
      let (low, high) = r.in_range (suc n) s.world (omega arith) in
      let rest = mix_rounds_lem r fuel (suc n - v) (record s { world = w }) (omega arith) in
      record {
        amounts = v ∷ rest.amounts;
        after = rest.after;
        result = rw rest.result;
        positive = (low, rest.positive);
        total = omega (arith, rest.total);
      }

  pub mix_payload_data-sum :
      RandintInRange H
      → (values : List Number) (s : Session H)
      → (amounts : List ℕ) × (after : Session H) × (mix_payload_data values s ≡ (ok amounts, after))
        × All (λ x. 0 < x) amounts
        × (sum amounts ≡ pos_part (num_int (num_sum (int (pos 0)) values)))
  unfolding mix_payload_data
  mix_payload_data-sum r values s =
      let total = pos_part (num_int (num_sum (int (pos 0)) values)) in
      let split = mix_rounds_lem r total total s (omega arith) in
      (split.amounts, split.after, split.result, split.positive, split.total)
