-- ===== src/Dlpar/Payload/Numbers.antt =====
-- dlpar/dlpar_main.py: `mem_payload_data` and the amounts that `test_mem_mix` removes, on Python's
-- numbers.
use avocado_misc_tests.Prelude.{ℕ, Bool, List, [], ◌∷◌, if◌then◌else◌}
use avocado_misc_tests.Prelude.Int.{ℤ, pos, ◌+ℤ◌, ◌-ℤ◌, ◌==ℤ◌, int_mod}
use avocado_misc_tests.Text.{contains}
use avocado_misc_tests.Python.{out_of_fuel, zero_division, pure, raise, or_raise, ◌>>=◌}
use avocado_misc_tests.Dlpar.Host.{Host}
use avocado_misc_tests.Dlpar.Num.{
  Num, Number, int, float, num_add, num_sub, num_le, num_mul, num_int,
}
use avocado_misc_tests.Dlpar.Session.{Action, local_text}
use avocado_misc_tests.Dlpar.Payload.{Amounts, cpu_payload_data, mem_rounds}

module _ ⦃H : Host⦄ where
  -- `x * 2` is `x + x`, of an int and of a float.
  instance abbrev pub number_amounts : Amounts (Num H.Float)
  number_amounts = record {
    nought = int (pos 0);
    float_nought = float (H.hundredths 0);
    add = num_add;
    sub = num_sub;
    le = num_le;
  }

  -- `self.cpu_payload_data(max_value, curr_proc, step)` with the rounds that its loop may take
  unfoldable pub cpu_amounts : ℕ → Number → Number → Number → Action (List Number)
  cpu_amounts rounds max_value curr_proc step =
      or_raise (cpu_payload_data rounds max_value curr_proc step) out_of_fuel

  -- 40 % of the memory, or 80 % if nothing is running, taken up to a multiple of a block
  removable : ℤ → ℤ → Bool → H.Float
  removable curr_mem lmb idle =
      let share = H.float_mul (H.float_of_int curr_mem) (H.hundredths (if idle then 80 else 40)) in
      let block = H.float_of_int lmb in
      H.float_add share (H.float_sub block (H.float_mod share block))

  unfoldable pub mem_payload_data : ℕ → ℤ → ℤ → ℤ → Action (List Number)
  unfolding removable
  mem_payload_data rounds curr_mem lmb max_value =
      if max_value ==ℤ pos 0
      then (do
        cmd_output ← local_text "htxcmdline -query  -mdt mdt.*"
        if lmb ==ℤ pos 0
            then raise zero_division
            else or_raise
                (mem_rounds rounds (float (removable curr_mem lmb (contains cmd_output "IDLE")))
                  (int (pos 0)) (int lmb))
                out_of_fuel)
      else or_raise (mem_rounds rounds (int max_value) (int curr_mem) (int lmb)) out_of_fuel

  -- `i += lmb_value - (i % lmb_value)`
  unfoldable pub round_up : ℤ → ℤ → Action ℤ
  round_up i lmb = if lmb ==ℤ pos 0 then raise zero_division else pure (i +ℤ (lmb -ℤ int_mod i lmb))

  -- `int(i * 0.8)`, rounded up, for each amount
  unfoldable pub mix_removals : ℤ → List Number → Action (List Number)
  unfolding round_up
  mix_removals lmb [] = pure []
  mix_removals lmb (i ∷ mem_add) = do
    rem ← round_up (num_int (num_mul i (float (H.hundredths 80)))) lmb
    rest ← mix_removals lmb mem_add
    pure (int rem ∷ rest)
