-- ===== src/Dlpar/Tests/Amounts.antt =====
-- The amounts of dlpar/dlpar_main.py at concrete numbers.
use avocado_misc_tests.Prelude.{
  String, ℕ, ◌+◌, ◌*◌, ◌^◌, ◌≤◌, ◌<◌, ◌≡◌, List, [], ◌∷◌, ◌++◌, map, arith,
}
use avocado_misc_tests.Prelude.Int.{pos, pos_part}
use avocado_misc_tests.Prelude.Lists.{All, sum}
use avocado_misc_tests.Python.{ok}
use avocado_misc_tests.Dlpar.Num.{Number, int, num_int}
use avocado_misc_tests.Dlpar.Session.{Session}
use avocado_misc_tests.Dlpar.Payload.Cpu.{progression}
use avocado_misc_tests.Dlpar.Payload.Floats.{whole, cpu_payload_data-progression}
use avocado_misc_tests.Dlpar.Payload.Mem.{doubling}
use avocado_misc_tests.Dlpar.Payload.Mix.{num_sum, mix_payload_data, mix_payload_data-sum}
use avocado_misc_tests.Dlpar.Payload.Numbers.{cpu_amounts, mem_payload_data, round_up}
use avocado_misc_tests.Dlpar.Payload.Ints.{of_ℕ, mem_payload_data-fill, round_up-multiple}
use avocado_misc_tests.Dlpar.Tests.Hosts.{exact, from_script, scripted, scripted_randint, connected}

abbrev idle : Session scripted
idle = connected scripted []

cpu_payload_data-progression_example :
    (n : ℕ) × (cpu_amounts ⦃H = scripted⦄ 10 (int (pos 10)) (int (pos 2)) (int (pos 1)) idle
      ≡ (ok (map (whole ⦃H = scripted⦄) (progression 1 1 n)), idle))
    × (2 + sum (progression 1 1 n) ≤ 10)
    × (10 < 2 + sum (progression 1 1 n) + (n + 1) * 1)
cpu_payload_data-progression_example =
    cpu_payload_data-progression ⦃H = scripted⦄ (exact (List String) from_script) 10 10 2 1 idle
      (omega arith) (omega arith) (omega arith) (omega arith)

mem_payload_data-fill_example :
    (n last : ℕ) × (mem_payload_data ⦃H = scripted⦄ 2001 (pos 1000) (pos 256) (pos 3000) idle
      ≡ (ok (map (of_ℕ ⦃H = scripted⦄) (doubling 256 n ++ last ∷ [])), idle))
    × (1000 + sum (doubling 256 n ++ last ∷ []) ≡ 3000)
    × (0 < last)
    × (last ≤ 256 * 2 ^ n)
mem_payload_data-fill_example =
    mem_payload_data-fill ⦃H = scripted⦄ 2001 1000 256 3000 idle (omega arith) (omega arith)
      (omega arith)

round_up-multiple_example :
    (n : ℕ) × (round_up ⦃H = scripted⦄ (pos 819) (pos 256) idle ≡ (ok (pos (n * 256)), idle))
    × (819 < n * 256)
    × (n * 256 ≤ 819 + 256)
round_up-multiple_example = round_up-multiple ⦃H = scripted⦄ 819 256 idle (omega arith)

abbrev three_amounts : List (Number ⦃H = scripted⦄)
three_amounts = int (pos 1) ∷ int (pos 2) ∷ int (pos 3) ∷ []

mix_payload_data-sum_example :
    (amounts : List ℕ) × (after : Session scripted) × (mix_payload_data ⦃H = scripted⦄ three_amounts
        idle
      ≡ (ok amounts, after))
    × All (λ x. 0 < x) amounts
    × (sum amounts
        ≡ pos_part (num_int ⦃H = scripted⦄ (num_sum ⦃H = scripted⦄ (int (pos 0)) three_amounts)))
mix_payload_data-sum_example =
    mix_payload_data-sum ⦃H = scripted⦄ scripted_randint three_amounts idle
