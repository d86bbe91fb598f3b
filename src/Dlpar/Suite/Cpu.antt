-- ===== src/Dlpar/Suite/Cpu.antt =====
-- dlpar/dlpar_main.py: `test_cpu_add`, `test_cpu_rm`, `test_mix_cpu` and `test_cpu_move`.
use mathlib.Core.List.{reverse, zip}
use avocado_misc_tests.Prelude.{
  ℕ, zero, suc, String, ◌<>◌, ◌&&◌, List, [], ◌∷◌, ◌++◌, map, str_eq, ◌==◌, if◌then◌else◌,
}
use avocado_misc_tests.Prelude.Int.{pos, leb_ℤ}
use avocado_misc_tests.Prelude.Lists.{sum}
use avocado_misc_tests.Python.{fail, pure, raise, ◌>>=◌, ◌>>◌, for_each}
use avocado_misc_tests.Dlpar.Host.{Host}
use avocado_misc_tests.Dlpar.Num.{Number, int, float, num_int, num_str, to_float}
use avocado_misc_tests.Dlpar.Session.{Action, log_info}
use avocado_misc_tests.Dlpar.Connections.{Config}
use avocado_misc_tests.Dlpar.Dedicated.{
  dedicated_cpu, get_max_proc, get_curr_proc, add_ded_cpu, rem_ded_cpu, move_ded_cpu,
}
use avocado_misc_tests.Dlpar.Units.{
  cpu_unit, get_max_proc_units, get_curr_proc_unit, get_shared_max_proc, get_shared_curr_proc,
  add_proc, remove_proc, move_proc,
}
use avocado_misc_tests.Dlpar.Payload.Mix.{mix_payload_data}
use avocado_misc_tests.Dlpar.Payload.Numbers.{cpu_amounts}
use avocado_misc_tests.Dlpar.Suite.Outcome.{
  stop_if_refused, data_payload_backup, data_payload_extract, line_0, line_1, remove_config,
}

abbrev pub add_failed : String
add_failed = "CPU add Command failed please check the logs"

abbrev pub remove_failed : String
remove_failed = "CPU remove Command failed please                               check the logs"

module _ ⦃H : Host⦄ where
  -- `int(cpu)`, as an argument
  abbrev pub as_int : Number → Number
  as_int cpu = int (num_int cpu)

  -- one round of a loop over dedicated processors
  unfoldable pub add_round : Number → Action Unit
  add_round cpu = do
    rvalue ← add_ded_cpu (as_int cpu)
    stop_if_refused rvalue add_failed
    log_info ("===============> " <> (num_str cpu <> " cpu got added=======>\n "))

  unfoldable pub remove_round : Number → Action Unit
  remove_round cpu = do
    rvalue ← rem_ded_cpu (as_int cpu)
    stop_if_refused rvalue remove_failed
    log_info ("=====> " <> (num_str cpu <> " cpus got removed====>\n "))

  unfoldable pub cpu_add_dedicated : ℕ → Config H → Action Unit
  cpu_add_dedicated rounds c = do
    dedicated_cpu c
    max_procs ← get_max_proc
    curr_proc ← get_curr_proc
    cpu_payload ← cpu_amounts rounds (int max_procs) (int curr_proc) (int (pos 1))
    data_payload_backup cpu_payload
    for_each cpu_payload add_round

  -- `del xs[len(ys):]`
  abbrev cut {ℓ} : {A : Type ℓ} → List A → List A → List A
  cut [] ys = []
  cut (x ∷ xs) [] = []
  cut (x ∷ xs) (y ∷ ys) = x ∷ cut xs ys

  -- the pairs whose units for each virtual processor are between 0.05 and 1
  unfoldable pub balanced : List (Number × Number) → List (Number × Number)
  balanced [] = []
  balanced ((pu, vp) ∷ pairs) =
      let result = H.float_div (to_float pu) (to_float vp) in
      let rest = balanced pairs in
      if H.float_le (H.hundredths 5) result && H.float_le result (H.float_of_int (pos 1))
      then (pu, as_int vp) ∷ rest
      else rest

  unfoldable pub add_units_round : Number × Number → Action Unit
  add_units_round (pu, vp) = do
    result ← add_proc pu "--procunits"
    stop_if_refused result "proc_units add Command failed please check the logs"
    log_info ("====>" <> (num_str pu <> " procunits got added====>\n "))
    result ← add_proc vp "--procs"
    stop_if_refused result add_failed
    log_info ("===============>" <> (num_str vp <> " cpus got added=======>\n "))

  unfoldable pub cpu_add_shared : ℕ → Config H → Action Unit
  cpu_add_shared rounds c = do
    cpu_unit c
    max_units ← get_max_proc_units
    curr_units ← get_curr_proc_unit
    max_procs ← get_shared_max_proc
    curr_proc ← get_shared_curr_proc
    all_procs ←
        cpu_amounts rounds (int max_procs) (int curr_proc)
          (if leb_ℤ max_procs (pos 20) then int (pos 1) else int (pos 2))
    all_units ← cpu_amounts rounds (float max_units) (float curr_units) (float (H.hundredths 75))
    let pairs = balanced (zip (cut all_units all_procs) (cut all_procs all_units))
    data_payload_backup (map (λ p. p.1) pairs)
    data_payload_backup (map (λ p. p.0) pairs)
    for_each pairs add_units_round

  -- any other mode does nothing
  unfoldable pub by_mode : String → Action Unit → Action Unit → Action Unit
  by_mode lpar_mode dedicated shared =
      if str_eq lpar_mode "dedicated"
      then dedicated
      else if str_eq lpar_mode "shared"
      then shared
      else pure tt

  unfoldable pub test_cpu_add : String → ℕ → Config H → Action Unit
  test_cpu_add lpar_mode rounds c =
      by_mode lpar_mode (cpu_add_dedicated rounds c) (cpu_add_shared rounds c)

  unfoldable pub cpu_rm_dedicated : Config H → Action Unit
  cpu_rm_dedicated c = do
    dedicated_cpu c
    lines ← data_payload_extract
    cpupayload ← line_0 lines
    for_each cpupayload remove_round

  unfoldable pub remove_units_round : Number × Number → Action Unit
  remove_units_round (vp, pu) = do
    result ← remove_proc vp "--procs"
    stop_if_refused result
        "Cpu remove Command failed please                               check the logs"
    log_info ("====>" <> (num_str vp <> " cpu got removed====>\n "))
    result ← remove_proc pu "--procunits"
    stop_if_refused result
        "proc units remove Command failed                               please check the logs"
    log_info ("===============>" <> (num_str pu <> " procunits got removed=======>\n "))

  unfoldable pub cpu_rm_shared : Config H → Action Unit
  cpu_rm_shared c = do
    cpu_unit c
    lines ← data_payload_extract
    vp ← line_0 lines
    pu ← line_1 lines
    for_each (zip (reverse vp) (reverse pu)) remove_units_round

  unfoldable pub test_cpu_rm : String → Config H → Action Unit
  test_cpu_rm lpar_mode c = by_mode lpar_mode (cpu_rm_dedicated c) (cpu_rm_shared c)

  unfoldable pub mix_round : ℕ → Action Unit
  mix_round cpu = do
    rvalue ← add_ded_cpu (int (pos cpu))
    stop_if_refused rvalue add_failed
    log_info ("===============>" <> (num_str (int (pos cpu)) <> " cpus got added=======>\n "))
    rvalue ← rem_ded_cpu (int (pos cpu))
    stop_if_refused rvalue remove_failed
    log_info ("===============>" <> (num_str (int (pos cpu)) <> " cpus got removed=======>\n "))

  unfoldable pub mix_dedicated : Config H → Action Unit
  mix_dedicated c = do
    dedicated_cpu c
    lines ← data_payload_extract
    cpu_payload ← line_0 lines
    cpu_mix ← mix_payload_data cpu_payload
    for_each (cpu_mix ++ sum cpu_mix ∷ []) mix_round

  unfoldable pub mix_units_round : Number × Number → Action Unit
  mix_units_round (pu, vp) = do
    result ← add_proc (as_int vp) "--procs"
    stop_if_refused result add_failed
    log_info ("===============>" <> (num_str vp <> " cpus got added=======>\n "))
    result ← add_proc pu "--procunits"
    stop_if_refused result "proc_units add Command failed please check the logs"
    log_info ("====>" <> (num_str pu <> " procunits got added====>\n "))
    result ← remove_proc pu "--procunits"
    stop_if_refused result
        "proc units remove Command failed                               please check the logs"
    log_info ("===============>" <> (num_str pu <> " procunits got removed=======>\n "))
    result ← remove_proc (as_int vp) "--procs"
    stop_if_refused result
        "Cpu remove Command failed                               please check the logs"
    log_info ("====>" <> (num_str vp <> " cpu got removed====>\n "))

  unfoldable pub mix_shared : Config H → Action Unit
  mix_shared c = do
    cpu_unit c
    lines ← data_payload_extract
    vp ← line_0 lines
    pu ← line_1 lines
    for_each (zip pu vp) mix_units_round

  unfoldable pub test_mix_cpu : String → Config H → Action Unit
  test_mix_cpu lpar_mode c = do by_mode lpar_mode (mix_dedicated c) (mix_shared c); remove_config

  -- `for i in range(n)`
  unfoldable pub repeat : ℕ → Action Unit → Action Unit
  repeat zero body = pure tt
  repeat (suc n) body = do body; repeat n body

  fail_if_1 : ℕ → String → Action Unit
  fail_if_1 rvalue message = if rvalue == 1 then raise (fail message) else pure tt

  unfoldable pub cpu_move_dedicated : Config H → Action Unit
  unfolding fail_if_1
  cpu_move_dedicated c = do
    dedicated_cpu c
    repeat c.iterations
        (do rvalue ← move_ded_cpu; fail_if_1 rvalue "CPU move Command failed please check the logs")

  unfoldable pub cpu_move_shared : Config H → Action Unit
  unfolding fail_if_1
  cpu_move_shared c = do
    cpu_unit c
    repeat c.iterations
        (do rvalue ← move_proc; fail_if_1 rvalue "Proc move Command failed please check the logs")

  unfoldable pub test_cpu_move : String → Config H → Action Unit
  test_cpu_move lpar_mode c = by_mode lpar_mode (cpu_move_dedicated c) (cpu_move_shared c)
