-- ===== src/Dlpar/Units.antt =====
-- dlpar/dlpar_api/api.py: `CpuUnit`, the processing units and virtual processors of a partition in
-- shared mode.
pub mod Outcome
pub mod Operations
use avocado_misc_tests.Prelude.{ℕ, String, ◌<>◌, Option, none, some, str_eq, if◌then◌else◌}
use avocado_misc_tests.Prelude.Int.{ℤ}
use avocado_misc_tests.Python.{attribute_error, pure, gets, or_raise, ◌>>=◌, ◌>>◌}
use avocado_misc_tests.Dlpar.Host.{Host}
use avocado_misc_tests.Dlpar.Num.{Number, int, float}
use avocado_misc_tests.Dlpar.Session.{Machine, Action, log_debug, log_info, to_float_of}
use avocado_misc_tests.Dlpar.Connections.{Config, check, new_test_case, get_connections}
use avocado_misc_tests.Dlpar.Engine.{Flag, one, pair, dlpar_engine, get_cpu_option, cpu_int}
use avocado_misc_tests.Dlpar.Validate.{amount, amounts, dlpar_cpu_validation}
use avocado_misc_tests.Dlpar.Dedicated.{
  self_linux_1, self_linux_2, self_quant_to_test, sleep_before_proceeding, report, read_quantity,
}

module _ ⦃H : Host⦄ where
  -- `float(self.get_cpu_option(machine, option))`
  unfoldable pub cpu_float : Machine → String → Action H.Float
  cpu_float m option = do t ← get_cpu_option m option; to_float_of t

  unfoldable pub check_set_cfg : Machine → Action Unit
  check_set_cfg m = do
    log_info ("Checking partition '" <> (m.partition <> "' configuration."))
    log_debug ("Machine: " <> m.name)
    mode ← get_cpu_option m "curr_proc_mode"
    check ("Checking if linux partition '" <> (m.partition <> "' is at shared mode"))
        (str_eq mode "shared")
    max_procs ← cpu_int m "curr_max_procs"
    min_units ← cpu_float m "curr_min_proc_units"
    max_units ← cpu_float m "curr_max_proc_units"
    log_debug ("curr_min_proc_units: " <> H.string_of_float min_units)
    log_debug ("curr_max_proc_units: " <> H.string_of_float max_units)
    log_info ("Configuration settings for partition " <> (m.partition <> " all correct."))

  -- `CpuUnit(config_payload)`
  unfoldable pub cpu_unit : Config H → Action Unit
  cpu_unit c = do
    new_test_case c "CPU Unit"
    read_quantity c.cpu_quantity_to_test c.sleep_time " CPU Units."
    get_connections c "both"
    m ← self_linux_1
    check_set_cfg m
    n ← self_linux_2
    check_set_cfg n

  unfoldable pub get_shared_max_proc : Action ℤ
  get_shared_max_proc = do m ← self_linux_1; cpu_int m "curr_max_procs"

  unfoldable pub get_shared_curr_proc : Action ℤ
  get_shared_curr_proc = do m ← self_linux_1; cpu_int m "curr_procs"

  unfoldable pub get_max_proc_units : Action H.Float
  get_max_proc_units = do m ← self_linux_1; cpu_float m "curr_max_proc_units"

  unfoldable pub get_curr_proc_unit : Action H.Float
  get_curr_proc_unit = do m ← self_linux_1; cpu_float m "curr_proc_units"

  abbrev pub units_flag : String → String → Flag
  units_flag op option = record { resource = "proc"; operation = op; option = option }

  -- `self.cmd_result.stdout_text`, which is read after `Dlpar_engine` has set it
  abbrev pub last_output : Action String
  last_output = do out ← gets (λ s. s.cmd_result); or_raise out attribute_error

  unfoldable pub add_cpu_units : Machine → Number → String → Action (Option ℕ)
  add_cpu_units m quantity option = do
    units_before ← cpu_float m "curr_proc_units"
    procs_before ← cpu_int m "curr_procs"
    dlpar_engine (units_flag "a" option) (one m) quantity
    out ← last_output
    if str_eq out ""
        then (do
          sleep_before_proceeding
          (if str_eq option "--procs"
              then dlpar_cpu_validation "a" (one m) quantity (amount (int procs_before))
              else dlpar_cpu_validation "cpu_a" (one m) quantity (amount (float units_before)))
          pure none)
        else pure (some 1)

  unfoldable pub remove_cpu_units : Machine → Number → String → Action (Option ℕ)
  remove_cpu_units m quantity option = do
    units_before ← cpu_float m "curr_proc_units"
    procs_before ← cpu_int m "curr_procs"
    output ← dlpar_engine (units_flag "r" option) (one m) quantity
    out ← last_output
    if str_eq out ""
        then (do
          log_debug output
          sleep_before_proceeding
          (if str_eq option "--procs"
              then dlpar_cpu_validation "r" (one m) quantity (amount (int procs_before))
              else dlpar_cpu_validation "cpu_r" (one m) quantity (amount (float units_before)))
          pure none)
        else pure (some 1)

  unfoldable pub move_cpu_units : Machine → Machine → Number → Action (Option ℕ)
  move_cpu_units m n quantity = do
    before_1 ← cpu_float m "curr_proc_units"
    before_2 ← cpu_float n "curr_proc_units"
    output ← dlpar_engine (units_flag "m" "--procunits") (pair m n) quantity
    out ← last_output
    if str_eq out ""
        then (do
          log_debug output
          sleep_before_proceeding
          dlpar_cpu_validation "cpu_m" (pair m n) quantity
              (amounts (float before_1) (float before_2))
          pure none)
        else pure (some 1)

  unfoldable pub add_proc : Number → String → Action ℕ
  add_proc cpu flag = do m ← self_linux_1; rvalue ← add_cpu_units m cpu flag; report rvalue

  unfoldable pub remove_proc : Number → String → Action ℕ
  remove_proc cpu flag = do m ← self_linux_1; rvalue ← remove_cpu_units m cpu flag; report rvalue

  unfoldable pub move_proc : Action ℕ
  move_proc = do
    m ← self_linux_1
    n ← self_linux_2
    quantity ← self_quant_to_test
    rvalue ← move_cpu_units m n quantity
    report rvalue
