-- ===== src/Dlpar/Dedicated.antt =====
-- dlpar/dlpar_api/api.py: `DedicatedCpu`, the dedicated processors of a partition.
pub mod Outcome
pub mod Operations
use avocado_misc_tests.Prelude.{
  ℕ, String, ◌<>◌, Bool, true, false, Option, none, some, str_eq, if◌then◌else◌,
}
use avocado_misc_tests.Prelude.Int.{ℤ}
use avocado_misc_tests.Text.{string_of_int}
use avocado_misc_tests.Python.{
  attribute_error, type_error, pure, gets, or_raise, modify, ◌>>=◌, ◌>>◌,
}
use avocado_misc_tests.Dlpar.Host.{Host}
use avocado_misc_tests.Dlpar.Num.{Number, int, num_str}
use avocado_misc_tests.Dlpar.Session.{Machine, Action, log_debug, log_info, sleep}
use avocado_misc_tests.Dlpar.Connections.{Config, check, new_test_case, get_connections}
use avocado_misc_tests.Dlpar.Engine.{Flag, one, pair, dlpar_engine, get_cpu_option, cpu_int}
use avocado_misc_tests.Dlpar.Validate.{amount, amounts, dlpar_cpu_validation}

abbrev pub is_some {ℓ} : {A : Type ℓ} → Option A → Bool
is_some none = false
is_some (some _) = true

module _ ⦃H : Host⦄ where
  abbrev pub self_linux_1 : Action Machine
  self_linux_1 = do m ← gets (λ s. s.linux_1); or_raise m attribute_error

  abbrev pub self_linux_2 : Action Machine
  self_linux_2 = do m ← gets (λ s. s.linux_2); or_raise m attribute_error

  -- `self.quant_to_test`, which the constructor has checked
  abbrev pub self_quant_to_test : Action Number
  self_quant_to_test = do q ← gets (λ s. s.quant_to_test); or_raise q type_error

  -- `self.log.debug('Sleeping …')` and `time.sleep(self.sleep_time)`
  unfoldable pub rest_a_while : String → String → Action Unit
  rest_a_while before after = do
    n ← gets (λ s. s.sleep_time)
    log_debug (before <> (string_of_int n <> after))
    sleep n

  abbrev pub sleep_before_proceeding : Action Unit
  sleep_before_proceeding = rest_a_while "Sleeping for " " seconds before proceeding"

  -- what the public methods do with the answer of the private ones: 1 goes on, all else is 0
  unfoldable pub report : Option ℕ → Action ℕ
  report (some n) = pure n
  report none = do log_info "Test finished successfully."; pure 0

  unfoldable pub check_set_cfg : Machine → Action Unit
  check_set_cfg m = do
    log_info ("Checking partition '" <> (m.partition <> "' configuration."))
    log_debug ("Machine: " <> m.name)
    mode ← get_cpu_option m "curr_proc_mode"
    log_info ("DEBUG: curr_proc_node " <> mode)
    check ("Checking if linux partition '" <> (m.partition <> "' is at dedicated mode"))
        (str_eq mode "ded")
    min_procs ← cpu_int m "curr_min_procs"
    procs ← cpu_int m "curr_procs"
    log_debug ("curr_min_procs: " <> string_of_int min_procs)
    log_debug ("curr_procs: " <> string_of_int procs)
    log_info ("Configuration settings for partition " <> (m.partition <> " all correct."))

  quantity_text : Option Number → String
  quantity_text none = "None"
  quantity_text (some n) = num_str n

  -- the part of a constructor that reads the quantity and the pause
  unfoldable pub read_quantity : Option Number → ℤ → String → Action Unit
  unfolding quantity_text
  read_quantity quantity pause what = do
    modify (λ s. record s { quant_to_test = quantity; sleep_time = pause })
    check "Getting Test configuration." (is_some quantity)
    log_debug ("Testing with " <> (quantity_text quantity <> what))

  -- `DedicatedCpu(config_payload)`
  unfoldable pub dedicated_cpu : Config H → Action Unit
  dedicated_cpu c = do
    new_test_case c "Dedicated CPU"
    read_quantity c.ded_quantity_to_test c.sleep_time " Dedicated CPU units."
    get_connections c "both"
    m ← self_linux_1
    check_set_cfg m
    n ← self_linux_2
    check_set_cfg n

  unfoldable pub get_max_proc : Action ℤ
  get_max_proc = do m ← self_linux_1; cpu_int m "curr_max_procs"

  unfoldable pub get_curr_proc : Action ℤ
  get_curr_proc = do m ← self_linux_1; cpu_int m "curr_procs"

  abbrev pub procs_flag : String → Flag
  procs_flag op = record { resource = "proc"; operation = op; option = "--procs" }

  -- `some 1` is `return 1`, and `none` the end of the method.
  unfoldable pub add_dedicated_cpu : Machine → Number → Action (Option ℕ)
  add_dedicated_cpu m quantity = do
    before ← cpu_int m "curr_procs"
    pause ← gets (λ s. s.sleep_time)
    sleep pause
    out ← dlpar_engine (procs_flag "a") (one m) quantity
    sleep_before_proceeding
    if str_eq out ""
        then (do dlpar_cpu_validation "a" (one m) quantity (amount (int before)); pure none)
        else pure (some 1)

  unfoldable pub remove_dedicated_cpu : Machine → Number → Action (Option ℕ)
  remove_dedicated_cpu m quantity = do
    before ← cpu_int m "curr_procs"
    out ← dlpar_engine (procs_flag "r") (one m) quantity
    if str_eq out ""
        then (do
          (do
            sleep_before_proceeding
            dlpar_cpu_validation "r" (one m) quantity (amount (int before)))
          pure none)
        else pure (some 1)

  unfoldable pub move_dedicated_cpu : Machine → Machine → Number → Action (Option ℕ)
  move_dedicated_cpu m n quantity = do
    before_1 ← cpu_int m "curr_procs"
    before_2 ← cpu_int n "curr_procs"
    out ← dlpar_engine (procs_flag "m") (pair m n) quantity
    if str_eq out ""
        then (do
          (do
            sleep_before_proceeding
            dlpar_cpu_validation "m" (pair m n) quantity (amounts (int before_1) (int before_2)))
          pure none)
        else pure (some 1)

  unfoldable pub add_ded_cpu : Number → Action ℕ
  add_ded_cpu cpu = do m ← self_linux_1; rvalue ← add_dedicated_cpu m cpu; report rvalue

  unfoldable pub rem_ded_cpu : Number → Action ℕ
  rem_ded_cpu cpu = do m ← self_linux_1; rvalue ← remove_dedicated_cpu m cpu; report rvalue

  unfoldable pub move_ded_cpu : Action ℕ
  move_ded_cpu = do
    m ← self_linux_1
    n ← self_linux_2
    quantity ← self_quant_to_test
    rvalue ← move_dedicated_cpu m n quantity
    report rvalue
