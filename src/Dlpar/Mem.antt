-- ===== src/Dlpar/Mem.antt =====
-- dlpar/dlpar_api/api.py: `Memory`, the memory of a partition.
pub mod Operations
pub mod Transfer
use avocado_misc_tests.Prelude.{ℕ, String, ◌<>◌, Bool, Option, none, some, str_eq, if◌then◌else◌}
use avocado_misc_tests.Prelude.Int.{ℤ}
use avocado_misc_tests.Python.{
  Error, test_exception, attribute_error, pure, raise, modify, ◌>>=◌, ◌>>◌, try_catch,
}
use avocado_misc_tests.Dlpar.Host.{Host}
use avocado_misc_tests.Dlpar.Num.{Number, int, num_str, num_add, num_sub, num_le}
use avocado_misc_tests.Dlpar.Session.{
  Machine, Action, log_debug, log_info, log_error, hmc_text, to_int,
}
use avocado_misc_tests.Text.{strip}
use avocado_misc_tests.Dlpar.Connections.{Config, check, new_test_case, get_connections}
use avocado_misc_tests.Dlpar.Engine.{Flag, one, pair, dlpar_engine, get_lmb_value, mem_int}
use avocado_misc_tests.Dlpar.Validate.{amount, amounts, dlpar_mem_validation}
use avocado_misc_tests.Dlpar.Dedicated.{
  is_some, self_linux_1, self_linux_2, self_quant_to_test, sleep_before_proceeding, rest_a_while,
  report,
}

module _ ⦃H : Host⦄ where
  -- `self.linux`: which of the two machines the memory is added to or removed from
  unfoldable pub self_linux : Config H → Action Machine
  self_linux c = if str_eq c.mem_linux_machine "primary" then self_linux_1 else self_linux_2

  -- with `flag='r'` the amount must fit what the partition has, else what the system has
  unfoldable pub check_set_cfg : Machine → Bool → Action Unit
  check_set_cfg m removing = do
    log_info ("Checking partition '" <> (m.partition <> "' configuration."))
    log_debug ("Machine: " <> m.name)
    avail_text ←
        hmc_text ("lshwres -m " <> (m.machine <> " --level sys -r mem -F curr_avail_sys_mem"))
    avail ← to_int (strip avail_text)
    max_mem ← mem_int m "curr_max_mem"
    mem ← mem_int m "curr_mem"
    quantity ← self_quant_to_test
    (if removing
        then (do
          check "Checking if the system has enough available memory to remove."
              (num_le quantity (int mem))
          check
              ("Checking if the system's profile supports "
                <> (num_str (num_sub (int mem) quantity) <> " of memory."))
              (num_le (num_sub (int mem) quantity) (int max_mem)))
        else (do
          check "Checking if the system has enough available memory to add."
              (num_le quantity (int avail))
          check
              ("Checking if the system's profile supports "
                <> (num_str (num_add quantity (int mem)) <> " of memory."))
              (num_le (num_add (int mem) quantity) (int max_mem))))
    log_info ("Configuration data for LPAR " <> (m.partition <> " is OK."))

  -- `except AttributeError:` log, and go on; all else goes up
  abbrev unless_missing : String → Error → Action Unit
  unless_missing message attribute_error = log_debug message
  unless_missing message e = raise e

  quantity_text : Option Number → String
  quantity_text none = "None"
  quantity_text (some n) = num_str n

  invalid_machine : Action Unit
  invalid_machine = do
    log_error "Invalid 'linux_machine' at the configuration file."
    log_error "Please use either 'primary' or 'secondary'."
    raise (
        test_exception (
          "Invalid 'linux_machine' at the configuration file."
          <> " Please use either 'primary' or 'secondary'."))

  -- `Memory(config_payload, flag=…)`
  unfoldable pub memory : Config H → Bool → Action Unit
  unfolding quantity_text invalid_machine
  memory c removing = do
    new_test_case c "Memory"
    modify (λ s. record s { quant_to_test = c.mem_quantity_to_test; sleep_time = c.sleep_time })
    get_connections c "both"
    (if str_eq c.mem_linux_machine "primary"
        then (do get_connections c "primary"; pure tt)
        else if str_eq c.mem_linux_machine "secondary"
        then (do get_connections c "secondary"; pure tt)
        else invalid_machine)
    log_debug ("Testing with " <> (quantity_text c.mem_quantity_to_test <> " megabytes of memory."))
    check "Getting Test configuration." (is_some c.mem_quantity_to_test)
    try_catch (do m ← self_linux_1; check_set_cfg m removing)
        (unless_missing "linux_1 not found, so not checking it.")
    try_catch (do m ← self_linux_2; check_set_cfg m removing)
        (unless_missing "linux_2 not found, so not checking it.")

  unfoldable pub get_max_mem : Config H → Action ℤ
  get_max_mem c = do m ← self_linux c; mem_int m "curr_max_mem"

  unfoldable pub get_curr_mem : Config H → Action ℤ
  get_curr_mem c = do m ← self_linux c; mem_int m "curr_mem"

  unfoldable pub get_lmb_size : Config H → Action ℤ
  get_lmb_size c = do m ← self_linux c; t ← get_lmb_value m "mem_region_size"; to_int t

  abbrev pub mem_flag : String → Flag
  mem_flag op = record { resource = "mem"; operation = op; option = "-q" }

  unfoldable pub add_memory : Machine → Number → Action (Option ℕ)
  add_memory m quantity = do
    before ← mem_int m "curr_mem"
    out ← dlpar_engine (mem_flag "a") (one m) quantity
    if str_eq out ""
        then (do
          (do
            sleep_before_proceeding
            dlpar_mem_validation "a" (one m) quantity (amount (int before)))
          pure none)
        else pure (some 1)

  unfoldable pub remove_memory : Machine → Number → Action (Option ℕ)
  remove_memory m quantity = do
    before ← mem_int m "curr_mem"
    out ← dlpar_engine (mem_flag "r") (one m) quantity
    if str_eq out ""
        then (do
          (do
            sleep_before_proceeding
            dlpar_mem_validation "r" (one m) quantity (amount (int before)))
          pure none)
        else pure (some 1)

  unfoldable pub move_memory : Machine → Machine → Number → Action (Option ℕ)
  move_memory m n quantity = do
    before_1 ← mem_int m "curr_mem"
    before_2 ← mem_int n "curr_mem"
    out ← dlpar_engine (mem_flag "m") (pair m n) quantity
    if str_eq out ""
        then (do
          (do
            rest_a_while "Going to sleep for " " s"
            dlpar_mem_validation "m" (pair m n) quantity (amounts (int before_1) (int before_2)))
          pure none)
        else pure (some 1)

  unfoldable pub mem_add : Config H → Number → Action ℕ
  mem_add c mem = do m ← self_linux c; rvalue ← add_memory m mem; report rvalue

  unfoldable pub mem_rem : Config H → Number → Action ℕ
  mem_rem c mem = do m ← self_linux c; rvalue ← remove_memory m mem; report rvalue

  unfoldable pub mem_move : Action ℕ
  mem_move = do
    m ← self_linux_1
    n ← self_linux_2
    quantity ← self_quant_to_test
    rvalue ← move_memory m n quantity
    report rvalue
