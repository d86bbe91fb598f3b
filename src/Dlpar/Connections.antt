-- ===== src/Dlpar/Connections.antt =====
-- dlpar/dlpar_api/api.py: the configuration, `TestLog.check_log`, `SshMachine` and
-- `TestCase.__init__`, `TestCase.get_connections`.
pub mod Machines
use avocado_misc_tests.Prelude.{
  ℕ, String, ◌<>◌, Bool, true, false, ◌||◌, Option, none, some, str_eq, if◌then◌else◌,
}
use avocado_misc_tests.Prelude.Int.{ℤ, pos, leb_ℤ}
use avocado_misc_tests.Python.{
  Error, test_exception, attribute_error, cmd_error, ok, pure, raise, gets, or_raise, modify, ◌>>=◌,
  ◌>>◌, try_catch,
}
use avocado_misc_tests.Dlpar.Host.{Host}
use avocado_misc_tests.Dlpar.Num.{Num}
use avocado_misc_tests.Dlpar.Session.{Machine, Action, log_debug, log_info, log_error}

-- The payload that `setUp` hands to the test objects, by the keys that they read.
pub record Config (H : Host) : Type 0 where
  pub src_name : String
  pub src_partition : String
  pub hmc_name : String
  pub hmc_user : String
  pub hmc_passwd : String
  pub hmc_manage_system : String
  pub target_lpar_hostname : String
  pub target_user : String
  pub target_passwd : String
  pub target_partition : String
  pub cfg_cpu_per_proc : ℤ
  pub sleep_time : ℤ
  pub iterations : ℕ
  pub ded_quantity_to_test : Option (Num H.Float)
  pub cpu_quantity_to_test : Option (Num H.Float)
  pub mem_quantity_to_test : Option (Num H.Float)
  pub mem_linux_machine : String

-- The argument of `check_log`: an `int`, a `bool`, or anything else.
pub data Code : Type 0 where
  code_int : ℤ → Code
  code_bool : Bool → Code
  other : Code

module _ ⦃H : Host⦄ where
  failed : String → Bool → Action (Option Bool)
  failed message true = do
    log_error ("[FAILED] " <> message)
    raise (test_exception "Check failed. Aborting test.")
  failed message false = do log_error ("[FAILED] " <> message); pure (some false)

  passed : String → Action (Option Bool)
  passed message = do log_info ("[PASS] " <> message); pure (some true)

  -- `None` is returned, and nothing is logged, for a code of another type.
  unfoldable pub check_log : String → Code → Bool → Action (Option Bool)
  unfolding failed passed
  check_log message (code_int n) die =
      if leb_ℤ (pos 0) n then passed message else failed message die
  check_log message (code_bool true) die = passed message
  check_log message (code_bool false) die = failed message die
  check_log message other die = pure none

  -- `check_log` with its default `die=True`, on a condition
  unfoldable pub check : String → Bool → Action Unit
  unfolding check_log
  check message condition = do check_log message (code_bool condition) true; pure tt

  -- `SshMachine.__init_ssh`: whether the session was refused
  init_ssh : String → String → String → Action ℕ
  init_ssh name user passwd = do
    answer ← (λ s.
        let (connects, w) = H.connect name user passwd s.world in
        (ok connects, record s { world = w }))
    connects ← or_raise answer cmd_error
    pure (if connects then 0 else 1)

  -- `SshMachine.__init__` for a machine with a session; a refused connection is only recorded.
  unfoldable pub ssh_machine : String → String → String → String → String → Action Machine
  unfolding init_ssh
  ssh_machine name user passwd machine partition = do
    refused ← init_ssh name user passwd
    pure (record {
      name = name;
      machine = machine;
      partition = partition;
      connected = true;
      mac_con = refused;
    })

  -- `SshMachine(config_payload, machine_type)`
  unfoldable pub machine_of : Config H → String → Action Machine
  unfolding ssh_machine
  machine_of c machine_type =
      if str_eq machine_type "linux_primary"
      then pure (record {
        name = c.src_name;
        machine = c.hmc_manage_system;
        partition = c.src_partition;
        connected = false;
        mac_con = 0;
      })
      else if str_eq machine_type "linux_secondary"
      then ssh_machine c.target_lpar_hostname c.target_user c.target_passwd c.hmc_manage_system
          c.target_partition
      else ssh_machine c.hmc_name c.hmc_user c.hmc_passwd c.hmc_manage_system c.hmc_manage_system

  -- `TestCase.__init__`: a new object, with no connection yet.
  unfoldable pub new_test_case : Config H → String → Action Unit
  new_test_case c test_name = do
    modify (λ s. record s {
      hmc = none;
      linux_1 = none;
      linux_2 = none;
      cmd_result = none;
      cpu_per_processor = c.cfg_cpu_per_proc;
      quant_to_test = none;
    })
    log_info ("Starting " <> (test_name <> " Test Case."))

  connect_hmc : Config H → Action Unit
  unfolding machine_of
  connect_hmc c = do
    hmc ← machine_of c "hmc"
    modify (λ s. record s { hmc = some hmc })
    log_debug "Login to HMC successful."

  connect_primary : Config H → Action Unit
  unfolding machine_of
  connect_primary c = do
    m ← machine_of c "linux_primary"
    modify (λ s. record s { linux_1 = some m })
    log_debug "Login to 1st linux LPAR successful."

  connect_secondary : Config H → Action Unit
  unfolding machine_of
  connect_secondary c = do
    m ← machine_of c "linux_secondary"
    modify (λ s. record s { linux_2 = some m })
    log_debug "Login to 2nd linux LPAR successful."

  when : Bool → Action Unit → Action Unit
  when true m = m
  when false m = pure tt

  -- `return self.linux_2.mac_con`
  secondary_mac_con : Action ℕ
  secondary_mac_con = do
    second ← gets (λ s. s.linux_2)
    m ← or_raise second attribute_error
    pure m.mac_con

  -- the handler: the failure is logged, and the exception goes on
  not_connected : Error → Action ℕ
  unfolding check_log
  not_connected e = do check_log "Getting Machine connections." (code_bool false) false; raise e

  unfoldable pub get_connections : Config H → String → Action ℕ
  unfolding connect_hmc connect_primary connect_secondary when secondary_mac_con not_connected check
  get_connections c clients =
      try_catch
        (do
          connect_hmc c
          when (str_eq clients "primary" || str_eq clients "both") (connect_primary c)
          when (str_eq clients "secondary" || str_eq clients "both") (connect_secondary c)
          check "Getting Machine connections." true
          secondary_mac_con)
        not_connected
