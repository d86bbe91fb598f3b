-- ===== src/Dlpar/Validate.antt =====
-- dlpar/dlpar_api/api.py: `Dlpar_cpu_validation` and `Dlpar_mem_validation`, which read the console
-- again after an operation and raise if it does not show the new amount.
pub mod Passed
pub mod Moved
use avocado_misc_tests.Prelude.{String, ◌<>◌, Bool, true, false, some, str_eq, if◌then◌else◌}
use avocado_misc_tests.Prelude.Int.{ℤ}
use avocado_misc_tests.Python.{test_exception, type_error, pure, raise, ◌>>=◌, ◌>>◌}
use avocado_misc_tests.Dlpar.Host.{Host}
use avocado_misc_tests.Dlpar.Num.{Number, int, num_add, num_sub, num_eq, num_str, num_fmt_d}
use avocado_misc_tests.Dlpar.Session.{Machine, Action, log_error, to_float_of}
use avocado_misc_tests.Dlpar.Connections.{code_bool, check_log}
use avocado_misc_tests.Dlpar.Engine.{
  Target, single, both, get_cpu_option, cpu_int, mem_int, linux_check_add_cpu, linux_check_rm_cpu,
}

-- `curr_procs_info`, `mem_info`: the amount before, or the two amounts before a move.
pub data Info (N : Type 0) : Type 0 where
  amount : N → Info N
  amounts : N → N → Info N

module _ ⦃H : Host⦄ where
  abbrev pub one_amount : Info Number → Action Number
  one_amount (amount n) = pure n
  one_amount (amounts m n) = raise type_error

  abbrev pub two_amounts : Info Number → Action (Number × Number)
  two_amounts (amount n) = raise type_error
  two_amounts (amounts m n) = pure (m, n)

  -- `if not self.log.check_log(message, condition, False):` log the error, and fail
  unfoldable pub require : String → Bool → String → Action Unit → Action Unit
  require message condition e_msg failure = do
    passed ← check_log message (code_bool condition) false
    elim passed [ some true ↦ pure tt | _ ↦ (do log_error e_msg; failure) ]

  -- `raise TestException(e_msg)`
  abbrev pub throw : String → Action Unit
  throw e_msg = raise (test_exception e_msg)

  -- `raise TestException()`: the constructor wants a value, and its call raises a TypeError.
  abbrev throw_no_value : Action Unit
  throw_no_value = raise type_error

  abbrev units : String
  units = " proc units"

  -- the reading of one machine against what it should be
  abbrev pub reads : (Machine → String → Action String) → Machine → String → String → Action Bool
  reads query m option expected = do t ← query m option; pure (str_eq t expected)

  -- the test of the new amount, once it is read
  abbrev pub confirm_add : String → Machine → Number → Number → Number → Action Unit
  confirm_add what m quantity before now =
      let text = num_fmt_d quantity <> (what <> (" to partition " <> (m.partition <> "."))) in
      require ("Adding " <> text) (num_eq now (num_add before quantity)) ("Error adding " <> text)
        (throw ("Error adding " <> text))

  validate_add : String → (Machine → Action Number) → Machine → Number → Number → Action Unit
  validate_add what read m quantity before = do now ← read m; confirm_add what m quantity before now

  abbrev pub confirm_remove : String → Machine → Number → Number → Number → Action Unit
  confirm_remove what m quantity before now =
      let text = num_str quantity <> (what <> (" from partition " <> (m.partition <> "."))) in
      require ("Removing " <> text) (num_eq now (num_sub before quantity))
        ("Error removing " <> text) (throw ("Error removing " <> text))

  validate_remove : String → (Machine → Action Number) → Machine → Number → Number → Action Unit
  validate_remove what read m quantity before = do
    now ← read m
    confirm_remove what m quantity before now

  -- Whether both machines show the amounts after a move; the second is read only if the first fits.
  unfoldable pub moved_on :
      (Machine → Action Number) → Machine → Number → Number → Bool → Action Bool
  moved_on read n quantity before_n false = pure false
  moved_on read n quantity before_n true = do
    now_n ← read n
    pure (num_eq now_n (num_add before_n quantity))

  unfoldable pub moved :
      (Machine → Action Number) → Machine → Machine → Number → Number → Number → Action Bool
  unfolding moved_on
  moved read m n quantity before_m before_n = do
    now_m ← read m
    moved_on read n quantity before_n (num_eq now_m (num_sub before_m quantity))

  unfoldable pub move_message : String → Machine → Machine → Number → String
  move_message what m n quantity =
      "Moving "
      <> (num_str quantity
          <> (what <> (" from " <> (m.partition <> (" to " <> (n.partition <> "."))))))

  abbrev pub as_number : ℤ → Action Number
  as_number n = pure (int n)

  abbrev pub procs_of : Machine → Action Number
  procs_of m = do n ← cpu_int m "curr_procs"; as_number n

  abbrev pub mem_of : Machine → Action Number
  mem_of m = do n ← mem_int m "curr_mem"; as_number n

  validate_units_add : Machine → Number → Number → Action Unit
  validate_units_add m quantity before = do
    let what = num_str quantity <> (" proc units to partition " <> (m.partition <> "."))
    fits ← reads get_cpu_option m "curr_proc_units" (num_str (num_add before quantity))
    require ("Adding " <> what) fits ("Error adding " <> what) (throw ("Error adding " <> what))

  validate_units_remove : Machine → Number → Number → Action Unit
  validate_units_remove m quantity before = do
    let what = num_str quantity <> (" proc units from partition " <> (m.partition <> "."))
    fits ← reads get_cpu_option m "curr_proc_units" (num_str (num_sub before quantity))
    require ("Removing " <> what) fits ("Error removing " <> what)
        (throw ("Error removing " <> what))

  -- The two readings as floats are taken first, and raise if they are none; nothing else uses them.
  validate_units_move : Machine → Machine → Number → Number → Number → Action Unit
  unfolding move_message
  validate_units_move m n quantity before_m before_n = do
    after_0 ← get_cpu_option m "curr_proc_units"
    to_float_of after_0
    after_1 ← get_cpu_option n "curr_proc_units"
    to_float_of after_1
    first ← reads get_cpu_option m "curr_proc_units" (num_str (num_sub before_m quantity))
    fits ← elim first [
      | false ↦ pure false
      | true ↦ reads get_cpu_option n "curr_proc_units" (num_str (num_add before_n quantity))
    ]
    require (move_message units m n quantity) fits (move_message units m n quantity)
        (throw (move_message units m n quantity))

  unfoldable pub dlpar_cpu_validation : String → Target → Number → Info Number → Action Unit
  unfolding validate_add validate_remove moved move_message validate_units_add validate_units_remove
      validate_units_move
  dlpar_cpu_validation flag target quantity info =
      if str_eq flag "a"
      then (do
        m ← single target
        before ← one_amount info
        validate_add " dedicated cpus" procs_of m quantity before)
      else if str_eq flag "r"
      then (do
        m ← single target
        before ← one_amount info
        validate_remove " dedicated cpus" procs_of m quantity before)
      else if str_eq flag "m"
      then (do
        ms ← both target
        befores ← two_amounts info
        fits ← moved procs_of ms.0 ms.1 quantity befores.0 befores.1
        require (move_message " dedicated cpus" ms.0 ms.1 quantity) fits
            "Error happened when moving cpu" throw_no_value
        linux_check_rm_cpu befores.0 quantity
        linux_check_add_cpu ms.1)
      else if str_eq flag "cpu_a"
      then (do m ← single target; before ← one_amount info; validate_units_add m quantity before)
      else if str_eq flag "cpu_r"
      then (do m ← single target; before ← one_amount info; validate_units_remove m quantity before)
      else if str_eq flag "cpu_m"
      then (do
        ms ← both target
        befores ← two_amounts info
        validate_units_move ms.0 ms.1 quantity befores.0 befores.1)
      else pure tt

  unfoldable pub dlpar_mem_validation : String → Target → Number → Info Number → Action Unit
  unfolding validate_add validate_remove moved move_message
  dlpar_mem_validation flag target quantity info =
      if str_eq flag "a"
      then (do
        m ← single target
        before ← one_amount info
        validate_add " memory" mem_of m quantity before)
      else if str_eq flag "r"
      then (do
        m ← single target
        before ← one_amount info
        validate_remove " memory" mem_of m quantity before)
      else if str_eq flag "m"
      then (do
        ms ← both target
        befores ← two_amounts info
        fits ← moved mem_of ms.0 ms.1 quantity befores.0 befores.1
        require (move_message " memory" ms.0 ms.1 quantity) fits "Error happened when moving memory"
            throw_no_value)
      else pure tt
