-- ===== src/Dlpar/Suite/Smt.antt =====
-- dlpar/dlpar_main.py: `test_check_smt_state`, `test_offline_cpu_persistence` and
-- `test_offline_proc_persistence`, which compare the state of the threads and cores before and after
-- an added and a removed processor.
use Prim.Native.Char.{code}
use avocado_misc_tests.Prelude.{
  ℕ, String, ◌<>◌, Bool, true, false, not, ◌&&◌, List, [], ◌∷◌, str_eq, ◌==◌, leb, if◌then◌else◌,
}
use avocado_misc_tests.Prelude.Int.{pos}
use avocado_misc_tests.Text.{is_space, lstrip_by}
use avocado_misc_tests.Python.{cancel, attribute_error, ok, pure, raise, ◌>>=◌, ◌>>◌, for_each}
use avocado_misc_tests.Dlpar.Host.{Host}
use avocado_misc_tests.Dlpar.Num.{Number, int}
use avocado_misc_tests.Dlpar.Session.{Action, log_info, log_error, local_text}
use avocado_misc_tests.Dlpar.Connections.{Config}
use avocado_misc_tests.Dlpar.Dedicated.{dedicated_cpu, add_ded_cpu, rem_ded_cpu}
use avocado_misc_tests.Dlpar.Units.{cpu_unit, add_proc, remove_proc}
use avocado_misc_tests.Dlpar.Suite.Cpu.{by_mode}

-- The outputs that show the threads: of `ppc64_cpu --smt`, `lscpu` and `lparstat`.
pub record SmtState : Type 0 where
  pub smt : String
  pub lscpu : String
  pub lparstat : String

unfoldable pub same_state : SmtState → SmtState → Bool
same_state a b = str_eq a.smt b.smt && str_eq a.lscpu b.lscpu && str_eq a.lparstat b.lparstat

starts_with_digit : String → Bool
starts_with_digit String.[] = false
starts_with_digit (String.◌∷◌ c s) = leb b'0' (code c) && leb (code c) b'9'

-- `re.search(r'=\s*(\d+)', text)` finds a number behind an equals sign.
shows_cores : String → Bool
unfolding starts_with_digit lstrip_by is_space
shows_cores String.[] = false
shows_cores (String.◌∷◌ c s) =
    let rest = shows_cores s in
    if code c == b'=' && starts_with_digit (lstrip_by is_space s) then true else rest

pub data Operation : Type 0 where
  add remove : Operation

abbrev pub operations : List Operation
operations = add ∷ remove ∷ []

module _ ⦃H : Host⦄ where
  provided : String → Action Bool
  provided name s =
      let (is_there, w) = H.provide name s.world in (ok is_there, record s { world = w })

  unfoldable pub need_packages : List String → Action Unit
  unfolding provided
  need_packages packages = for_each packages λ name. do
    is_there ← provided name
    if is_there then pure tt else raise (cancel (name <> " is needed for the test to be run"))

  abbrev pub deps : List String
  deps = "powerpc-utils" ∷ "util-linux" ∷ []

  -- The output of `lparstat` is cut to `smt=…` or is the whole line, by the command that is given.
  unfoldable pub read_smt : String → Action SmtState
  read_smt lparstat_command = do
    smt ← local_text "ppc64_cpu --smt"
    lscpu ← local_text "lscpu | grep -i thread"
    lparstat ← local_text lparstat_command
    pure (record { smt = smt; lscpu = lscpu; lparstat = lparstat })

  abbrev pub only_smt : String
  only_smt = "lparstat | grep -o 'smt=[0-9]*'"

  abbrev pub smt_line : String
  smt_line = "lparstat | grep -i smt"

  unfoldable pub dedicated_operation : Operation → Action ℕ
  dedicated_operation add = add_ded_cpu (int (pos 1))
  dedicated_operation remove = rem_ded_cpu (int (pos 1))

  abbrev one_proc : Number
  one_proc = int (pos 1)

  -- both parts of an operation in shared mode, whatever the first one answers
  unfoldable pub shared_operation : Operation → Action (ℕ × ℕ)
  shared_operation add = do
    rvalue ← add_proc one_proc "--procs"
    rvalue1 ← add_proc one_proc "--procunits"
    pure (rvalue, rvalue1)
  shared_operation remove = do
    rvalue ← remove_proc one_proc "--procs"
    rvalue1 ← remove_proc one_proc "--procunits"
    pure (rvalue, rvalue1)

  -- An unsuccessful operation is logged, and the test goes on; in shared mode only if both parts
  -- are unsuccessful.
  unfoldable pub operate_dedicated : String → Operation → Action Unit
  operate_dedicated message op = do
    rvalue ← dedicated_operation op
    if rvalue == 0 then pure tt else log_error message

  unfoldable pub operate_shared : String → Operation → Action Unit
  operate_shared message op = do
    rvalues ← shared_operation op
    if not (rvalues.0 == 0) && not (rvalues.1 == 0) then log_error message else pure tt

  -- the end of a round: what is found out is logged, and the test does not fail
  unfoldable pub verdict : Bool → String → String → Action Unit
  verdict same passed differs = if same then log_info passed else log_error differs

  smt_round : SmtState → String → String → Action Unit → Action Unit
  smt_round before lparstat_command differs operate = do
    operate
    after ← read_smt lparstat_command
    verdict (same_state before after) "SMT state remained consistent,Test passed." differs

  unfoldable pub test_check_smt_state : String → Config H → Action Unit
  unfolding smt_round
  test_check_smt_state lpar_mode c = do
    need_packages deps
    local_text "ppc64_cpu --smt=8"
    before ← read_smt only_smt
    by_mode lpar_mode
        (do
          dedicated_cpu c
          for_each operations λ op.
              smt_round before only_smt "SMT state did not match after CPU operations.Test failed."
                (operate_dedicated
                  "CPU operation failed,                            Please check the logs" op))
        (do
          cpu_unit c
          for_each operations λ op.
              smt_round before smt_line "SMT state did not match afterCPU operations. Test failed."
                (operate_shared
                  "CPU operation failed.                            Please check the logs." op))

  -- any mode but `dedicated` is taken as shared here
  by_dedicated : String → Action Unit → Action Unit → Action Unit
  by_dedicated lpar_mode dedicated shared =
      if str_eq lpar_mode "dedicated" then dedicated else shared

  -- a round that compares the output of one command
  output_round : String → String → String → String → Action Unit → Action Unit
  output_round before command passed differs operate = do
    operate
    after ← local_text command
    verdict (str_eq before after) passed differs

  abbrev cpu1_state : String
  cpu1_state = "cat /sys/devices/system/cpu/cpu1/online"

  unfoldable pub test_offline_cpu_persistence : String → Config H → Action Unit
  unfolding by_dedicated output_round
  test_offline_cpu_persistence lpar_mode c = do
    need_packages deps
    local_text "echo 0 > /sys/devices/system/cpu/cpu1/online"
    before ← local_text cpu1_state
    by_dedicated lpar_mode
        (do
          dedicated_cpu c
          for_each operations λ op.
              output_round before cpu1_state
                "CPU is still offline even afterproc operation,Test passed."
                "Failed since CPU state.changed after dlpar operation"
                (operate_dedicated "CPU operation failed,Please check the logs" op))
        (do
          cpu_unit c
          for_each operations λ op.
              output_round before cpu1_state
                "CPU is still offline even afterproc operation,Test passed."
                "Failed since CPU state.changed after dlpar operation"
                (operate_shared "CPU operation failed.Please check the logs." op))
    log_info "Setting cpu online back after TC complete"
    local_text "echo 1 > /sys/devices/system/cpu/cpu1/online"
    pure tt

  -- The number of cores is read and not used, but the test raises where there is none.
  unfoldable pub test_offline_proc_persistence : String → Config H → Action Unit
  unfolding by_dedicated output_round shows_cores
  test_offline_proc_persistence lpar_mode c = do
    need_packages deps
    local_text "ppc64_cpu --smt=6"
    online_cores ← local_text "ppc64_cpu --cores-on"
    (if shows_cores online_cores then pure tt else raise attribute_error)
    before ← local_text "ppc64_cpu --smt"
    local_text "ppc64_cpu --offline-cores=1"
    by_dedicated lpar_mode
        (do
          dedicated_cpu c
          for_each operations λ op.
              output_round before "ppc64_cpu --smt" "SMT is unchanged,Test passed."
                "Failed since SMT state.changed after dlpar operation"
                (operate_dedicated "CPU operation failed,Please check the logs" op))
        (do
          cpu_unit c
          for_each operations λ op.
              output_round before "ppc64_cpu --smt" "SMT is unchanged ,Test passed."
                "Failed since SMT state.changed after dlpar operation"
                (operate_shared "CPU operation failed.Please check the logs." op))
    log_info "Setting back the value after TC compelte"
    local_text "ppc64_cpu --smt=8"
    pure tt
