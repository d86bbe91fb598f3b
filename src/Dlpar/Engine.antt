-- ===== src/Dlpar/Engine.antt =====
-- dlpar/dlpar_api/api.py: the commands that go to the management console, `Dlpar_engine`, the
-- queries `get_cpu_option`, `get_mem_option`, `get_lmb_value`, and the checks of /proc/cpuinfo.
pub mod Replies
use Prim.Native.String.{slice, len}
use text.Mathlib.Text.{find?}
use avocado_misc_tests.Prelude.{
  ℕ, ◌+◌, ◌≡◌, refl, String, ◌<>◌, Bool, ◌||◌, false, none, some, str_eq, if◌then◌else◌,
}
use avocado_misc_tests.Prelude.Int.{ℤ, pos, ◌*ℤ◌, ◌==ℤ◌}
use avocado_misc_tests.Text.{contains, strip}
use avocado_misc_tests.Python.{type_error, attribute_error, pure, raise, gets, modify, ◌>>=◌, ◌>>◌}
use avocado_misc_tests.Dlpar.Host.{Host}
use avocado_misc_tests.Dlpar.Num.{Number, num_str, num_sub, num_mul, num_eq, int}
use avocado_misc_tests.Dlpar.Session.{
  Machine, Action, log_debug, log_error, hmc_text, peer_text, local_text, to_int,
}
use avocado_misc_tests.Dlpar.Connections.{check}

-- `linux_machine`: one machine, or the list of the two that a move takes.
pub data Target : Type 0 where
  one : Machine → Target
  pair : Machine → Machine → Target

-- `dlpar_flag`, a list of three words: the resource, the operation and the option.
pub record Flag : Type 0 where
  pub resource : String
  pub operation : String
  pub option : String

unfoldable pub change_command : Flag → Machine → String → String
change_command f m quantity =
    "chhwres -m "
    <> (m.machine
        <> (" -r "
            <> (f.resource
                <> (" -o "
                    <> (f.operation
                        <> (" "
                            <> (f.option
                                <> (" "
                                    <> (quantity
                                        <> (" -p \"" <> (m.partition <> "\" -w 0 ")))))))))))

unfoldable pub move_command : Flag → Machine → Machine → String → String
move_command f m n quantity =
    "chhwres -m "
    <> (m.machine
        <> (" -r "
            <> (f.resource
                <> (" -o "
                    <> (f.operation
                        <> (" "
                            <> (f.option
                                <> (" "
                                    <> (quantity
                                        <> (" -p \""
                                            <> (m.partition
                                                <> ("\" -t \""
                                                    <> (n.partition <> "\" -w 0 ")))))))))))))

unfoldable pub proc_query : Machine → String → String
proc_query m option =
    "lshwres -m "
    <> (m.machine
        <> (" --level lpar -r proc --filter lpar_names=\""
            <> (m.partition <> ("\" -F " <> option))))

unfoldable pub mem_query : Machine → String → String
mem_query m option =
    "lshwres -m "
    <> (m.machine
        <> (" --level lpar -r mem --filter lpar_names=\"" <> (m.partition <> ("\" -F " <> option))))

unfoldable pub lmb_query : Machine → String → String
lmb_query m option = "lshwres -r mem -m " <> (m.machine <> (" --level sys -F " <> option))

module _ ⦃H : Host⦄ where
  -- `linux_machine.machine` on a list, and `linux_machine[0]` on a machine, raise.
  abbrev pub single : Target → Action Machine
  single (one m) = pure m
  single (pair m n) = raise attribute_error

  abbrev pub both : Target → Action (Machine × Machine)
  both (one m) = raise type_error
  both (pair m n) = pure (m, n)

  engine_command : Flag → Target → Number → Action String
  unfolding change_command move_command
  engine_command f target quantity =
      if str_eq f.operation "a" || str_eq f.operation "r"
      then (do m ← single target; pure (change_command f m (num_str quantity)))
      else if str_eq f.operation "m"
      then (do ms ← both target; pure (move_command f ms.0 ms.1 (num_str quantity)))
      else (do log_error "Invalid DLPAR flag"; pure "")

  -- `self.cmd_result = …`, which is returned
  abbrev pub keep_result : String → Action String
  keep_result out = do modify (λ s. record s { cmd_result = some out }); pure out

  -- `Dlpar_engine`; the empty command of an invalid flag is sent too.
  unfoldable pub dlpar_engine : Flag → Target → Number → Action String
  unfolding engine_command
  dlpar_engine f target quantity = do
    cmd ← engine_command f target quantity
    out ← hmc_text cmd
    keep_result out

  -- the end of the three queries: the stripped reply is logged and returned
  abbrev pub shown : String → String → String → Action String
  shown option whom out = do log_debug (option <> (": " <> (strip out <> whom))); pure (strip out)

  queried : String → String → String → Action String
  queried cmd option whom = do out ← hmc_text cmd; shown option whom out

  unfoldable pub get_cpu_option : Machine → String → Action String
  unfolding queried
  get_cpu_option m option = queried (proc_query m option) option (" for partition " <> m.partition)

  unfoldable pub get_mem_option : Machine → String → Action String
  unfolding queried
  get_mem_option m option = queried (mem_query m option) option (" for partition " <> m.partition)

  unfoldable pub get_lmb_value : Machine → String → Action String
  unfolding queried
  get_lmb_value m option = queried (lmb_query m option) option (" for CEC " <> m.machine)

  -- `int(self.get_cpu_option(machine, option))`
  unfoldable pub cpu_int : Machine → String → Action ℤ
  cpu_int m option = do t ← get_cpu_option m option; to_int t

  unfoldable pub mem_int : Machine → String → Action ℤ
  mem_int m option = do t ← get_mem_option m option; to_int t

-- A line that `processor.*:` matches: a colon stands somewhere behind the first "processor".
is_processor_line : String → Bool
is_processor_line line = elim (find? line "processor") [
  | none ↦ false
  | some i ↦ contains (slice line (i + 9) (len line)) ":"
]

count_lines : String → String → ℕ
count_lines String.[] line = 0
count_lines (String.◌∷◌ c rest) line =
    let ended = (if is_processor_line line then 1 else 0) + count_lines rest "" in
    let going = count_lines rest (line <> String.◌∷◌ c "") in
    if str_eq (String.◌∷◌ c "") "\n" then ended else going

-- `len(re.findall('processor.*:.*\n', text))`: only a line that a line feed ends counts.
unfoldable pub processor_lines : String → ℕ
unfolding count_lines is_processor_line
processor_lines text = count_lines text ""

processor_lines_run : processor_lines "processor : 0\ncpu : x\nprocessor : 1\nprocessor : 2" ≡ 2
unfolding processor_lines
processor_lines_run = refl

module _ ⦃H : Host⦄ where
  abbrev cpuinfo_message : String
  cpuinfo_message = "Checking if /proc/cpuinfo shows all processors correctly."

  -- The processors that the partition shows, after cpus were added to it.
  unfoldable pub linux_check_add_cpu : Machine → Action Unit
  linux_check_add_cpu m = do
    procs ← cpu_int m "curr_procs"
    out ← peer_text m "cat /proc/cpuinfo"
    per ← gets (λ s. s.cpu_per_processor)
    check cpuinfo_message (pos (processor_lines (strip out)) ==ℤ procs *ℤ per)

  -- After a removal it is the machine that runs the test whose /proc/cpuinfo is read.
  unfoldable pub linux_check_rm_cpu : Number → Number → Action Unit
  linux_check_rm_cpu before removed = do
    out ← local_text "cat /proc/cpuinfo"
    log_debug out
    per ← gets (λ s. s.cpu_per_processor)
    check cpuinfo_message
        (num_eq (int (pos (processor_lines out))) (num_mul (num_sub before removed) (int per)))
