-- ===== src/Dlpar/Tests/Operations.antt =====
-- The operations of dlpar/dlpar_api/api.py on a console that answers from a script.
use avocado_misc_tests.Prelude.{ℕ, refl, [], ◌∷◌, none}
use avocado_misc_tests.Prelude.Int.{pos, ◌+ℤ◌, ◌-ℤ◌}
use avocado_misc_tests.Python.{◌>>=◌}
use avocado_misc_tests.Text.{strip, int_of_string, string_of_int}
use avocado_misc_tests.Dlpar.Num.{int, float, num_add, num_sub, num_eq, num_str, num_fmt_d}
use avocado_misc_tests.Dlpar.Session.{Session, hmc_text, answered, sleep}
use avocado_misc_tests.Dlpar.Connections.{check_log}
use avocado_misc_tests.Dlpar.Engine.{
  change_command, move_command, proc_query, cpu_int, get_cpu_option, mem_query, mem_int,
  get_mem_option, dlpar_engine,
}
use avocado_misc_tests.Dlpar.Validate.{
  require, moved, moved_on, move_message, dlpar_cpu_validation, dlpar_mem_validation,
}
use avocado_misc_tests.Dlpar.Dedicated.{
  rest_a_while, report, procs_flag, add_dedicated_cpu, remove_dedicated_cpu, add_ded_cpu,
  rem_ded_cpu,
}
use avocado_misc_tests.Dlpar.Dedicated.Operations.{add_ded_cpu-Answered, rem_ded_cpu-Answered}
use avocado_misc_tests.Dlpar.Dedicated.Outcome.{Answered}
use avocado_misc_tests.Dlpar.Units.{cpu_float, units_flag, add_cpu_units, remove_cpu_units}
use avocado_misc_tests.Dlpar.Units.Outcome.{UnitsAnswered}
use avocado_misc_tests.Dlpar.Units.Operations.{
  add_cpu_units-UnitsAnswered, remove_cpu_units-UnitsAnswered,
}
use avocado_misc_tests.Dlpar.Mem.{
  self_linux, mem_flag, add_memory, remove_memory, move_memory, mem_add, mem_rem, mem_move,
}
use avocado_misc_tests.Dlpar.Mem.Operations.{mem_add-Answered, mem_rem-Answered}
use avocado_misc_tests.Dlpar.Mem.Transfer.{MoveAnswered, mem_move-MoveAnswered}
use avocado_misc_tests.Dlpar.Tests.Hosts.{scripted, connected, config, first_lpar, second_lpar}

abbrev growing : Session scripted
growing = connected scripted ("1024\n" ∷ "" ∷ "1280\n" ∷ [])

abbrev grown : Session scripted
grown = (mem_add ⦃H = scripted⦄ (config scripted) (int (pos 256)) growing).1

mem_add-Answered_example :
    Answered ⦃H = scripted⦄
      (mem_query first_lpar "curr_mem")
      (change_command (mem_flag ⦃H = scripted⦄ "a") first_lpar (string_of_int (pos 256)))
      (λ b. b +ℤ pos 256)
      0
      growing
      grown
unfolding mem_add add_memory mem_int get_mem_option hmc_text answered dlpar_engine num_str
    rest_a_while sleep report dlpar_mem_validation require check_log num_add num_eq num_fmt_d strip
    int_of_string string_of_int self_linux mem_query change_command ◌>>=◌ ◌+ℤ◌
mem_add-Answered_example =
    mem_add-Answered ⦃H = scripted⦄ (config scripted) first_lpar (pos 256) growing grown 0 refl refl

abbrev shrinking : Session scripted
shrinking = connected scripted ("1280" ∷ "HSCL294C too much" ∷ [])

abbrev refused : Session scripted
refused = (mem_rem ⦃H = scripted⦄ (config scripted) (int (pos 256)) shrinking).1

mem_rem-Answered_example :
    Answered ⦃H = scripted⦄
      (mem_query first_lpar "curr_mem")
      (change_command (mem_flag ⦃H = scripted⦄ "r") first_lpar (string_of_int (pos 256)))
      (λ b. b -ℤ pos 256)
      1
      shrinking
      refused
unfolding mem_rem remove_memory mem_int get_mem_option dlpar_mem_validation self_linux mem_query
    rest_a_while sleep report require check_log num_add num_sub num_eq num_fmt_d strip int_of_string
    string_of_int num_str hmc_text answered dlpar_engine change_command ◌>>=◌ ◌+ℤ◌ ◌-ℤ◌
mem_rem-Answered_example =
    mem_rem-Answered ⦃H = scripted⦄ (config scripted) first_lpar (pos 256) shrinking refused 1 refl
      refl

abbrev two_lpars : Session scripted
two_lpars = connected scripted ("16" ∷ "8" ∷ "" ∷ "12" ∷ "12" ∷ [])

abbrev moved_over : Session scripted
moved_over = (mem_move ⦃H = scripted⦄ two_lpars).1

mem_move-MoveAnswered_example :
    MoveAnswered ⦃H = scripted⦄ {R = ℕ} 0 1
      (mem_query first_lpar "curr_mem")
      (mem_query second_lpar "curr_mem")
      (move_command (mem_flag ⦃H = scripted⦄ "m") first_lpar second_lpar (string_of_int (pos 4)))
      (pos 4)
      0
      two_lpars
      moved_over
unfolding mem_move move_memory mem_int get_mem_option dlpar_mem_validation moved moved_on
    move_message mem_query move_command rest_a_while sleep report require check_log num_add num_sub
    num_eq num_fmt_d strip int_of_string string_of_int num_str hmc_text answered dlpar_engine
    change_command ◌>>=◌ ◌+ℤ◌ ◌-ℤ◌
mem_move-MoveAnswered_example =
    mem_move-MoveAnswered ⦃H = scripted⦄ first_lpar second_lpar (pos 4) two_lpars moved_over 0 refl
      refl refl refl

abbrev few_procs : Session scripted
few_procs = connected scripted ("2" ∷ "" ∷ "3" ∷ [])

abbrev more_procs : Session scripted
more_procs = (add_ded_cpu ⦃H = scripted⦄ (int (pos 1)) few_procs).1

add_ded_cpu-Answered_example :
    Answered ⦃H = scripted⦄
      (proc_query first_lpar "curr_procs")
      (change_command (procs_flag ⦃H = scripted⦄ "a") first_lpar (string_of_int (pos 1)))
      (λ b. b +ℤ pos 1)
      0
      few_procs
      more_procs
unfolding add_ded_cpu add_dedicated_cpu cpu_int get_cpu_option dlpar_cpu_validation proc_query
    rest_a_while sleep report require check_log num_add num_sub num_eq num_fmt_d strip int_of_string
    string_of_int num_str hmc_text answered dlpar_engine change_command ◌>>=◌ ◌+ℤ◌ ◌-ℤ◌
add_ded_cpu-Answered_example =
    add_ded_cpu-Answered ⦃H = scripted⦄ first_lpar (pos 1) few_procs more_procs 0 refl refl

abbrev three_procs : Session scripted
three_procs = connected scripted ("3" ∷ "" ∷ "2" ∷ [])

abbrev fewer_procs : Session scripted
fewer_procs = (rem_ded_cpu ⦃H = scripted⦄ (int (pos 1)) three_procs).1

rem_ded_cpu-Answered_example :
    Answered ⦃H = scripted⦄
      (proc_query first_lpar "curr_procs")
      (change_command (procs_flag ⦃H = scripted⦄ "r") first_lpar (string_of_int (pos 1)))
      (λ b. b -ℤ pos 1)
      0
      three_procs
      fewer_procs
unfolding rem_ded_cpu remove_dedicated_cpu cpu_int get_cpu_option dlpar_cpu_validation proc_query
    rest_a_while sleep report require check_log num_add num_sub num_eq num_fmt_d strip int_of_string
    string_of_int num_str hmc_text answered dlpar_engine change_command ◌>>=◌ ◌+ℤ◌ ◌-ℤ◌
rem_ded_cpu-Answered_example =
    rem_ded_cpu-Answered ⦃H = scripted⦄ first_lpar (pos 1) three_procs fewer_procs 0 refl refl

abbrev few_units : Session scripted
few_units = connected scripted ("1\n" ∷ "2\n" ∷ "" ∷ "2\n" ∷ [])

abbrev more_units : Session scripted
more_units = (add_cpu_units ⦃H = scripted⦄ first_lpar (float 100) "--procunits" few_units).1

add_cpu_units-UnitsAnswered_example :
    UnitsAnswered ⦃H = scripted⦄
      (proc_query first_lpar "curr_proc_units")
      (proc_query first_lpar "curr_procs")
      (change_command
        (units_flag ⦃H = scripted⦄ "a" "--procunits")
        first_lpar
        (num_str ⦃H = scripted⦄ (float 100)))
      (λ x. num_add ⦃H = scripted⦄ (float x) (float 100))
      none
      few_units
      more_units
unfolding add_cpu_units cpu_float cpu_int get_cpu_option dlpar_cpu_validation proc_query
    rest_a_while sleep require check_log num_add strip int_of_string string_of_int num_str hmc_text
    answered dlpar_engine change_command ◌>>=◌
add_cpu_units-UnitsAnswered_example =
    add_cpu_units-UnitsAnswered ⦃H = scripted⦄ first_lpar (float 100) few_units more_units none refl

abbrev many_units : Session scripted
many_units = connected scripted ("2\n" ∷ "2\n" ∷ "" ∷ "1\n" ∷ [])

abbrev fewer_units : Session scripted
fewer_units = (remove_cpu_units ⦃H = scripted⦄ first_lpar (float 100) "--procunits" many_units).1

remove_cpu_units-UnitsAnswered_example :
    UnitsAnswered ⦃H = scripted⦄
      (proc_query first_lpar "curr_proc_units")
      (proc_query first_lpar "curr_procs")
      (change_command
        (units_flag ⦃H = scripted⦄ "r" "--procunits")
        first_lpar
        (num_str ⦃H = scripted⦄ (float 100)))
      (λ x. num_sub ⦃H = scripted⦄ (float x) (float 100))
      none
      many_units
      fewer_units
unfolding remove_cpu_units cpu_float cpu_int get_cpu_option dlpar_cpu_validation proc_query
    rest_a_while sleep require check_log num_sub strip int_of_string string_of_int num_str hmc_text
    answered dlpar_engine change_command ◌>>=◌
remove_cpu_units-UnitsAnswered_example =
    remove_cpu_units-UnitsAnswered ⦃H = scripted⦄ first_lpar (float 100) many_units fewer_units none
      refl
