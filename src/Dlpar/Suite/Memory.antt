-- ===== src/Dlpar/Suite/Memory.antt =====
-- dlpar/dlpar_main.py: `test_mem_add`, `test_mem_rem`, `test_mem_mix` and `test_mem_mov`.
use mathlib.Core.List.{zip}
use avocado_misc_tests.Prelude.{ℕ, ◌<>◌, true, false, ◌==◌, if◌then◌else◌}
use avocado_misc_tests.Prelude.Int.{pos}
use avocado_misc_tests.Prelude.Lists.{drop_last}
use avocado_misc_tests.Text.{string_of_int}
use avocado_misc_tests.Python.{fail, pure, raise, ◌>>=◌, ◌>>◌, for_each}
use avocado_misc_tests.Dlpar.Host.{Host}
use avocado_misc_tests.Dlpar.Num.{Number, num_str}
use avocado_misc_tests.Dlpar.Session.{Action, log_info}
use avocado_misc_tests.Dlpar.Connections.{Config}
use avocado_misc_tests.Dlpar.Mem.{
  memory, get_max_mem, get_curr_mem, get_lmb_size, mem_add, mem_rem, mem_move,
}
use avocado_misc_tests.Dlpar.Payload.Numbers.{mem_payload_data, mix_removals}
use avocado_misc_tests.Dlpar.Suite.Outcome.{stop_if_refused}

module _ ⦃H : Host⦄ where
  unfoldable pub add_round : Config H → Number → Action Unit
  add_round c mem = do
    rvalue ← mem_add c mem
    stop_if_refused rvalue (num_str mem <> " Memory add Command failed please check the logs")
    log_info ("===============> " <> (num_str mem <> " Memory got added=======>\n "))

  -- The last amount is left out.
  unfoldable pub test_mem_add : ℕ → Config H → Action Unit
  test_mem_add rounds c = do
    memory c false
    max_mem ← get_max_mem c
    curr_mem ← get_curr_mem c
    lmb_value ← get_lmb_size c
    mem_payload ← mem_payload_data rounds curr_mem lmb_value max_mem
    for_each (drop_last mem_payload) (add_round c)

  unfoldable pub remove_round : Config H → Number → Action Unit
  remove_round c mem = do
    rvalue ← mem_rem c mem
    stop_if_refused rvalue "Memory remove Command failed please check the logs"
    log_info ("===============> " <> (num_str mem <> " memory got removed=======>\n "))

  unfoldable pub test_mem_rem : ℕ → Config H → Action Unit
  test_mem_rem rounds c = do
    memory c true
    curr_mem ← get_curr_mem c
    lmb_value ← get_lmb_size c
    mem_remove ← mem_payload_data rounds curr_mem lmb_value (pos 0)
    for_each (drop_last mem_remove) (remove_round c)

  unfoldable pub mix_round : Config H → Number × Number → Action Unit
  mix_round c (add, rem) = do
    rvalue ← mem_add c add
    stop_if_refused rvalue "MEM add Command failed please check the logs"
    log_info ("=====>" <> (num_str add <> " memory got added====>\n "))
    rvalue ← mem_rem c rem
    stop_if_refused rvalue "MEM remove Command failed please check the logs"
    log_info ("====>" <> (num_str rem <> " memory got removed====>\n "))

  unfoldable pub test_mem_mix : ℕ → Config H → Action Unit
  test_mem_mix rounds c = do
    memory c false
    max_mem ← get_max_mem c
    log_info (string_of_int max_mem)
    curr_mem ← get_curr_mem c
    lmb_value ← get_lmb_size c
    log_info (string_of_int lmb_value)
    mem_add ← mem_payload_data rounds curr_mem lmb_value max_mem
    mem_rem ← mix_removals lmb_value mem_add
    for_each (zip mem_add mem_rem) (mix_round c)

  unfoldable pub test_mem_mov : Config H → Action Unit
  test_mem_mov c = do
    memory c false
    rvalue ← mem_move
    if rvalue == 1 then raise (fail "Memory move Command failed please check the logs") else pure tt
