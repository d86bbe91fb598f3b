-- ===== src/Scheduler/Perf.antt =====
-- cpu/scheduler_tunables_test.py: the stress-ng command, and the metrics that perf stat prints.
pub mod Keys
use avocado_misc_tests.Prelude.{
  ℕ, ◌+◌, ◌*◌, ◌/◌, String, ◌<>◌, Bool, ◌&&◌, Option, none, some, List, [], ◌∷◌, leb, str_eq,
  if◌then◌else◌,
}
use avocado_misc_tests.Prelude.Dict.{set}
use avocado_misc_tests.Prelude.Int.{ℤ, pos}
use avocado_misc_tests.Prelude.Lists.{length}
use avocado_misc_tests.Text.{contains, strip, string_of_int, int_of_string}
use avocado_misc_tests.Text.Words.{split_on, split_words, remove_char, is_digit_text}
use avocado_misc_tests.Python.{
  Exec, Result, value_error, index_error, pure, raise, modify, or_raise, for_each, ◌>>=◌, ◌>>◌,
}
use avocado_misc_tests.Scheduler.{Kernel, Value, whole, real, Metrics}

-- `min(a, b)`
abbrev pub min : ℕ → ℕ → ℕ
min a b = if leb a b then a else b

show : ℕ → String
show n = string_of_int (pos n)

abbrev timeout : ℕ → String
timeout duration = " --timeout " <> (string_of_int (pos duration) <> "s")

-- `_build_stress_command`, without the message that is logged
unfoldable pub build_stress_command : ℕ → ℕ → String → ℕ → String
unfolding show
build_stress_command stress_workers total_cpus workload_type duration =
    if str_eq workload_type "cpu"
    then "stress-ng --cpu " <> (show stress_workers <> timeout duration)
    else if str_eq workload_type "context-switch"
    then "stress-ng --switch " <> (show (min stress_workers (total_cpus * 4)) <> timeout duration)
    else if str_eq workload_type "fork"
    then "stress-ng --fork " <> (show (min (stress_workers / 2) 64) <> timeout duration)
    else if str_eq workload_type "mixed"
    then "stress-ng --cpu "
      <> (show (stress_workers / 2)
          <> (" --io " <> (show (stress_workers / 4) <> timeout duration)))
    else "stress-ng --cpu " <> (show stress_workers <> timeout duration)

-- `parts[0]`
unfoldable pub first_part : List String → Option String
first_part [] = none
first_part (part ∷ parts) = some part

-- each part with the one before it
unfoldable pub neighbours : List String → List (String × String)
neighbours [] = []
neighbours (p ∷ []) = []
neighbours (p ∷ (q ∷ parts)) = (p, q) ∷ neighbours (q ∷ parts)

-- the same from the third part on
unfoldable pub later_neighbours : List String → List (String × String)
later_neighbours [] = []
later_neighbours (p ∷ parts) = neighbours parts

module _ ⦃K : Kernel⦄ where
  abbrev pub Parse : Type 0 → Type 0
  Parse A = Exec (Metrics K) A

  unfoldable pub put : String → Value K → Parse Unit
  put key value = modify (set key value)

  -- `int(parts[0].replace(',', ''))`, `float(parts[0].replace(',', ''))` and `float(parts[0])`
  unfoldable pub count_of : List String → Parse ℤ
  count_of parts = do
    part ← or_raise (first_part parts) index_error
    or_raise (int_of_string (remove_char b',' part)) value_error

  unfoldable pub read_float : String → Parse K.Float
  read_float text = or_raise (K.float_of_string text) value_error

  -- `_parse_perf_rate`
  unfoldable pub parse_perf_rate : String → K.Float
  parse_perf_rate rate_str = elim (K.float_of_string rate_str) [
    | none ↦ K.hundredths 0
    | some rate ↦ rate
  ]

  -- the part before each part with `/sec`
  unfoldable pub rates : String → List (String × String) → Parse Unit
  unfolding put
  rates key [] = pure tt
  rates key ((before, part) ∷ pairs) = do
    (if contains part "/sec" then put key (real (parse_perf_rate before)) else pure tt)
    rates key pairs

  unfoldable pub utilized : List (String × String) → Parse Unit
  unfolding put read_float
  utilized [] = pure tt
  utilized ((before, part) ∷ pairs) = do
    (if contains part "CPUs"
        then (do x ← read_float before; put "cpus_utilized" (real x))
        else pure tt)
    utilized pairs

  unfoldable pub put_ipc : Option K.Float → Parse Unit
  unfolding put
  put_ipc none = pure tt
  put_ipc (some x) = put "insn_per_cycle" (real x)

  unfoldable pub instructions_per_cycle : List (String × String) → Parse Unit
  unfolding put_ipc
  instructions_per_cycle [] = pure tt
  instructions_per_cycle ((before, part) ∷ pairs) = do
    (if contains part "instructions" then put_ipc (K.float_of_string before) else pure tt)
    instructions_per_cycle pairs

  unfoldable pub miss_rate : List String → Parse Unit
  unfolding put read_float
  miss_rate [] = pure tt
  miss_rate (part ∷ parts) = do
    (if contains part "%"
        then (do x ← read_float (remove_char b'%' part); put "branch_miss_rate" (real x))
        else pure tt)
    miss_rate parts

  -- A line about branches counts by its second part.
  unfoldable pub branch_line : List String → Parse Unit
  unfolding put
  branch_line [] = pure tt
  branch_line (part ∷ []) = pure tt
  branch_line (part ∷ (event_name ∷ parts)) =
      if is_digit_text (remove_char b',' part)
      then (do
        count ← count_of (part ∷ (event_name ∷ parts))
        (if str_eq event_name "branch-misses"
            then (do put "branch_misses" (whole count); miss_rate (part ∷ (event_name ∷ parts)))
            else if str_eq event_name "branches"
            then put "branches" (whole count)
            else pure tt))
      else pure tt

  unfoldable pub put_count : String → List String → Parse Unit
  unfolding put
  put_count key parts = do count ← count_of parts; put key (whole count)

  unfoldable pub task_clock : List String → Parse Unit
  unfolding put read_float
  task_clock parts = do
    part ← or_raise (first_part parts) index_error
    x ← read_float (remove_char b',' part)
    put "task_clock_ms" (real x)
    utilized (neighbours parts)

  unfoldable pub elapsed : List String → Parse Unit
  unfolding put read_float
  elapsed parts = do
    part ← or_raise (first_part parts) index_error
    x ← read_float part
    put "time_elapsed" (real x)

  -- the body of the loop over the lines
  unfoldable pub parse_line : String → Parse Unit
  unfolding put_count task_clock elapsed
  parse_line line =
      let parts = split_words line in
      if contains line "context-switches"
      then (do put_count "context_switches" parts; rates "cs_per_second" (neighbours parts))
      else if contains line "cpu-migrations"
      then (do put_count "cpu_migrations" parts; rates "migrations_per_second" (neighbours parts))
      else if contains line "page-faults"
      then put_count "page_faults" parts
      else if contains line "task-clock"
      then task_clock parts
      else if contains line "branch"
      then branch_line parts
      else if contains line "cpu-cycles"
      then put_count "cpu_cycles" parts
      else if contains line "instructions"
      then (do put_count "instructions" parts; instructions_per_cycle (later_neighbours parts))
      else if contains line "seconds time elapsed"
      then elapsed parts
      else pure tt

  unfoldable pub nought : Value K
  nought = whole (pos 0)

  unfoldable pub nought_float : Value K
  nought_float = real (K.hundredths 0)

  -- the metrics before the first line
  unfoldable pub no_metrics : Metrics K
  unfolding nought nought_float
  no_metrics =
      ("context_switches", nought)
      ∷ ("cs_per_second", nought_float)
      ∷ ("cpu_migrations", nought)
      ∷ ("migrations_per_second", nought_float)
      ∷ ("page_faults", nought)
      ∷ ("task_clock_ms", nought_float)
      ∷ ("cpus_utilized", nought_float)
      ∷ ("branch_misses", nought)
      ∷ ("branch_miss_rate", nought_float)
      ∷ ("branches", nought)
      ∷ ("cpu_cycles", nought)
      ∷ ("instructions", nought)
      ∷ ("insn_per_cycle", nought_float)
      ∷ ("time_elapsed", nought_float)
      ∷ []

  -- `_parse_perf_output`
  unfoldable pub parse_perf_output : String → Result Unit × Metrics K
  parse_perf_output perf_output =
      for_each (split_on b'\n' perf_output) (λ line. parse_line (strip line)) no_metrics
