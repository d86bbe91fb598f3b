-- ===== src/Scheduler.antt =====
-- cpu/scheduler_tunables_test.py, `SchedulerTunablesTest`: what the test reaches and does not implement,
-- and the attributes of the test.
pub mod Tunables
pub mod Perf
pub mod Means
pub mod Workload
pub mod Cases
pub mod Kept
pub mod Saved
pub mod Ends
pub mod Files
pub mod Bounded
mod Tests
use avocado_misc_tests.Prelude.{ℕ, String, Bool, Option, none, some, List}
use avocado_misc_tests.Prelude.Dict.{Dict}
use avocado_misc_tests.Prelude.Int.{ℤ}
use avocado_misc_tests.Text.{strip}
use avocado_misc_tests.Python.{Exec}

-- The running system, the test's parameters and the interpreter's floats.
pub record Kernel : Type 1 where
  pub World : Type 0
  -- `os.path.exists`, `os.path.ismount`
  pub exists : World → String → Bool
  pub is_mount : World → String → Bool
  -- `genio.read_file`, or `none` if it raises, and `genio.write_file`, with whether it returned
  pub read_file : World → String → Option String
  pub write_file : World → String → String → Bool × World
  -- `process.run(c)`: the exit status and what the command wrote to stderr, or `none` if it raises
  pub run : String → World → Option (ℤ × String) × World
  -- `sm.check_installed(p) or sm.install(p)`
  pub provide : String → World → Bool × World
  pub sleep : ℕ → World → World
  pub online_count : World → ℕ
  -- the parameters: whole numbers, then a text and a float by the key, the path and the default
  pub test_duration : ℕ
  pub configured_workers : ℕ
  pub workload_type : String → String → String
  pub Float : Type 0
  pub factor : String → String → Float → Option Float
  -- the literal n / 100: `hundredths 40` is `0.4`
  pub hundredths : ℕ → Float
  pub float_of_string : String → Option Float
  -- the conversion of an int, as in `n + x`; `none` is the OverflowError of an int that is too large
  pub float_of_int : ℤ → Option Float
  -- `int(x)`, which raises for what is no number
  pub int_of_float : Float → Option ℤ
  pub add : Float → Float → Float
  pub sub : Float → Float → Float
  pub mul : Float → Float → Float
  pub div : Float → Float → Float
  -- `x ** 2`, `x ** 0.5`, and `a / b` of ints; `none` is an OverflowError
  pub square : Float → Option Float
  pub root : Float → Float
  pub int_div : ℤ → ℤ → Option Float
  pub gt : Float → Float → Bool

-- a value of a metric
pub data Value (K : Kernel) : Type 0 where
  whole : ℤ → Value K
  real : K.Float → Value K

abbrev pub Metrics : Kernel → Type 0
Metrics K = Dict (Value K)

-- the averages of the metrics, or how much each varies
abbrev pub Averages : Kernel → Type 0
Averages K = Dict K.Float

-- The attributes of the test. `none` is an attribute that has not been set.
pub record Session (K : Kernel) : Type 0 where
  pub total_cpus : ℕ
  pub stress_workers : ℕ
  pub original_tunables : Option (Dict String)
  pub baseline_metrics : Option (Averages K)
  pub world : K.World

module _ ⦃K : Kernel⦄ where
  abbrev pub Action : Type 0 → Type 0
  Action = Exec (Session K)

  stripped : Option String → Option String
  stripped none = none
  stripped (some text) = some (strip text)

  -- `genio.read_file(path).strip()`
  unfoldable pub read_value : K.World → String → Option String
  unfolding stripped
  read_value w path = stripped (K.read_file w path)
