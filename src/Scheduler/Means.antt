-- ===== src/Scheduler/Means.antt =====
-- cpu/scheduler_tunables_test.py: the arithmetic of `_log_metrics` and of the averages that
-- `_run_workload` makes, with the OverflowError of Python's floats.
use avocado_misc_tests.Prelude.{
  ℕ, String, Bool, true, false, ◌||◌, ◌&&◌, not, Option, none, some, List, [], ◌∷◌, map, str_eq,
  if◌then◌else◌,
}
use avocado_misc_tests.Prelude.Dict.{get, has}
use avocado_misc_tests.Prelude.Int.{pos, ◌+ℤ◌, leb_ℤ}
use avocado_misc_tests.Prelude.Lists.{length}
use avocado_misc_tests.Scheduler.{Kernel, Value, whole, real, Metrics, Averages}

-- `none` is an operation that raised.
infixl 5 ◌>>=◌
abbrev pub ◌>>=◌ : {A B : Type 0} → Option A → (A → Option B) → Option B
none >>= f = none
some a >>= f = f a

-- what `_run_workload` returns: without a successful run, or with averages over those
pub data Workload (K : Kernel) : Type 0 where
  no_success : Workload K
  averaged :
      (avg_metrics std_dev : Averages K) (all_runs : List (Metrics K)) (total_runs : ℕ) → Workload K

module _ ⦃K : Kernel⦄ where
  -- The conversion to a float that arithmetic with a float makes.
  to_float : Value K → Option K.Float
  to_float (whole n) = K.float_of_int n
  to_float (real x) = some x

  is_above_zero : Value K → Bool
  is_above_zero (whole n) = not (leb_ℤ n (pos 0))
  is_above_zero (real x) = K.gt x (K.hundredths 0)

  -- `metrics['cpu_migrations'] * 1000.0 / metrics['context_switches']`
  migrations_per_1k_cs : Value K → Value K → Option K.Float
  unfolding to_float
  migrations_per_1k_cs cpu_migrations context_switches = do
    migrations ← to_float cpu_migrations
    switches ← to_float context_switches
    some (K.div (K.mul migrations (K.hundredths 100000)) switches)

  -- whether the part of `_log_metrics` on the derived metrics returns
  derived : Option (Value K) → Option (Value K) → Bool
  unfolding is_above_zero migrations_per_1k_cs
  derived (some context_switches) (some cpu_migrations) =
      if is_above_zero context_switches
      then elim (migrations_per_1k_cs cpu_migrations context_switches) [
        | none ↦ false
        | some _ ↦ true
      ]
      else true
  derived context_switches cpu_migrations = false

  all_present : List String → Metrics K → Bool
  all_present [] metrics = true
  all_present (key ∷ keys) metrics = has key metrics && all_present keys metrics

  -- Whether `_log_metrics` returns: it reads metrics, and derives one from two counts.
  unfoldable pub log_metrics : Metrics K → Bool
  unfolding all_present derived
  log_metrics metrics =
      all_present
        ("context_switches" ∷ "cs_per_second" ∷ "cpu_migrations" ∷ "migrations_per_second"
          ∷ "page_faults" ∷ "task_clock_ms" ∷ "cpus_utilized" ∷ "insn_per_cycle" ∷ "time_elapsed"
          ∷ [])
        metrics
      && derived (get "context_switches" metrics) (get "cpu_migrations" metrics)

  plus : Value K → Value K → Option (Value K)
  unfolding to_float
  plus (whole m) (whole n) = some (whole (m +ℤ n))
  plus (whole m) (real y) = do x ← K.float_of_int m; some (real (K.add x y))
  plus (real x) n = do y ← to_float n; some (real (K.add x y))

  -- `sum(values)`
  unfoldable pub total : Value K → List (Value K) → Option (Value K)
  unfolding plus
  total acc [] = some acc
  total acc (v ∷ values) = do sum ← plus acc v; total sum values

  over : Value K → ℕ → Option K.Float
  over (whole m) n = K.int_div m (pos n)
  over (real x) n = do y ← K.float_of_int (pos n); some (K.div x y)

  unfoldable pub mean : List (Value K) → Option K.Float
  unfolding over
  mean values = do sum ← total (whole (pos 0)) values; over sum (length values)

  -- `sum((x - mean) ** 2 for x in values)`
  squares : K.Float → List (Value K) → K.Float → Option K.Float
  unfolding to_float
  squares m [] acc = some acc
  squares m (v ∷ values) acc = do
    x ← to_float v
    y ← K.square (K.sub x m)
    squares m values (K.add acc y)

  unfoldable pub deviation : List (Value K) → Option K.Float
  unfolding squares over
  deviation values = do
    m ← mean values
    sum ← squares m values (K.hundredths 0)
    variance ← over (real sum) (length values)
    some (K.root variance)

  -- `[run[key] for run in all_runs if key in run]`
  unfoldable pub values_of : String → List (Metrics K) → List (Value K)
  values_of key [] = []
  values_of key (r ∷ all_runs) =
      let rest = values_of key all_runs in elim (get key r) [ none ↦ rest | some v ↦ v ∷ rest ]

  unfoldable pub put_value : String → K.Float → Option (Averages K) → Option (Averages K)
  put_value key x none = none
  put_value key x (some entries) = some ((key, x) ∷ entries)

  -- a value for each key with the values of the key, where there are any
  unfoldable pub per_key :
      (List (Value K) → Option K.Float) → List String → List (Metrics K) → Option (Averages K)
  unfolding put_value
  per_key f [] all_runs = some []
  per_key f (key ∷ keys) all_runs =
      let rest = per_key f keys all_runs in
      elim (values_of key all_runs) [
        | [] ↦ rest
        | v ∷ values ↦ elim (f (v ∷ values)) [ none ↦ none | some x ↦ put_value key x rest ]
      ]

  unfoldable pub metric_keys : List (Metrics K) → List String
  metric_keys [] = []
  metric_keys (r ∷ all_runs) = map (λ entry. entry.0) r

  unfoldable pub has_deviation : String → Bool
  has_deviation key =
      str_eq key "context_switches" || str_eq key "cpu_migrations" || str_eq key "page_faults"

  unfoldable pub deviation_keys : List String → List String
  unfolding has_deviation
  deviation_keys [] = []
  deviation_keys (key ∷ keys) =
      let rest = deviation_keys keys in if has_deviation key then key ∷ rest else rest

  -- What `_run_workload` returns of these runs; `none` is an OverflowError of its arithmetic.
  unfoldable pub summary : ℕ → List (Metrics K) → Option (Workload K)
  unfolding deviation_keys
  summary iterations [] = some no_success
  summary iterations (r ∷ all_runs) = do
    let keys = metric_keys (r ∷ all_runs)
    avg_metrics ← per_key mean keys (r ∷ all_runs)
    std_dev ← per_key deviation (deviation_keys keys) (r ∷ all_runs)
    some (averaged avg_metrics std_dev (r ∷ all_runs) iterations)
