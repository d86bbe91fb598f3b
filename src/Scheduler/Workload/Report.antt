-- ===== src/Scheduler/Workload/Report.antt =====
-- cpu/scheduler_tunables_test.py: `_run_workload` returns, and what it returns.
use avocado_misc_tests.Prelude.{
  ℕ, zero, suc, ◌≤◌, String, ◌≡◌, refl, sym, ◌∙◌, ap, true, Option, none, some, List, [], ◌∷◌, inl,
  inr, arith, Bool-cases, str_eq,
}
use avocado_misc_tests.Prelude.Dict.{some-inj, Dict, get, has}
use avocado_misc_tests.Prelude.Int.{ℤ, pos, ◌==ℤ◌}
use avocado_misc_tests.Prelude.Lists.{All, length}
use avocado_misc_tests.Python.{Result, ok, err, overflow_error, or_raise, pure, ◌>>=◌}
use avocado_misc_tests.Python.Inversion.{>>=-ok}
use avocado_misc_tests.Scheduler.{Kernel, Value, Metrics, Averages, Session, Action}
use avocado_misc_tests.Scheduler.Perf.{parse_perf_output}
use avocado_misc_tests.Scheduler.Perf.Keys.{
  keys, among, has-among, metric_names, parse_perf_output-keys,
}
use avocado_misc_tests.Scheduler.Means.{
  Workload, no_success, averaged, mean, deviation, values_of, per_key, metric_keys, has_deviation,
  deviation_keys, summary, log_metrics, put_value, ◌>>=◌ as bind,
}
use avocado_misc_tests.Scheduler.Workload.{
  parsed, outcome, run, run_workload_single, cons_opt, runs, run_workload,
}

has-get :
    {V : Type 0} (key : String) (d : Dict V) → has key d ≡ true → (v : V) × (get key d ≡ some v)
unfolding has get
has-get key [] h = cc
has-get key ((k, v) ∷ d) h = elim (Bool-cases (str_eq k key)) [
  | inl same ↦ (v, rw (get, same) refl)
  | inr other ↦ let (u, is) = has-get key d (rw (has, other) at h) in (u, rw (get, other) is)
]

bind-eq-some :
    {A B : Type 0} (o : Option A) (f : A → Option B) {b : B}
    → bind o f ≡ some b
    → (a : A) × (o ≡ some a) × (f a ≡ some b)
bind-eq-some none f h = cc
bind-eq-some (some a) f h = (a, refl, h)

module _ ⦃K : Kernel⦄ where
  abbrev pub IsMetrics : Metrics K → Type 0
  IsMetrics m = keys m ≡ metric_names

  -- a list of at most one run
  abbrev Full : Option (Metrics K) → Type 0
  Full none = Unit
  Full (some m) = IsMetrics m

  parsed-Full :
      (status : ℤ) (r : Result Unit) (m : Metrics K) → IsMetrics m → Full (parsed status (r, m))
  unfolding parsed
  parsed-Full status (ok u) m h = elim (Bool-cases (log_metrics m)) [
    | inr raised ↦ rw raised tt
    | inl logged ↦ elim (Bool-cases (status ==ℤ pos 0)) [
      | inl success ↦ rw (logged, success) h
      | inr failure ↦ rw (logged, failure) tt
    ]
  ]
  parsed-Full status (err e) m h = tt

  outcome-Full : (r : Option (ℤ × String)) → Full (outcome r)
  unfolding outcome
  outcome-Full none = tt
  outcome-Full (some (status, stderr)) =
      parsed-Full status (parse_perf_output stderr).0 (parse_perf_output stderr).1
        (parse_perf_output-keys stderr)

  abbrev Runs : ℕ → Action (List (Metrics K)) → Session K → Type 0
  Runs n m s =
      (all_runs : List (Metrics K)) × (t : Session K) × (m s ≡ (ok all_runs, t))
      × All IsMetrics all_runs
      × (length all_runs ≤ n)

  cons-All :
      (n : ℕ) (o : Option (Metrics K)) (all_runs : List (Metrics K))
      → Full o
      → All IsMetrics all_runs
      → length all_runs ≤ n
      → All IsMetrics (cons_opt o all_runs) × (length (cons_opt o all_runs) ≤ suc n)
  cons-All n none all_runs h hs short = (hs, omega arith)
  cons-All n (some m) all_runs h hs short = ((h, hs), omega arith)

  single_returns :
      (duration : ℕ) (workload_type : String) (s : Session K)
      → (o : Option (Metrics K)) × (t : Session K) × (run_workload_single duration workload_type s
          ≡ (ok o, t))
        × Full o
  unfolding run_workload_single run ◌>>=◌
  single_returns duration workload_type s = (_, _, refl, outcome-Full _)

  runs-Runs :
      (n duration : ℕ) (workload_type : String) (s : Session K)
      → Runs n (runs n duration workload_type) s
  unfolding runs
  runs-Runs zero duration workload_type s = ([], s, refl, tt, omega arith)
  runs-Runs (suc n) duration workload_type s =
      let (o, after, first, full_o) = single_returns duration workload_type s in
      let (rest, t, others, full, short) = runs-Runs n duration workload_type after in
      let (all_full, all_short) = cons-All n o rest full_o full short in
      (
        cons_opt o rest,
        t,
        >>=-ok (run_workload_single duration workload_type)
              (λ result.
                runs n duration workload_type >>= λ all_runs. pure (cons_opt result all_runs))
              first
            ∙ >>=-ok (runs n duration workload_type) (λ all_runs. pure (cons_opt o all_runs))
                others,
        all_full,
        all_short,
      )

  has_all :
      (m : Metrics K)
      → IsMetrics m
      → (key : String) → among key metric_names ≡ true
      → has key m ≡ true
  has_all m full key there = has-among key m ∙ (rw full there)

  has_names :
      (m : Metrics K) (names : List String)
      → IsMetrics m
      → All (λ key. among key metric_names ≡ true) names
      → All (λ key. has key m ≡ true) names
  has_names m [] full h = tt
  has_names m (key ∷ names) full (here, rest) =
      (has_all m full key here, has_names m names full rest)

  put_value-keys :
      (key : String) (names : List String) (x : Option K.Float) (rest : Option (Averages K))
      → ((entries : Averages K) → rest ≡ some entries → keys entries ≡ names)
      → (all : Averages K) → elim x [ none ↦ none | some y ↦ put_value key y rest ] ≡ some all
      → keys all ≡ key ∷ names
  unfolding put_value
  put_value-keys key names none rest h all made = cc
  put_value-keys key names (some y) none h all made = cc
  put_value-keys key names (some y) (some entries) h all made =
      rw (sym (some-inj made)) (ap (λ ks. key ∷ ks) (h entries refl))

  -- each key of the first run has an average, where there are any
  per_key-keys :
      (f : List (Value K) → Option K.Float) (names : List String) (m : Metrics K)
      (rest : List (Metrics K))
      → All (λ key. has key m ≡ true) names
      → (all : Averages K) → per_key f names (m ∷ rest) ≡ some all
      → keys all ≡ names
  unfolding per_key values_of
  per_key-keys f [] m rest h all made = rw (sym (some-inj made)) refl
  per_key-keys f (key ∷ names) m rest (here, others) all made =
      let (v, is) = has-get key m here in
      put_value-keys key names (f (v ∷ values_of key rest)) (per_key f names (m ∷ rest))
        (per_key-keys f names m rest others) all (rw (per_key, values_of, is) at made)

  -- What `_run_workload` reports of n iterations: where a run was a success, each of the runs that it
  -- averages has all metrics, and so have the averages; three metrics have a deviation.
  abbrev pub IsSummary : ℕ → Workload K → Type 0
  IsSummary n no_success = Unit
  IsSummary n (averaged avg_metrics std_dev all_runs total_runs) =
      (keys avg_metrics ≡ metric_names)
      × (keys std_dev ≡ "context_switches" ∷ "cpu_migrations" ∷ "page_faults" ∷ [])
      × All IsMetrics all_runs
      × (1 ≤ length all_runs)
      × (length all_runs ≤ n)
      × (total_runs ≡ n)

  summary-IsSummary :
      (n : ℕ) (all_runs : List (Metrics K))
      → All IsMetrics all_runs
      → length all_runs ≤ n
      → (w : Workload K) → summary n all_runs ≡ some w
      → IsSummary n w
  unfolding summary metric_keys deviation_keys has_deviation
  summary-IsSummary n [] full short w made = rw (sym (some-inj made)) tt
  summary-IsSummary n (m ∷ rest) (here, others) short w made =
      let names_in : All (λ key. has key m ≡ true) metric_names = has_names m metric_names here (
        refl,
        (
          refl,
          (
            refl,
            (
              refl,
              (refl, (refl, (refl, (refl, (refl, (refl, (refl, (refl, (refl, (refl, tt)))))))))),
            ),
          ),
        ),
      ) in
      let all_runs = m ∷ rest in
      let deviations : Averages K → Option (Workload K) = λ avg.
        bind (per_key deviation (deviation_keys (keys m)) all_runs)
          (λ dev. some (averaged avg dev all_runs n)) in
      let (avg, has_means, made_1) =
        bind-eq-some (per_key mean (keys m) all_runs) deviations made in
      let (dev, has_deviations, made_2) =
        bind-eq-some (per_key deviation (deviation_keys (keys m)) all_runs)
          (λ dev. some (averaged avg dev all_runs n)) made_1 in
      let is : w ≡ averaged avg dev all_runs n = sym (some-inj made_2) in
      rw is (
        per_key-keys mean metric_names m rest names_in avg (rw here at has_means),
        per_key-keys deviation (deviation_keys metric_names) m rest
            (has_names m (deviation_keys metric_names) here (refl, (refl, (refl, tt)))) dev
            (rw here at has_deviations),
        (here, others),
        omega arith,
        short,
        refl,
      )

  -- The report of n iterations, or the one exception that there may be.
  abbrev pub IsReport : ℕ → Result (Workload K) → Type 0
  IsReport n (ok w) = IsSummary n w
  IsReport n (err e) = e ≡ overflow_error

  summary-IsReport :
      (n : ℕ) (o : Option (Workload K)) (s : Session K)
      → ((w : Workload K) → o ≡ some w → IsSummary n w)
      → (r : Result (Workload K)) × (or_raise o overflow_error s ≡ (r, s)) × IsReport n r
  summary-IsReport n none s h = (_, refl, refl)
  summary-IsReport n (some w) s h = (_, refl, h w refl)

  -- Whatever the commands do and print, `_run_workload` returns a report of its iterations, or it raises an
  -- OverflowError, and no other exception.
  pub run_workload-IsReport :
      (duration : ℕ) (workload_type : String) (iterations : ℕ) (s : Session K)
      → (r : Result (Workload K)) × (t : Session K) × (run_workload duration workload_type
            iterations s
          ≡ (r, t))
        × IsReport iterations r
  unfolding run_workload
  run_workload-IsReport duration workload_type iterations s =
      let (all_runs, t, is, full, short) = runs-Runs iterations duration workload_type s in
      let (r, raised, report) =
        summary-IsReport iterations (summary iterations all_runs) t
          (summary-IsSummary iterations all_runs full short) in
      (
        r,
        t,
        >>=-ok (runs iterations duration workload_type)
              (λ rs. or_raise (summary iterations rs) overflow_error) is
            ∙ raised,
        report,
      )
