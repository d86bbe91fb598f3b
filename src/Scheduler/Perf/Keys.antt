-- ===== src/Scheduler/Perf/Keys.antt =====
-- cpu/scheduler_tunables_test.py: the metrics that `_parse_perf_output` makes have the same keys whatever
-- perf prints.
use avocado_misc_tests.Prelude.{
  String, ◌≡◌, refl, ◌∙◌, ap, Bool, true, false, ◌||◌, Bool-cases, Option, none, some, List, [],
  ◌∷◌, map, inl, inr, str_eq, if◌then◌else◌,
}
use avocado_misc_tests.Prelude.Dict.{Dict, set, has}
use avocado_misc_tests.Python.{Error, Result, ok, err, pure, or_raise, for_each, continue, ◌>>=◌}
use avocado_misc_tests.Scheduler.{Kernel, Value, Metrics}
use avocado_misc_tests.Scheduler.Perf.{
  Parse, put, read_float, count_of, rates, utilized, put_ipc, instructions_per_cycle, miss_rate,
  branch_line, put_count, task_clock, elapsed, parse_line, no_metrics, parse_perf_output,
}

abbrev pub keys : {V : Type 0} → Dict V → List String
keys d = map (λ entry. entry.0) d

abbrev pub among : String → List String → Bool
among key [] = false
among key (k ∷ ks) = str_eq k key || among key ks

module _ {V : Type 0} where
  set-keys :
      (key : String) (v : V) (d : Dict V) → among key (keys d) ≡ true → keys (set key v d) ≡ keys d
  unfolding set
  set-keys key v [] there = cc
  set-keys key v ((k, u) ∷ d) there = elim (Bool-cases (str_eq k key)) [
    | inl same ↦ rw (set, same) refl
    | inr other ↦ rw (set, other) (ap (λ ks. k ∷ ks) (set-keys key v d (rw other at there)))
  ]

  pub has-among : (key : String) (d : Dict V) → has key d ≡ among key (keys d)
  unfolding has
  has-among key [] = refl
  has-among key ((k, v) ∷ d) = ap (λ r. str_eq k key || r) (has-among key d)

-- the keys of the metrics
abbrev pub metric_names : List String
metric_names =
    "context_switches" ∷ "cs_per_second" ∷ "cpu_migrations" ∷ "migrations_per_second"
    ∷ "page_faults" ∷ "task_clock_ms" ∷ "cpus_utilized" ∷ "branch_misses" ∷ "branch_miss_rate"
    ∷ "branches" ∷ "cpu_cycles" ∷ "instructions" ∷ "insn_per_cycle" ∷ "time_elapsed" ∷ []

module _ ⦃K : Kernel⦄ where
  record Same {A : Type 0} (m : Parse A) : Type 0 where
    same : (d : Metrics K) → keys d ≡ metric_names → keys (m d).1 ≡ metric_names

  module _ {A B : Type 0} where
    Same-continue :
        (r : Result A) (f : A → Parse B) (d : Metrics K)
        → ((a : A) → Same (f a))
        → keys d ≡ metric_names
        → keys (continue r f d).1 ≡ metric_names
    Same-continue (ok a) f d h k = (h a).same d k
    Same-continue (err e) f d h k = k

    Same-bind : (m : Parse A) (f : A → Parse B) → Same m → ((a : A) → Same (f a)) → Same (m >>= f)
    unfolding ◌>>=◌
    Same-bind m f h g = record { same = λ d k. Same-continue (m d).0 f (m d).1 g (h.same d k) }

  Same-pure : {A : Type 0} (a : A) → Same (pure a)
  Same-pure a = record { same = λ d k. k }

  Same-or_raise : {A : Type 0} (o : Option A) (e : Error) → Same (or_raise o e)
  Same-or_raise none e = record { same = λ d k. k }
  Same-or_raise (some a) e = Same-pure a

  Same-if : {A : Type 0} (b : Bool) (m n : Parse A) → Same m → Same n → Same (if b then m else n)
  Same-if true m n h k = h
  Same-if false m n h k = k

  -- a metric that is one of the keys
  Same-put : (key : String) (v : Value K) → among key metric_names ≡ true → Same (put key v)
  unfolding put
  Same-put key v there = record { same = λ d k. set-keys key v d (rw k there) ∙ k }

  Same-read_float : (text : String) → Same (read_float text)
  unfolding read_float
  Same-read_float text = Same-or_raise _ _

  Same-count_of : (parts : List String) → Same (count_of parts)
  unfolding count_of
  Same-count_of parts = Same-bind _ _ (Same-or_raise _ _) (λ part. Same-or_raise _ _)

  ruleset same_rules =
      (Same-bind, Same-pure, Same-or_raise, Same-if, Same-put, Same-read_float, Same-count_of, refl)

  Same-rates :
      (key : String) (pairs : List (String × String))
      → among key metric_names ≡ true
      → Same (rates key pairs)
  unfolding rates
  Same-rates key [] there = Same-pure tt
  Same-rates key ((before, part) ∷ pairs) there =
      let rest = Same-rates key pairs there in search same_rules

  Same-utilized : (pairs : List (String × String)) → Same (utilized pairs)
  unfolding utilized
  Same-utilized [] = Same-pure tt
  Same-utilized ((before, part) ∷ pairs) =
      let rest = Same-utilized pairs in search same_rules depth 12

  Same-put_ipc : (o : Option K.Float) → Same (put_ipc o)
  unfolding put_ipc
  Same-put_ipc none = Same-pure tt
  Same-put_ipc (some x) = search same_rules

  Same-instructions : (pairs : List (String × String)) → Same (instructions_per_cycle pairs)
  unfolding instructions_per_cycle
  Same-instructions [] = Same-pure tt
  Same-instructions ((before, part) ∷ pairs) =
      let rest = Same-instructions pairs in search (same_rules, Same-put_ipc) depth 12

  Same-miss_rate : (parts : List String) → Same (miss_rate parts)
  unfolding miss_rate
  Same-miss_rate [] = Same-pure tt
  Same-miss_rate (part ∷ parts) = let rest = Same-miss_rate parts in search same_rules depth 12

  Same-branch_line : (parts : List String) → Same (branch_line parts)
  unfolding branch_line
  Same-branch_line [] = Same-pure tt
  Same-branch_line (part ∷ []) = Same-pure tt
  Same-branch_line (part ∷ (event_name ∷ parts)) = search (same_rules, Same-miss_rate) depth 12

  Same-put_count :
      (key : String) (parts : List String)
      → among key metric_names ≡ true
      → Same (put_count key parts)
  unfolding put_count
  Same-put_count key parts there = search same_rules

  Same-task_clock : (parts : List String) → Same (task_clock parts)
  unfolding task_clock
  Same-task_clock parts = search (same_rules, Same-utilized) depth 12

  Same-elapsed : (parts : List String) → Same (elapsed parts)
  unfolding elapsed
  Same-elapsed parts = search same_rules depth 12

  Same-parse_line : (line : String) → Same (parse_line line)
  unfolding parse_line
  Same-parse_line line =
      search
        (
          same_rules, Same-put_count, Same-rates, Same-task_clock, Same-branch_line,
          Same-instructions, Same-elapsed,
        )
        depth 16

  Same-for_each :
      (lines : List String) (body : String → Parse Unit)
      → ((line : String) → Same (body line))
      → Same (for_each lines body)
  unfolding for_each
  Same-for_each [] body h = Same-pure tt
  Same-for_each (line ∷ lines) body h =
      Same-bind (body line) _ (h line) (λ u. Same-for_each lines body h)

  no_metrics-keys : keys no_metrics ≡ metric_names
  unfolding no_metrics
  no_metrics-keys = refl

  -- Whatever perf has printed, and also where a line of it raises, the metrics of `_parse_perf_output` have
  -- the fourteen keys, each once and in the order in which they are first set.
  pub parse_perf_output-keys :
      (perf_output : String) → keys (parse_perf_output perf_output).1 ≡ metric_names
  unfolding parse_perf_output
  parse_perf_output-keys perf_output =
      (Same-for_each _ _ (λ line. Same-parse_line _)).same no_metrics no_metrics-keys
