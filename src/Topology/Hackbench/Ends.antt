-- ===== src/Topology/Hackbench/Ends.antt =====
-- cpu/cpu_die_topology.py: how `test_die_performance_benefit` can end.
use Prim.{⊥, absurd}
use avocado_misc_tests.Prelude.{
  ℕ, zero, suc, ◌<◌, String, ◌≡◌, refl, Bool, true, false, Option, none, some, List, [], ◌∷◌, inl,
  inr, arith, str_eq, if◌then◌else◌,
}
use avocado_misc_tests.Prelude.Lists.{length}
use avocado_misc_tests.Python.{
  Error, Result, ok, err, fail, cancel, index_error, file_error, pure, raise, gets, modify,
  or_raise, continue, ◌>>=◌,
}
use avocado_misc_tests.Topology.{Sysfs, Case}
use avocado_misc_tests.Topology.Select.{select_test_cpu_sets}
use avocado_misc_tests.Topology.Select.Sets.{select_test_cpu_sets-Selected}
use avocado_misc_tests.Topology.Hackbench.{
  Bench, Timing, Timed, on_world, on_case, nth, provide_all, make_ltp_dir, build_in, unpack,
  setup_hackbench, time_binary, run_hackbench, run_times, enough_data, compare_sets, both_sets,
  test_die_performance_benefit,
}

-- an end of a test: cancelled, failed, or with what `os.makedirs` raises
abbrev pub IsEnd : Error → Type 0
IsEnd (fail message) = Unit
IsEnd (cancel message) = Unit
IsEnd file_error = Unit
IsEnd _ = ⊥

-- a result with a property, or an end of a test
abbrev pub Ends : {A : Type 0} → (A → Type 0) → Result A → Type 0
Ends P (ok a) = P a
Ends P (err e) = IsEnd e

abbrev Sets : Type 0
Sets = List ℕ × List ℕ

-- enough CPUs for those that are shown
abbrev Shown : Sets → Type 0
Shown sets = (0 < length sets.0) × (8 < length sets.1)

abbrev Some : {A : Type 0} → (A → Type 0) → Option A → Type 0
Some P none = Unit
Some P (some a) = P a

nth-some : (n : ℕ) (cpus : List ℕ) → n < length cpus → (cpu : ℕ) × (nth n cpus ≡ some cpu)
unfolding nth
nth-some n [] h = absurd (omega (arith, h))
nth-some zero (cpu ∷ cpus) h = (cpu, refl)
nth-some (suc n) (cpu ∷ cpus) h = nth-some n cpus (omega (arith, h))

both_sets-Some : (o : Option Sets) → Some Shown o → Some Shown (both_sets o)
unfolding both_sets
both_sets-Some none h = tt
both_sets-Some (some ([], cross)) h = tt
both_sets-Some (some (c ∷ same, [])) h = tt
both_sets-Some (some (c ∷ same, d ∷ cross)) h = h

module _ ⦃F : Sysfs⦄ ⦃B : Bench⦄ where
  record Safe {A : Type 0} (P : A → Type 0) (m : Timed A) : Type 0 where
    safe : (s : Timing B) → Ends P (m s).0

  module _ {A C : Type 0} (P : A → Type 0) (Q : C → Type 0) where
    Safe-continue :
        (r : Result A) (f : A → Timed C) (s : Timing B)
        → Ends P r
        → ((a : A) → P a → Safe Q (f a))
        → Ends Q (continue r f s).0
    Safe-continue (ok a) f s h k = (k a h).safe s
    Safe-continue (err e) f s h k = h

    Safe-then :
        (m : Timed A) (f : A → Timed C)
        → Safe P m
        → ((a : A) → P a → Safe Q (f a))
        → Safe Q (m >>= f)
    unfolding ◌>>=◌
    Safe-then m f h k = record { safe = λ s. Safe-continue (m s).0 f (m s).1 (h.safe s) k }

  abbrev Any : {A : Type 0} → A → Type 0
  Any a = Unit

  -- nothing is asked of what is returned
  Safe-bind :
      {A C : Type 0} (m : Timed A) (f : A → Timed C)
      → Safe Any m
      → ((a : A) → Safe Any (f a))
      → Safe Any (m >>= f)
  Safe-bind m f h k = Safe-then Any Any m f h (λ a u. k a)

  Safe-pure : {A : Type 0} (a : A) → Safe Any (pure a)
  Safe-pure a = record { safe = λ s. tt }

  Safe-raise : {A : Type 0} (e : Error) → IsEnd e → Safe {A = A} Any (raise e)
  Safe-raise e end = record { safe = λ s. end }

  Safe-gets : {A : Type 0} (f : Timing B → A) → Safe Any (gets f)
  Safe-gets f = record { safe = λ s. tt }

  Safe-modify : (f : Timing B → Timing B) → Safe Any (modify f)
  Safe-modify f = record { safe = λ s. tt }

  Safe-on_world : {A : Type 0} (call : B.World → A × B.World) → Safe Any (on_world call)
  Safe-on_world call = record { safe = λ s. tt }

  Safe-if :
      {A : Type 0} (b : Bool) (m n : Timed A)
      → Safe Any m
      → Safe Any n
      → Safe Any (if b then m else n)
  Safe-if true m n h k = h
  Safe-if false m n h k = k

  ruleset safe_rules =
      (Safe-bind, Safe-pure, Safe-raise, Safe-gets, Safe-modify, Safe-on_world, Safe-if)

  Safe-provide_all : (names : List String) → Safe Any (provide_all names)
  unfolding provide_all
  Safe-provide_all [] = Safe-pure true
  Safe-provide_all (name ∷ names) =
      Safe-bind _ _ (Safe-on_world (B.provide name))
        (λ there. Safe-if there _ _ (Safe-provide_all names) (Safe-pure false))

  Safe-make_ltp_dir : (ltpdir : String) → Safe Any (make_ltp_dir ltpdir)
  unfolding make_ltp_dir
  Safe-make_ltp_dir ltpdir = search safe_rules depth 12

  Safe-build_in : (base dir : String) → Safe Any (build_in base dir)
  unfolding build_in
  Safe-build_in base dir = search safe_rules depth 12

  Safe-unpack : (tarball : Option String) → Safe Any (unpack tarball)
  unfolding unpack
  Safe-unpack none = Safe-pure none
  Safe-unpack (some tarball) = search (safe_rules, Safe-make_ltp_dir, Safe-build_in) depth 12

  Safe-setup_hackbench : Safe Any setup_hackbench
  unfolding setup_hackbench
  Safe-setup_hackbench = search (safe_rules, Safe-provide_all, Safe-unpack) depth 12

  Safe-time_binary : (binary : Option String) (cpus : List ℕ) → Safe Any (time_binary binary cpus)
  unfolding time_binary
  Safe-time_binary none cpus = Safe-pure none
  Safe-time_binary (some binary) cpus = search safe_rules

  Safe-run_times : (n : ℕ) (cpus : List ℕ) → Safe Any (run_times n cpus)
  unfolding run_times run_hackbench
  Safe-run_times zero cpus = Safe-pure []
  Safe-run_times (suc n) cpus = search (safe_rules, Safe-time_binary, Safe-run_times n) depth 12

  Safe-enough_data : (times more : List B.Float) → Safe Any (enough_data times more)
  Safe-enough_data [] more = Safe-raise _ tt
  Safe-enough_data (t ∷ times) [] = Safe-raise _ tt
  Safe-enough_data (t ∷ times) (u ∷ more) = Safe-pure tt

  Safe-nth :
      (n : ℕ) (cpus : List ℕ) → n < length cpus → Safe Any (or_raise (nth n cpus) index_error)
  Safe-nth n cpus h = let (cpu, is) = nth-some n cpus h in rw is (Safe-pure cpu)

  Safe-compare_sets :
      (same cross : List ℕ) → Shown (same, cross) → Safe Any (compare_sets same cross)
  unfolding compare_sets
  Safe-compare_sets same cross (one, nine) = Safe-bind _ _ (Safe-nth 0 same one) (λ a.
      Safe-bind _ _ (Safe-nth 0 cross (omega (arith, nine))) (λ b.
        Safe-bind _ _ (Safe-nth 8 cross nine)
          (λ c. search (safe_rules, Safe-run_times, Safe-enough_data))))

  selected-Ends : (s : Case) → Ends (Some Shown) (select_test_cpu_sets s).0
  selected-Ends s = elim (select_test_cpu_sets-Selected s) [
    | inl none_found ↦ rw none_found tt
    | inr found ↦
        rw found.returns
          (omega (arith, found.selection.same_size.0), omega (arith, found.selection.cross_size))
  ]

  any : {A : Type 0} (o : Option A) → Some (λ a. Unit) o
  any none = tt
  any (some a) = tt

  Safe-unless_none :
      {A : Type 0} (P : A → Type 0) (o : Option A) (message : String)
      → Some P o
      → Safe P (or_raise o (cancel message))
  Safe-unless_none P none message h = record { safe = λ s. tt }
  Safe-unless_none P (some a) message h = record { safe = λ s. h }

  -- However the tools, the build and the runs of hackbench go, `test_die_performance_benefit` passes, is
  -- cancelled, fails, or ends with what `os.makedirs` raises: no index that it reads is out of range.
  pub test_die_performance_benefit-Ends :
      (s : Timing B) → Ends (λ u. Unit) (test_die_performance_benefit s).0
  unfolding test_die_performance_benefit
  test_die_performance_benefit-Ends s = whole.safe s
    where
      with_sets :
          (o : Option Sets)
          → Some Shown o
          → Safe Any (
              or_raise (both_sets o) (
                cancel
                  "Could not select appropriate CPU sets fortesting (need system with 2+ dies, each with 8+ CPUs)")
              >>= λ sets. compare_sets sets.0 sets.1)
      with_sets o h =
          Safe-then Shown Any _ _ (Safe-unless_none Shown (both_sets o) _ (both_sets-Some o h))
            (λ sets shown. Safe-compare_sets sets.0 sets.1 shown)

      select : Safe (Some Shown) (on_case select_test_cpu_sets)
      select = record { safe = λ t. selected-Ends t.case }

      whole : Safe Any test_die_performance_benefit
      whole =
          Safe-bind _ _
            (Safe-if (str_eq B.test_type "performance") _ _ (Safe-pure tt) (Safe-raise _ tt))
            (λ u. Safe-bind _ _ Safe-setup_hackbench (λ built. Safe-bind _ _ (Safe-modify _) (λ v.
              Safe-bind _ _ (Safe-unless_none Any built _ (any built))
                (λ binary. Safe-then (Some Shown) Any _ _ select with_sets))))
