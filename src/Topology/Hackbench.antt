-- ===== src/Topology/Hackbench.antt =====
-- cpu/cpu_die_topology.py: the build and the runs of hackbench, and the performance test.
pub mod Ends
use Prim.Native.Char.{code}
use avocado_misc_tests.Prelude.{
  ℕ, zero, suc, String, ◌<>◌, Bool, true, false, not, ◌&&◌, ◌||◌, Option, none, some, List, [], ◌∷◌,
  leb, ◌==◌, str_eq, if◌then◌else◌,
}
use avocado_misc_tests.Prelude.Int.{ℤ, pos}
use avocado_misc_tests.Text.{is_empty, is_space, lstrip_by, take_until, string_of_int}
use avocado_misc_tests.Python.{
  Exec, ok, err, index_error, file_error, cancel, fail, pure, raise, gets, modify, or_raise, ◌>>=◌,
  ◌>>◌,
}
use avocado_misc_tests.Topology.{Sysfs, Case, Check, read_topology_file}
use avocado_misc_tests.Topology.Select.{select_test_cpu_sets}

-- The system that hackbench is built and timed on, the parameters of the test and the interpreter's
-- floats.
pub record Bench : Type 1 where
  pub World : Type 0
  -- `sm.check_installed(p) or sm.install(p)`
  pub provide : String → World → Bool × World
  -- `self.fetch_asset` of LTP, or `none` if it raises
  pub fetch : World → Option String × World
  pub workdir : String
  pub exists : World → String → Bool
  -- the calls that only return or raise: `os.makedirs`, `archive.extract`, and the build in two directories
  pub make_dirs : String → World → Bool × World
  pub extract : String → String → World → Bool × World
  pub build : String → String → World → Bool × World
  -- `process.run(c).stdout.decode()`, or `none` if it raises
  pub run : String → World → Option String × World
  pub test_type : String
  pub hackbench_groups : String
  pub hackbench_loops : String
  pub hackbench_iterations : ℕ
  pub Float : Type 0
  pub float_of_string : String → Option Float
  pub is_zero : Float → Bool

-- the attributes of the test
pub record Timing (B : Bench) : Type 0 where
  pub case : Case
  pub hackbench_binary : Option String
  pub world : B.World

-- `re.search(r'Time:\s+([\d.]+)', output)`
unfoldable pub strip_prefix : String → String → Option String
strip_prefix String.[] s = some s
strip_prefix (String.◌∷◌ p prefix) String.[] = none
strip_prefix (String.◌∷◌ p prefix) (String.◌∷◌ c s) =
    let rest = strip_prefix prefix s in if code p == code c then rest else none

abbrev is_number_end : ℕ → Bool
is_number_end c = not (leb b'0' c && leb c b'9' || c == b'.')

not_empty : String → Option String
not_empty s = if is_empty s then none else some s

unfoldable pub number_behind_spaces : String → Option String
unfolding not_empty is_space
number_behind_spaces String.[] = none
number_behind_spaces (String.◌∷◌ c s) =
    if is_space (code c) then not_empty (take_until is_number_end (lstrip_by is_space s)) else none

unfoldable pub find_time : String → Option String
find_time String.[] = none
find_time (String.◌∷◌ c s) =
    let rest = find_time s in
    elim (strip_prefix "Time:" (String.◌∷◌ c s)) [
      | none ↦ rest
      | some behind ↦ elim (number_behind_spaces behind) [ none ↦ rest | some number ↦ some number ]
    ]

-- `",".join(map(str, cpu_list))`
unfoldable pub join_cpus : List ℕ → String
join_cpus [] = ""
join_cpus (cpu ∷ []) = string_of_int (pos cpu)
join_cpus (cpu ∷ (next ∷ cpus)) = string_of_int (pos cpu) <> ("," <> join_cpus (next ∷ cpus))

-- `cpus[n]`
unfoldable pub nth : ℕ → List ℕ → Option ℕ
nth n [] = none
nth zero (cpu ∷ cpus) = some cpu
nth (suc n) (cpu ∷ cpus) = nth n cpus

-- both sets, where neither is empty
unfoldable pub both_sets : Option (List ℕ × List ℕ) → Option (List ℕ × List ℕ)
both_sets none = none
both_sets (some ([], cross)) = none
both_sets (some (c ∷ same, [])) = none
both_sets (some (c ∷ same, d ∷ cross)) = some (c ∷ same, d ∷ cross)

module _ ⦃F : Sysfs⦄ ⦃B : Bench⦄ where
  abbrev pub Timed : Type 0 → Type 0
  Timed = Exec (Timing B)

  -- a call that changes the world, with what it returned
  abbrev pub on_world : {A : Type 0} → (B.World → A × B.World) → Timed A
  on_world call s = pure (call s.world).0 (record s { world = (call s.world).1 })

  abbrev pub on_case : {A : Type 0} → Check A → Timed A
  on_case m s = ((m s.case).0, record s { case = (m s.case).1 })

  -- the packages, up to the first that cannot be had
  unfoldable pub provide_all : List String → Timed Bool
  provide_all [] = pure true
  provide_all (name ∷ names) = do
    there ← on_world (B.provide name)
    if there then provide_all names else pure false

  -- LTP's directory, if it is not there yet: `os.makedirs` raises what it raises.
  unfoldable pub make_ltp_dir : String → Timed Unit
  make_ltp_dir ltpdir = do
    there ← gets (λ s. B.exists s.world ltpdir)
    (if there
        then pure tt
        else (do made ← on_world (B.make_dirs ltpdir); if made then pure tt else raise file_error))

  -- the build in LTP's directory, and its binary
  unfoldable pub build_in : String → String → Timed (Option String)
  build_in ltp_base hackbench_dir = do
    there ← gets (λ s. B.exists s.world hackbench_dir)
    (if there
        then (do
          built ← on_world (B.build ltp_base hackbench_dir)
          ready ← gets (λ s. B.exists s.world (hackbench_dir <> "/hackbench"))
          (if built && ready then pure (some (hackbench_dir <> "/hackbench")) else pure none))
        else pure none)

  unfoldable pub unpack : Option String → Timed (Option String)
  unpack none = pure none
  unpack (some tarball) = do
    make_ltp_dir (B.workdir <> "/ltp")
    extracted ← on_world (B.extract tarball (B.workdir <> "/ltp"))
    (if extracted
        then build_in (B.workdir <> "/ltp/ltp-master")
            (B.workdir <> "/ltp/ltp-master/testcases/kernel/sched/cfs-scheduler")
        else pure none)

  -- `_setup_hackbench`
  unfoldable pub setup_hackbench : Timed (Option String)
  setup_hackbench = do
    there ← provide_all ("gcc" ∷ "make" ∷ "wget" ∷ [])
    (if there then (do tarball ← on_world B.fetch; unpack tarball) else pure none)

  unfoldable pub time_of : Option String → Option B.Float
  time_of none = none
  time_of (some output) = elim (find_time output) [
    | none ↦ none
    | some number ↦ B.float_of_string number
  ]

  available : B.World → Option String → Option String
  available w none = none
  available w (some binary) = if B.exists w binary then some binary else none

  unfoldable pub time_binary : Option String → List ℕ → Timed (Option B.Float)
  time_binary none cpu_list = pure none
  time_binary (some binary) cpu_list = do
    output ← on_world (
        B.run (
          "taskset -c "
          <> (join_cpus cpu_list
              <> (" "
                  <> (binary
                      <> (" " <> (B.hackbench_groups <> (" process " <> B.hackbench_loops))))))))
    pure (time_of output)

  -- `_run_hackbench`
  unfoldable pub run_hackbench : List ℕ → Timed (Option B.Float)
  unfolding available
  run_hackbench cpu_list = do
    binary ← gets (λ s. available s.world s.hackbench_binary)
    time_binary binary cpu_list

  unfoldable pub cons_time : Option B.Float → List B.Float → List B.Float
  cons_time none times = times
  cons_time (some time) times = if B.is_zero time then times else time ∷ times

  -- the times of so many runs, less those that are missing or nought
  unfoldable pub run_times : ℕ → List ℕ → Timed (List B.Float)
  run_times zero cpus = pure []
  run_times (suc n) cpus = do
    time ← run_hackbench cpus
    times ← run_times n cpus
    pure (cons_time time times)

  abbrev pub unless_none : {A : Type 0} → Option A → String → Timed A
  unless_none o message = or_raise o (cancel message)

  abbrev pub enough_data : List B.Float → List B.Float → Timed Unit
  enough_data [] cross_times =
      raise (fail "Insufficient data for performance analysis - hackbench runs failed")
  enough_data (t ∷ same_times) [] =
      raise (fail "Insufficient data for performance analysis - hackbench runs failed")
  enough_data (t ∷ same_times) (u ∷ cross_times) = pure tt

  -- The test with both sets; it shows the first CPU of the one, and two of the other.
  unfoldable pub compare_sets : List ℕ → List ℕ → Timed Unit
  compare_sets same_die_cpus cross_die_cpus = do
    or_raise (nth 0 same_die_cpus) index_error
    or_raise (nth 0 cross_die_cpus) index_error
    or_raise (nth 8 cross_die_cpus) index_error
    same_die_times ← run_times B.hackbench_iterations same_die_cpus
    cross_die_times ← run_times B.hackbench_iterations cross_die_cpus
    enough_data same_die_times cross_die_times

  unfoldable pub test_die_performance_benefit : Timed Unit
  test_die_performance_benefit = do
    (if str_eq B.test_type "performance"
        then pure tt
        else raise (cancel ("Performance test not enabled (test_type=" <> (B.test_type <> ")"))))
    built ← setup_hackbench
    modify (λ s. record s { hackbench_binary = built })
    unless_none built "Hackbench setup failed - required for test"
    selected ← on_case select_test_cpu_sets
    sets ← unless_none (both_sets selected) (
        "Could not select appropriate CPU sets for"
        <> "testing (need system with 2+ dies, each with 8+ CPUs)")
    compare_sets sets.0 sets.1
