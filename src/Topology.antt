-- ===== src/Topology.antt =====
-- cpu/cpu_die_topology.py, `CPUDieTopology`: the topology files of the online CPUs, and the state of
-- a test.
mod Tests
pub mod Checks
pub mod Groups
pub mod Select
pub mod Hackbench
pub mod Validity
pub mod DieCpus
pub mod Masks
pub mod Packages
use avocado_misc_tests.Prelude.{
  ℕ, String, ◌<>◌, Bool, Option, none, some, List, [], ◌∷◌, ◌++◌, ◌≡◌, refl, sym, arith,
  if◌then◌else◌,
}
use avocado_misc_tests.Prelude.Int.{ℤ, pos}
use avocado_misc_tests.Text.{contains, strip, string_of_int, int_of_string}
use avocado_misc_tests.Python.{ok, err, Exec, cancel, fail, pure, raise, gets, modify, ◌>>=◌, ◌>>◌}

-- What a check found wrong, with the CPUs and the values that it lists.
pub data Failure : Type 0 where
  invalid_die_ids : List (ℕ × String) → Failure
  inconsistent_cpumask : List (ℤ × List (ℕ × String)) → Failure
  die_package_violations : List (ℕ × ℤ × ℤ × ℤ) → Failure

-- What the test reads: the platform, the online CPUs and the files below /sys/devices/system/cpu. A
-- file that exists has its text, or the read of it raises. `text` is how the interpreter prints
-- what a check found wrong.
pub record Sysfs : Type 0 where
  pub arch : String
  pub online_list : List ℕ
  pub exists : String → Bool
  pub read_file : String → Option String
  pub text : Failure → String

-- `self.failures`
pub record Case : Type 0 where
  pub failures : List Failure

abbrev pub Check : Type 0 → Type 0
Check = Exec Case

-- `os.path.join(self.cpu_path, f"cpu{cpu}", "topology", filename)`
unfoldable pub topology_path : ℕ → String → String
topology_path cpu filename =
    "/sys/devices/system/cpu/cpu" <> (string_of_int (pos cpu) <> ("/topology/" <> filename))

module _ ⦃F : Sysfs⦄ where
  stripped : Option String → Option String
  stripped none = none
  stripped (some content) = some (strip content)

  -- No value for a file that is missing or cannot be read.
  unfoldable pub read_topology_file : ℕ → String → Option String
  unfolding stripped
  read_topology_file cpu filename =
      if F.exists (topology_path cpu filename)
      then stripped (F.read_file (topology_path cpu filename))
      else none

  -- what `int` makes of a file's value
  abbrev pub int_value : Option String → Option ℤ
  int_value none = none
  int_value (some value) = int_of_string value

  -- the number of a CPU's die, or of its package, where there is one
  unfoldable pub die_id : ℕ → Option ℤ
  die_id cpu = int_value (read_topology_file cpu "die_id")

  unfoldable pub package_id : ℕ → Option ℤ
  package_id cpu = int_value (read_topology_file cpu "physical_package_id")

  -- `setUp`
  unfoldable pub set_up : Check Unit
  set_up = do
    (if contains F.arch "ppc"
        then pure tt
        else raise (cancel "Test is specific to PowerPC architecture"))
    modify (λ s. record s { failures = [] })
    elim F.online_list [ [] ↦ raise (cancel "No online CPUs found") | cpu ∷ cpus ↦ pure tt ]

  -- What is found wrong, if anything, is kept for `tearDown`, and ends the test.
  unfoldable pub fail_if : {A : Type 0} → List A → (List A → Failure) → String → Check Unit
  fail_if [] failure message = pure tt
  fail_if (bad ∷ rest) failure message = do
    modify (λ s. record s { failures = s.failures ++ failure (bad ∷ rest) ∷ [] })
    raise (fail (message <> F.text (failure (bad ∷ rest))))

  pub fail_if-ok :
      {A : Type 0} (found : List A) (failure : List A → Failure) (message : String) (s t : Case)
      (u : Unit)
      → fail_if found failure message s ≡ (ok u, t)
      → (found ≡ []) × (t ≡ s)
  unfolding fail_if ◌>>=◌
  fail_if-ok [] failure message s t u h = (refl, ground (arith, h))
  fail_if-ok (bad ∷ rest) failure message s t u h = cc

  -- `tearDown`
  unfoldable pub tear_down : Check Unit
  tear_down = do
    failures ← gets (λ s. s.failures)
    elim failures [ [] ↦ pure tt | f ∷ fs ↦ raise (fail "CPU die topology validation failed") ]

  tear_down-snoc :
      (fs : List Failure) (f : Failure)
      → tear_down (record { failures = fs ++ f ∷ [] })
        ≡ (err (fail "CPU die topology validation failed"), record { failures = fs ++ f ∷ [] })
  unfolding tear_down ◌>>=◌
  tear_down-snoc [] f = refl
  tear_down-snoc (g ∷ fs) f = refl

  -- A check that fails has recorded what it found, so that `tearDown` fails as well.
  pub tear_down-fail_if :
      {A : Type 0} (bad : A) (rest : List A) (failure : List A → Failure) (message : String)
      (s t : Case)
      → (fail_if (bad ∷ rest) failure message s).1 ≡ t
      → tear_down t ≡ (err (fail "CPU die topology validation failed"), t)
  unfolding fail_if ◌>>=◌
  tear_down-fail_if bad rest failure message s t h =
      rw (sym h) (tear_down-snoc s.failures (failure (bad ∷ rest)))
