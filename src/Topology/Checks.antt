-- ===== src/Topology/Checks.antt =====
-- cpu/cpu_die_topology.py: the checks of the die numbers, of the CPU masks and of the packages.
use avocado_misc_tests.Prelude.{
  ℕ, String, Bool, true, false, not, ◌||◌, Option, none, some, List, [], ◌∷◌, ◌++◌, ltb, str_eq,
  if◌then◌else◌,
}
use avocado_misc_tests.Prelude.Int.{ℤ, pos, negsuc, ◌==ℤ◌, leb_ℤ}
use avocado_misc_tests.Prelude.Lists.{length}
use avocado_misc_tests.Text.{is_empty, int_of_string}
use avocado_misc_tests.Python.{value_error, pure, raise, ◌>>◌}
use avocado_misc_tests.Topology.{
  Sysfs, Check, invalid_die_ids, inconsistent_cpumask, die_package_violations, read_topology_file,
  die_id, package_id, fail_if,
}
use avocado_misc_tests.Topology.Groups.{Group, group_by}

-- `int(die_id_str)` is refused or below -1
unfoldable pub is_invalid : String → Bool
is_invalid die_id_str = elim (int_of_string die_id_str) [
  | none ↦ true
  | some die_id ↦ not (leb_ℤ (negsuc 0) die_id)
]

-- `set(die_cpus_lists.values())`
unfoldable pub holds : String → List String → Bool
holds t [] = false
holds t (u ∷ us) = str_eq t u || holds t us

unfoldable pub distinct : List (ℕ × String) → List String
distinct [] = []
distinct ((cpu, mask) ∷ masks) =
    let rest = distinct masks in if holds mask rest then rest else mask ∷ rest

-- `die_package_map.get(die_id)`
unfoldable pub package_of : ℤ → List (ℤ × ℤ) → Option ℤ
package_of d [] = none
package_of d ((e, pkg) ∷ packages) =
    let rest = package_of d packages in if e ==ℤ d then some pkg else rest

module _ ⦃F : Sysfs⦄ where
  -- the CPUs whose die number `test_die_id_presence` misses; it logs them, and passes
  unfoldable pub missing_die_id : List ℕ → List ℕ
  missing_die_id [] = []
  missing_die_id (cpu ∷ cpus) =
      let rest = missing_die_id cpus in
      elim (read_topology_file cpu "die_id") [ none ↦ cpu ∷ rest | some _ ↦ rest ]

  unfoldable pub test_die_id_presence : Check (List ℕ)
  test_die_id_presence = pure (missing_die_id F.online_list)

  -- `missing_files` of `test_die_cpumask_presence`, which looks at the first CPU alone, logs, and passes
  unfoldable pub missing_files : List ℕ → List (ℕ × String)
  missing_files [] = []
  missing_files (cpu ∷ cpus) = missing cpu "die_cpus" ++ missing cpu "die_cpus_list"
    where
      missing : ℕ → String → List (ℕ × String)
      missing cpu filename = elim (read_topology_file cpu filename) [
        | none ↦ (cpu, filename) ∷ []
        | some _ ↦ []
      ]

  unfoldable pub test_die_cpumask_presence : Check (List (ℕ × String))
  test_die_cpumask_presence = pure (missing_files F.online_list)

  -- `invalid_die_ids` of `test_die_id_validity`, each value as it was read
  unfoldable pub invalid_ids : List ℕ → List (ℕ × String)
  invalid_ids [] = []
  invalid_ids (cpu ∷ cpus) =
      let rest = invalid_ids cpus in
      elim (read_topology_file cpu "die_id") [
        | none ↦ rest
        | some die_id_str ↦ if is_invalid die_id_str then (cpu, die_id_str) ∷ rest else rest
      ]

  -- `die_id_map`
  unfoldable pub die_id_map : List ℕ → List (ℕ × ℤ)
  die_id_map [] = []
  die_id_map (cpu ∷ cpus) =
      let rest = die_id_map cpus in elim (die_id cpu) [ none ↦ rest | some d ↦ (cpu, d) ∷ rest ]

  unfoldable pub test_die_id_validity : Check (List (ℕ × ℤ))
  test_die_id_validity = do
    fail_if (invalid_ids F.online_list) invalid_die_ids "FAIL: Invalid die_id values: "
    pure (die_id_map F.online_list)

  -- `die_cpus_lists`: the masks of these CPUs that are there and not empty
  unfoldable pub cpus_lists : List ℕ → List (ℕ × String)
  cpus_lists [] = []
  cpus_lists (cpu ∷ cpus) =
      let rest = cpus_lists cpus in
      elim (read_topology_file cpu "die_cpus_list") [
        | none ↦ rest
        | some mask ↦ if is_empty mask then rest else (cpu, mask) ∷ rest
      ]

  unfoldable pub inconsistencies : List Group → List (ℤ × List (ℕ × String))
  inconsistencies [] = []
  inconsistencies ((d, cpus) ∷ groups) =
      let rest = inconsistencies groups in
      if d ==ℤ negsuc 0
      then rest
      else if ltb 1 (length (distinct (cpus_lists cpus)))
      then (d, cpus_lists cpus) ∷ rest
      else rest

  unfoldable pub test_die_cpumask_consistency : Check Unit
  test_die_cpumask_consistency =
      fail_if (inconsistencies (group_by die_id [] F.online_list)) inconsistent_cpumask
        "FAIL: Inconsistent die_cpumask found:                       "

  -- the two numbers of a CPU that has both and is on a die
  unfoldable pub die_and_package : ℕ → Option (ℤ × ℤ)
  die_and_package cpu = elim (die_id cpu) [
    | none ↦ none
    | some d ↦ elim (package_id cpu) [
      | none ↦ none
      | some pkg ↦ if d ==ℤ negsuc 0 then none else some (d, pkg)
    ]
  ]

  -- The loop of `test_die_package_relationship`: the first pkg of a die is what all others
  -- have to be.
  unfoldable pub violations : List (ℤ × ℤ) → List ℕ → List (ℕ × ℤ × ℤ × ℤ)
  violations packages [] = []
  violations packages (cpu ∷ cpus) = elim (die_and_package cpu) [
    | none ↦ violations packages cpus
    | some (d, pkg) ↦ elim (package_of d packages) [
      | none ↦ violations ((d, pkg) ∷ packages) cpus
      | some first ↦
          let rest = violations packages cpus in
          if first ==ℤ pkg then rest else (cpu, d, pkg, first) ∷ rest
    ]
  ]

  unfoldable pub test_die_package_relationship : Check Unit
  test_die_package_relationship =
      fail_if (violations [] F.online_list) die_package_violations
        "FAIL: Die-Package relationship violations:                       "

  -- `test_cpu_die_mask_function`: whether the first CPU is on a die; a number that is none raises.
  unfoldable pub has_coregroup : List ℕ → Check Bool
  has_coregroup [] = pure false
  has_coregroup (cpu ∷ cpus) = elim (read_topology_file cpu "die_id") [
    | none ↦ pure false
    | some die_id_str ↦
        if is_empty die_id_str then pure false else elim (int_of_string die_id_str) [
          | none ↦ raise value_error
          | some d ↦ pure (leb_ℤ (pos 0) d)
        ]
  ]

  unfoldable pub test_cpu_die_mask_function : Check Bool
  test_cpu_die_mask_function = has_coregroup F.online_list
