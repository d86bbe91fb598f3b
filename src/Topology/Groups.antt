-- ===== src/Topology/Groups.antt =====
-- cpu/cpu_die_topology.py: the dictionary of the CPUs of each die, in the order of its keys.
pub mod Members
pub mod Keys
use avocado_misc_tests.Prelude.{ℕ, Option, none, some, List, [], ◌∷◌, ◌++◌, if◌then◌else◌}
use avocado_misc_tests.Prelude.Int.{ℤ, ◌==ℤ◌}

abbrev pub Group : Type 0
Group = ℤ × List ℕ

-- `if d not in groups: groups[d] = []` and `groups[d].append(cpu)`
unfoldable pub group_add : ℤ → ℕ → List Group → List Group
group_add d cpu [] = (d, cpu ∷ []) ∷ []
group_add d cpu ((e, cpus) ∷ groups) =
    let rest = group_add d cpu groups in
    if e ==ℤ d then (e, cpus ++ cpu ∷ []) ∷ groups else (e, cpus) ∷ rest

-- The loop over the CPUs; one without a die number is passed over.
unfoldable pub group_by : (ℕ → Option ℤ) → List Group → List ℕ → List Group
group_by die groups [] = groups
group_by die groups (cpu ∷ cpus) = elim (die cpu) [
  | none ↦ group_by die groups cpus
  | some d ↦ group_by die (group_add d cpu groups) cpus
]
