-- ===== src/Topology/Select.antt =====
-- cpu/cpu_die_topology.py: `_get_die_cpu_list`, and the CPUs that the performance test runs on,
-- `_select_test_cpu_sets`.
pub mod Sets
pub mod Enough
use avocado_misc_tests.Prelude.{
  ℕ, Bool, ◌||◌, Option, none, some, List, [], ◌∷◌, ◌++◌, leb, ltb, if◌then◌else◌,
}
use avocado_misc_tests.Prelude.Int.{ℤ, pos, ◌==ℤ◌, leb_ℤ}
use avocado_misc_tests.Prelude.Lists.{length, take}
use avocado_misc_tests.Prelude.Sort.{sort_by}
use avocado_misc_tests.Text.{is_empty, int_of_string}
use avocado_misc_tests.Python.{index_error, value_error, pure, raise, ◌>>=◌, ◌>>◌}
use avocado_misc_tests.Topology.{Sysfs, Check, read_topology_file, die_id}
use avocado_misc_tests.Topology.Groups.{Group, group_by}

-- `sorted(cpus)`
abbrev pub sorted : List ℕ → List ℕ
sorted = sort_by leb

-- `key=lambda x: len(x[1]), reverse=True`
abbrev pub longer : Group → Group → Bool
longer g h = leb (length h.1) (length g.1)

-- `sorted(cpus)[:n]`
abbrev pub first_sorted : ℕ → List ℕ → List ℕ
first_sorted n cpus = take n (sorted cpus)

-- `min(n, len(cpus))`
abbrev pub at_most : ℕ → List ℕ → ℕ
at_most n cpus = if leb n (length cpus) then n else length cpus

-- the two sets, from the CPUs of the two largest dies
unfoldable pub same_die : List ℕ → List ℕ
same_die cpus = first_sorted (at_most 16 cpus) cpus

unfoldable pub cross_die : List ℕ → List ℕ → List ℕ
cross_die cpus_0 cpus_1 =
    sorted (first_sorted (at_most 8 cpus_0) cpus_0 ++ first_sorted (at_most 8 cpus_1) cpus_1)

-- `none` is `None, None`.
unfoldable pub choose : List Group → Check (Option (List ℕ × List ℕ))
choose [] = raise index_error
choose (g ∷ []) = raise index_error
choose ((d0, cpus_0) ∷ ((d1, cpus_1) ∷ groups)) =
    if ltb (length cpus_0) 8 || ltb (length cpus_1) 8
    then pure none
    else pure (some (same_die cpus_0, cross_die cpus_0 cpus_1))

module _ ⦃F : Sysfs⦄ where
  unfoldable pub die_cpus : ℤ → List ℕ → Check (List ℕ)
  die_cpus d [] = pure []
  die_cpus d (cpu ∷ cpus) =
      let rest = die_cpus d cpus in
      elim (read_topology_file cpu "die_id") [
        | none ↦ rest
        | some text ↦ if is_empty text then rest else elim (int_of_string text) [
          | none ↦ raise value_error
          | some e ↦ if e ==ℤ d then (do more ← rest; pure (cpu ∷ more)) else rest
        ]
      ]

  unfoldable pub get_die_cpu_list : ℤ → Check (List ℕ)
  unfolding die_cpus
  get_die_cpu_list d = do cpus ← die_cpus d F.online_list; pure (sorted cpus)

  on_die : Option ℤ → Option ℤ
  on_die none = none
  on_die (some d) = if leb_ℤ (pos 0) d then some d else none

  -- the die of a CPU in the groups that the sets are chosen from: no negative number
  unfoldable pub coregroup : ℕ → Option ℤ
  unfolding on_die
  coregroup cpu = on_die (die_id cpu)

  unfoldable pub select_test_cpu_sets : Check (Option (List ℕ × List ℕ))
  select_test_cpu_sets =
      let die_groups = group_by coregroup [] F.online_list in
      if ltb (length die_groups) 2 then pure none else choose (sort_by longer die_groups)
