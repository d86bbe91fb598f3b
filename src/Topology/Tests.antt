-- ===== src/Topology/Tests.antt =====
-- cpu/cpu_die_topology.py: the checks on two machines, one with two CPUs on one die, the other with two
-- dies of eight CPUs.
mod Machines
use Prim.{absurd}
use avocado_misc_tests.Prelude.{
  ℕ, String, ◌≡◌, ◌≢◌, ◌⊎◌, refl, sym, ◌∙◌, Bool, true, false, Option, none, some, List, [], ◌∷◌,
  ◌++◌, map, inl, inr, arith, str_eq, if◌then◌else◌,
}
use avocado_misc_tests.Prelude.Int.{ℤ, pos, negsuc, leb_ℤ}
use avocado_misc_tests.Prelude.Lists.{In, length}
use avocado_misc_tests.Text.{is_space, lstrip_by, take_until, strip, int_of_string, string_of_int}
use avocado_misc_tests.Python.{ok, err, fail, ◌>>=◌}
use avocado_misc_tests.Topology.{
  Sysfs, invalid_die_ids, Case, topology_path, read_topology_file, die_id, package_id, fail_if,
  tear_down,
}
use avocado_misc_tests.Topology.Checks.{
  die_and_package, violations, package_of, is_invalid, invalid_ids, die_id_map, cpus_lists,
  distinct, holds, inconsistencies, test_die_package_relationship, test_die_cpumask_consistency,
  test_die_id_validity,
}
use avocado_misc_tests.Topology.Groups.{group_add, group_by}
use avocado_misc_tests.Topology.Groups.Members.{members, on_die}
use avocado_misc_tests.Topology.Select.{sorted, coregroup, get_die_cpu_list, select_test_cpu_sets}
use avocado_misc_tests.Topology.Select.Sets.{Selected, select_test_cpu_sets-Selected}
use avocado_misc_tests.Topology.Select.Enough.{select_test_cpu_sets-finds}
use avocado_misc_tests.Topology.Packages.{
  test_die_package_relationship_sound, test_die_package_relationship_complete,
}
use avocado_misc_tests.Topology.Masks.{
  Mask, test_die_cpumask_consistency_sound, test_die_cpumask_consistency_complete,
}
use avocado_misc_tests.Topology.Validity.{test_die_id_validity_sound, test_die_id_validity_recorded}
use avocado_misc_tests.Topology.DieCpus.{Numeric, get_die_cpu_list-members}
use avocado_misc_tests.Topology.Tests.Machines.{one_die, bad_die, two_dies, start, bench, untimed}
use avocado_misc_tests.Topology.Hackbench.{
  strip_prefix, number_behind_spaces, find_time, test_die_performance_benefit,
}
use avocado_misc_tests.Topology.Hackbench.Ends.{Ends, test_die_performance_benefit-Ends}

number_0 : (text : String) → some "0" ≡ some text → int_of_string text ≢ none
unfolding int_of_string
number_0 text is bad =
    let text_is : "0" ≡ text = cc in
    let zero_is : int_of_string "0" ≡ none = rw (sym text_is) at bad in cc

test_die_package_relationship_sound_example : pos 4 ≡ pos 4
unfolding test_die_package_relationship violations die_and_package die_id package_id package_of
    fail_if read_topology_file topology_path string_of_int int_of_string strip
test_die_package_relationship_sound_example =
    test_die_package_relationship_sound ⦃F = one_die⦄ start start tt 0 1 (pos 0) (pos 4) (pos 4)
      refl (inl refl) (inr (inl refl)) refl refl

-- both CPUs are in package 4
package_4 :
    (a : ℕ) (d p : ℤ)
    → In a (0 ∷ 1 ∷ [])
    → die_and_package ⦃F = one_die⦄ a ≡ some (d, p)
    → p ≡ pos 4
unfolding die_and_package die_id package_id read_topology_file topology_path string_of_int
    int_of_string strip
package_4 a d p (inl is) on =
    let there : Path (Option (ℤ × ℤ)) (some (pos 0, pos 4)) (some (d, p)) = rw is at on in cc
package_4 a d p (inr (inl is)) on =
    let there : Path (Option (ℤ × ℤ)) (some (pos 0, pos 4)) (some (d, p)) = rw is at on in cc
package_4 a d p (inr (inr among)) on = absurd among

test_die_package_relationship_complete_example :
    test_die_package_relationship ⦃F = one_die⦄ start ≡ (ok tt, start)
test_die_package_relationship_complete_example =
    test_die_package_relationship_complete ⦃F = one_die⦄ start
      (λ a b d p q in_a in_b on_a on_b. package_4 a d p in_a on_a ∙ sym (package_4 b d q in_b on_b))

test_die_cpumask_consistency_sound_example : ◌≡◌ {A = String} "0-1" "0-1"
unfolding test_die_cpumask_consistency inconsistencies group_by group_add cpus_lists distinct holds
    die_id fail_if read_topology_file topology_path string_of_int int_of_string strip
test_die_cpumask_consistency_sound_example =
    test_die_cpumask_consistency_sound ⦃F = one_die⦄ start start tt 0 1 (pos 0) "0-1" "0-1" refl
      (inl refl) (inr (inl refl)) refl refl (λ same. cc) (refl, refl) (refl, refl)

-- both CPUs have the same mask
Mask-of : (a : ℕ) (m : String) → In a (0 ∷ 1 ∷ []) → Mask ⦃F = one_die⦄ a m → m ≡ "0-1"
unfolding read_topology_file topology_path string_of_int int_of_string strip
Mask-of a m (inl is) (reads, full) = let there : some "0-1" ≡ some m = rw is at reads in cc
Mask-of a m (inr (inl is)) (reads, full) = let there : some "0-1" ≡ some m = rw is at reads in cc
Mask-of a m (inr (inr among)) has = absurd among

test_die_cpumask_consistency_complete_example :
    test_die_cpumask_consistency ⦃F = one_die⦄ start ≡ (ok tt, start)
test_die_cpumask_consistency_complete_example =
    test_die_cpumask_consistency_complete ⦃F = one_die⦄ start
      (λ a b d m n in_a in_b on_a on_b coregroup has_m has_n.
        Mask-of a m in_a has_m ∙ sym (Mask-of b n in_b has_n))

select_test_cpu_sets-Selected_example :
    (select_test_cpu_sets ⦃F = one_die⦄ start ≡ (ok none, start))
    ⊎ Selected ⦃F = one_die⦄ (select_test_cpu_sets ⦃F = one_die⦄ start) start
select_test_cpu_sets-Selected_example = select_test_cpu_sets-Selected ⦃F = one_die⦄ start

eight :
    (length (on_die (coregroup ⦃F = two_dies⦄) (pos 0) two_dies.online_list) ≡ 8)
    × (length (on_die (coregroup ⦃F = two_dies⦄) (pos 1) two_dies.online_list) ≡ 8)
unfolding on_die coregroup die_id read_topology_file topology_path string_of_int int_of_string strip
eight = (refl, refl)

select_test_cpu_sets-finds_example :
    Selected ⦃F = two_dies⦄ (select_test_cpu_sets ⦃F = two_dies⦄ start) start
select_test_cpu_sets-finds_example =
    select_test_cpu_sets-finds ⦃F = two_dies⦄ start (pos 0) (pos 1) (λ same. cc)
      (omega (arith, eight.0)) (omega (arith, eight.1))

-- the values of both CPUs are numbers
numeric : (cpu : ℕ) → In cpu (0 ∷ 1 ∷ []) → Numeric ⦃F = one_die⦄ cpu
unfolding read_topology_file topology_path string_of_int int_of_string strip
numeric cpu (inl is) text reads full bad =
    let there : some "0" ≡ some text = rw is at reads in number_0 text there bad
numeric cpu (inr (inl is)) text reads full bad =
    let there : some "0" ≡ some text = rw is at reads in number_0 text there bad
numeric cpu (inr (inr among)) text reads full bad = absurd among

get_die_cpu_list-members_example :
    get_die_cpu_list ⦃F = one_die⦄ (pos 0) start
    ≡ (ok (sorted (members (pos 0) (group_by (die_id ⦃F = one_die⦄) [] (0 ∷ 1 ∷ [])))), start)
get_die_cpu_list-members_example = get_die_cpu_list-members ⦃F = one_die⦄ (pos 0) start numeric

test_die_id_validity_sound_example :
    (d : ℤ) × (int_of_string "0" ≡ some d)
    × (leb_ℤ (negsuc 0) d ≡ true)
    × In {A = ℕ × ℤ} (1, d) ((0, pos 0) ∷ (1, pos 0) ∷ [])
unfolding test_die_id_validity invalid_ids is_invalid die_id_map die_id fail_if read_topology_file
    topology_path string_of_int int_of_string strip ◌>>=◌
test_die_id_validity_sound_example =
    test_die_id_validity_sound ⦃F = one_die⦄ start start ((0, pos 0) ∷ (1, pos 0) ∷ []) 1 "0" refl
      (inr (inl refl)) refl

find_time_runs :
    (find_time "Running 20\nTime:  12.25 s" ≡ some "12.25") × (find_time "Time: none" ≡ none)
unfolding find_time strip_prefix number_behind_spaces take_until lstrip_by is_space
find_time_runs = (refl, refl)

test_die_performance_benefit-Ends_example :
    Ends (λ u. Unit) (test_die_performance_benefit ⦃F = two_dies⦄ ⦃B = bench⦄ untimed).0
test_die_performance_benefit-Ends_example =
    test_die_performance_benefit-Ends ⦃F = two_dies⦄ ⦃B = bench⦄ untimed
