-- ===== src/Topology/Masks.antt =====
-- cpu/cpu_die_topology.py: when `test_die_cpumask_consistency` passes.
pub mod Distinct
use Prim.{absurd}
use avocado_misc_tests.Prelude.{
  ℕ, String, ◌≡◌, ◌≢◌, refl, sym, ◌∙◌, ap, true, false, Bool-cases, some, Option-cases, List, [],
  ◌∷◌, inl, inr, arith, ltb, str_eq, str_eq_iff,
}
use avocado_misc_tests.Prelude.Int.{ℤ, negsuc, ◌==ℤ◌, eq_of_==ℤ}
use avocado_misc_tests.Prelude.Lists.{In, All, length}
use avocado_misc_tests.Text.{is_empty}
use avocado_misc_tests.Python.{ok}
use avocado_misc_tests.Topology.{Sysfs, Case, fail_if, fail_if-ok, die_id, read_topology_file}
use avocado_misc_tests.Topology.Checks.{
  holds, distinct, cpus_lists, inconsistencies, test_die_cpumask_consistency,
}
use avocado_misc_tests.Topology.Groups.{Group, group_by}
use avocado_misc_tests.Topology.Groups.Members.{on_die, In-on_die, on_die-In}
use avocado_misc_tests.Topology.Groups.Keys.{group_by-In, In-group_by}
use avocado_misc_tests.Topology.Masks.Distinct.{one_value, distinct-In, masks_alike}

==ℤ-ne : (d e : ℤ) → d ≢ e → (d ==ℤ e) ≡ false
==ℤ-ne d e differ = elim (Bool-cases (d ==ℤ e)) [
  | inl same ↦ absurd (differ (eq_of_==ℤ d e same))
  | inr other ↦ other
]

module _ ⦃F : Sysfs⦄ where
  -- the mask of a CPU, where it has one
  abbrev pub Mask : ℕ → String → Type 0
  Mask cpu mask = (read_topology_file cpu "die_cpus_list" ≡ some mask) × (is_empty mask ≡ false)

  cpus_lists-In :
      (cpu : ℕ) (mask : String) (cpus : List ℕ)
      → In cpu cpus
      → Mask cpu mask
      → In (cpu, mask) (cpus_lists cpus)
  unfolding cpus_lists
  cpus_lists-In cpu mask [] among has = absurd among
  cpus_lists-In cpu mask (c ∷ cpus) (inl here) (reads, full) =
      let reads_c : read_topology_file c "die_cpus_list" ≡ some mask = rw here at reads in
      rw (cpus_lists, reads_c, full) (inl (ap (λ x. (x, mask)) here))
  cpus_lists-In cpu mask (c ∷ cpus) (inr later) has =
      let rest = cpus_lists-In cpu mask cpus later has in
      elim (Option-cases (read_topology_file c "die_cpus_list")) [
        | inl missing ↦ rw (cpus_lists, missing) rest
        | inr (m, reads) ↦ elim (Bool-cases (is_empty m)) [
          | inl empty ↦ rw (cpus_lists, reads, empty) rest
          | inr full ↦ rw (cpus_lists, reads, full) (inr rest)
        ]
      ]

  Masked : ℕ → String → List ℕ → Type 0
  Masked cpu mask cpus = In cpu cpus × Mask cpu mask

  further :
      (cpu c : ℕ) (cpus : List ℕ) (mask : String)
      → Masked cpu mask cpus
      → Masked cpu mask (c ∷ cpus)
  unfolding Masked
  further cpu c cpus mask (later, has) = (inr later, has)

  entry_of :
      (cpu c : ℕ) (cpus : List ℕ) (mask m : String)
      → Mask c m
      → (In (cpu, mask) (cpus_lists cpus) → Masked cpu mask cpus)
      → In (cpu, mask) ((c, m) ∷ cpus_lists cpus)
      → Masked cpu mask (c ∷ cpus)
  unfolding Masked
  entry_of cpu c cpus mask m (reads, full) rest (inl here) =
      let is = ap (λ g. g.0) here in
      let mask_is = ap (λ g. g.1) here in (inl is, (rw (is, mask_is) reads, rw mask_is full))
  entry_of cpu c cpus mask m has rest (inr later) = further cpu c cpus mask (rest later)

  cpus_lists-has :
      (cpu : ℕ) (mask : String) (cpus : List ℕ)
      → In (cpu, mask) (cpus_lists cpus)
      → Masked cpu mask cpus
  unfolding cpus_lists
  cpus_lists-has cpu mask [] among = absurd among
  cpus_lists-has cpu mask (c ∷ cpus) among =
      let rest = cpus_lists-has cpu mask cpus in
      elim (Option-cases (read_topology_file c "die_cpus_list")) [
        | inl missing ↦ further cpu c cpus mask (rest (rw (cpus_lists, missing) at among))
        | inr (m, reads) ↦ elim (Bool-cases (is_empty m)) [
          | inl empty ↦ further cpu c cpus mask (rest (rw (cpus_lists, reads, empty) at among))
          | inr full ↦
              entry_of cpu c cpus mask m (reads, full) rest (rw (cpus_lists, reads, full) at among)
        ]
      ]

  consistent_entry :
      (d : ℤ) (cs : List ℕ) (groups : List Group)
      → inconsistencies groups ≡ []
      → In (d, cs) groups
      → (d ==ℤ negsuc 0) ≡ false
      → ltb 1 (length (distinct (cpus_lists cs))) ≡ false
  unfolding inconsistencies
  consistent_entry d cs [] clean among on = absurd among
  consistent_entry d cs ((e, cpus) ∷ groups) clean (inl here) on =
      elim (Bool-cases (ltb 1 (length (distinct (cpus_lists cs))))) [
        | inr short ↦ short
        | inl long ↦
            let e_on : (e ==ℤ negsuc 0) ≡ false = rw (ap (λ g. g.0) here) at on in
            let long' : ltb 1 (length (distinct (cpus_lists cpus))) ≡ true =
              rw (ap (λ g. g.1) here) at long in
            let impossible = rw (inconsistencies, e_on, long') at clean in cc
      ]
  consistent_entry d cs ((e, cpus) ∷ groups) clean (inr later) on =
      elim (Bool-cases (e ==ℤ negsuc 0)) [
        | inl off ↦ consistent_entry d cs groups (rw (inconsistencies, off) at clean) later on
        | inr e_on ↦ elim (Bool-cases (ltb 1 (length (distinct (cpus_lists cpus))))) [
          | inl long ↦ let impossible = rw (inconsistencies, e_on, long) at clean in cc
          | inr short ↦
              consistent_entry d cs groups (rw (inconsistencies, e_on, short) at clean) later on
        ]
      ]

  -- no entry is kept where all masks of each die are one
  inconsistencies-nil :
      (groups : List Group)
      → ((d : ℤ) (cs : List ℕ)
          → In (d, cs) groups
          → (d ==ℤ negsuc 0) ≡ false
          → ltb 1 (length (distinct (cpus_lists cs))) ≡ false)
      → inconsistencies groups ≡ []
  unfolding inconsistencies
  inconsistencies-nil [] h = refl
  inconsistencies-nil ((d, cs) ∷ groups) h =
      let rest = inconsistencies-nil groups (λ e es among. h e es (inr among)) in
      elim (Bool-cases (d ==ℤ negsuc 0)) [
        | inl off ↦ rw (inconsistencies, off) rest
        | inr on ↦ rw (inconsistencies, on, h d cs (inl refl) on) rest
      ]

  -- If `test_die_cpumask_consistency` passes, two online CPUs that have the number of the same die,
  -- which is not -1, and each a mask that is not empty, have the same mask.
  pub test_die_cpumask_consistency_sound :
      (s t : Case) (u : Unit) (a b : ℕ) (d : ℤ) (m n : String)
      → test_die_cpumask_consistency s ≡ (ok u, t)
      → In a F.online_list
      → In b F.online_list
      → die_id a ≡ some d
      → die_id b ≡ some d
      → d ≢ negsuc 0
      → Mask a m
      → Mask b n
      → m ≡ n
  unfolding test_die_cpumask_consistency
  test_die_cpumask_consistency_sound s t u a b d m n passed in_a in_b on_a on_b coregroup has_m
        has_n =
      let (clean, _) =
        fail_if-ok (inconsistencies (group_by die_id [] F.online_list)) _ _ s t u passed in
      let a_on = In-on_die die_id d a F.online_list in_a on_a in
      let b_on = In-on_die die_id d b F.online_list in_b on_b in
      let short =
        consistent_entry d (on_die die_id d F.online_list) (group_by die_id [] F.online_list) clean
          (In-group_by die_id F.online_list d a a_on) (==ℤ-ne d (negsuc 0) coregroup) in
      one_value _ m n short (distinct-In a m _ (cpus_lists-In a m _ a_on has_m))
        (distinct-In b n _ (cpus_lists-In b n _ b_on has_n))

  -- If any two online CPUs on the same die, which is not -1, each with a mask that is not empty, have the
  -- same mask, then `test_die_cpumask_consistency` passes, and records no failure.
  pub test_die_cpumask_consistency_complete :
      (s : Case)
      → ((a b : ℕ) (d : ℤ) (m n : String)
          → In a F.online_list
          → In b F.online_list
          → die_id a ≡ some d
          → die_id b ≡ some d
          → d ≢ negsuc 0
          → Mask a m
          → Mask b n
          → m ≡ n)
      → test_die_cpumask_consistency s ≡ (ok tt, s)
  unfolding test_die_cpumask_consistency fail_if Masked
  test_die_cpumask_consistency_complete s agree =
      rw
        (
          test_die_cpumask_consistency,
          inconsistencies-nil (group_by die_id [] F.online_list)
              (λ d cs among on. one_mask d cs on (group_by-In die_id F.online_list d cs among)),
        )
        refl
    where
      one_mask :
          (d : ℤ) (cs : List ℕ)
          → (d ==ℤ negsuc 0) ≡ false
          → cs ≡ on_die die_id d F.online_list
          → ltb 1 (length (distinct (cpus_lists cs))) ≡ false
      one_mask d cs on is = rw is (
          masks_alike (cpus_lists (on_die die_id d F.online_list)) (λ a b m n in_m in_n.
            let (a_on, has_m) = cpus_lists-has a m (on_die die_id d F.online_list) in_m in
            let (b_on, has_n) = cpus_lists-has b n (on_die die_id d F.online_list) in_n in
            let (in_a, on_a) = on_die-In die_id d a F.online_list a_on in
            let (in_b, on_b) = on_die-In die_id d b F.online_list b_on in
            let coregroup : d ≢ negsuc 0 = λ off. (let impossible = rw off at on in cc) in
            agree a b d m n in_a in_b on_a on_b coregroup has_m has_n))
