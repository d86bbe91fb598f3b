-- ===== src/Topology/Select/Enough.antt =====
-- cpu/cpu_die_topology.py: `_select_test_cpu_sets` finds two dies that are large enough.
use Prim.{absurd}
use avocado_misc_tests.Prelude.{
  ℕ, ◌≤◌, ◌≡◌, ◌≢◌, refl, sym, ◌∙◌, ap, true, false, ◌||◌, List, [], ◌∷◌, inl, inr, arith, ltb,
}
use avocado_misc_tests.Prelude.Int.{ℤ}
use avocado_misc_tests.Prelude.Lists.{In, All, In-All, length}
use avocado_misc_tests.Prelude.Sort.{sort_by, Ordered, sort_by-Ordered, sort_by-In, length-sort_by}
use avocado_misc_tests.Topology.{Sysfs, Case}
use avocado_misc_tests.Topology.Groups.{Group}
use avocado_misc_tests.Topology.Groups.Members.{on_die}
use avocado_misc_tests.Topology.Groups.Keys.{Unique, has_key, In-group_by}
use avocado_misc_tests.Topology.Select.{
  longer, same_die, cross_die, choose, coregroup, select_test_cpu_sets,
}
use avocado_misc_tests.Topology.Select.Sets.{
  Selected, IsEntry, key-differs, sets-Selection, entry-On, die_groups, sorted_dies-Unique,
  sorted_dies-IsEntry,
}

longer_total : (g h : Group) → longer g h ≡ false → longer h g ≡ true
longer_total g h e = ground (arith, e)

longer_trans : (g h i : Group) → longer g h ≡ true → longer h i ≡ true → longer g i ≡ true
longer_trans g h i e f = ground (arith, e, f)

longer-le : (g h : Group) → longer g h ≡ true → length h.1 ≤ length g.1
longer-le g h e = ground (arith, e)

first_longest :
    (a g : Group) (rest : List Group)
    → Ordered longer (a ∷ rest)
    → In g (a ∷ rest)
    → length g.1 ≤ length a.1
first_longest a g rest order (inl here) = rw here (omega arith)
first_longest a g rest (below, order) (inr later) =
    longer-le a g (In-All (λ h. longer a h ≡ true) g rest below later)

-- two entries of a descending list with 8 CPUs each: the first two have as many
two_long :
    (g h a b : Group) (rest : List Group)
    → g ≢ h
    → Ordered longer (a ∷ (b ∷ rest))
    → In g (a ∷ (b ∷ rest))
    → In h (a ∷ (b ∷ rest))
    → 8 ≤ length g.1
    → 8 ≤ length h.1
    → (8 ≤ length a.1) × (8 ≤ length b.1)
two_long g h a b rest differ ((a_b, below), order) (inl g_a) (inl h_a) long_g long_h =
    absurd (differ (g_a ∙ sym h_a))
two_long g h a b rest differ ((a_b, below), order) (inl g_a) (inr h_later) long_g long_h =
    let h_b = first_longest b h rest order h_later in
    let b_a = longer-le a b a_b in (omega arith, omega arith)
two_long g h a b rest differ ((a_b, below), order) (inr g_later) in_h long_g long_h =
    let g_b = first_longest b g rest order g_later in
    let b_a = longer-le a b a_b in (omega arith, omega arith)

module _ ⦃F : Sysfs⦄ where
  choose-finds :
      (groups : List Group) (s : Case) (g h : Group)
      → Ordered longer groups
      → Unique groups
      → All IsEntry groups
      → g ≢ h
      → In g groups
      → In h groups
      → 8 ≤ length g.1
      → 8 ≤ length h.1
      → (2 ≤ length groups) × Selected (choose groups s) s
  unfolding choose has_key
  choose-finds [] s g h order u e differ in_g in_h long_g long_h = absurd in_g
  choose-finds (a ∷ []) s g h order u e differ (inl g_a) (inl h_a) long_g long_h =
      absurd (differ (g_a ∙ sym h_a))
  choose-finds (a ∷ []) s g h order u e differ (inl g_a) (inr in_h) long_g long_h = absurd in_h
  choose-finds (a ∷ []) s g h order u e differ (inr in_g) in_h long_g long_h = absurd in_g
  choose-finds ((d0, cpus_0) ∷ ((d1, cpus_1) ∷ groups)) s g h order (new, u) (is_0, (is_1, rest))
        differ in_g in_h long_g long_h =
      let (long_0, long_1) =
        two_long g h (d0, cpus_0) (d1, cpus_1) groups differ order in_g in_h long_g long_h in
      let many : (ltb (length cpus_0) 8 || ltb (length cpus_1) 8) ≡ false =
        ground (arith, long_0, long_1) in
      (
        omega arith,
        record {
          same = same_die cpus_0;
          cross = cross_die cpus_0 cpus_1;
          returns = rw many refl;
          selection =
              sets-Selection d0 d1 cpus_0 cpus_1 (key-differs d0 d1 cpus_1 groups new)
                (entry-On d0 cpus_0 is_0) (entry-On d1 cpus_1 is_1) long_0 long_1;
        },
      )

  die_entry :
      (d : ℤ) (cpus : List ℕ)
      → on_die coregroup d F.online_list ≡ cpus
      → 8 ≤ length cpus
      → In (d, cpus) die_groups
  die_entry d [] is long = absurd (omega (arith, long))
  die_entry d (cpu ∷ cpus) is long =
      let entry = In-group_by coregroup F.online_list d cpu (rw is (inl refl)) in rw is at entry

  -- If two dies have 8 online CPUs each, `_select_test_cpu_sets` returns two sets, which are a
  -- selection.
  pub select_test_cpu_sets-finds :
      (s : Case) (d e : ℤ)
      → d ≢ e
      → 8 ≤ length (on_die coregroup d F.online_list)
      → 8 ≤ length (on_die coregroup e F.online_list)
      → Selected (select_test_cpu_sets s) s
  unfolding select_test_cpu_sets
  select_test_cpu_sets-finds s d e differ long_d long_e =
      let (two, found) =
        choose-finds (sort_by longer die_groups) s (d, on_die coregroup d F.online_list)
          (e, on_die coregroup e F.online_list)
          (sort_by-Ordered longer longer_total longer_trans die_groups) sorted_dies-Unique
          sorted_dies-IsEntry (λ same. differ (ap (λ g. g.0) same))
          (sort_by-In longer _ die_groups (die_entry d _ refl long_d))
          (sort_by-In longer _ die_groups (die_entry e _ refl long_e)) long_d long_e in
      let many : ltb (length die_groups) 2 ≡ false =
        ground (arith, length-sort_by longer die_groups, two) in
      rw (select_test_cpu_sets, many) found
