-- ===== src/Topology/Select/Sets.antt =====
-- cpu/cpu_die_topology.py: what the two sets of `_select_test_cpu_sets` are.
use Prim.{absurd}
use avocado_misc_tests.Prelude.{
  ℕ, ◌≤◌, ◌≡◌, ◌≢◌, refl, ◌∙◌, true, false, ◌||◌, Bool-cases, Option, none, some, ◌⊎◌, List, [],
  ◌∷◌, ◌++◌, inl, inr, arith, leb, ltb,
}
use avocado_misc_tests.Prelude.Int.{ℤ, ==ℤ_refl}
use avocado_misc_tests.Prelude.Lists.{In, All, All-In, All-take, length-take, length-append, length}
use avocado_misc_tests.Prelude.Sort.{
  sort_by, Ordered, sort_by-Ordered, sort_by-All, length-sort_by, take-Ordered,
}
use avocado_misc_tests.Python.{Result, ok}
use avocado_misc_tests.Topology.{Sysfs, Case}
use avocado_misc_tests.Topology.Groups.{Group, group_by}
use avocado_misc_tests.Topology.Groups.Members.{on_die, on_die-In}
use avocado_misc_tests.Topology.Groups.Keys.{
  Unique, has_key, group_by-Unique, group_by-In, sort_by-Unique,
}
use avocado_misc_tests.Topology.Select.{
  sorted, longer, first_sorted, at_most, same_die, cross_die, choose, coregroup,
  select_test_cpu_sets,
}

abbrev pub IsSorted : List ℕ → Type 0
IsSorted = Ordered leb

leb_total : (x y : ℕ) → leb x y ≡ false → leb y x ≡ true
leb_total x y h = ground (arith, h)

leb_trans : (x y z : ℕ) → leb x y ≡ true → leb y z ≡ true → leb x z ≡ true
leb_trans x y z h k = ground (arith, h, k)

sorted-IsSorted : (cpus : List ℕ) → IsSorted (sorted cpus)
sorted-IsSorted = sort_by-Ordered leb leb_total leb_trans

at_most-le : (n : ℕ) (cpus : List ℕ) → at_most n cpus ≤ length cpus
at_most-le n cpus = ground arith

at_most-enough : (n : ℕ) (cpus : List ℕ) → n ≤ length cpus → at_most n cpus ≡ n
at_most-enough n cpus h = ground (arith, h)

length-first_sorted :
    (n : ℕ) (cpus : List ℕ) → length (first_sorted (at_most n cpus) cpus) ≡ at_most n cpus
length-first_sorted n cpus =
    length-take (at_most n cpus) (sorted cpus) (rw (length-sort_by leb cpus) (at_most-le n cpus))

first_sorted-All :
    (P : ℕ → Type 0) (n : ℕ) (cpus : List ℕ) → All P cpus → All P (first_sorted n cpus)
first_sorted-All P n cpus h = All-take P n (sorted cpus) (sort_by-All leb P cpus h)

pub key-differs :
    (d e : ℤ) (cpus : List ℕ) (groups : List Group) → has_key d ((e, cpus) ∷ groups) ≡ false → d ≢ e
unfolding has_key
key-differs d e cpus groups new same =
    let held : has_key d ((e, cpus) ∷ groups) ≡ true = rw same (rw (==ℤ_refl e) refl) in cc

module _ ⦃F : Sysfs⦄ where
  -- A pair of sets: one within a die, with up to 16 of its CPUs, and one of 8 CPUs of that die and 8 of
  -- another. Both are in ascending order and of online CPUs.
  pub record Selection (same cross : List ℕ) : Type 0 where
    pub die_0 : ℤ
    pub die_1 : ℤ
    pub dies_differ : die_0 ≢ die_1
    pub same_within : All (λ c. In c F.online_list × (coregroup c ≡ some die_0)) same
    pub same_sorted : IsSorted same
    pub same_size : (8 ≤ length same) × (length same ≤ 16)
    pub half_0 : List ℕ
    pub half_1 : List ℕ
    pub cross_is : cross ≡ sorted (half_0 ++ half_1)
    pub half_0_within : All (λ c. In c F.online_list × (coregroup c ≡ some die_0)) half_0
    pub half_1_within : All (λ c. In c F.online_list × (coregroup c ≡ some die_1)) half_1
    pub half_sizes : (length half_0 ≡ 8) × (length half_1 ≡ 8)
    pub cross_sorted : IsSorted cross
    pub cross_size : length cross ≡ 16

  abbrev pub Outcome : Type 0
  Outcome = Result (Option (List ℕ × List ℕ)) × Case

  -- a call that returned two sets, and left the test's state as it was
  pub record Selected (outcome : Outcome) (s : Case) : Type 0 where
    pub same : List ℕ
    pub cross : List ℕ
    pub returns : outcome ≡ (ok (some (same, cross)), s)
    pub selection : Selection same cross

  abbrev pub On : ℤ → ℕ → Type 0
  On d c = In c F.online_list × (coregroup c ≡ some d)

  pub entry-On : (d : ℤ) (cs : List ℕ) → cs ≡ on_die coregroup d F.online_list → All (On d) cs
  entry-On d cs is =
      All-In (On d) cs (λ c among. on_die-In coregroup d c F.online_list (rw is at among))

  pub sets-Selection :
      (d e : ℤ) (cs es : List ℕ)
      → d ≢ e
      → All (On d) cs
      → All (On e) es
      → 8 ≤ length cs
      → 8 ≤ length es
      → Selection (same_die cs) (cross_die cs es)
  unfolding same_die cross_die
  sets-Selection d e cs es differ on_d on_e enough_d enough_e =
      let size_d : length (first_sorted (at_most 8 cs) cs) ≡ 8 =
        length-first_sorted 8 cs ∙ at_most-enough 8 cs enough_d in
      let size_e : length (first_sorted (at_most 8 es) es) ≡ 8 =
        length-first_sorted 8 es ∙ at_most-enough 8 es enough_e in
      record {
        die_0 = d;
        die_1 = e;
        dies_differ = differ;
        same_within = first_sorted-All (On d) (at_most 16 cs) cs on_d;
        same_sorted = take-Ordered leb (at_most 16 cs) (sorted cs) (sorted-IsSorted cs);
        same_size =
            rw (length-first_sorted 16 cs) (ground (arith, enough_d), ground (arith, enough_d));
        half_0 = first_sorted (at_most 8 cs) cs;
        half_1 = first_sorted (at_most 8 es) es;
        cross_is = refl;
        half_0_within = first_sorted-All (On d) (at_most 8 cs) cs on_d;
        half_1_within = first_sorted-All (On e) (at_most 8 es) es on_e;
        half_sizes = (size_d, size_e);
        cross_sorted =
            sorted-IsSorted (first_sorted (at_most 8 cs) cs ++ first_sorted (at_most 8 es) es);
        cross_size =
            length-sort_by leb (first_sorted (at_most 8 cs) cs ++ first_sorted (at_most 8 es) es)
            ∙ length-append (first_sorted (at_most 8 cs) cs) (first_sorted (at_most 8 es) es)
            ∙ ground (arith, size_d, size_e);
      }

  abbrev pub IsEntry : Group → Type 0
  IsEntry g = g.1 ≡ on_die coregroup g.0 F.online_list

  abbrev pub die_groups : List Group
  die_groups = group_by coregroup [] F.online_list

  choose-Selected :
      (groups : List Group) (s : Case)
      → 2 ≤ length groups
      → Unique groups
      → All IsEntry groups
      → (choose groups s ≡ (ok none, s)) ⊎ Selected (choose groups s) s
  unfolding choose has_key
  choose-Selected [] s h u e = absurd (omega (arith, h))
  choose-Selected (g ∷ []) s h u e = absurd (omega (arith, h))
  choose-Selected ((d0, cpus_0) ∷ ((d1, cpus_1) ∷ groups)) s h (new, u) (is_0, (is_1, rest)) =
      elim (Bool-cases (ltb (length cpus_0) 8 || ltb (length cpus_1) 8)) [
        | inl few ↦ inl (rw few refl)
        | inr many ↦ inr (record {
          same = same_die cpus_0;
          cross = cross_die cpus_0 cpus_1;
          returns = rw many refl;
          selection =
              sets-Selection d0 d1 cpus_0 cpus_1 (key-differs d0 d1 cpus_1 groups new)
                (entry-On d0 cpus_0 is_0) (entry-On d1 cpus_1 is_1) (ground (arith, many))
                (ground (arith, many));
        })
      ]

  pub sorted_dies-Unique : Unique (sort_by longer die_groups)
  sorted_dies-Unique =
      sort_by-Unique longer die_groups (group_by-Unique coregroup [] F.online_list tt)

  pub sorted_dies-IsEntry : All IsEntry (sort_by longer die_groups)
  sorted_dies-IsEntry =
      sort_by-All longer IsEntry die_groups
        (All-In IsEntry die_groups (λ g among. group_by-In coregroup F.online_list g.0 g.1 among))

  -- `_select_test_cpu_sets` raises nothing: it returns no sets, or a pair of sets that is a selection,
  -- and leaves the test's state as it was.
  pub select_test_cpu_sets-Selected :
      (s : Case) → (select_test_cpu_sets s ≡ (ok none, s)) ⊎ Selected (select_test_cpu_sets s) s
  unfolding select_test_cpu_sets
  select_test_cpu_sets-Selected s = elim (Bool-cases (ltb (length die_groups) 2)) [
    | inl few ↦ inl (rw (select_test_cpu_sets, few) refl)
    | inr many ↦
        let chosen =
          choose-Selected (sort_by longer die_groups) s
            (rw (length-sort_by longer die_groups) (ground (arith, many))) sorted_dies-Unique
            sorted_dies-IsEntry in
        rw (select_test_cpu_sets, many) chosen
  ]
