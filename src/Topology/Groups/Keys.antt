-- ===== src/Topology/Groups/Keys.antt =====
-- cpu/cpu_die_topology.py: each die is one key of the dictionary.
use Prim.{absurd}
use avocado_misc_tests.Prelude.{
  ℕ, ◌≡◌, refl, sym, ◌∙◌, ap, Bool, true, false, ◌||◌, Bool-cases, Option, Option-cases, List, [],
  ◌∷◌, inl, inr, arith,
}
use avocado_misc_tests.Prelude.Int.{ℤ, ◌==ℤ◌, eq_of_==ℤ, ==ℤ_refl}
use avocado_misc_tests.Prelude.Lists.{In}
use avocado_misc_tests.Prelude.Sort.{insert, sort_by}
use avocado_misc_tests.Topology.Groups.{Group, group_add, group_by}
use avocado_misc_tests.Topology.Groups.Members.{
  members, on_die, group_by-off, group_by-on, group_by-members,
}

-- `d in groups`
unfoldable pub has_key : ℤ → List Group → Bool
has_key d [] = false
has_key d ((e, cpus) ∷ groups) = (e ==ℤ d) || has_key d groups

abbrev pub Unique : List Group → Type 0
Unique [] = Unit
Unique ((e, cpus) ∷ groups) = (has_key e groups ≡ false) × Unique groups

has_key-group_add :
    (d e : ℤ) (cpu : ℕ) (groups : List Group)
    → (e ==ℤ d) ≡ false
    → has_key d (group_add e cpu groups) ≡ has_key d groups
unfolding has_key group_add
has_key-group_add d e cpu [] other = rw other refl
has_key-group_add d e cpu ((f, cpus) ∷ groups) other = elim (Bool-cases (f ==ℤ e)) [
  | inl same ↦ rw (group_add, has_key, same) refl
  | inr differ ↦
      rw (group_add, has_key, differ)
        (ap (λ r. (f ==ℤ d) || r) (has_key-group_add d e cpu groups other))
]

==ℤ_sym_false : (d e : ℤ) → (d ==ℤ e) ≡ false → (e ==ℤ d) ≡ false
==ℤ_sym_false d e other = elim (Bool-cases (e ==ℤ d)) [
  | inl same ↦ let same' : (d ==ℤ e) ≡ true = rw (eq_of_==ℤ e d same) (==ℤ_refl d) in cc
  | inr differ ↦ differ
]

group_add-Unique :
    (d : ℤ) (cpu : ℕ) (groups : List Group) → Unique groups → Unique (group_add d cpu groups)
unfolding group_add has_key
group_add-Unique d cpu [] h = (refl, tt)
group_add-Unique d cpu ((e, cpus) ∷ groups) (new, rest) = elim (Bool-cases (e ==ℤ d)) [
  | inl same ↦ rw (group_add, same) (new, rest)
  | inr other ↦
      rw (group_add, other)
        (
          has_key-group_add e d cpu groups (==ℤ_sym_false e d other) ∙ new,
          group_add-Unique d cpu groups rest,
        )
]

pub group_by-Unique :
    (die : ℕ → Option ℤ) (groups : List Group) (cpus : List ℕ)
    → Unique groups
    → Unique (group_by die groups cpus)
unfolding group_by
group_by-Unique die groups [] h = h
group_by-Unique die groups (cpu ∷ cpus) h = elim (Option-cases (die cpu)) [
  | inl off ↦ rw (group_by-off die cpu cpus groups off) (group_by-Unique die groups cpus h)
  | inr (e, on) ↦
      rw (group_by-on die cpu cpus groups e on)
        (group_by-Unique die (group_add e cpu groups) cpus (group_add-Unique e cpu groups h))
]

or-false : (a b : Bool) → (a || b) ≡ false → (a ≡ false) × (b ≡ false)
or-false a b h = ground (arith, h)

has_key-In :
    (d : ℤ) (cs : List ℕ) (groups : List Group) → In (d, cs) groups → has_key d groups ≡ true
unfolding has_key
has_key-In d cs [] among = absurd among
has_key-In d cs ((e, cpus) ∷ groups) (inl here) =
    let is : d ≡ e = ap (λ g. g.0) here in rw is (rw (==ℤ_refl e) refl)
has_key-In d cs ((e, cpus) ∷ groups) (inr later) = rw (has_key-In d cs groups later) (ground arith)

members-In :
    (d : ℤ) (cs : List ℕ) (groups : List Group)
    → Unique groups
    → In (d, cs) groups
    → members d groups ≡ cs
unfolding members
members-In d cs [] h among = absurd among
members-In d cs ((e, cpus) ∷ groups) h (inl here) =
    let is : (e ==ℤ d) ≡ true = rw (ap (λ g. g.0) here) (==ℤ_refl e) in
    rw is (sym (ap (λ g. g.1) here))
members-In d cs ((e, cpus) ∷ groups) (new, rest) (inr later) = elim (Bool-cases (e ==ℤ d)) [
  | inl same ↦
      let there : has_key e groups ≡ true =
        rw (eq_of_==ℤ e d same) (has_key-In d cs groups later) in
      cc
  | inr other ↦ rw (members, other) (members-In d cs groups rest later)
]

-- An entry of the dictionary lists exactly the CPUs of its die.
pub group_by-In :
    (die : ℕ → Option ℤ) (cpus : List ℕ) (d : ℤ) (cs : List ℕ)
    → In (d, cs) (group_by die [] cpus)
    → cs ≡ on_die die d cpus
group_by-In die cpus d cs among =
    sym (members-In d cs (group_by die [] cpus) (group_by-Unique die [] cpus tt) among)
    ∙ group_by-members die d cpus

In-members :
    (d : ℤ) (cpu : ℕ) (cs : List ℕ) (groups : List Group)
    → members d groups ≡ cs
    → In cpu cs
    → In (d, cs) groups
unfolding members
In-members d cpu cs [] is among = rw (sym is) at among
In-members d cpu cs ((e, cpus) ∷ groups) is among = elim (Bool-cases (e ==ℤ d)) [
  | inl same ↦
      let here : cpus ≡ cs = rw (members, same) at is in inl (rw (here, eq_of_==ℤ e d same) refl)
  | inr other ↦ inr (In-members d cpu cs groups (rw (members, other) at is) among)
]

-- A die with a CPU has an entry.
pub In-group_by :
    (die : ℕ → Option ℤ) (cpus : List ℕ) (d : ℤ) (cpu : ℕ)
    → In cpu (on_die die d cpus)
    → In (d, on_die die d cpus) (group_by die [] cpus)
In-group_by die cpus d cpu among =
    In-members d cpu (on_die die d cpus) (group_by die [] cpus) (group_by-members die d cpus) among

module _ (le : Group → Group → Bool) where
  has_key-insert :
      (d e : ℤ) (cpus : List ℕ) (groups : List Group)
      → (e ==ℤ d) ≡ false
      → has_key d groups ≡ false
      → has_key d (insert le (e, cpus) groups) ≡ false
  unfolding has_key insert
  has_key-insert d e cpus [] other new = rw other refl
  has_key-insert d e cpus ((f, fs) ∷ groups) other new =
      let (differ, rest) = or-false (f ==ℤ d) (has_key d groups) new in
      elim (Bool-cases (le (e, cpus) (f, fs))) [
        | inl before ↦ rw (insert, before, has_key, other) new
        | inr behind ↦
            rw (insert, behind, has_key, differ) (has_key-insert d e cpus groups other rest)
      ]

  insert-Unique :
      (d : ℤ) (cpus : List ℕ) (groups : List Group)
      → has_key d groups ≡ false
      → Unique groups
      → Unique (insert le (d, cpus) groups)
  unfolding insert has_key
  insert-Unique d cpus [] new h = (refl, tt)
  insert-Unique d cpus ((e, es) ∷ groups) new (new_e, rest) =
      let (differ, new_d) = or-false (e ==ℤ d) (has_key d groups) new in
      elim (Bool-cases (le (d, cpus) (e, es))) [
        | inl before ↦ rw (insert, before) (new, (new_e, rest))
        | inr behind ↦
            rw (insert, behind)
              (
                has_key-insert e d cpus groups (==ℤ_sym_false e d differ) new_e,
                insert-Unique d cpus groups new_d rest,
              )
      ]

  has_key-sort_by :
      (d : ℤ) (groups : List Group)
      → has_key d groups ≡ false
      → has_key d (sort_by le groups) ≡ false
  unfolding has_key sort_by
  has_key-sort_by d [] new = refl
  has_key-sort_by d ((e, es) ∷ groups) new =
      let (differ, rest) = or-false (e ==ℤ d) (has_key d groups) new in
      has_key-insert d e es (sort_by le groups) differ (has_key-sort_by d groups rest)

  pub sort_by-Unique : (groups : List Group) → Unique groups → Unique (sort_by le groups)
  unfolding sort_by
  sort_by-Unique [] h = tt
  sort_by-Unique ((d, cpus) ∷ groups) (new, rest) =
      insert-Unique d cpus (sort_by le groups) (has_key-sort_by d groups new)
        (sort_by-Unique groups rest)
