-- ===== src/Topology/Groups/Members.antt =====
-- cpu/cpu_die_topology.py: which CPUs stand in the dictionary of the dies.
use Prim.{absurd}
use mathlib.Core.List.{append-nil, append_assoc}
use avocado_misc_tests.Prelude.{
  ℕ, ◌≡◌, refl, sym, ◌∙◌, ap, true, false, Bool-cases, Option, none, some, Option-cases, List, [],
  ◌∷◌, ◌++◌, ◌⊎◌, inl, inr, if◌then◌else◌,
}
use avocado_misc_tests.Prelude.Int.{ℤ, ◌==ℤ◌, eq_of_==ℤ, ==ℤ_refl}
use avocado_misc_tests.Prelude.Lists.{In}
use avocado_misc_tests.Topology.Groups.{Group, group_add, group_by}

-- `groups.get(d, [])`
unfoldable pub members : ℤ → List Group → List ℕ
members d [] = []
members d ((e, cpus) ∷ groups) = let rest = members d groups in if e ==ℤ d then cpus else rest

-- the CPUs of a die, in their order
unfoldable pub on_die : (ℕ → Option ℤ) → ℤ → List ℕ → List ℕ
on_die die d [] = []
on_die die d (cpu ∷ cpus) =
    let rest = on_die die d cpus in
    elim (die cpu) [ none ↦ rest | some e ↦ if e ==ℤ d then cpu ∷ rest else rest ]

members-group_add_self :
    (d : ℤ) (cpu : ℕ) (groups : List Group)
    → members d (group_add d cpu groups) ≡ members d groups ++ cpu ∷ []
unfolding members group_add
members-group_add_self d cpu [] = rw (==ℤ_refl d) refl
members-group_add_self d cpu ((e, cpus) ∷ groups) = elim (Bool-cases (e ==ℤ d)) [
  | inl same ↦ rw (group_add, members, same, members, same) refl
  | inr other ↦ rw (group_add, members, other, members, other) (members-group_add_self d cpu groups)
]

members-group_add :
    (d e : ℤ) (cpu : ℕ) (groups : List Group)
    → (e ==ℤ d) ≡ false
    → members d (group_add e cpu groups) ≡ members d groups
unfolding members group_add
members-group_add d e cpu [] other = rw other refl
members-group_add d e cpu ((f, cpus) ∷ groups) other = elim (Bool-cases (f ==ℤ e)) [
  | inl same ↦
      let is : (f ==ℤ d) ≡ false = rw (eq_of_==ℤ f e same) other in
      rw (group_add, members, same, members, is) refl
  | inr differ ↦
      rw (group_add, members, differ, members)
        (ap (λ r. if f ==ℤ d then cpus else r) (members-group_add d e cpu groups other))
]

module _ (die : ℕ → Option ℤ) (cpu : ℕ) (cpus : List ℕ) where
  pub group_by-off :
      (groups : List Group)
      → die cpu ≡ none
      → group_by die groups (cpu ∷ cpus) ≡ group_by die groups cpus
  unfolding group_by
  group_by-off groups off = rw (group_by, off) refl

  pub group_by-on :
      (groups : List Group) (e : ℤ)
      → die cpu ≡ some e
      → group_by die groups (cpu ∷ cpus) ≡ group_by die (group_add e cpu groups) cpus
  unfolding group_by
  group_by-on groups e on = rw (group_by, on) refl

  pub on_die-off : (d : ℤ) → die cpu ≡ none → on_die die d (cpu ∷ cpus) ≡ on_die die d cpus
  unfolding on_die
  on_die-off d off = rw (on_die, off) refl

  pub on_die-here :
      (d e : ℤ)
      → die cpu ≡ some e
      → (e ==ℤ d) ≡ true
      → on_die die d (cpu ∷ cpus) ≡ cpu ∷ on_die die d cpus
  unfolding on_die
  on_die-here d e on same = rw (on_die, on, same) refl

  pub on_die-elsewhere :
      (d e : ℤ)
      → die cpu ≡ some e
      → (e ==ℤ d) ≡ false
      → on_die die d (cpu ∷ cpus) ≡ on_die die d cpus
  unfolding on_die
  on_die-elsewhere d e on other = rw (on_die, on, other) refl

pub members-group_by :
    (die : ℕ → Option ℤ) (d : ℤ) (groups : List Group) (cpus : List ℕ)
    → members d (group_by die groups cpus) ≡ members d groups ++ on_die die d cpus
unfolding group_by on_die
members-group_by die d groups [] = sym (append-nil _)
members-group_by die d groups (cpu ∷ cpus) = elim (Option-cases (die cpu)) [
  | inl off ↦
      rw (group_by-off die cpu cpus groups off, on_die-off die cpu cpus d off)
        (members-group_by die d groups cpus)
  | inr (e, on) ↦
      let rest = members-group_by die d (group_add e cpu groups) cpus in
      elim (Bool-cases (e ==ℤ d)) [
        | inl same ↦
            let added : members d (group_add e cpu groups) ≡ members d groups ++ cpu ∷ [] =
              rw (eq_of_==ℤ e d same) (members-group_add_self d cpu groups) in
            rw (group_by-on die cpu cpus groups e on, on_die-here die cpu cpus d e on same)
              (rest
                ∙ ap (λ l. l ++ on_die die d cpus) added
                ∙ append_assoc (members d groups) (cpu ∷ []) (on_die die d cpus))
        | inr other ↦
            rw (group_by-on die cpu cpus groups e on, on_die-elsewhere die cpu cpus d e on other)
              (rest ∙ ap (λ l. l ++ on_die die d cpus) (members-group_add d e cpu groups other))
      ]
]

module _ (die : ℕ → Option ℤ) where
  -- The entry of a die in the dictionary that the loop makes lists the CPUs of that die, in the order
  -- in which they are online.
  pub group_by-members :
      (d : ℤ) (cpus : List ℕ) → members d (group_by die [] cpus) ≡ on_die die d cpus
  unfolding members
  group_by-members d cpus = members-group_by die d [] cpus

  pub In-on_die :
      (d : ℤ) (cpu : ℕ) (cpus : List ℕ)
      → In cpu cpus
      → die cpu ≡ some d
      → In cpu (on_die die d cpus)
  unfolding on_die
  In-on_die d cpu [] among on = absurd among
  In-on_die d cpu (c ∷ cpus) (inl here) on =
      rw (on_die-here die c cpus d d (rw here at on) (==ℤ_refl d)) (inl here)
  In-on_die d cpu (c ∷ cpus) (inr later) on =
      let rest = In-on_die d cpu cpus later on in
      elim (Option-cases (die c)) [
        | inl off ↦ rw (on_die-off die c cpus d off) rest
        | inr (e, on_c) ↦ elim (Bool-cases (e ==ℤ d)) [
          | inl same ↦ rw (on_die-here die c cpus d e on_c same) (inr rest)
          | inr other ↦ rw (on_die-elsewhere die c cpus d e on_c other) rest
        ]
      ]

  pub on_die-In :
      (d : ℤ) (cpu : ℕ) (cpus : List ℕ)
      → In cpu (on_die die d cpus)
      → In cpu cpus × (die cpu ≡ some d)
  unfolding on_die
  on_die-In d cpu [] among = absurd among
  on_die-In d cpu (c ∷ cpus) among = elim (Option-cases (die c)) [
    | inl off ↦
        further d cpu c cpus (on_die-In d cpu cpus (rw (on_die-off die c cpus d off) at among))
    | inr (e, on_c) ↦ elim (Bool-cases (e ==ℤ d)) [
      | inl same ↦ elim (the_or (rw (on_die-here die c cpus d e on_c same) at among)) [
        | inl here ↦ (inl here, rw (here, on_c) (ap some (eq_of_==ℤ e d same)))
        | inr later ↦ further d cpu c cpus (on_die-In d cpu cpus later)
      ]
      | inr other ↦
          further d cpu c cpus
            (on_die-In d cpu cpus (rw (on_die-elsewhere die c cpus d e on_c other) at among))
    ]
  ]
    where
      further :
          (d : ℤ) (cpu c : ℕ) (cpus : List ℕ)
          → In cpu cpus × (die cpu ≡ some d)
          → In cpu (c ∷ cpus) × (die cpu ≡ some d)
      further d cpu c cpus (later, on) = (inr later, on)

      the_or : {A B : Type 0} → A ⊎ B → A ⊎ B
      the_or x = x
