-- ===== src/Topology/DieCpus.antt =====
-- cpu/cpu_die_topology.py: `_get_die_cpu_list` against the dictionary of the dies.
use avocado_misc_tests.Prelude.{
  ℕ, String, ◌≡◌, ◌≢◌, refl, ◌∙◌, true, false, Bool-cases, none, some, Option-cases, List, [], ◌∷◌,
  inl, inr,
}
use Prim.{absurd}
use avocado_misc_tests.Prelude.Int.{ℤ, ◌==ℤ◌}
use avocado_misc_tests.Prelude.Lists.{In}
use avocado_misc_tests.Text.{is_empty, int_of_string}
use avocado_misc_tests.Python.{ok, ◌>>=◌}
use avocado_misc_tests.Topology.{Sysfs, Case, read_topology_file, die_id}
use avocado_misc_tests.Topology.Groups.{group_by}
use avocado_misc_tests.Topology.Groups.Members.{
  members, on_die, on_die-off, on_die-here, on_die-elsewhere, group_by-members,
}
use avocado_misc_tests.Topology.Select.{sorted, die_cpus, get_die_cpu_list}

no_number : (text : String) → is_empty text ≡ true → int_of_string text ≡ none
unfolding int_of_string
no_number String.[] h = refl
no_number (String.◌∷◌ c rest) h = cc

module _ ⦃F : Sysfs⦄ where
  -- each die number that is read is empty or a number
  abbrev pub Numeric : ℕ → Type 0
  Numeric cpu =
      (text : String)
      → read_topology_file cpu "die_id" ≡ some text
      → is_empty text ≡ false
      → int_of_string text ≢ none

  no_file : (cpu : ℕ) → read_topology_file cpu "die_id" ≡ none → die_id cpu ≡ none
  unfolding die_id
  no_file cpu missing = rw (die_id, missing) refl

  die_id-text :
      (cpu : ℕ) (text : String)
      → read_topology_file cpu "die_id" ≡ some text
      → die_id cpu ≡ int_of_string text
  unfolding die_id
  die_id-text cpu text reads = rw (die_id, reads) refl

  die_cpus-on_die :
      (d : ℤ) (cpus : List ℕ) (s : Case)
      → ((cpu : ℕ) → In cpu cpus → Numeric cpu)
      → die_cpus d cpus s ≡ (ok (on_die die_id d cpus), s)
  unfolding die_cpus ◌>>=◌ on_die
  die_cpus-on_die d [] s numeric = refl
  die_cpus-on_die d (cpu ∷ cpus) s numeric =
      let rest = die_cpus-on_die d cpus s (λ c among. numeric c (inr among)) in
      elim (Option-cases (read_topology_file cpu "die_id")) [
        | inl missing ↦
            rw (die_cpus, missing, on_die-off die_id cpu cpus d (no_file cpu missing)) rest
        | inr (text, reads) ↦ elim (Bool-cases (is_empty text)) [
          | inl empty ↦
              rw
                (
                  die_cpus,
                  reads,
                  empty,
                  on_die-off die_id cpu cpus d (die_id-text cpu text reads ∙ no_number text empty),
                )
                rest
          | inr full ↦ elim (Option-cases (int_of_string text)) [
            | inl bad ↦ absurd (numeric cpu (inl refl) text reads full bad)
            | inr (e, is) ↦ elim (Bool-cases (e ==ℤ d)) [
              | inl same ↦
                  rw
                    (
                      die_cpus,
                      reads,
                      full,
                      is,
                      same,
                      on_die-here die_id cpu cpus d e (die_id-text cpu text reads ∙ is) same,
                      rest,
                    )
                    refl
              | inr other ↦
                  rw
                    (
                      die_cpus,
                      reads,
                      full,
                      is,
                      other,
                      on_die-elsewhere die_id cpu cpus d e (die_id-text cpu text reads ∙ is) other,
                    )
                    rest
            ]
          ]
        ]
      ]

  -- Where each die number that is read is empty or a number, `_get_die_cpu_list` returns the CPUs that the
  -- dictionary of `test_die_cpumask_consistency` lists for the die, in ascending order.
  pub get_die_cpu_list-members :
      (d : ℤ) (s : Case)
      → ((cpu : ℕ) → In cpu F.online_list → Numeric cpu)
      → get_die_cpu_list d s ≡ (ok (sorted (members d (group_by die_id [] F.online_list))), s)
  unfolding get_die_cpu_list ◌>>=◌
  get_die_cpu_list-members d s numeric =
      rw
        (
          get_die_cpu_list,
          die_cpus-on_die d F.online_list s numeric,
          group_by-members die_id d F.online_list,
        )
        refl
