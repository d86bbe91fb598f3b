-- ===== src/Topology/Packages.antt =====
-- cpu/cpu_die_topology.py: when `test_die_package_relationship` passes.
use Prim.{absurd}
use avocado_misc_tests.Prelude.{
  ℕ, ◌≡◌, refl, sym, ◌∙◌, true, Bool-cases, none, some, Option-cases, List, [], ◌∷◌, inl, inr,
}
use avocado_misc_tests.Prelude.Int.{ℤ, ◌==ℤ◌, eq_of_==ℤ, ==ℤ_refl}
use avocado_misc_tests.Prelude.Dict.{some-inj}
use avocado_misc_tests.Prelude.Lists.{In}
use avocado_misc_tests.Python.{ok}
use avocado_misc_tests.Topology.{Sysfs, Case, fail_if, fail_if-ok}
use avocado_misc_tests.Topology.Checks.{
  package_of, die_and_package, violations, test_die_package_relationship,
}

package_of-cons_self :
    (d pkg : ℤ) (packages : List (ℤ × ℤ)) → package_of d ((d, pkg) ∷ packages) ≡ some pkg
unfolding package_of
package_of-cons_self d pkg packages = rw (==ℤ_refl d) refl

-- a new die hides no other
package_of-cons :
    (d e pkg first : ℤ) (packages : List (ℤ × ℤ))
    → package_of d packages ≡ none
    → package_of e packages ≡ some first
    → package_of e ((d, pkg) ∷ packages) ≡ some first
unfolding package_of
package_of-cons d e pkg first packages new old = elim (Bool-cases (d ==ℤ e)) [
  | inl same ↦ let e_is : package_of e packages ≡ none = rw (eq_of_==ℤ d e same) at new in cc
  | inr other ↦ rw other old
]

module _ ⦃F : Sysfs⦄ where
  -- the packages of the dies at the end of the loop
  settled : List (ℤ × ℤ) → List ℕ → List (ℤ × ℤ)
  settled packages [] = packages
  settled packages (cpu ∷ cpus) = elim (die_and_package cpu) [
    | none ↦ settled packages cpus
    | some (d, pkg) ↦ elim (package_of d packages) [
      | none ↦ settled ((d, pkg) ∷ packages) cpus
      | some first ↦ settled packages cpus
    ]
  ]

  settled-keeps :
      (packages : List (ℤ × ℤ)) (cpus : List ℕ) (d first : ℤ)
      → package_of d packages ≡ some first
      → package_of d (settled packages cpus) ≡ some first
  unfolding settled
  settled-keeps packages [] d first known = known
  settled-keeps packages (cpu ∷ cpus) d first known = elim (Option-cases (die_and_package cpu)) [
    | inl off ↦ rw (settled, off) (settled-keeps packages cpus d first known)
    | inr ((e, pkg), on) ↦ elim (Option-cases (package_of e packages)) [
      | inl new ↦
          rw (settled, on, new)
            (settled-keeps ((e, pkg) ∷ packages) cpus d first
              (package_of-cons e d pkg first packages new known))
      | inr (f, old) ↦ rw (settled, on, old) (settled-keeps packages cpus d first known)
    ]
  ]

  -- a die that is known has its package again, or there is a violation
  known-clean :
      (packages : List (ℤ × ℤ)) (c : ℕ) (cpus : List ℕ) (e p first : ℤ)
      → die_and_package c ≡ some (e, p)
      → package_of e packages ≡ some first
      → violations packages (c ∷ cpus) ≡ []
      → (first ≡ p) × (violations packages cpus ≡ [])
  unfolding violations
  known-clean packages c cpus e p first on old clean =
      let step = rw (violations, on, old) at clean in
      elim (Bool-cases (first ==ℤ p)) [
        | inl same ↦ (eq_of_==ℤ first p same, rw same at step)
        | inr other ↦ let impossible = rw other at step in cc
      ]

  -- without a violation every CPU's package is the one of its die
  settled-package :
      (packages : List (ℤ × ℤ)) (cpus : List ℕ) (cpu : ℕ) (d pkg : ℤ)
      → violations packages cpus ≡ []
      → In cpu cpus
      → die_and_package cpu ≡ some (d, pkg)
      → package_of d (settled packages cpus) ≡ some pkg
  unfolding settled violations
  settled-package packages [] cpu d pkg clean among on = absurd among
  settled-package packages (c ∷ cpus) cpu d pkg clean (inl here) on =
      let on_c : die_and_package c ≡ some (d, pkg) = rw here at on in
      elim (Option-cases (package_of d packages)) [
        | inl new ↦
            rw (settled, on_c, new)
              (settled-keeps ((d, pkg) ∷ packages) cpus d pkg (package_of-cons_self d pkg packages))
        | inr (first, old) ↦
            let (same, rest) = known-clean packages c cpus d pkg first on_c old clean in
            rw (settled, on_c, old) (settled-keeps packages cpus d pkg (rw same at old))
      ]
  settled-package packages (c ∷ cpus) cpu d pkg clean (inr later) on =
      elim (Option-cases (die_and_package c)) [
        | inl off ↦
            rw (settled, off)
              (settled-package packages cpus cpu d pkg (rw (violations, off) at clean) later on)
        | inr ((e, p), on_c) ↦ elim (Option-cases (package_of e packages)) [
          | inl new ↦
              rw (settled, on_c, new)
                (settled-package ((e, p) ∷ packages) cpus cpu d pkg
                  (rw (violations, on_c, new) at clean) later on)
          | inr (first, old) ↦
              let (same, rest) = known-clean packages c cpus e p first on_c old clean in
              rw (settled, on_c, old) (settled-package packages cpus cpu d pkg rest later on)
        ]
      ]

  -- If `test_die_package_relationship` passes, any two online CPUs that have the number of the same
  -- die, and each that of a package, are in the same package.
  pub test_die_package_relationship_sound :
      (s t : Case) (u : Unit) (a b : ℕ) (d p q : ℤ)
      → test_die_package_relationship s ≡ (ok u, t)
      → In a F.online_list
      → In b F.online_list
      → die_and_package a ≡ some (d, p)
      → die_and_package b ≡ some (d, q)
      → p ≡ q
  unfolding test_die_package_relationship
  test_die_package_relationship_sound s t u a b d p q passed in_a in_b on_a on_b =
      let (clean, _) = fail_if-ok (violations [] F.online_list) _ _ s t u passed in
      some-inj (
        sym (settled-package [] F.online_list a d p clean in_a on_a)
        ∙ settled-package [] F.online_list b d q clean in_b on_b)

  violations-nil :
      (packages : List (ℤ × ℤ)) (cpus : List ℕ)
      → ((a : ℕ) (d p first : ℤ)
          → In a cpus
          → die_and_package a ≡ some (d, p)
          → package_of d packages ≡ some first
          → first ≡ p)
      → ((a b : ℕ) (d p q : ℤ)
          → In a cpus
          → In b cpus
          → die_and_package a ≡ some (d, p)
          → die_and_package b ≡ some (d, q)
          → p ≡ q)
      → violations packages cpus ≡ []
  unfolding violations package_of
  violations-nil packages [] known agree = refl
  violations-nil packages (c ∷ cpus) known agree = elim (Option-cases (die_and_package c)) [
    | inl off ↦
        rw (violations, off)
          (violations-nil packages cpus (λ a d p first in_a. known a d p first (inr in_a))
            (λ a b d p q in_a in_b. agree a b d p q (inr in_a) (inr in_b)))
    | inr ((e, p), on_c) ↦ elim (Option-cases (package_of e packages)) [
      | inl new ↦
          rw (violations, on_c, new)
            (violations-nil ((e, p) ∷ packages) cpus
              (λ a d q first in_a on_a found. elim (Bool-cases (e ==ℤ d)) [
                | inl same ↦
                    sym (some-inj (rw (package_of, same) at found))
                    ∙ agree c a d p q (inl refl) (inr in_a) (rw (eq_of_==ℤ e d same) at on_c) on_a
                | inr other ↦ known a d q first (inr in_a) on_a (rw (package_of, other) at found)
              ])
              (λ a b d p q in_a in_b. agree a b d p q (inr in_a) (inr in_b)))
      | inr (first, old) ↦
          let same : (first ==ℤ p) ≡ true =
            rw (known c e p first (inl refl) on_c old) (==ℤ_refl p) in
          rw (violations, on_c, old, same)
            (violations-nil packages cpus (λ a d p first in_a. known a d p first (inr in_a))
              (λ a b d p q in_a in_b. agree a b d p q (inr in_a) (inr in_b)))
    ]
  ]

  -- If any two online CPUs on the same die, each with the number of a package, are in the same
  -- package, then `test_die_package_relationship` passes, and records no failure.
  pub test_die_package_relationship_complete :
      (s : Case)
      → ((a b : ℕ) (d p q : ℤ)
          → In a F.online_list
          → In b F.online_list
          → die_and_package a ≡ some (d, p)
          → die_and_package b ≡ some (d, q)
          → p ≡ q)
      → test_die_package_relationship s ≡ (ok tt, s)
  unfolding test_die_package_relationship package_of fail_if
  test_die_package_relationship_complete s agree =
      rw
        (
          test_die_package_relationship,
          violations-nil [] F.online_list (λ a d p first in_a on_a found. cc) agree,
        )
        refl
