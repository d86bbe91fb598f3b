-- ===== src/Topology/Validity.antt =====
-- cpu/cpu_die_topology.py: when `test_die_id_validity` passes, and what it returns.
use Prim.{absurd}
use avocado_misc_tests.Prelude.{
  ℕ, String, ◌≡◌, refl, ap, true, false, not, Bool-cases, some, Option-cases, List, [], ◌∷◌, inl,
  inr, arith,
}
use avocado_misc_tests.Prelude.Int.{ℤ, negsuc, leb_ℤ}
use avocado_misc_tests.Prelude.Lists.{In}
use avocado_misc_tests.Text.{int_of_string}
use avocado_misc_tests.Python.{Error, ok, err, fail, pure, ◌>>=◌, ◌>>◌}
use avocado_misc_tests.Topology.{
  Sysfs, Case, invalid_die_ids, fail_if, tear_down, tear_down-fail_if, read_topology_file, die_id,
}
use avocado_misc_tests.Topology.Checks.{is_invalid, invalid_ids, die_id_map, test_die_id_validity}

-- a text that is a number, and not below -1
valid-number :
    (text : String)
    → is_invalid text ≡ false
    → (d : ℤ) × (int_of_string text ≡ some d) × (leb_ℤ (negsuc 0) d ≡ true)
unfolding is_invalid
valid-number text valid = elim (Option-cases (int_of_string text)) [
  | inl bad ↦ let impossible = rw (is_invalid, bad) at valid in cc
  | inr (d, is) ↦
      let bound : not (leb_ℤ (negsuc 0) d) ≡ false = rw (is_invalid, is) at valid in
      (d, is, ground (arith, bound))
]

module _ ⦃F : Sysfs⦄ where
  invalid_ids-nil :
      (cpu : ℕ) (text : String) (cpus : List ℕ)
      → invalid_ids cpus ≡ []
      → In cpu cpus
      → read_topology_file cpu "die_id" ≡ some text
      → is_invalid text ≡ false
  unfolding invalid_ids
  invalid_ids-nil cpu text [] clean among reads = absurd among
  invalid_ids-nil cpu text (c ∷ cpus) clean (inl here) reads =
      let reads_c : read_topology_file c "die_id" ≡ some text = rw here at reads in
      elim (Bool-cases (is_invalid text)) [
        | inl bad ↦ let impossible = rw (invalid_ids, reads_c, bad) at clean in cc
        | inr good ↦ good
      ]
  invalid_ids-nil cpu text (c ∷ cpus) clean (inr later) reads =
      elim (Option-cases (read_topology_file c "die_id")) [
        | inl missing ↦
            invalid_ids-nil cpu text cpus (rw (invalid_ids, missing) at clean) later reads
        | inr (other, reads_c) ↦ elim (Bool-cases (is_invalid other)) [
          | inl bad ↦ let impossible = rw (invalid_ids, reads_c, bad) at clean in cc
          | inr good ↦
              invalid_ids-nil cpu text cpus (rw (invalid_ids, reads_c, good) at clean) later reads
        ]
      ]

  die_id_map-In :
      (cpu : ℕ) (d : ℤ) (cpus : List ℕ)
      → In cpu cpus
      → die_id cpu ≡ some d
      → In (cpu, d) (die_id_map cpus)
  unfolding die_id_map
  die_id_map-In cpu d [] among on = absurd among
  die_id_map-In cpu d (c ∷ cpus) (inl here) on =
      let on_c : die_id c ≡ some d = rw here at on in
      rw (die_id_map, on_c) (inl (ap (λ x. (x, d)) here))
  die_id_map-In cpu d (c ∷ cpus) (inr later) on =
      let rest = die_id_map-In cpu d cpus later on in
      elim (Option-cases (die_id c)) [
        | inl off ↦ rw (die_id_map, off) rest
        | inr (e, on_c) ↦ rw (die_id_map, on_c) (inr rest)
      ]

  passed-check :
      (s t : Case) (m : List (ℕ × ℤ))
      → test_die_id_validity s ≡ (ok m, t)
      → (invalid_ids F.online_list ≡ []) × (m ≡ die_id_map F.online_list)
  unfolding test_die_id_validity fail_if ◌>>=◌
  passed-check s t m h = checked (invalid_ids F.online_list) h
    where
      checked :
          (found : List (ℕ × String))
          → (fail_if found invalid_die_ids "FAIL: Invalid die_id values: "
                >> pure (die_id_map F.online_list))
              s
            ≡ (ok m, t)
          → (found ≡ []) × (m ≡ die_id_map F.online_list)
      checked [] e = (refl, cc)
      checked (bad ∷ rest) e = cc

  -- If `test_die_id_validity` passes, every online CPU with a die number has a number that is -1 or
  -- more, and the dictionary that it returns holds the CPU with that number.
  pub test_die_id_validity_sound :
      (s t : Case) (m : List (ℕ × ℤ)) (cpu : ℕ) (text : String)
      → test_die_id_validity s ≡ (ok m, t)
      → In cpu F.online_list
      → read_topology_file cpu "die_id" ≡ some text
      → (d : ℤ) × (int_of_string text ≡ some d) × (leb_ℤ (negsuc 0) d ≡ true) × In (cpu, d) m
  unfolding die_id
  test_die_id_validity_sound s t m cpu text h among reads =
      let (clean, is) = passed-check s t m h in
      let (d, number, bound) =
        valid-number text (invalid_ids-nil cpu text F.online_list clean among reads) in
      let on : die_id cpu ≡ some d = rw (die_id, reads, number) refl in
      (d, number, bound, rw is (die_id_map-In cpu d F.online_list among on))

  -- If `test_die_id_validity` ends with an exception, `tearDown` fails the test from the state that it
  -- leaves.
  pub test_die_id_validity_recorded :
      (s t : Case) (e : Error)
      → test_die_id_validity s ≡ (err e, t)
      → tear_down t ≡ (err (fail "CPU die topology validation failed"), t)
  unfolding test_die_id_validity ◌>>=◌ fail_if
  test_die_id_validity_recorded s t e h = recorded (invalid_ids F.online_list) h
    where
      recorded :
          (found : List (ℕ × String))
          → (fail_if found invalid_die_ids "FAIL: Invalid die_id values: "
                >> pure (die_id_map F.online_list))
              s
            ≡ (err e, t)
          → tear_down t ≡ (err (fail "CPU die topology validation failed"), t)
      recorded [] h = cc
      recorded (bad ∷ rest) h =
          tear_down-fail_if bad rest invalid_die_ids "FAIL: Invalid die_id values: " s t
            (ap (λ r. r.1) h)
