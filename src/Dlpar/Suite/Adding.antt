-- ===== src/Dlpar/Suite/Adding.antt =====
-- dlpar/dlpar_main.py: the loop of `test_cpu_add` over the amounts of a dedicated partition, on a
-- console that keeps to its manual.
use avocado_misc_tests.Prelude.{
  ℕ, ◌+◌, ◌≤◌, ◌<◌, String, ◌<>◌, ◌≡◌, refl, ◌∙◌, Bool, true, false, none, some, List, [], ◌∷◌,
  arith, leb, map, str_eq, str_eq_iff, if◌then◌else◌, Bool-cases, inl, inr, leb→le, leb→gt,
}
use avocado_misc_tests.Prelude.Int.{pos, ◌+ℤ◌, ◌==ℤ◌}
use avocado_misc_tests.Prelude.Lists.{All}
use avocado_misc_tests.Text.{is_empty}
use avocado_misc_tests.Python.{Result, ok, err, cancel, ◌>>=◌, for_each}
use avocado_misc_tests.Dlpar.Host.{Host}
use avocado_misc_tests.Dlpar.Num.{Number, int, num_str, num_int, num_add, num_eq}
use avocado_misc_tests.Dlpar.Session.{Machine, Session, Action, info}
use avocado_misc_tests.Dlpar.Connections.{check_log}
use avocado_misc_tests.Python.Inversion.{>>=-ok}
use avocado_misc_tests.Dlpar.Engine.{one}
use avocado_misc_tests.Dlpar.Validate.{amount, require, procs_of, confirm_add, dlpar_cpu_validation}
use avocado_misc_tests.Dlpar.Dedicated.{report, add_dedicated_cpu, add_ded_cpu}
use avocado_misc_tests.Dlpar.Dedicated.Outcome.{rest_a_while-quiet}
use avocado_misc_tests.Dlpar.Suite.Outcome.{
  capacity_markers, contains_any, stop_if_refused, cancel_on_capacity_exceeded,
}
use avocado_misc_tests.Dlpar.Suite.Cpu.{add_round}
use avocado_misc_tests.Dlpar.Suite.Console.{
  DedicatedConsole, At, Runs, cpu_int-Runs, sleep-Runs, rest_a_while-Runs, engine-adds,
  engine-refuses,
}

not_empty : (t : String) → is_empty t ≡ false → str_eq t "" ≡ false
not_empty t e = elim (Bool-cases (str_eq t "")) [
  | inl h ↦ let impossible : is_empty "" ≡ false = rw ((str_eq_iff t "").0 h) at e in cc
  | inr h ↦ h
]

-- What the loop should come to: the amounts are added as long as they fit, and the first that does
-- not ends it.
unfoldable pub add_all : ℕ → ℕ → List ℕ → ℕ × Bool
add_all limit n [] = (n, true)
add_all limit n (q ∷ qs) =
    let rest = add_all limit (n + q) qs in if leb (n + q) limit then rest else (n, false)

module _ ⦃H : Host⦄ (m : Machine) (L : DedicatedConsole m) where
  pub require-Runs :
      (message e_msg : String) (condition : Bool) (failure : Action Unit) {n : ℕ} {s : Session H}
      → condition ≡ true
      → At m L n s
      → Runs m L (require message condition e_msg failure) s tt n
  unfolding require check_log ◌>>=◌
  require-Runs message e_msg false failure e at = cc
  require-Runs message e_msg true failure e at = (
    _,
    refl,
    record { console = at.console; hmc = at.hmc; primary = at.primary; procs = at.procs },
  )

  pub procs_of-Runs : {n : ℕ} {s : Session H} → At m L n s → Runs m L (procs_of m) s (int (pos n)) n
  unfolding ◌>>=◌
  procs_of-Runs at = let (t, ran, now) = cpu_int-Runs m L at in (t, ground (arith, ran), now)

  dlpar_cpu_validation-Runs :
      (q n : ℕ) {s : Session H}
      → At m L (n + q) s
      → Runs m L
          (dlpar_cpu_validation "a" (one m) (int (pos q)) (amount (int (pos n))))
          s
          tt
          (n + q)
  unfolding dlpar_cpu_validation num_add num_eq ◌+ℤ◌ ◌>>=◌
  dlpar_cpu_validation-Runs q n {s} at =
      let confirm = confirm_add " dedicated cpus" m (int (pos q)) (int (pos n)) in
      let (t, ran, now) = procs_of-Runs at in
      let fits : (pos (n + q) ==ℤ (pos n +ℤ pos q)) ≡ true = ground arith in
      let (u, passed, after) = require-Runs _ _ _ _ fits now in
      (u, >>=-ok (procs_of m) confirm ran ∙ passed, after)

  pub add_dedicated_cpu-Runs :
      (q : ℕ) {n : ℕ} {s : Session H}
      → At m L n s
      → q ≤ L.largest
      → n + q ≤ L.limit
      → Runs m L (add_dedicated_cpu m (int (pos q))) s none (n + q)
  unfolding add_dedicated_cpu ◌>>=◌
  add_dedicated_cpu-Runs q {n} {s} at small fits =
      let (s1, e1, at_1) = cpu_int-Runs m L at in
      let (s2, e2, at_2) = sleep-Runs m L s1.sleep_time at_1 in
      let (s3, e3, at_3) = engine-adds m L q at_2 small fits in
      let (s4, e4, at_4) =
        rest_a_while-Runs m L "Sleeping for " " seconds before proceeding" at_3 in
      let (s5, e5, at_5) = dlpar_cpu_validation-Runs q n at_4 in
      (s5, ground (arith, e1, e2, e3, e4, e5), at_5)

  -- a refused amount: the output is kept, nothing is validated
  add_dedicated_cpu-refused :
      (q : ℕ) {n : ℕ} {s : Session H}
      → At m L n s
      → q ≤ L.largest
      → L.limit < n + q
      → (reply : String) × (is_empty reply ≡ false)
        × (contains_any reply capacity_markers ≡ true)
        × (t : Session H) × (add_dedicated_cpu m (int (pos q)) s ≡ (ok (some 1), t))
        × (t.cmd_result ≡ some reply)
        × At m L n t
  unfolding add_dedicated_cpu ◌>>=◌
  add_dedicated_cpu-refused q {n} {s} at small over =
      let (s1, e1, at_1) = cpu_int-Runs m L at in
      let (s2, e2, at_2) = sleep-Runs m L s1.sleep_time at_1 in
      let (reply, full, marked, s3, e3, kept, at_3) = engine-refuses m L q at_2 small over in
      let (s4, e4, at_4) =
        rest_a_while-Runs m L "Sleeping for " " seconds before proceeding" at_3 in
      (
        reply,
        full,
        marked,
        s4,
        ground (arith, e1, e2, e3, e4, not_empty reply full),
        (rest_a_while-quiet _ _ s3 s4 e4).1 ∙ kept,
        at_4,
      )

  add_round-Runs :
      (cpu : Number) (q : ℕ) {n : ℕ} {s : Session H}
      → num_int cpu ≡ pos q
      → At m L n s
      → q ≤ L.largest
      → n + q ≤ L.limit
      → Runs m L (add_round cpu) s tt (n + q)
  unfolding add_round add_ded_cpu stop_if_refused report ◌>>=◌
  add_round-Runs cpu q {n} {s} is_q at small fits =
      let (t, ran, now) = add_dedicated_cpu-Runs q at small fits in
      let lines =
        info ("===============> " <> (num_str cpu <> " cpu got added=======>\n "))
        ∷ info "Test finished successfully."
        ∷ t.log in
      (
        record t { log = lines },
        ground (arith, at.primary, is_q, ran),
        record { console = now.console; hmc = now.hmc; primary = now.primary; procs = now.procs },
      )

  add_round-refused :
      (cpu : Number) (q : ℕ) {n : ℕ} {s : Session H}
      → num_int cpu ≡ pos q
      → At m L n s
      → q ≤ L.largest
      → L.limit < n + q
      → (reply : String) × (contains_any reply capacity_markers ≡ true)
        × (t : Session H) × (add_round cpu s ≡ (err (cancel reply), t))
        × At m L n t
  unfolding add_round add_ded_cpu stop_if_refused cancel_on_capacity_exceeded report ◌>>=◌
  add_round-refused cpu q {n} {s} is_q at small over =
      let (reply, full, marked, t, ran, kept, now) = add_dedicated_cpu-refused q at small over in
      (reply, marked, t, ground (arith, at.primary, is_q, ran, kept, full, marked), now)

  -- how a loop ends: it returns, or cancels the test with the console's message about capacity
  abbrev pub Ends : Bool → Result Unit → Type 0
  Ends true r = r ≡ ok tt
  Ends false r =
      (reply : String) × (contains_any reply capacity_markers ≡ true) × (r ≡ err (cancel reply))

  -- On a console that keeps to its manual the loop of `test_cpu_add` always ends, over any amounts
  -- that `int` takes to the naturals qs, none beyond what one command may add. The partition has then
  -- got the amounts that fit one after the other, up to the first that exceeds the maximum, and no
  -- more: if all fit, the loop has returned, else it has cancelled the test with the console's
  -- message.
  pub add_rounds-refine :
      (payload : List Number) (qs : List ℕ) (n : ℕ) (s : Session H)
      → map num_int payload ≡ map pos qs
      → All (λ q. q ≤ L.largest) qs
      → At m L n s
      → (r : Result Unit) × (t : Session H) × (for_each payload add_round s ≡ (r, t))
        × Ends (add_all L.limit n qs).1 r
        × At m L (add_all L.limit n qs).0 t
  unfolding add_all for_each ◌>>=◌
  add_rounds-refine [] [] n s same bound at = (ok tt, s, refl, refl, at)
  add_rounds-refine [] (q ∷ qs) n s same bound at = cc
  add_rounds-refine (cpu ∷ payload) [] n s same bound at = cc
  add_rounds-refine (cpu ∷ payload) (q ∷ qs) n s same (small, bound) at =
      elim (Bool-cases (leb (n + q) L.limit)) [
        | inl fits ↦
            let (s1, ran, at_1) = add_round-Runs cpu q (cc) at small (leb→le _ _ fits) in
            let (r, t, rest, ends, end) = add_rounds-refine payload qs (n + q) s1 (cc) bound at_1 in
            (r, t, ground (arith, ran, rest), rw fits ends, rw fits end)
        | inr over ↦
            let (reply, marked, t, ran, at_1) =
              add_round-refused cpu q (cc) at small (leb→gt _ _ over) in
            (
              err (cancel reply),
              t,
              ground (arith, ran),
              rw over (reply, marked, refl),
              rw over at_1,
            )
      ]
