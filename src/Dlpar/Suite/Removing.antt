-- ===== src/Dlpar/Suite/Removing.antt =====
-- dlpar/dlpar_main.py: the loops of `test_cpu_rm` and `test_mix_cpu` over the amounts of a dedicated
-- partition, on a console that keeps to its manual.
use avocado_misc_tests.Prelude.{
  ℕ, ◌+◌, ◌≤◌, ◌<>◌, ◌≡◌, refl, ◌∙◌, true, none, some, List, [], ◌∷◌, arith, map,
}
use avocado_misc_tests.Prelude.Int.{pos, ◌-ℤ◌, ◌==ℤ◌}
use avocado_misc_tests.Prelude.Lists.{All, sum}
use avocado_misc_tests.Text.{string_of_int}
use avocado_misc_tests.Python.{◌>>=◌, for_each}
use avocado_misc_tests.Python.Inversion.{>>=-ok}
use avocado_misc_tests.Dlpar.Host.{Host}
use avocado_misc_tests.Dlpar.Num.{Number, int, num_str, num_int, num_sub, num_eq}
use avocado_misc_tests.Dlpar.Session.{Machine, Session, info}
use avocado_misc_tests.Dlpar.Engine.{one, change_command, dlpar_engine}
use avocado_misc_tests.Dlpar.Validate.{amount, procs_of, confirm_remove, dlpar_cpu_validation}
use avocado_misc_tests.Dlpar.Dedicated.{
  procs_flag, report, add_ded_cpu, remove_dedicated_cpu, rem_ded_cpu,
}
use avocado_misc_tests.Dlpar.Suite.Outcome.{stop_if_refused}
use avocado_misc_tests.Dlpar.Suite.Cpu.{remove_round, mix_round}
use avocado_misc_tests.Dlpar.Suite.Console.{
  DedicatedConsole, At, Runs, hmc_text-Runs, cpu_int-Runs, rest_a_while-Runs,
}
use avocado_misc_tests.Dlpar.Suite.Adding.{require-Runs, procs_of-Runs, add_dedicated_cpu-Runs}

module _ ⦃H : Host⦄ (m : Machine) (L : DedicatedConsole m) where
  -- As the console's manual says of a removal: it is done in silence as long as the partition keeps
  -- its minimum.
  pub record RemovingConsole : Type 0 where
    pub least : ℕ
    pub removes :
        (w : H.World) (k q : ℕ)
        → q ≤ L.largest
        → L.procs w ≡ k + q
        → least ≤ k
        → (v : H.World) × (H.hmc_cmd (change_command (procs_flag "r") m (string_of_int (pos q))) w
            ≡ (some "", v))
          × (L.procs v ≡ k)

module _ ⦃H : Host⦄ (m : Machine) (L : DedicatedConsole m) (R : RemovingConsole m L) where
  engine-removes :
      (k q : ℕ) {s : Session H}
      → At m L (k + q) s
      → q ≤ L.largest
      → R.least ≤ k
      → Runs m L (dlpar_engine (procs_flag "r") (one m) (int (pos q))) s "" k
  unfolding dlpar_engine num_str ◌>>=◌
  engine-removes k q {s} at small keeps =
      let (v, reply, now) = R.removes s.world k q small at.procs keeps in
      let command = change_command (procs_flag "r") m (string_of_int (pos q)) in
      let (t, ran, after) = hmc_text-Runs m L command "" v at reply now in
      (
        record t { cmd_result = some "" },
        ground (arith, ran),
        record {
          console = after.console;
          hmc = after.hmc;
          primary = after.primary;
          procs = after.procs;
        },
      )

  removal-Runs :
      (k q : ℕ) {s : Session H}
      → At m L k s
      → Runs m L
          (dlpar_cpu_validation "r" (one m) (int (pos q)) (amount (int (pos (k + q)))))
          s
          tt
          k
  unfolding dlpar_cpu_validation num_sub num_eq ◌-ℤ◌ ◌>>=◌
  removal-Runs k q {s} at =
      let confirm = confirm_remove " dedicated cpus" m (int (pos q)) (int (pos (k + q))) in
      let (t, ran, now) = procs_of-Runs m L at in
      let fits : (pos k ==ℤ (pos (k + q) -ℤ pos q)) ≡ true = ground arith in
      let (u, passed, after) = require-Runs m L _ _ _ _ fits now in
      (u, >>=-ok (procs_of m) confirm ran ∙ passed, after)

  remove_dedicated_cpu-Runs :
      (k q : ℕ) {s : Session H}
      → At m L (k + q) s
      → q ≤ L.largest
      → R.least ≤ k
      → Runs m L (remove_dedicated_cpu m (int (pos q))) s none k
  unfolding remove_dedicated_cpu ◌>>=◌
  remove_dedicated_cpu-Runs k q {s} at small keeps =
      let (s1, e1, at_1) = cpu_int-Runs m L at in
      let (s2, e2, at_2) = engine-removes k q at_1 small keeps in
      let (s3, e3, at_3) =
        rest_a_while-Runs m L "Sleeping for " " seconds before proceeding" at_2 in
      let (s4, e4, at_4) = removal-Runs k q at_3 in (s4, ground (arith, e1, e2, e3, e4), at_4)

  remove_round-Runs :
      (cpu : Number) (k q : ℕ) {s : Session H}
      → num_int cpu ≡ pos q
      → At m L (k + q) s
      → q ≤ L.largest
      → R.least ≤ k
      → Runs m L (remove_round cpu) s tt k
  unfolding remove_round rem_ded_cpu stop_if_refused report ◌>>=◌
  remove_round-Runs cpu k q {s} is_q at small keeps =
      let (t, ran, now) = remove_dedicated_cpu-Runs k q at small keeps in
      let lines =
        info ("=====> " <> (num_str cpu <> " cpus got removed====>\n "))
        ∷ info "Test finished successfully."
        ∷ t.log in
      (
        record t { log = lines },
        ground (arith, at.primary, is_q, ran),
        record { console = now.console; hmc = now.hmc; primary = now.primary; procs = now.procs },
      )

  -- On a console that keeps to its manual the loop of `test_cpu_rm` returns, over any amounts that
  -- `int` takes to the naturals qs, none beyond what one command may take, on a partition that has
  -- their sum above k and keeps its minimum with k. The partition then has k processors.
  pub remove_rounds-Runs :
      (payload : List Number) (qs : List ℕ) (k : ℕ) (s : Session H)
      → map num_int payload ≡ map pos qs
      → All (λ q. q ≤ L.largest) qs
      → R.least ≤ k
      → At m L (k + sum qs) s
      → Runs m L (for_each payload remove_round) s tt k
  unfolding for_each ◌>>=◌
  remove_rounds-Runs [] [] k s same bound keeps at = (
    s,
    refl,
    record {
      console = at.console;
      hmc = at.hmc;
      primary = at.primary;
      procs = omega (arith, at.procs);
    },
  )
  remove_rounds-Runs [] (q ∷ qs) k s same bound keeps at = cc
  remove_rounds-Runs (cpu ∷ payload) [] k s same bound keeps at = cc
  remove_rounds-Runs (cpu ∷ payload) (q ∷ qs) k s same (small, bound) keeps at =
      let here : At m L (k + sum qs + q) s = record {
        console = at.console;
        hmc = at.hmc;
        primary = at.primary;
        procs = omega (arith, at.procs);
      } in
      let (s1, ran, at_1) =
        remove_round-Runs cpu (k + sum qs) q (cc) here small (omega (arith, keeps)) in
      let (t, rest, end) = remove_rounds-Runs payload qs k s1 (cc) bound keeps at_1 in
      (t, ground (arith, ran, rest), end)

  mix_round-Runs :
      (q : ℕ) {n : ℕ} {s : Session H}
      → At m L n s
      → q ≤ L.largest
      → n + q ≤ L.limit
      → R.least ≤ n
      → Runs m L (mix_round q) s tt n
  unfolding mix_round add_ded_cpu rem_ded_cpu stop_if_refused report ◌>>=◌
  mix_round-Runs q {n} {s} at small fits keeps =
      let (t, ran, now) = add_dedicated_cpu-Runs m L q at small fits in
      let text = num_str (int (pos q)) in
      let t' : Session H = record t {
        log =
            info ("===============>" <> (text <> " cpus got added=======>\n "))
            ∷ info "Test finished successfully."
            ∷ t.log;
      } in
      let now' : At m L (n + q) t' = record {
        console = now.console;
        hmc = now.hmc;
        primary = now.primary;
        procs = now.procs;
      } in
      let (u, removed, end) = remove_dedicated_cpu-Runs n q now' small keeps in
      let lines =
        info ("===============>" <> (text <> " cpus got removed=======>\n "))
        ∷ info "Test finished successfully."
        ∷ u.log in
      (
        record u { log = lines },
        ground (arith, at.primary, ran, now.primary, removed),
        record { console = end.console; hmc = end.hmc; primary = end.primary; procs = end.procs },
      )

  -- On a console that keeps to its manual the loop of `test_mix_cpu` returns over any amounts that
  -- each fit above what the partition has, none beyond what one command may take, if that is at least
  -- the partition's minimum. The partition then has as many processors as before.
  pub mix_rounds-Runs :
      (qs : List ℕ) (n : ℕ) (s : Session H)
      → All (λ q. (q ≤ L.largest) × (n + q ≤ L.limit)) qs
      → R.least ≤ n
      → At m L n s
      → Runs m L (for_each qs mix_round) s tt n
  unfolding for_each ◌>>=◌
  mix_rounds-Runs [] n s bound keeps at = (s, refl, at)
  mix_rounds-Runs (q ∷ qs) n s ((small, fits), bound) keeps at =
      let (s1, ran, at_1) = mix_round-Runs q at small fits keeps in
      let (t, rest, end) = mix_rounds-Runs qs n s1 bound keeps at_1 in
      (t, ground (arith, ran, rest), end)
