-- ===== src/Dlpar/Suite/Console.antt =====
-- What the loops of dlpar/dlpar_main.py rely on in the management console, and how the calls of
-- dlpar/dlpar_api/api.py run on a console that keeps to it.
use avocado_misc_tests.Prelude.{
  ℕ, ◌+◌, ◌≤◌, ◌<◌, String, ◌<>◌, ◌≡◌, refl, ◌∙◌, true, false, some, ◌∷◌, arith,
}
use avocado_misc_tests.Prelude.Int.{ℤ, pos}
use avocado_misc_tests.Text.{strip, int_of_string, string_of_int, is_empty}
use avocado_misc_tests.Python.{ok, ◌>>=◌}
use avocado_misc_tests.Dlpar.Host.{Host}
use avocado_misc_tests.Dlpar.Num.{int, num_str}
use avocado_misc_tests.Dlpar.Session.{
  Machine, Session, Action, hmc_text, answered, sleep, hmc_ran, debug,
}
use avocado_misc_tests.Dlpar.Engine.{
  one, proc_query, change_command, dlpar_engine, get_cpu_option, cpu_int,
}
use avocado_misc_tests.Dlpar.Dedicated.{procs_flag, rest_a_while}
use avocado_misc_tests.Dlpar.Suite.Outcome.{capacity_markers, contains_any}

module _ ⦃H : Host⦄ where
  -- A console that holds one partition of dedicated processors, as its manual describes `lshwres` and
  -- `chhwres`: a query prints the number and changes nothing, an addition within the maximum is done in
  -- silence, one beyond it is refused with one of the messages about capacity and changes nothing, and
  -- a pause changes nothing.
  pub record DedicatedConsole (m : Machine) : Type 0 where
    pub limit : ℕ
    -- the most that one command may add
    pub largest : ℕ
    pub procs : H.World → ℕ
    pub shows :
        (w : H.World)
        → (reply : String) × (v : H.World) × (H.hmc_cmd (proc_query m "curr_procs") w
            ≡ (some reply, v))
          × (int_of_string (strip reply) ≡ some (pos (procs w)))
          × (procs v ≡ procs w)
    pub adds :
        (w : H.World) (q : ℕ)
        → q ≤ largest
        → procs w + q ≤ limit
        → (v : H.World) × (H.hmc_cmd (change_command (procs_flag "a") m (string_of_int (pos q))) w
            ≡ (some "", v))
          × (procs v ≡ procs w + q)
    pub refuses :
        (w : H.World) (q : ℕ)
        → q ≤ largest
        → limit < procs w + q
        → (reply : String) × (v : H.World) × (H.hmc_cmd
              (change_command (procs_flag "a") m (string_of_int (pos q)))
              w
            ≡ (some reply, v))
          × (is_empty reply ≡ false)
          × (contains_any reply capacity_markers ≡ true)
          × (procs v ≡ procs w)
    pub rests : (n : ℤ) (w : H.World) → procs (H.sleep n w) ≡ procs w

module _ ⦃H : Host⦄ (m : Machine) (L : DedicatedConsole m) where
  -- A test object that is connected, whose primary partition has n processors.
  pub record At (n : ℕ) (s : Session H) : Type 0 where
    pub console : Machine
    pub hmc : s.hmc ≡ some console
    pub primary : s.linux_1 ≡ some m
    pub procs : L.procs s.world ≡ n

  -- a call that returned this value, and left so many processors
  abbrev pub Runs : {A : Type 0} → Action A → Session H → A → ℕ → Type 0
  Runs call s a n = (t : Session H) × (call s ≡ (ok a, t)) × At n t

  pub hmc_text-Runs :
      (c out : String) (v : H.World) {n k : ℕ} {s : Session H}
      → At n s
      → H.hmc_cmd c s.world ≡ (some out, v)
      → L.procs v ≡ k
      → Runs (hmc_text c) s out k
  unfolding hmc_text answered ◌>>=◌
  hmc_text-Runs c out v {n} {k} {s} at reply now = (
    record s { world = v; history = hmc_ran c out ∷ s.history },
    ground (arith, at.hmc, reply),
    record { console = at.console; hmc = at.hmc; primary = at.primary; procs = now },
  )

  -- A query of the processors reads the number, and leaves it.
  pub cpu_int-Runs : {n : ℕ} {s : Session H} → At n s → Runs (cpu_int m "curr_procs") s (pos n) n
  unfolding cpu_int get_cpu_option ◌>>=◌
  cpu_int-Runs {n} {s} at =
      let (out, v, reply, value, same) = L.shows s.world in
      let (t, ran, now) =
        hmc_text-Runs (proc_query m "curr_procs") out v at reply (same ∙ at.procs) in
      let line =
        debug ("curr_procs" <> (": " <> (strip out <> (" for partition " <> m.partition)))) in
      (
        record t { log = line ∷ t.log },
        ground (arith, ran, value, at.procs),
        record { console = now.console; hmc = now.hmc; primary = now.primary; procs = now.procs },
      )

  pub sleep-Runs : (k : ℤ) {n : ℕ} {s : Session H} → At n s → Runs (sleep k) s tt n
  unfolding sleep
  sleep-Runs k {n} {s} at = (
    _,
    refl,
    record {
      console = at.console;
      hmc = at.hmc;
      primary = at.primary;
      procs = L.rests k s.world ∙ at.procs;
    },
  )

  pub rest_a_while-Runs :
      (before after : String) {n : ℕ} {s : Session H}
      → At n s
      → Runs (rest_a_while before after) s tt n
  unfolding rest_a_while sleep ◌>>=◌
  rest_a_while-Runs before after {n} {s} at = (
    _,
    refl,
    record {
      console = at.console;
      hmc = at.hmc;
      primary = at.primary;
      procs = L.rests s.sleep_time s.world ∙ at.procs;
    },
  )

  -- an addition within the maximum, and one beyond it
  pub engine-adds :
      (q : ℕ) {n : ℕ} {s : Session H}
      → At n s
      → q ≤ L.largest
      → n + q ≤ L.limit
      → Runs (dlpar_engine (procs_flag "a") (one m) (int (pos q))) s "" (n + q)
  unfolding dlpar_engine num_str ◌>>=◌
  engine-adds q {n} {s} at small fits =
      let (v, reply, now) = L.adds s.world q small (omega (arith, at.procs, fits)) in
      let command = change_command (procs_flag "a") m (string_of_int (pos q)) in
      let (t, ran, after) = hmc_text-Runs command "" v at reply (omega (arith, now, at.procs)) in
      (
        record t { cmd_result = some "" },
        ground (arith, ran),
        record {
          console = after.console;
          hmc = after.hmc;
          primary = after.primary;
          procs = after.procs;
        },
      )

  pub engine-refuses :
      (q : ℕ) {n : ℕ} {s : Session H}
      → At n s
      → q ≤ L.largest
      → L.limit < n + q
      → (reply : String) × (is_empty reply ≡ false)
        × (contains_any reply capacity_markers ≡ true)
        × (t : Session H) × (dlpar_engine (procs_flag "a") (one m) (int (pos q)) s ≡ (ok reply, t))
        × (t.cmd_result ≡ some reply)
        × At n t
  unfolding dlpar_engine num_str ◌>>=◌
  engine-refuses q {n} {s} at small over =
      let (out, v, reply, full, marked, now) =
        L.refuses s.world q small (omega (arith, at.procs, over)) in
      let command = change_command (procs_flag "a") m (string_of_int (pos q)) in
      let (t, ran, after) = hmc_text-Runs command out v at reply (now ∙ at.procs) in
      (
        out,
        full,
        marked,
        record t { cmd_result = some out },
        ground (arith, ran),
        refl,
        record {
          console = after.console;
          hmc = after.hmc;
          primary = after.primary;
          procs = after.procs;
        },
      )
