-- ===== src/Dlpar/Units/Outcome.antt =====
-- dlpar/dlpar_api/api.py: the readings around an operation on processing units, and the ways in which
-- it can return.
use avocado_misc_tests.Prelude.{
  ℕ, String, ◌<>◌, ◌≡◌, ◌≢◌, ◌∙◌, ◌⊎◌, inl, inr, Bool, true, Bool-cases, Option, none, some, ◌∷◌,
  arith, str_eq, str_eq_iff, if◌then◌else◌,
}
use mathlib.Core.Path.{subst, sym}
use avocado_misc_tests.Prelude.Int.{ℤ}
use avocado_misc_tests.Text.{strip}
use avocado_misc_tests.Python.{test_exception, ok, pure, ◌>>=◌}
use avocado_misc_tests.Python.Inversion.{>>=-inv, >>=-eq-ok, or_raise-eq-ok}
use avocado_misc_tests.Dlpar.Host.{Host}
use avocado_misc_tests.Dlpar.Num.{Number, num_str, num_add, num_sub}
use avocado_misc_tests.Dlpar.Session.{Machine, Session, Action, hmc_text}
use avocado_misc_tests.Dlpar.Engine.{one, proc_query, get_cpu_option, shown}
use avocado_misc_tests.Dlpar.Engine.Replies.{console, Read, Sent, hmc_text-ok}
use avocado_misc_tests.Dlpar.Validate.{amount, reads, require, throw, dlpar_cpu_validation}
use avocado_misc_tests.Dlpar.Validate.Passed.{require-ok}
use avocado_misc_tests.Dlpar.Dedicated.Outcome.{console-Ran}
use avocado_misc_tests.Dlpar.Units.{cpu_float, last_output}

module _ ⦃H : Host⦄ where
  -- A query whose stripped reply is this text, as the console sees it.
  pub record Printed (query text : String) (s t : Session H) : Type 0 where
    pub reply : String
    pub stripped : strip reply ≡ text
    pub wires : console t.history ≡ (query, reply) ∷ console s.history

  get_cpu_option-Printed :
      (m : Machine) (option text : String) (s t : Session H)
      → get_cpu_option m option s ≡ (ok text, t)
      → Printed (proc_query m option) text s t
  unfolding get_cpu_option ◌>>=◌
  get_cpu_option-Printed m option text s t h =
      >>=-inv (hmc_text (proc_query m option)) (shown option (" for partition " <> m.partition)) h
        λ out s1 ran logged. record {
          reply = out;
          stripped = ground (arith, logged);
          wires = ground (arith, logged, console-Ran (hmc_text-ok (proc_query m option) ran));
        }

  pub cpu_float-Printed :
      (m : Machine) (option : String) (x : H.Float) (s t : Session H)
      → cpu_float m option s ≡ (ok x, t)
      → (text : String) × (H.float_of_string text ≡ some x) × Printed (proc_query m option) text s t
  unfolding cpu_float
  cpu_float-Printed m option x s t h = >>=-inv _ _ h λ text s1 asked converted.
      let (value, same) = or_raise-eq-ok (H.float_of_string text) _ converted in
      (
        text,
        value,
        subst (λ y. Printed (proc_query m option) text s y) (sym same)
            (get_cpu_option-Printed m option text s s1 asked),
      )

  -- the amount that was printed, compared with what it should be, and then required
  reads-Printed :
      (m : Machine) (option expected message e_msg : String) (s v t : Session H) (fits : Bool)
      (u : Unit)
      → reads get_cpu_option m option expected s ≡ (ok fits, v)
      → require message fits e_msg (throw e_msg) v ≡ (ok u, t)
      → Printed (proc_query m option) expected s t
  reads-Printed m option expected message e_msg s v t fits u read rest =
      let (is_true, quiet) = require-ok message e_msg fits (test_exception e_msg) rest in
      >>=-inv (get_cpu_option m option) (λ text. pure (str_eq text expected)) read
        λ text s1 asked e.
          let p = get_cpu_option-Printed m option text s s1 asked in
          let equal : str_eq text expected ≡ true = ground (arith, e, is_true) in
          record {
            reply = p.reply;
            stripped = p.stripped ∙ (str_eq_iff text expected).0 equal;
            wires = ground (arith, quiet.history, e, p.wires);
          }

  pub units_a-Printed :
      (m : Machine) (quantity before : Number) (s t : Session H) (u : Unit)
      → dlpar_cpu_validation "cpu_a" (one m) quantity (amount before) s ≡ (ok u, t)
      → Printed (proc_query m "curr_proc_units") (num_str (num_add before quantity)) s t
  unfolding dlpar_cpu_validation ◌>>=◌
  units_a-Printed m quantity before s t u h =
      let what = num_str quantity <> (" proc units to partition " <> (m.partition <> ".")) in
      let expected = num_str (num_add before quantity) in
      let confirm : Bool → Action Unit = λ fits.
        require ("Adding " <> what) fits ("Error adding " <> what)
          (throw ("Error adding " <> what)) in
      let (fits, v, read, rest) =
        >>=-eq-ok (reads get_cpu_option m "curr_proc_units" expected) confirm h in
      reads-Printed m "curr_proc_units" expected _ _ s v t fits u read rest

  pub units_r-Printed :
      (m : Machine) (quantity before : Number) (s t : Session H) (u : Unit)
      → dlpar_cpu_validation "cpu_r" (one m) quantity (amount before) s ≡ (ok u, t)
      → Printed (proc_query m "curr_proc_units") (num_str (num_sub before quantity)) s t
  unfolding dlpar_cpu_validation ◌>>=◌
  units_r-Printed m quantity before s t u h =
      let what = num_str quantity <> (" proc units from partition " <> (m.partition <> ".")) in
      let expected = num_str (num_sub before quantity) in
      let confirm : Bool → Action Unit = λ fits.
        require ("Removing " <> what) fits ("Error removing " <> what)
          (throw ("Error removing " <> what)) in
      let (fits, v, read, rest) =
        >>=-eq-ok (reads get_cpu_option m "curr_proc_units" expected) confirm h in
      reads-Printed m "curr_proc_units" expected _ _ s v t fits u read rest

  -- What an operation on processing units that returned with no early return has exchanged with the
  -- console: the units before, the processors before, the command in silence, and the units after.
  pub record UnitsChanged (query_units query_procs command : String) (change : H.Float → Number)
      (s t : Session H) : Type 0 where
    pub before : H.Float
    pub asked : String
    pub asked_procs : String
    pub answer : String
    pub read_before : H.float_of_string (strip asked) ≡ some before
    pub read_now : strip answer ≡ num_str (change before)
    pub wires :
        console t.history
        ≡ (query_units, answer)
          ∷ (command, "")
          ∷ (query_procs, asked_procs)
          ∷ (query_units, asked)
          ∷ console s.history

  -- the early return: the console printed something on the command, which is kept
  pub record UnitsRefused (query_units query_procs command : String) (s t : Session H)
      : Type 0 where
    pub asked : String
    pub asked_procs : String
    pub reply : String
    pub said : reply ≢ ""
    pub wires :
        console t.history
        ≡ (command, reply) ∷ (query_procs, asked_procs) ∷ (query_units, asked) ∷ console s.history
    pub kept : t.cmd_result ≡ some reply

  -- how such an operation returned: `none` is the end of its method
  abbrev pub UnitsAnswered :
      (query_units query_procs command : String)
      → (H.Float → Number)
      → Option ℕ
      → Session H
      → Session H
      → Type 0
  UnitsAnswered query_units query_procs command change r s t =
      (r ≡ none) × UnitsChanged query_units query_procs command change s t
      ⊎ (r ≡ some 1) × UnitsRefused query_units query_procs command s t

  last_output-ok :
      (out reply : String) (s t : Session H)
      → s.cmd_result ≡ some reply
      → last_output s ≡ (ok out, t)
      → (out ≡ reply) × (t ≡ s)
  unfolding ◌>>=◌
  last_output-ok out reply s t kept h = ground arith

  -- an operation from its readings on: `branch` is what it does after a silent command
  pub conclude_units :
      (m : Machine) (command text sent_out out : String) (before : H.Float) (procs : ℤ)
      (change : H.Float → Number) (branch : Action (Option ℕ)) {s s1 s2 s3 s4 t : Session H}
      {r : Option ℕ}
      → H.float_of_string text ≡ some before
      → Printed (proc_query m "curr_proc_units") text s s1
      → Read (proc_query m "curr_procs") procs s1 s2
      → Sent command sent_out s2 s3
      → last_output s3 ≡ (ok out, s4)
      → (branch s4 ≡ (ok r, t)
          → (r ≡ none) × Printed (proc_query m "curr_proc_units") (num_str (change before)) s4 t)
      → (if str_eq out "" then branch else pure (some 1)) s4 ≡ (ok r, t)
      → UnitsAnswered
          (proc_query m "curr_proc_units")
          (proc_query m "curr_procs")
          command
          change
          r
          s
          t
  conclude_units m command text sent_out out before procs change branch {s} {s1} {s2} {s3} {s4} {t}
        {r} value units asked_procs sent last validated h =
      let (is_out, same) = last_output-ok out sent_out s3 s4 sent.kept last in
      elim (Bool-cases (str_eq out "")) [
        | inl empty ↦
            let (over, now) = validated (rw empty at h) in
            inl (
              over,
              record {
                before = before;
                asked = units.reply;
                asked_procs = asked_procs.reply;
                answer = now.reply;
                read_before = rw units.stripped value;
                read_now = now.stripped;
                wires = ground (
                  arith,
                  now.wires,
                  same,
                  console-Ran sent.ran,
                  console-Ran asked_procs.ran,
                  units.wires,
                  (str_eq_iff out "").0 empty,
                  is_out,
                );
              },
            )
        | inr said ↦
            let over : (r ≡ some 1) × (t ≡ s4) = ground (arith, said, h) in
            inr (
              over.0,
              record {
                asked = units.reply;
                asked_procs = asked_procs.reply;
                reply = sent_out;
                said = λ e. ground (arith, said, is_out, (str_eq_iff sent_out "").1 e);
                wires = ground (
                  arith,
                  over.1,
                  same,
                  console-Ran sent.ran,
                  console-Ran asked_procs.ran,
                  units.wires,
                );
                kept = ground (arith, over.1, same, sent.kept);
              },
            )
      ]

  -- a reading behind calls that send nothing to the console
  pub Printed-quiet :
      {query text : String} {s s' t t' : Session H}
      → console s'.history ≡ console s.history
      → Printed query text s' t
      → t' ≡ t
      → Printed query text s t'
  Printed-quiet quiet p same = record {
    reply = p.reply;
    stripped = p.stripped;
    wires = ground (arith, quiet, p.wires, same);
  }
