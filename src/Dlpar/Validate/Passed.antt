-- ===== src/Dlpar/Validate/Passed.antt =====
-- dlpar/dlpar_api/api.py: what a validation that returned has read.
use mathlib.Core.Path.{subst}
use avocado_misc_tests.Prelude.{String, ◌≡◌, refl, sym, ◌∙◌, Bool, true, false, arith}
use avocado_misc_tests.Prelude.Int.{ℤ, ◌+ℤ◌, ◌-ℤ◌, eq_of_==ℤ}
use avocado_misc_tests.Python.{◌>>=◌, ok, Error, raise}
use avocado_misc_tests.Python.Inversion.{>>=-eq-ok}
use avocado_misc_tests.Dlpar.Host.{Host}
use avocado_misc_tests.Dlpar.Num.{Number, int, num_add, num_sub, num_eq}
use avocado_misc_tests.Dlpar.Session.{Machine, Session}
use avocado_misc_tests.Dlpar.Connections.{check_log}
use avocado_misc_tests.Dlpar.Engine.{one, proc_query, mem_query, cpu_int, mem_int}
use avocado_misc_tests.Dlpar.Engine.Replies.{Same, Same-trans, Read, cpu_int-ok, mem_int-ok}
use avocado_misc_tests.Dlpar.Validate.{
  amount, require, dlpar_cpu_validation, dlpar_mem_validation, as_number, procs_of, mem_of,
  confirm_add, confirm_remove,
}

module _ ⦃H : Host⦄ where
  -- Only the log and the world may differ.
  pub record Quiet (s t : Session H) : Type 0 where
    pub history : t.history ≡ s.history
    pub same : Same s t

  pub Read-eq :
      {query : String} {m n : ℤ} {s t : Session H} → m ≡ n → Read query m s t → Read query n s t
  Read-eq e r = record { reply = r.reply; value = rw (← e) r.value; ran = r.ran }

  pub Read-Same :
      {query : String} {n : ℤ} {s t u : Session H} → Read query n s t → u ≡ t → Read query n s u
  Read-Same {query} {n} {s} r e = subst (λ x. Read query n s x) (sym e) r

  pub Read-Quiet :
      {query : String} {n : ℤ} {s t u : Session H} → Read query n s t → Quiet t u → Read query n s u
  Read-Quiet r q = record {
    reply = r.reply;
    value = r.value;
    ran = record { history = q.history ∙ r.ran.history; same = Same-trans r.ran.same q.same };
  }

  pub require-ok :
      (message e_msg : String) (condition : Bool) (e : Error) {s t : Session H} {u : Unit}
      → require message condition e_msg (raise e) s ≡ (ok u, t)
      → (condition ≡ true) × Quiet s t
  unfolding require check_log ◌>>=◌
  require-ok message e_msg true e h = (
    refl,
    record {
      history = ground arith;
      same = record {
        hmc = ground arith;
        linux_1 = ground arith;
        linux_2 = ground arith;
        quant_to_test = ground arith;
        sleep_time = ground arith;
        cpu_per_processor = ground arith;
      };
    },
  )
  require-ok message e_msg false e h = cc

  pub procs_of-ok :
      (m : Machine) (s t : Session H) (now : Number)
      → procs_of m s ≡ (ok now, t)
      → (n : ℤ) × (now ≡ int n) × Read (proc_query m "curr_procs") n s t
  procs_of-ok m s t now h =
      let (n, s1, read, e) = >>=-eq-ok (cpu_int m "curr_procs") as_number h in
      (n, ground (arith, e), Read-Same (cpu_int-ok m "curr_procs" read) (ground (arith, e)))

  pub mem_of-ok :
      (m : Machine) (s t : Session H) (now : Number)
      → mem_of m s ≡ (ok now, t)
      → (n : ℤ) × (now ≡ int n) × Read (mem_query m "curr_mem") n s t
  mem_of-ok m s t now h =
      let (n, s1, read, e) = >>=-eq-ok (mem_int m "curr_mem") as_number h in
      (n, ground (arith, e), Read-Same (mem_int-ok m "curr_mem" read) (ground (arith, e)))

  pub cpu_validation_a-ok :
      (m : Machine) (quantity before : ℤ) {s t : Session H} {u : Unit}
      → dlpar_cpu_validation "a" (one m) (int quantity) (amount (int before)) s ≡ (ok u, t)
      → Read (proc_query m "curr_procs") (before +ℤ quantity) s t
  unfolding dlpar_cpu_validation num_add num_eq ◌>>=◌
  cpu_validation_a-ok m quantity before {s} {t} h =
      let confirm = confirm_add " dedicated cpus" m (int quantity) (int before) in
      let (now, s1, read, rest) = >>=-eq-ok (procs_of m) confirm h in
      let (n, is_int, asked) = procs_of-ok m _ s1 now read in
      let (fits, quiet) = require-ok _ _ _ _ (rw is_int at rest) in
      Read-eq (eq_of_==ℤ n (before +ℤ quantity) fits) (Read-Quiet asked quiet)

  pub cpu_validation_r-ok :
      (m : Machine) (quantity before : ℤ) {s t : Session H} {u : Unit}
      → dlpar_cpu_validation "r" (one m) (int quantity) (amount (int before)) s ≡ (ok u, t)
      → Read (proc_query m "curr_procs") (before -ℤ quantity) s t
  unfolding dlpar_cpu_validation num_sub num_eq ◌>>=◌
  cpu_validation_r-ok m quantity before {s} {t} h =
      let confirm = confirm_remove " dedicated cpus" m (int quantity) (int before) in
      let (now, s1, read, rest) = >>=-eq-ok (procs_of m) confirm h in
      let (n, is_int, asked) = procs_of-ok m _ s1 now read in
      let (fits, quiet) = require-ok _ _ _ _ (rw is_int at rest) in
      Read-eq (eq_of_==ℤ n (before -ℤ quantity) fits) (Read-Quiet asked quiet)

  pub mem_validation_a-ok :
      (m : Machine) (quantity before : ℤ) {s t : Session H} {u : Unit}
      → dlpar_mem_validation "a" (one m) (int quantity) (amount (int before)) s ≡ (ok u, t)
      → Read (mem_query m "curr_mem") (before +ℤ quantity) s t
  unfolding dlpar_mem_validation num_add num_eq ◌>>=◌
  mem_validation_a-ok m quantity before {s} {t} h =
      let confirm = confirm_add " memory" m (int quantity) (int before) in
      let (now, s1, read, rest) = >>=-eq-ok (mem_of m) confirm h in
      let (n, is_int, asked) = mem_of-ok m _ s1 now read in
      let (fits, quiet) = require-ok _ _ _ _ (rw is_int at rest) in
      Read-eq (eq_of_==ℤ n (before +ℤ quantity) fits) (Read-Quiet asked quiet)

  pub mem_validation_r-ok :
      (m : Machine) (quantity before : ℤ) {s t : Session H} {u : Unit}
      → dlpar_mem_validation "r" (one m) (int quantity) (amount (int before)) s ≡ (ok u, t)
      → Read (mem_query m "curr_mem") (before -ℤ quantity) s t
  unfolding dlpar_mem_validation num_sub num_eq ◌>>=◌
  mem_validation_r-ok m quantity before {s} {t} h =
      let confirm = confirm_remove " memory" m (int quantity) (int before) in
      let (now, s1, read, rest) = >>=-eq-ok (mem_of m) confirm h in
      let (n, is_int, asked) = mem_of-ok m _ s1 now read in
      let (fits, quiet) = require-ok _ _ _ _ (rw is_int at rest) in
      Read-eq (eq_of_==ℤ n (before -ℤ quantity) fits) (Read-Quiet asked quiet)
