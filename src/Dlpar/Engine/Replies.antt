-- ===== src/Dlpar/Engine/Replies.antt =====
-- dlpar/dlpar_api/api.py: what a query or an operation that returned has put on the wire, and what of
-- the test object it left alone.
use avocado_misc_tests.Prelude.{
  String, str_eq, ◌<>◌, ◌≡◌, ◌||◌, true, ◌∙◌, Option, none, some, List, [], ◌∷◌, arith,
}
use avocado_misc_tests.Prelude.Int.{ℤ}
use avocado_misc_tests.Text.{strip, int_of_string}
use avocado_misc_tests.Python.{ok, value_error, ◌>>=◌}
use avocado_misc_tests.Python.Inversion.{>>=-eq-ok, or_raise-eq-ok}
use avocado_misc_tests.Dlpar.Host.{Host}
use avocado_misc_tests.Dlpar.Num.{Number, num_str}
use avocado_misc_tests.Dlpar.Session.{
  Machine, Session, Event, hmc_ran, peer_ran, local_ran, slept, answered, hmc_text, sleep, to_int,
}
use avocado_misc_tests.Dlpar.Engine.{
  Flag, one, pair, change_command, move_command, keep_result, dlpar_engine, shown, proc_query,
  mem_query, get_cpu_option, get_mem_option, cpu_int, mem_int,
}

-- The commands that the console was sent, with its replies, newest first.
abbrev pub console : List Event → List (String × String)
console [] = []
console (hmc_ran c out ∷ events) = (c, out) ∷ console events
console (peer_ran _ _ ∷ events) = console events
console (local_ran _ _ ∷ events) = console events
console (slept _ ∷ events) = console events

module _ ⦃H : Host⦄ where
  -- The attributes of the test object that a query or an operation does not touch.
  pub record Same (s t : Session H) : Type 0 where
    pub hmc : t.hmc ≡ s.hmc
    pub linux_1 : t.linux_1 ≡ s.linux_1
    pub linux_2 : t.linux_2 ≡ s.linux_2
    pub quant_to_test : t.quant_to_test ≡ s.quant_to_test
    pub sleep_time : t.sleep_time ≡ s.sleep_time
    pub cpu_per_processor : t.cpu_per_processor ≡ s.cpu_per_processor

  pub Same-trans : {s t u : Session H} → Same s t → Same t u → Same s u
  Same-trans p q = record {
    hmc = q.hmc ∙ p.hmc;
    linux_1 = q.linux_1 ∙ p.linux_1;
    linux_2 = q.linux_2 ∙ p.linux_2;
    quant_to_test = q.quant_to_test ∙ p.quant_to_test;
    sleep_time = q.sleep_time ∙ p.sleep_time;
    cpu_per_processor = q.cpu_per_processor ∙ p.cpu_per_processor;
  }

  -- one event more, and the attributes as they were
  pub record Ran (event : Event) (s t : Session H) : Type 0 where
    pub history : t.history ≡ event ∷ s.history
    pub same : Same s t

  answered-ok :
      (event : String → Event) (reply : Option String) (w : H.World) {s t : Session H}
      {out : String}
      → answered event (reply, w) s ≡ (ok out, t)
      → Ran (event out) s t
  unfolding answered
  answered-ok event none w h = cc
  answered-ok event (some out) w h = ground arith

  pub hmc_text-ok :
      (c : String) {s t : Session H} {out : String}
      → hmc_text c s ≡ (ok out, t)
      → Ran (hmc_ran c out) s t
  unfolding hmc_text ◌>>=◌
  hmc_text-ok c {s} h = ground arith

  -- A query that returned an int read it from the reply, and logged it.
  pub record Read (query : String) (n : ℤ) (s t : Session H) : Type 0 where
    pub reply : String
    pub value : int_of_string (strip reply) ≡ some n
    pub ran : Ran (hmc_ran query reply) s t

  to_int-Read :
      (query option whom text : String) {s s1 t : Session H} {n : ℤ}
      → (hmc_text query >>= shown option whom) s ≡ (ok text, s1)
      → to_int text s1 ≡ (ok n, t)
      → Read query n s t
  unfolding ◌>>=◌
  to_int-Read query option whom text {s} {s1} {t} {n} asked converted =
      let (out, s2, ran, logged) = >>=-eq-ok (hmc_text query) (shown option whom) asked in
      let r = hmc_text-ok query ran in
      let (value, same) = or_raise-eq-ok (int_of_string text) value_error converted in
      record {
        reply = out;
        value = ground (arith, value, logged);
        ran = record {
          history = ground (arith, r.history, logged, same);
          same = record {
            hmc = ground (arith, r.same.hmc, logged, same);
            linux_1 = ground (arith, r.same.linux_1, logged, same);
            linux_2 = ground (arith, r.same.linux_2, logged, same);
            quant_to_test = ground (arith, r.same.quant_to_test, logged, same);
            sleep_time = ground (arith, r.same.sleep_time, logged, same);
            cpu_per_processor = ground (arith, r.same.cpu_per_processor, logged, same);
          };
        };
      }

  pub cpu_int-ok :
      (m : Machine) (option : String) {s t : Session H} {n : ℤ}
      → cpu_int m option s ≡ (ok n, t)
      → Read (proc_query m option) n s t
  unfolding cpu_int get_cpu_option
  cpu_int-ok m option h =
      let (text, s1, asked, converted) = >>=-eq-ok (get_cpu_option m option) _ h in
      to_int-Read (proc_query m option) option (" for partition " <> m.partition) text asked
        converted

  pub mem_int-ok :
      (m : Machine) (option : String) {s t : Session H} {n : ℤ}
      → mem_int m option s ≡ (ok n, t)
      → Read (mem_query m option) n s t
  unfolding mem_int get_mem_option
  mem_int-ok m option h =
      let (text, s1, asked, converted) = >>=-eq-ok (get_mem_option m option) _ h in
      to_int-Read (mem_query m option) option (" for partition " <> m.partition) text asked
        converted

  pub sleep-ok : (n : ℤ) {s t : Session H} {u : Unit} → sleep n s ≡ (ok u, t) → Ran (slept n) s t
  unfolding sleep
  sleep-ok n h = ground arith

  -- An operation that returned has sent its command, and keeps the reply.
  pub record Sent (command reply : String) (s t : Session H) : Type 0 where
    pub ran : Ran (hmc_ran command reply) s t
    pub kept : t.cmd_result ≡ some reply

  keep_result-Sent :
      (command : String) {s t : Session H} {out : String}
      → (hmc_text command >>= keep_result) s ≡ (ok out, t)
      → Sent command out s t
  unfolding ◌>>=◌
  keep_result-Sent command {s} {t} h =
      let (reply, s1, ran, kept) = >>=-eq-ok (hmc_text command) keep_result h in
      let r = hmc_text-ok command ran in
      record {
        ran = record {
          history = ground (arith, r.history, kept);
          same = record {
            hmc = ground (arith, r.same.hmc, kept);
            linux_1 = ground (arith, r.same.linux_1, kept);
            linux_2 = ground (arith, r.same.linux_2, kept);
            quant_to_test = ground (arith, r.same.quant_to_test, kept);
            sleep_time = ground (arith, r.same.sleep_time, kept);
            cpu_per_processor = ground (arith, r.same.cpu_per_processor, kept);
          };
        };
        kept = ground (arith, kept);
      }

  pub dlpar_engine-ok :
      (f : Flag) (m : Machine) (quantity : Number) {s t : Session H} {out : String}
      → (str_eq f.operation "a" || str_eq f.operation "r") ≡ true
      → dlpar_engine f (one m) quantity s ≡ (ok out, t)
      → Sent (change_command f m (num_str quantity)) out s t
  unfolding dlpar_engine ◌>>=◌
  dlpar_engine-ok f m quantity is_change h = keep_result-Sent _ (rw is_change at h)

  pub dlpar_engine-move_ok :
      (resource option : String) (m n : Machine) (quantity : Number) {s t : Session H}
      {out : String}
      → let f : Flag = record { resource = resource; operation = "m"; option = option } in
        dlpar_engine f (pair m n) quantity s ≡ (ok out, t)
        → Sent (move_command f m n (num_str quantity)) out s t
  unfolding dlpar_engine ◌>>=◌
  dlpar_engine-move_ok resource option m n quantity h = keep_result-Sent _ h
