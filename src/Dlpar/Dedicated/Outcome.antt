-- ===== src/Dlpar/Dedicated/Outcome.antt =====
-- dlpar/dlpar_api/api.py: the ways in which an operation on a partition can return, as the console
-- sees them.
use avocado_misc_tests.Prelude.{
  ℕ, String, ◌≡◌, ◌≢◌, ◌∙◌, ap, ◌⊎◌, inl, inr, Option, none, some, ◌∷◌, arith, str_eq, Bool-cases,
  if◌then◌else◌, str_eq_iff,
}
use avocado_misc_tests.Prelude.Int.{ℤ}
use avocado_misc_tests.Text.{strip, int_of_string}
use avocado_misc_tests.Python.{ok, pure, gets, ◌>>=◌, ◌>>◌}
use avocado_misc_tests.Python.Inversion.{>>=-inv}
use avocado_misc_tests.Dlpar.Dedicated.{rest_a_while, report}
use avocado_misc_tests.Dlpar.Host.{Host}
use avocado_misc_tests.Dlpar.Session.{Session, Action, hmc_ran, slept, sleep}
use avocado_misc_tests.Dlpar.Engine.Replies.{console, Ran, Read, Sent}

module _ ⦃H : Host⦄ where
  -- The console showed `before`, took the command without a word, and then showed `now`; it was sent
  -- nothing else.
  pub record Changed (query command : String) (before now : ℤ) (s t : Session H) : Type 0 where
    pub asked : String
    pub answer : String
    pub read_before : int_of_string (strip asked) ≡ some before
    pub read_now : int_of_string (strip answer) ≡ some now
    pub wires :
        console t.history ≡ (query, answer) ∷ (command, "") ∷ (query, asked) ∷ console s.history

  -- The console printed something on the command, which is kept, and nothing was read after it.
  pub record Refused (query command : String) (s t : Session H) : Type 0 where
    pub asked : String
    pub reply : String
    pub said : reply ≢ ""
    pub wires : console t.history ≡ (command, reply) ∷ (query, asked) ∷ console s.history
    pub kept : t.cmd_result ≡ some reply

  pub console-Ran :
      {command out : String} {s t : Session H}
      → Ran (hmc_ran command out) s t
      → console t.history ≡ (command, out) ∷ console s.history
  console-Ran r = rw r.history

  pub console-slept :
      {n : ℤ} {s t : Session H} → Ran (slept n) s t → console t.history ≡ console s.history
  console-slept r = rw r.history

  -- a query was sent and read, whatever happened elsewhere
  pub record Asked (query : String) (n : ℤ) (s t : Session H) : Type 0 where
    pub reply : String
    pub value : int_of_string (strip reply) ≡ some n
    pub wires : console t.history ≡ (query, reply) ∷ console s.history

  pub Read-Asked : {query : String} {n : ℤ} {s t : Session H} → Read query n s t → Asked query n s t
  Read-Asked r = record { reply = r.reply; value = r.value; wires = console-Ran r.ran }

  -- How an operation returned: `none` is the end of its method, and `some 1` its early return.
  abbrev pub Concluded :
      (query command : String) → (ℤ → ℤ) → Option ℕ → Session H → Session H → Type 0
  Concluded query command change r s t =
      (r ≡ none) × ((before : ℤ) × Changed query command before (change before) s t)
      ⊎ (r ≡ some 1) × Refused query command s t

  -- what the methods do with the reply of the console
  abbrev pub settle : String → Action Unit → Action (Option ℕ)
  settle out validate = if str_eq out "" then (do validate; pure none) else pure (some 1)

  pub conclude :
      (query command out : String) (before : ℤ) (change : ℤ → ℤ) (validate : Action Unit)
      {r : Option ℕ} {s s1 s2 s3 s4 t : Session H}
      → Read query before s s1
      → console s2.history ≡ console s1.history
      → Sent command out s2 s3
      → console s4.history ≡ console s3.history
      → s4.cmd_result ≡ s3.cmd_result
      → ((u : Unit) (v : Session H) → validate s4 ≡ (ok u, v) → Asked query (change before) s4 v)
      → settle out validate s4 ≡ (ok r, t)
      → Concluded query command change r s t
  conclude query command out before change validate {r} {s} {s1} {s2} {s3} {s4} {t} asked q12 sent
        q34 kept validated h =
      elim (Bool-cases (str_eq out "")) [
        | inl empty ↦
            >>=-inv validate (λ _. pure none) (rw empty at h)
              λ u v e rest.
                let now = validated u v e in
                inl (
                  ground (arith, rest),
                  (
                    before,
                    record {
                      asked = asked.reply;
                      answer = now.reply;
                      read_before = asked.value;
                      read_now = now.value;
                      wires = ground (
                        arith,
                        rest,
                        now.wires,
                        q34,
                        console-Ran sent.ran,
                        q12,
                        console-Ran asked.ran,
                        (str_eq_iff out "").0 empty,
                      );
                    },
                  ),
                )
        | inr said ↦
            let over : (r ≡ some 1) × (t ≡ s4) = ground (arith, said, h) in
            inr (
              over.0,
              record {
                asked = asked.reply;
                reply = out;
                said = λ e. ground (arith, said, (str_eq_iff out "").1 e);
                wires =
                    ground (arith, over.1, q34, console-Ran sent.ran, q12, console-Ran asked.ran);
                kept = ground (arith, over.1, kept, sent.kept);
              },
            )
      ]

  -- A pause changes nothing that the console or the kept reply shows.
  pub rest_a_while-quiet :
      (before after : String) (s t : Session H) {u : Unit}
      → rest_a_while before after s ≡ (ok u, t)
      → (console t.history ≡ console s.history) × (t.cmd_result ≡ s.cmd_result)
  unfolding rest_a_while sleep ◌>>=◌
  rest_a_while-quiet before after s t h = ground arith

  pub gets-same :
      {A : Type 0} (f : Session H → A) {s t : Session H} {a : A} → gets f s ≡ (ok a, t) → t ≡ s
  gets-same f h = ground arith

  -- a query behind a pause
  pub Asked-rest_a_while :
      {query : String} {n : ℤ} {s t u : Session H}
      → console t.history ≡ console s.history
      → Asked query n t u
      → Asked query n s u
  Asked-rest_a_while {query} e a = record {
    reply = a.reply;
    value = a.value;
    wires = a.wires ∙ ap (λ l. (query, a.reply) ∷ l) e;
  }

  -- How a public method answered: 0 is a change that was read back, and 1 a refusal.
  abbrev pub Answered : (query command : String) → (ℤ → ℤ) → ℕ → Session H → Session H → Type 0
  Answered query command change n s t =
      (n ≡ 0) × ((before : ℤ) × Changed query command before (change before) s t)
      ⊎ (n ≡ 1) × Refused query command s t

  pub report-Answered :
      {query command : String} {change : ℤ → ℤ} (r : Option ℕ) {n : ℕ} {s t u : Session H}
      → Concluded query command change r s t
      → report r t ≡ (ok n, u)
      → Answered query command change n s u
  unfolding report ◌>>=◌
  report-Answered none (inl (is_none, (before, c))) h = inl (
    ground (arith, h),
    (
      before,
      record {
        asked = c.asked;
        answer = c.answer;
        read_before = c.read_before;
        read_now = c.read_now;
        wires = ground (arith, h, c.wires);
      },
    ),
  )
  report-Answered none (inr (is_some, c)) h = cc
  report-Answered (some k) (inl (is_none, c)) h = cc
  report-Answered (some k) (inr (is_some, c)) h = inr (
    ground (arith, is_some, h),
    record {
      asked = c.asked;
      reply = c.reply;
      said = c.said;
      wires = ground (arith, h, c.wires);
      kept = ground (arith, h, c.kept);
    },
  )
