-- ===== src/Dlpar/Mem/Transfer.antt =====
-- dlpar/dlpar_api/api.py: what `mem_move` has done when it returns.
use avocado_misc_tests.Prelude.{
  ℕ, String, ◌≡◌, ◌≢◌, ◌⊎◌, inl, inr, Option, some, none, ◌∷◌, arith, str_eq, str_eq_iff,
  Bool-cases,
}
use avocado_misc_tests.Prelude.Int.{ℤ, ◌+ℤ◌, ◌-ℤ◌}
use avocado_misc_tests.Text.{strip, int_of_string, string_of_int}
use avocado_misc_tests.Python.{ok, ◌>>=◌}
use avocado_misc_tests.Python.Inversion.{>>=-inv}
use avocado_misc_tests.Dlpar.Host.{Host}
use avocado_misc_tests.Dlpar.Num.{Number, int, num_str}
use avocado_misc_tests.Dlpar.Session.{Machine, Session}
use avocado_misc_tests.Dlpar.Engine.{mem_query, move_command}
use avocado_misc_tests.Dlpar.Engine.Replies.{console, mem_int-ok, dlpar_engine-move_ok}
use avocado_misc_tests.Dlpar.Validate.Moved.{mem_validation_m-ok}
use avocado_misc_tests.Dlpar.Dedicated.{report, self_linux_2, self_quant_to_test}
use avocado_misc_tests.Dlpar.Dedicated.Outcome.{console-Ran, rest_a_while-quiet}
use avocado_misc_tests.Dlpar.Dedicated.Operations.{self_linux_1-ok}
use avocado_misc_tests.Dlpar.Mem.{mem_flag, move_memory, mem_move}

module _ ⦃H : Host⦄ where
  -- The console showed both amounts, took the move without a word, and then showed the amounts after
  -- it; it was sent nothing else.
  pub record Transferred (query_m query_n command : String) (before_m before_n now_m now_n : ℤ)
      (s t : Session H) : Type 0 where
    pub asked_m : String
    pub asked_n : String
    pub answer_m : String
    pub answer_n : String
    pub read_before_m : int_of_string (strip asked_m) ≡ some before_m
    pub read_before_n : int_of_string (strip asked_n) ≡ some before_n
    pub read_now_m : int_of_string (strip answer_m) ≡ some now_m
    pub read_now_n : int_of_string (strip answer_n) ≡ some now_n
    pub wires :
        console t.history
        ≡ (query_n, answer_n)
          ∷ (query_m, answer_m)
          ∷ (command, "")
          ∷ (query_n, asked_n)
          ∷ (query_m, asked_m)
          ∷ console s.history

  -- The console printed something on the move, which is kept, and nothing was read after it.
  pub record MoveRefused (query_m query_n command : String) (s t : Session H) : Type 0 where
    pub asked_m : String
    pub asked_n : String
    pub reply : String
    pub said : reply ≢ ""
    pub wires :
        console t.history
        ≡ (command, reply) ∷ (query_n, asked_n) ∷ (query_m, asked_m) ∷ console s.history
    pub kept : t.cmd_result ≡ some reply

  -- How a move answered with the amount: both sides changed by it, or nothing was read.
  abbrev pub MoveAnswered :
      {R : Type 0} (moved refused : R) (query_m query_n command : String)
      → ℤ
      → R
      → Session H
      → Session H
      → Type 0
  MoveAnswered moved refused query_m query_n command quantity r s t =
      (r ≡ moved)
        × ((before_m : ℤ) × (before_n : ℤ) × Transferred query_m query_n command before_m before_n
              (before_m -ℤ quantity) (before_n +ℤ quantity) s t)
      ⊎ (r ≡ refused) × MoveRefused query_m query_n command s t

  module _ (m n : Machine) (quantity : ℤ) where
    abbrev AmountsMoved : {R : Type 0} (moved refused r : R) → Session H → Session H → Type 0
    AmountsMoved moved refused =
        MoveAnswered moved refused (mem_query m "curr_mem") (mem_query n "curr_mem")
          (move_command (mem_flag "m") m n (string_of_int quantity)) quantity

    move_memory-MoveAnswered :
        (s t : Session H) (r : Option ℕ)
        → move_memory m n (int quantity) s ≡ (ok r, t)
        → AmountsMoved none (some 1) r s t
    unfolding move_memory num_str
    move_memory-MoveAnswered s t r h = >>=-inv _ _ h λ before_m s1 read_m h.
        >>=-inv _ _ h λ before_n s2 read_n h. >>=-inv _ _ h λ out s3 moved h.
          let asked_m = mem_int-ok m "curr_mem" read_m in
          let asked_n = mem_int-ok n "curr_mem" read_n in
          let sent = dlpar_engine-move_ok "mem" "-q" m n (int quantity) moved in
          elim (Bool-cases (str_eq out "")) [
            | inl empty ↦ >>=-inv _ _ (rw empty at h) λ _ s4 both rest.
                >>=-inv _ _ both λ _ s5 rested validated.
                  let (v, read, quiet) =
                    mem_validation_m-ok m n quantity before_m before_n s5 s4 _ validated in
                  inl (
                    ground (arith, rest),
                    (
                      before_m,
                      before_n,
                      record {
                        asked_m = asked_m.reply;
                        asked_n = asked_n.reply;
                        answer_m = read.first.reply;
                        answer_n = read.second.reply;
                        read_before_m = asked_m.value;
                        read_before_n = asked_n.value;
                        read_now_m = read.first.value;
                        read_now_n = read.second.value;
                        wires = ground (
                          arith,
                          rest,
                          quiet.history,
                          console-Ran read.second.ran,
                          console-Ran read.first.ran,
                          (rest_a_while-quiet _ _ s3 s5 rested).0,
                          console-Ran sent.ran,
                          console-Ran asked_n.ran,
                          console-Ran asked_m.ran,
                          (str_eq_iff out "").0 empty,
                        );
                      },
                    ),
                  )
            | inr said ↦
                let over : (r ≡ some 1) × (t ≡ s3) = ground (arith, said, h) in
                inr (
                  over.0,
                  record {
                    asked_m = asked_m.reply;
                    asked_n = asked_n.reply;
                    reply = out;
                    said = λ e. ground (arith, said, (str_eq_iff out "").1 e);
                    wires = ground (
                      arith,
                      over.1,
                      console-Ran sent.ran,
                      console-Ran asked_n.ran,
                      console-Ran asked_m.ran,
                    );
                    kept = ground (arith, over.1, sent.kept);
                  },
                )
          ]

    report-MoveAnswered :
        (r : Option ℕ) (k : ℕ) (s t u : Session H)
        → AmountsMoved none (some 1) r s t
        → report r t ≡ (ok k, u)
        → AmountsMoved 0 1 k s u
    unfolding report ◌>>=◌
    report-MoveAnswered none k s t u (inl (is_none, (before_m, before_n, c))) h = inl (
      ground (arith, h),
      (
        before_m,
        before_n,
        record {
          asked_m = c.asked_m;
          asked_n = c.asked_n;
          answer_m = c.answer_m;
          answer_n = c.answer_n;
          read_before_m = c.read_before_m;
          read_before_n = c.read_before_n;
          read_now_m = c.read_now_m;
          read_now_n = c.read_now_n;
          wires = ground (arith, h, c.wires);
        },
      ),
    )
    report-MoveAnswered none k s t u (inr (is_some, c)) h = cc
    report-MoveAnswered (some j) k s t u (inl (is_none, c)) h = cc
    report-MoveAnswered (some j) k s t u (inr (is_some, c)) h = inr (
      ground (arith, is_some, h),
      record {
        asked_m = c.asked_m;
        asked_n = c.asked_n;
        reply = c.reply;
        said = c.said;
        wires = ground (arith, h, c.wires);
        kept = ground (arith, h, c.kept);
      },
    )

    self_linux_2-ok :
        (n' : Machine) (s s' : Session H)
        → s.linux_2 ≡ some n
        → self_linux_2 s ≡ (ok n', s')
        → (n' ≡ n) × (s' ≡ s)
    unfolding ◌>>=◌
    self_linux_2-ok n' s s' e h = ground arith

    self_quant_to_test-ok :
        (q : Number) (s s' : Session H)
        → s.quant_to_test ≡ some (int quantity)
        → self_quant_to_test s ≡ (ok q, s')
        → (q ≡ int quantity) × (s' ≡ s)
    unfolding ◌>>=◌
    self_quant_to_test-ok q s s' e h = ground arith

    -- Whenever `mem_move` returns with two partitions and an int to test, it returns 0 or 1. It returns
    -- 0 only where the console showed the memory of both, took the move in silence, and then showed so
    -- much less for the first and so much more for the second; it returns 1 only where the console
    -- printed something on the move, whose text is kept for the caller. The console was sent nothing
    -- else.
    pub mem_move-MoveAnswered :
        (s t : Session H) (k : ℕ)
        → s.linux_1 ≡ some m
        → s.linux_2 ≡ some n
        → s.quant_to_test ≡ some (int quantity)
        → mem_move s ≡ (ok k, t)
        → AmountsMoved 0 1 k s t
    unfolding mem_move
    mem_move-MoveAnswered s t k first second quant h = >>=-inv _ _ h λ m' s1 self_1 h.
        >>=-inv _ _ h λ n' s2 self_2 h. >>=-inv _ _ h λ q s3 self_q h. >>=-inv _ _ h λ r s4 done h.
          let (is_m, at_1) = self_linux_1-ok m m' s s1 first self_1 in
          let (is_n, at_2) = self_linux_2-ok n' s s2 second (rw at_1 at self_2) in
          let (is_q, at_3) = self_quant_to_test-ok q s s3 quant (rw at_2 at self_q) in
          report-MoveAnswered r k s s4 t
            (move_memory-MoveAnswered s s4 r (rw (is_m, is_n, is_q, at_3) at done)) h
