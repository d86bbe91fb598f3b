-- ===== src/Dlpar/Validate/Moved.antt =====
-- dlpar/dlpar_api/api.py: what the validation of a move that returned has read of both partitions.
use avocado_misc_tests.Prelude.{String, ◌≡◌, refl, Bool, true, false, arith}
use avocado_misc_tests.Prelude.Int.{ℤ, ◌+ℤ◌, ◌-ℤ◌, ◌==ℤ◌, eq_of_==ℤ}
use avocado_misc_tests.Python.{ok, type_error, raise, ◌>>=◌}
use avocado_misc_tests.Python.Inversion.{>>=-inv, >>=-eq-ok}
use avocado_misc_tests.Dlpar.Host.{Host}
use avocado_misc_tests.Dlpar.Num.{Number, int, num_add, num_sub, num_eq}
use avocado_misc_tests.Dlpar.Session.{Machine, Session, Action}
use avocado_misc_tests.Dlpar.Engine.{pair, mem_query}
use avocado_misc_tests.Dlpar.Engine.Replies.{Read}
use avocado_misc_tests.Dlpar.Validate.{
  amounts, require, moved_on, moved, move_message, mem_of, dlpar_mem_validation,
}
use avocado_misc_tests.Dlpar.Validate.Passed.{Quiet, Read-eq, Read-Same, require-ok, mem_of-ok}

module _ ⦃H : Host⦄ where
  -- The two readings of a move, first of the machine that gave and then of the one that took.
  pub record BothRead (query_m query_n : String) (now_m now_n : ℤ) (s t : Session H) : Type 0 where
    pub between : Session H
    pub first : Read query_m now_m s between
    pub second : Read query_n now_n between t

  module _ (read : Machine → Action Number) (query : Machine → String)
      (read-ok : (m : Machine) (s t : Session H) (now : Number)
        → read m s ≡ (ok now, t)
        → (n : ℤ) × (now ≡ int n) × Read (query m) n s t)
      (m n : Machine) (quantity before_m before_n : ℤ) where
    moved_on-ok :
        (fit : Bool) (s1 t : Session H)
        → moved_on read n (int quantity) (int before_n) fit s1 ≡ (ok true, t)
        → (fit ≡ true) × Read (query n) (before_n +ℤ quantity) s1 t
    unfolding moved_on num_add num_eq
    moved_on-ok false s1 t h = ground arith
    moved_on-ok true s1 t h = >>=-inv _ _ h λ now s2 e rest.
        let (k, is_int, asked) = read-ok n s1 s2 now e in
        let hit : num_eq now (num_add (int before_n) (int quantity)) ≡ true =
          ground (arith, rest) in
        let fits : (k ==ℤ (before_n +ℤ quantity)) ≡ true = rw is_int at hit in
        let same : t ≡ s2 = ground (arith, rest) in
        (refl, Read-eq (eq_of_==ℤ k _ fits) (Read-Same asked same))

    moved-ok :
        (s t : Session H)
        → moved read m n (int quantity) (int before_m) (int before_n) s ≡ (ok true, t)
        → BothRead (query m) (query n) (before_m -ℤ quantity) (before_n +ℤ quantity) s t
    unfolding moved num_sub num_eq
    moved-ok s t h = >>=-inv _ _ h λ now s1 e rest.
        let (k, is_int, asked) = read-ok m s s1 now e in
        let (fit, second) = moved_on-ok _ s1 t rest in
        let fits : (k ==ℤ (before_m -ℤ quantity)) ≡ true = rw is_int at fit in
        record { between = s1; first = Read-eq (eq_of_==ℤ k _ fits) asked; second = second }

  -- A validation of a memory move that returned has read both amounts.
  pub mem_validation_m-ok :
      (m n : Machine) (quantity before_m before_n : ℤ) (s t : Session H) (u : Unit)
      → dlpar_mem_validation "m" (pair m n) (int quantity) (amounts (int before_m) (int before_n)) s
        ≡ (ok u, t)
      → (v : Session H) × BothRead
          (mem_query m "curr_mem")
          (mem_query n "curr_mem")
          (before_m -ℤ quantity)
          (before_n +ℤ quantity)
          s
          v
        × Quiet v t
  unfolding dlpar_mem_validation ◌>>=◌
  mem_validation_m-ok m n quantity before_m before_n s t u h =
      let message = move_message " memory" m n (int quantity) in
      let confirm : Bool → Action Unit =
        λ fits. require message fits "Error happened when moving memory" (raise type_error) in
      let both = moved mem_of m n (int quantity) (int before_m) (int before_n) in
      let (fits, v, read, rest) = >>=-eq-ok both confirm h in
      let (is_true, quiet) =
        require-ok message "Error happened when moving memory" fits type_error rest in
      (
        v,
        moved-ok mem_of (λ x. mem_query x "curr_mem") mem_of-ok m n quantity before_m before_n s v
            (rw is_true at read),
        quiet,
      )
