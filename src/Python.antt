-- ===== src/Python.antt =====
-- Python's calls: a method is an action on a state that returns a value or raises, and what it
-- wrote before a raise stays written.
pub mod Inversion
use avocado_misc_tests.Prelude.{◌≡◌, refl, Option, none, some, String, List, [], ◌∷◌}

-- The exceptions that the programs raise, or that a builtin raises under them. `fail`, `cancel` and
-- `test_error` are what `Test.fail`, `Test.cancel` and `Test.error` of the test runner raise, and
-- `cmd_error` stands for a command or a connection that raised, `eval_error` for what `eval` raised. `out_of_fuel` is no exception: a loop
-- of the model ran out of the rounds that it was given.
pub data Error : Type 0 where
  test_exception fail cancel test_error : String → Error
  type_error attribute_error value_error index_error key_error cmd_error file_error zero_division
        overflow_error eval_error out_of_fuel :
      Error

pub data Result (A : Type 0) : Type 0 where
  ok : A → Result A
  err : Error → Result A

abbrev pub Exec : Type 0 → Type 0 → Type 0
Exec S A = S → Result A × S

module _ {S : Type 0} {A : Type 0} where
  abbrev pub pure : A → Exec S A
  pure a s = (ok a, s)

  abbrev pub raise : Error → Exec S A
  raise e s = (err e, s)

  abbrev pub gets : (S → A) → Exec S A
  gets f s = (ok (f s), s)

  -- a value that may be missing, with the error that the read of a missing one raises
  abbrev pub or_raise : Option A → Error → Exec S A
  or_raise none e = raise e
  or_raise (some a) e = pure a

abbrev pub modify : {S : Type 0} → (S → S) → Exec S Unit
modify f s = (ok tt, f s)

module _ {S : Type 0} {A B : Type 0} where
  infixl 5 ◌>>=◌ ◌>>◌
  abbrev pub continue : Result A → (A → Exec S B) → Exec S B
  continue (ok a) f s = f a s
  continue (err e) f s = (err e, s)

  unfoldable pub ◌>>=◌ : Exec S A → (A → Exec S B) → Exec S B
  ◌>>=◌ m f s = continue (m s).0 f (m s).1

  abbrev pub ◌>>◌ : Exec S A → Exec S B → Exec S B
  m >> k = m >>= λ _. k

module _ {S : Type 0} {A : Type 0} where
  abbrev recover : Result A → (Error → Exec S A) → Exec S A
  recover (ok a) handler s = (ok a, s)
  recover (err e) handler s = handler e s

  -- `try: m except …: handler`; a handler that does not catch an exception raises it again.
  abbrev pub try_catch : Exec S A → (Error → Exec S A) → Exec S A
  try_catch m handler s = recover (m s).0 handler (m s).1

-- `for x in xs: body(x)`
module _ {S : Type 0} {A : Type 0} where
  unfoldable pub for_each : List A → (A → Exec S Unit) → Exec S Unit
  for_each [] body = pure tt
  for_each (x ∷ xs) body = body x >> for_each xs body
