-- ===== src/Dlpar/Num.antt =====
-- Python's numbers as the DLPAR suite passes them: an `int`, or a `float` of the interpreter.
use avocado_misc_tests.Prelude.{String, Bool}
use avocado_misc_tests.Prelude.Int.{ℤ, ◌+ℤ◌, ◌-ℤ◌, ◌*ℤ◌, ◌==ℤ◌, leb_ℤ}
use avocado_misc_tests.Text.{string_of_int}
use avocado_misc_tests.Dlpar.Host.{Host}
pub use avocado_misc_tests.Dlpar.Host.{Num, int, float}

module _ ⦃H : Host⦄ where
  abbrev pub Number : Type 0
  Number = Num H.Float

  abbrev pub to_float : Number → H.Float
  to_float (int n) = H.float_of_int n
  to_float (float x) = x

  -- `a + b`: two ints make an int, and a float makes a float.
  unfoldable pub num_add : Number → Number → Number
  num_add (int a) (int b) = int (a +ℤ b)
  num_add a b = float (H.float_add (to_float a) (to_float b))

  unfoldable pub num_sub : Number → Number → Number
  num_sub (int a) (int b) = int (a -ℤ b)
  num_sub a b = float (H.float_sub (to_float a) (to_float b))

  unfoldable pub num_mul : Number → Number → Number
  num_mul (int a) (int b) = int (a *ℤ b)
  num_mul a b = float (H.float_mul (to_float a) (to_float b))

  unfoldable pub num_eq : Number → Number → Bool
  num_eq (int a) (int b) = a ==ℤ b
  num_eq a b = H.float_eq (to_float a) (to_float b)

  unfoldable pub num_le : Number → Number → Bool
  num_le (int a) (int b) = leb_ℤ a b
  num_le a b = H.float_le (to_float a) (to_float b)

  -- `str(n)`, `'%s' % n`
  unfoldable pub num_str : Number → String
  num_str (int n) = string_of_int n
  num_str (float x) = H.string_of_float x

  -- `int(n)`
  unfoldable pub num_int : Number → ℤ
  num_int (int n) = n
  num_int (float x) = H.int_of_float x

  -- `'%d' % n`
  unfoldable pub num_fmt_d : Number → String
  unfolding num_int
  num_fmt_d n = string_of_int (num_int n)
