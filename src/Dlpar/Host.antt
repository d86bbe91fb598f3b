-- ===== src/Dlpar/Host.antt =====
-- What the DLPAR suite (dlpar/dlpar_api/api.py, dlpar/dlpar_main.py) reaches and does not implement:
-- the management console behind an ssh session, the partitions, local commands, the clock, random
-- numbers, and the interpreter's floats. It is a parameter of the whole model.
use avocado_misc_tests.Prelude.{ℕ, ◌+◌, ◌≤◌, ◌<◌, ◌≡◌, leb, String, Bool, Option, List}
use avocado_misc_tests.Prelude.Int.{ℤ, pos}

-- A number as the suite passes it: an `int`, or a `float`.
pub data Num (F : Type 0) : Type 0 where
  int : ℤ → Num F
  float : F → Num F

-- Each command gives the text that it printed, or `none` if the call raised.
pub record Host : Type 1 where
  pub World : Type 0
  -- `Session(name, user, password)` with `cleanup_master()` and `connect()`, or `none` if one raised
  pub connect : String → String → String → World → Option Bool × World
  -- `hmc.sshcnx.cmd(c).stdout_text`
  pub hmc_cmd : String → World → Option String × World
  -- `sshcnx.cmd(c).stdout_text` on the partition of this name
  pub peer_cmd : String → String → World → Option String × World
  -- `process.run(c).stdout.decode()`, `process.system_output(c)`
  pub local_cmd : String → World → Option String × World
  -- `smm.check_installed(p) or smm.install(p)`
  pub provide : String → World → Bool × World
  -- `time.sleep(n)`
  pub sleep : ℤ → World → World
  -- `random.randint(1, n)`
  pub randint : ℕ → World → ℕ × World
  -- `float`, and what Python does with floats
  pub Float : Type 0
  pub float_of_int : ℤ → Float
  pub float_of_string : String → Option Float
  pub string_of_float : Float → String
  pub int_of_float : Float → ℤ
  pub float_add : Float → Float → Float
  pub float_sub : Float → Float → Float
  pub float_mul : Float → Float → Float
  pub float_div : Float → Float → Float
  pub float_mod : Float → Float → Float
  -- the literal n / 100: `hundredths 40` is `0.4`
  pub hundredths : ℕ → Float
  -- `eval` of a text that is a list of numbers, or `none` if it raises
  pub eval_list : String → Option (List (Num Float))
  pub float_eq : Float → Float → Bool
  pub float_le : Float → Float → Bool

-- What the documentation of `random.randint(1, n)` says: the result lies between 1 and n.
pub record RandintInRange (H : Host) : Type 0 where
  pub in_range : (n : ℕ) (w : H.World) → 0 < n → (0 < (H.randint n w).0) × ((H.randint n w).0 ≤ n)

-- What IEEE 754 says of the whole numbers up to a bound, which is 2 ^ 53 for the interpreter's doubles:
-- each is a float, and on these floats a sum up to the bound, a comparison and `int` are exact.
pub record ExactFloats (H : Host) : Type 0 where
  pub bound : ℕ
  pub zero_is : H.hundredths 0 ≡ H.float_of_int (pos 0)
  pub adds :
      (a b : ℕ)
      → a + b ≤ bound
      → H.float_add (H.float_of_int (pos a)) (H.float_of_int (pos b)) ≡ H.float_of_int (pos (a + b))
  pub compares :
      (a b : ℕ)
      → a ≤ bound
      → b ≤ bound
      → H.float_le (H.float_of_int (pos a)) (H.float_of_int (pos b)) ≡ leb a b
  pub truncates : (a : ℕ) → a ≤ bound → H.int_of_float (H.float_of_int (pos a)) ≡ pos a
