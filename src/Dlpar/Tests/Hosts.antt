-- ===== src/Dlpar/Tests/Hosts.antt =====
-- Concrete hosts for the tests: a console that answers from a script.
use avocado_misc_tests.Prelude.{
  if◌then◌else◌, str_eq, ◌^◌, ◌≡◌, refl, ap, ℕ, ◌+◌, ◌-◌, ◌*◌, ◌/◌, ◌%◌, String, Bool, true, arith,
  Option, none, some, List, [], ◌∷◌, ◌==◌, leb,
}
use avocado_misc_tests.Prelude.Int.{ℤ, pos, pos_part}
use avocado_misc_tests.Text.{string_of_int, int_of_string}
use avocado_misc_tests.Dlpar.Host.{Host, RandintInRange, ExactFloats}
use avocado_misc_tests.Dlpar.Num.{int}
use avocado_misc_tests.Dlpar.Session.{Machine, Session}
use avocado_misc_tests.Dlpar.Connections.{Config}

abbrev whole : Option ℤ → Option ℕ
whole none = none
whole (some n) = some (pos_part n * 100)

-- a host with this console; its floats are hundredths that are not below zero
abbrev pub host_of : (W : Type 0) → (String → W → Option String × W) → Host
host_of W command = record {
  World = W;
  connect = λ name user passwd w. (some true, w);
  hmc_cmd = command;
  peer_cmd = λ name c w. (none, w);
  local_cmd = command;
  provide = λ p w. (true, w);
  sleep = λ n w. w;
  randint = λ n w. (1, w);
  Float = ℕ;
  float_of_int = λ n. pos_part n * 100;
  float_of_string = λ t. whole (int_of_string t);
  string_of_float = λ x. string_of_int (pos (x / 100));
  int_of_float = λ x. pos (x / 100);
  float_add = λ x y. x + y;
  float_sub = λ x y. x - y;
  float_mul = λ x y. x * y / 100;
  float_div = λ x y. x * 100 / y;
  float_mod = λ x y. x % y;
  hundredths = λ n. n;
  eval_list = λ t.
      if str_eq t "[1, 2]\n"
      then some (int (pos 1) ∷ int (pos 2) ∷ [])
      else if str_eq t "[3]\n"
      then some (int (pos 3) ∷ [])
      else none;
  float_eq = λ x y. x == y;
  float_le = λ x y. leb x y;
}

-- Each command prints the next line of the script, and raises behind its end.
abbrev pub from_script : String → List String → Option String × List String
from_script c [] = (none, [])
from_script c (line ∷ lines) = (some line, lines)

abbrev pub scripted : Host
scripted = host_of (List String) from_script

abbrev pub console_machine : Machine
console_machine = record {
  name = "hmc";
  machine = "sys";
  partition = "sys";
  connected = true;
  mac_con = 0;
}

abbrev pub first_lpar : Machine
first_lpar = record {
  name = "host1";
  machine = "sys";
  partition = "lp1";
  connected = Bool.false;
  mac_con = 0;
}

abbrev pub second_lpar : Machine
second_lpar = record {
  name = "host2";
  machine = "sys";
  partition = "lp2";
  connected = true;
  mac_con = 0;
}

-- a connected test object on a world
abbrev pub connected : (H : Host) → H.World → Session H
connected H w = record {
  world = w;
  history = [];
  log = [];
  hmc = some console_machine;
  linux_1 = some first_lpar;
  linux_2 = some second_lpar;
  cmd_result = none;
  cpu_per_processor = pos 8;
  quant_to_test = some (int (pos 4));
  sleep_time = pos 1;
  config_txt = none;
}

abbrev pub config : (H : Host) → Config H
config H = record {
  src_name = "host1";
  src_partition = "lp1";
  hmc_name = "hmc";
  hmc_user = "user";
  hmc_passwd = "secret";
  hmc_manage_system = "sys";
  target_lpar_hostname = "host2";
  target_user = "root";
  target_passwd = "secret";
  target_partition = "lp2";
  cfg_cpu_per_proc = pos 8;
  sleep_time = pos 1;
  iterations = 2;
  ded_quantity_to_test = some (int (pos 1));
  cpu_quantity_to_test = some (int (pos 1));
  mem_quantity_to_test = some (int (pos 4));
  mem_linux_machine = "primary";
}

pub scripted_randint : RandintInRange scripted
scripted_randint = record { in_range = λ n w above. (omega arith, above) }

pub leb-hundredths : (a b : ℕ) → leb (a * 100) (b * 100) ≡ leb a b
leb-hundredths a b = ground arith

-- The floats of these hosts are exact in the range of doubles.
abbrev pub exact :
    (W : Type 0) (command : String → W → Option String × W) → ExactFloats (host_of W command)
exact W command = record {
  bound = 2 ^ 53;
  zero_is = refl;
  adds = λ a b fits. omega arith;
  compares = λ a b small_a small_b. leb-hundredths a b;
  truncates = λ a small. let back : a * 100 / 100 ≡ a = omega arith in ap pos back;
}
