-- ===== src/Topology/Tests/Machines.antt =====
-- cpu/cpu_die_topology.py: machines with two CPUs on one die, with one CPU on a die of no valid number, and
-- with two dies of eight CPUs, and a bench on which hackbench runs.
use avocado_misc_tests.Prelude.{
  ℕ, String, Bool, true, false, Option, none, some, List, [], ◌∷◌, ◌++◌, map, str_eq, if◌then◌else◌,
}
use avocado_misc_tests.Topology.{Sysfs, Case, topology_path}
use avocado_misc_tests.Topology.Hackbench.{Bench, Timing}

abbrev pub Files : Type 0
Files = List (String × String)

abbrev pub file : Files → String → Option String
file [] path = none
file ((p, text) ∷ files) path =
    let rest = file files path in if str_eq p path then some text else rest

abbrev pub is_some : Option String → Bool
is_some none = false
is_some (some _) = true

abbrev pub machine : List ℕ → Files → Sysfs
machine cpus files = record {
  arch = "ppc64le";
  online_list = cpus;
  exists = λ path. is_some (file files path);
  read_file = file files;
  text = λ f. "";
}

abbrev pub one_die : Sysfs
one_die = machine (0 ∷ 1 ∷ []) (
    ("/sys/devices/system/cpu/cpu0/topology/die_id", "0\n")
    ∷ ("/sys/devices/system/cpu/cpu1/topology/die_id", "0\n")
    ∷ ("/sys/devices/system/cpu/cpu0/topology/physical_package_id", "4\n")
    ∷ ("/sys/devices/system/cpu/cpu1/topology/physical_package_id", "4\n")
    ∷ ("/sys/devices/system/cpu/cpu0/topology/die_cpus_list", "0-1\n")
    ∷ ("/sys/devices/system/cpu/cpu1/topology/die_cpus_list", "0-1\n")
    ∷ [])

abbrev pub bad_die : Sysfs
bad_die = machine (0 ∷ []) (("/sys/devices/system/cpu/cpu0/topology/die_id", "-2\n") ∷ [])

abbrev pub start : Case
start = record { failures = [] }

abbrev pub die_files : String → List ℕ → Files
die_files die cpus = map (λ cpu. (topology_path cpu "die_id", die)) cpus

abbrev pub first_cpus : List ℕ
first_cpus = 0 ∷ 1 ∷ 2 ∷ 3 ∷ 4 ∷ 5 ∷ 6 ∷ 7 ∷ []

abbrev pub last_cpus : List ℕ
last_cpus = 8 ∷ 9 ∷ 10 ∷ 11 ∷ 12 ∷ 13 ∷ 14 ∷ 15 ∷ []

abbrev pub two_dies : Sysfs
two_dies =
    machine (first_cpus ++ last_cpus) (die_files "0\n" first_cpus ++ die_files "1\n" last_cpus)

-- hackbench is built, and each run takes 12 seconds
abbrev pub bench : Bench
bench = record {
  World = Unit;
  provide = λ name w. (true, w);
  fetch = λ w. (some "/var/lib/ltp-master.zip", w);
  workdir = "/var/tmp/work";
  exists = λ w path. true;
  make_dirs = λ path w. (true, w);
  extract = λ tarball dir w. (true, w);
  build = λ base dir w. (true, w);
  run = λ c w. (some "Running with 20*40 tasks.\nTime:  12.25\n", w);
  test_type = "performance";
  hackbench_groups = "20";
  hackbench_loops = "2000";
  hackbench_iterations = 4;
  Float = String;
  float_of_string = λ s. some s;
  is_zero = λ s. false;
}

abbrev pub untimed : Timing bench
untimed = record { case = start; hackbench_binary = none; world = tt }
