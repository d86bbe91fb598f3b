-- ===== src/Dlpar/Tests/Adding.antt =====
-- The loops over dedicated processors on a console whose partition may have up to three processors.
use avocado_misc_tests.Prelude.{
  ℕ, zero, suc, ◌+◌, ◌≤◌, ◌<◌, true, false, ◌≡◌, refl, String, Option, none, some, List, [], ◌∷◌,
  arith, if◌then◌else◌,
}
use Prim.{absurd}
use avocado_misc_tests.Prelude.Int.{pos}
use avocado_misc_tests.Text.{contains, is_empty, string_of_int, int_of_string, strip}
use avocado_misc_tests.Python.{Result, for_each, ◌>>=◌}
use avocado_misc_tests.Dlpar.Host.{Host}
use avocado_misc_tests.Dlpar.Num.{Number, int, num_int}
use avocado_misc_tests.Dlpar.Session.{Session}
use avocado_misc_tests.Dlpar.Engine.{proc_query, change_command}
use avocado_misc_tests.Dlpar.Dedicated.{procs_flag}
use avocado_misc_tests.Dlpar.Suite.Outcome.{contains_any, capacity_markers}
use avocado_misc_tests.Dlpar.Suite.Cpu.{add_round, remove_round, mix_round}
use avocado_misc_tests.Dlpar.Suite.Console.{DedicatedConsole, At, Runs}
use avocado_misc_tests.Dlpar.Suite.Adding.{add_all, Ends, add_rounds-refine}
use avocado_misc_tests.Dlpar.Payload.Cpu.{progression}
use avocado_misc_tests.Dlpar.Payload.Numbers.{cpu_amounts}
use avocado_misc_tests.Dlpar.Suite.Filling.{cpu_payload_data-add_rounds}
use avocado_misc_tests.Dlpar.Suite.Removing.{RemovingConsole, remove_rounds-Runs, mix_rounds-Runs}
use avocado_misc_tests.Prelude.Lists.{sum}
use avocado_misc_tests.Dlpar.Tests.Hosts.{host_of, exact, connected, console_machine, first_lpar}

data Level : Type 0 where
  one_proc two_procs three_procs : Level

abbrev shown : Level → String
shown one_proc = "1\n"
shown two_procs = "2\n"
shown three_procs = "3\n"

abbrev count : Level → ℕ
count one_proc = 1
count two_procs = 2
count three_procs = 3

abbrev too_many : String
too_many = "The quantity to be added exceeds the available resources."

abbrev plus_one : Level → Option String × Level
plus_one one_proc = (some "", two_procs)
plus_one two_procs = (some "", three_procs)
plus_one three_procs = (some too_many, three_procs)

abbrev plus_two : Level → Option String × Level
plus_two one_proc = (some "", three_procs)
plus_two two_procs = (some too_many, two_procs)
plus_two three_procs = (some too_many, three_procs)

abbrev minus_one : Level → Option String × Level
minus_one one_proc = (some "HSCL0000", one_proc)
minus_one two_procs = (some "", one_proc)
minus_one three_procs = (some "", two_procs)

abbrev minus_two : Level → Option String × Level
minus_two one_proc = (some "HSCL0000", one_proc)
minus_two two_procs = (some "HSCL0000", two_procs)
minus_two three_procs = (some "", one_proc)

abbrev run : String → Level → Option String × Level
run c w =
    if contains c "lshwres"
    then (some (shown w), w)
    else if contains c "--procs 0 "
    then (some "", w)
    else if contains c "--procs 1 "
    then (if contains c "-o r" then minus_one w else plus_one w)
    else if contains c "--procs 2 "
    then (if contains c "-o r" then minus_two w else plus_two w)
    else (none, w)

abbrev small : Host
small = host_of Level run

small_shows :
    (w : Level)
    → (reply : String) × (v : Level) × (run (proc_query first_lpar "curr_procs") w
        ≡ (some reply, v))
      × (int_of_string (strip reply) ≡ some (pos (count w)))
      × (count v ≡ count w)
unfolding proc_query int_of_string strip
small_shows one_proc = ("1\n", one_proc, refl, refl, refl)
small_shows two_procs = ("2\n", two_procs, refl, refl, refl)
small_shows three_procs = ("3\n", three_procs, refl, refl, refl)

abbrev add_command : ℕ → String
add_command q = change_command (procs_flag ⦃H = small⦄ "a") first_lpar (string_of_int (pos q))

small_adds :
    (w : Level) (q : ℕ)
    → q ≤ 2
    → count w + q ≤ 3
    → (v : Level) × (run (add_command q) w ≡ (some "", v)) × (count v ≡ count w + q)
unfolding change_command string_of_int
small_adds one_proc zero few fits = (one_proc, refl, refl)
small_adds one_proc (suc zero) few fits = (two_procs, refl, refl)
small_adds one_proc (suc (suc zero)) few fits = (three_procs, refl, refl)
small_adds one_proc (suc (suc (suc q))) few fits = absurd (omega (arith, few))
small_adds two_procs zero few fits = (two_procs, refl, refl)
small_adds two_procs (suc zero) few fits = (three_procs, refl, refl)
small_adds two_procs (suc (suc zero)) few fits = absurd (omega (arith, fits))
small_adds two_procs (suc (suc (suc q))) few fits = absurd (omega (arith, few))
small_adds three_procs zero few fits = (three_procs, refl, refl)
small_adds three_procs (suc zero) few fits = absurd (omega (arith, fits))
small_adds three_procs (suc (suc zero)) few fits = absurd (omega (arith, fits))
small_adds three_procs (suc (suc (suc q))) few fits = absurd (omega (arith, few))

small_refuses :
    (w : Level) (q : ℕ)
    → q ≤ 2
    → 3 < count w + q
    → (reply : String) × (v : Level) × (run (add_command q) w ≡ (some reply, v))
      × (is_empty reply ≡ false)
      × (contains_any reply capacity_markers ≡ true)
      × (count v ≡ count w)
unfolding change_command string_of_int contains_any
small_refuses one_proc zero few over = absurd (omega (arith, over))
small_refuses one_proc (suc zero) few over = absurd (omega (arith, over))
small_refuses one_proc (suc (suc zero)) few over = absurd (omega (arith, over))
small_refuses one_proc (suc (suc (suc q))) few over = absurd (omega (arith, few))
small_refuses two_procs zero few over = absurd (omega (arith, over))
small_refuses two_procs (suc zero) few over = absurd (omega (arith, over))
small_refuses two_procs (suc (suc zero)) few over = (too_many, two_procs, refl, refl, refl, refl)
small_refuses two_procs (suc (suc (suc q))) few over = absurd (omega (arith, few))
small_refuses three_procs zero few over = absurd (omega (arith, over))
small_refuses three_procs (suc zero) few over = (too_many, three_procs, refl, refl, refl, refl)
small_refuses three_procs (suc (suc zero)) few over =
    (too_many, three_procs, refl, refl, refl, refl)
small_refuses three_procs (suc (suc (suc q))) few over = absurd (omega (arith, few))

abbrev small_console : DedicatedConsole ⦃H = small⦄ first_lpar
small_console = record {
  limit = 3;
  largest = 2;
  procs = count;
  shows = small_shows;
  adds = small_adds;
  refuses = small_refuses;
  rests = λ n w. refl;
}

abbrev start : Session small
start = connected small one_proc

abbrev ones : List (Number ⦃H = small⦄)
ones = int (pos 1) ∷ int (pos 1) ∷ int (pos 1) ∷ []

start-At : At ⦃H = small⦄ first_lpar small_console 1 start
start-At = record { console = console_machine; hmc = refl; primary = refl; procs = refl }

add_rounds-refine_example :
    (r : Result Unit) × (t : Session small) × (for_each ones (add_round ⦃H = small⦄) start ≡ (r, t))
    × Ends ⦃H = small⦄ first_lpar small_console (add_all 3 1 (1 ∷ 1 ∷ 1 ∷ [])).1 r
    × At ⦃H = small⦄ first_lpar small_console (add_all 3 1 (1 ∷ 1 ∷ 1 ∷ [])).0 t
unfolding num_int
add_rounds-refine_example =
    add_rounds-refine ⦃H = small⦄ first_lpar small_console ones (1 ∷ 1 ∷ 1 ∷ []) 1 start refl
      (omega arith, (omega arith, (omega arith, tt))) start-At

add_all_run : add_all 3 1 (1 ∷ 1 ∷ 1 ∷ []) ≡ (3, false)
unfolding add_all
add_all_run = refl

abbrev remove_command : ℕ → String
remove_command q = change_command (procs_flag ⦃H = small⦄ "r") first_lpar (string_of_int (pos q))

small_removes :
    (w : Level) (k q : ℕ)
    → q ≤ 2
    → count w ≡ k + q
    → 1 ≤ k
    → (v : Level) × (run (remove_command q) w ≡ (some "", v)) × (count v ≡ k)
unfolding change_command string_of_int
small_removes one_proc k zero few had keeps = (one_proc, refl, omega (arith, had))
small_removes one_proc k (suc zero) few had keeps = absurd (omega (arith, had, keeps))
small_removes one_proc k (suc (suc zero)) few had keeps = absurd (omega (arith, had, keeps))
small_removes one_proc k (suc (suc (suc q))) few had keeps = absurd (omega (arith, few))
small_removes two_procs k zero few had keeps = (two_procs, refl, omega (arith, had))
small_removes two_procs k (suc zero) few had keeps = (one_proc, refl, omega (arith, had))
small_removes two_procs k (suc (suc zero)) few had keeps = absurd (omega (arith, had, keeps))
small_removes two_procs k (suc (suc (suc q))) few had keeps = absurd (omega (arith, few))
small_removes three_procs k zero few had keeps = (three_procs, refl, omega (arith, had))
small_removes three_procs k (suc zero) few had keeps = (two_procs, refl, omega (arith, had))
small_removes three_procs k (suc (suc zero)) few had keeps = (one_proc, refl, omega (arith, had))
small_removes three_procs k (suc (suc (suc q))) few had keeps = absurd (omega (arith, few))

abbrev small_removing : RemovingConsole ⦃H = small⦄ first_lpar small_console
small_removing = record { least = 1; removes = small_removes }

abbrev full : Session small
full = connected small three_procs

full-At : At ⦃H = small⦄ first_lpar small_console (1 + sum (1 ∷ 1 ∷ [])) full
full-At = record { console = console_machine; hmc = refl; primary = refl; procs = refl }

abbrev two_ones : List (Number ⦃H = small⦄)
two_ones = int (pos 1) ∷ int (pos 1) ∷ []

remove_rounds-Runs_example :
    Runs ⦃H = small⦄ first_lpar small_console
      (for_each two_ones (remove_round ⦃H = small⦄))
      full
      tt
      1
unfolding num_int
remove_rounds-Runs_example =
    remove_rounds-Runs ⦃H = small⦄ first_lpar small_console small_removing two_ones (1 ∷ 1 ∷ []) 1
      full refl (omega arith, (omega arith, tt)) (omega arith) full-At

mix_rounds-Runs_example :
    Runs ⦃H = small⦄ first_lpar small_console
      (for_each (1 ∷ 2 ∷ []) (mix_round ⦃H = small⦄))
      start
      tt
      1
mix_rounds-Runs_example =
    mix_rounds-Runs ⦃H = small⦄ first_lpar small_console small_removing (1 ∷ 2 ∷ []) 1 start
      ((omega arith, omega arith), ((omega arith, omega arith), tt)) (omega arith) start-At

cpu_payload_data-add_rounds_example :
    (k : ℕ) × Runs ⦃H = small⦄ first_lpar small_console
      (cpu_amounts ⦃H = small⦄ 4 (int (pos 3)) (int (pos 1)) (int (pos 1)) >>= λ cpu_payload.
        for_each cpu_payload (add_round ⦃H = small⦄))
      start
      tt
      (1 + sum (progression 1 1 k))
    × (1 + sum (progression 1 1 k) ≤ 3)
    × (3 < 1 + sum (progression 1 1 k) + (k + 1))
cpu_payload_data-add_rounds_example =
    cpu_payload_data-add_rounds ⦃H = small⦄ first_lpar small_console (exact Level run) 4 1 start
      (omega arith) (omega arith) (omega arith) (omega arith) start-At
