-- ===== src/Scheduler/Tests/Host.antt =====
-- cpu/scheduler_tunables_test.py: a kernel whose tunables take four values, and whose files keep to the
-- documentation.
use Prim.{⊥, absurd}
use avocado_misc_tests.Prelude.{
  ℕ, ◌+◌, ◌*◌, ◌/◌, ◌-◌, String, ◌<>◌, ◌≡◌, refl, sym, ◌∙◌, ap, Bool, true, false, ◌||◌, Bool-cases,
  Option, none, some, Option-cases, inl, inr, str_eq, str_eq_iff, ltb, if◌then◌else◌,
}
use avocado_misc_tests.Prelude.Dict.{str_eq_refl}
use avocado_misc_tests.Prelude.Int.{ℤ, pos, negsuc}
use avocado_misc_tests.Text.{strip, int_of_string}
use avocado_misc_tests.Scheduler.{Kernel, read_value}
use avocado_misc_tests.Scheduler.Files.{QuietFiles}
use avocado_misc_tests.Scheduler.Saved.Restored.{TunableFiles}

-- the values of a tunable
pub data Level : Type 0 where
  slice cost low_slice low_cost : Level

abbrev pub text_of : Level → String
text_of slice = "3000000"
text_of cost = "500000"
text_of low_slice = "750000"
text_of low_cost = "50000"

abbrev pub level_of : String → Option Level
level_of text =
    if str_eq text "3000000"
    then some slice
    else if str_eq text "500000"
    then some cost
    else if str_eq text "750000"
    then some low_slice
    else if str_eq text "50000"
    then some low_cost
    else none

abbrev pub Files : Type 0
Files = String → Level

abbrev pub update : Files → String → Option Level → Bool × Files
update w path none = (false, w)
update w path (some level) = (true, λ q. if str_eq path q then level else w q)

abbrev pub hundred : Option ℤ → Option ℕ
hundred none = none
hundred (some (pos n)) = some (n * 100)
hundred (some (negsuc n)) = none

abbrev pub natural : ℤ → ℕ
natural (pos n) = n
natural (negsuc n) = 0

abbrev pub perf_text : String
perf_text = "  1,205 context-switches # 4.5 K/sec\n   17  cpu-migrations # 0.1 K/sec\n"

-- a float is a number of hundredths
abbrev pub kernel : Kernel
kernel = record {
  World = Files;
  exists = λ w path.
      str_eq path "/sys/kernel/debug/sched/latency_ns"
      || str_eq path "/proc/sys/kernel/sched_migration_cost_ns";
  is_mount = λ w path. false;
  read_file = λ w path. some (text_of (w path) <> "\n");
  write_file = λ w path text. update w path (level_of text);
  run = λ c w. (some (pos 0, perf_text), w);
  provide = λ p w. (true, w);
  sleep = λ n w. w;
  online_count = λ w. 4;
  test_duration = 10;
  configured_workers = 0;
  workload_type = λ path default. default;
  Float = ℕ;
  factor = λ key path default. some default;
  hundredths = λ n. n;
  float_of_string = λ s. hundred (int_of_string s);
  float_of_int = λ n. some (natural n * 100);
  int_of_float = λ x. some (pos (x / 100));
  add = λ x y. x + y;
  sub = λ x y. x - y;
  mul = λ x y. x * y / 100;
  div = λ x y. x * 100 / y;
  square = λ x. some (x * x / 100);
  root = λ x. x;
  int_div = λ m n. some (natural m * 100 / natural n);
  gt = λ x y. ltb y x;
}

pub shown : (l : Level) → strip (text_of l <> "\n") ≡ text_of l
unfolding strip
shown slice = refl
shown cost = refl
shown low_slice = refl
shown low_cost = refl

pub level_text : (l : Level) → level_of (text_of l) ≡ some l
level_text slice = refl
level_text cost = refl
level_text low_slice = refl
level_text low_cost = refl

abbrev pub is_some : Option Level → Bool
is_some none = false
is_some (some _) = true

pub text_level : (text : String) (l : Level) → level_of text ≡ some l → text_of l ≡ text
text_level text l h = elim (Bool-cases (str_eq text "3000000")) [
  | inl a ↦ known text "3000000" slice l a (rw a at h) refl
  | inr not_a ↦ elim (Bool-cases (str_eq text "500000")) [
    | inl b ↦ known text "500000" cost l b (rw (not_a, b) at h) refl
    | inr not_b ↦ elim (Bool-cases (str_eq text "750000")) [
      | inl c ↦ known text "750000" low_slice l c (rw (not_a, not_b, c) at h) refl
      | inr not_c ↦ elim (Bool-cases (str_eq text "50000")) [
        | inl d ↦ known text "50000" low_cost l d (rw (not_a, not_b, not_c, d) at h) refl
        | inr not_d ↦ let never = rw (not_a, not_b, not_c, not_d) at h in cc
      ]
    ]
  ]
]
  where
    known :
        (text literal : String) (m l : Level)
        → str_eq text literal ≡ true
        → Path (Option Level) (some m) (some l)
        → text_of m ≡ literal
        → text_of l ≡ text
    known text literal m l same is shows =
        let m_is : m ≡ l = cc in
        ap text_of (sym m_is) ∙ shows ∙ sym ((str_eq_iff text literal).0 same)

unfoldable pub tunable_files : TunableFiles ⦃K = kernel⦄
unfolding read_value
tunable_files = record {
  legal = λ path value. is_some (level_of value);
  shown_is_legal = λ w path value reads.
      let is : text_of (w path) ≡ value = sym (shown (w path)) ∙ text_inj reads in
      ap (λ v. is_some (level_of v)) (sym is) ∙ ap is_some (level_text (w path));
  write_shows = λ w path value legal. elim (Option-cases (level_of value)) [
    | inl unknown ↦ let never = rw unknown at legal in absurd (false-true never)
    | inr (l, is) ↦ rw (is, str_eq_refl path, shown l, text_level value l is) refl
  ];
  write_elsewhere = λ w path other value differ. elim (Option-cases (level_of value)) [
    | inl unknown ↦ rw unknown refl
    | inr (l, is) ↦ rw (is, differ) refl
  ];
}
  where
    text_inj : {a b : String} → some a ≡ some b → a ≡ b
    text_inj e = cc

    false-true : false ≡ true → ⊥
    false-true e = cc

-- no workload changes a file, and a write that returned is what the file shows
pub quiet_files : QuietFiles ⦃K = kernel⦄
unfolding read_value tunable_files
quiet_files = record {
  run_same = λ c w. record { reads = λ p. refl; there = λ p. refl };
  sleep_same = λ n w. record { reads = λ p. refl; there = λ p. refl };
  write_shows = λ w path value accepted.
      tunable_files.write_shows w path value (is_known w path (level_of value) accepted);
  write_elsewhere = tunable_files.write_elsewhere;
  write_there = λ w path other value. refl;
}
  where
    is_known :
        (w : Files) (path : String) (o : Option Level)
        → (update w path o).0 ≡ true
        → is_some o ≡ true
    is_known w path none h = h
    is_known w path (some l) h = refl
