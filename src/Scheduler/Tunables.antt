-- ===== src/Scheduler/Tunables.antt =====
-- cpu/scheduler_tunables_test.py: the files of the tunables, and how they are saved, set and restored.
use avocado_misc_tests.Prelude.{
  String, ◌<>◌, Bool, Option, none, some, List, [], ◌∷◌, if◌then◌else◌,
}
use avocado_misc_tests.Prelude.Dict.{Dict, get, set}
use avocado_misc_tests.Prelude.Int.{ℤ}
use avocado_misc_tests.Text.{string_of_int}
use avocado_misc_tests.Python.{
  attribute_error, fail, pure, raise, gets, modify, or_raise, for_each, ◌>>=◌,
}
use avocado_misc_tests.Scheduler.{Kernel, Action, read_value}

abbrev pub tunable_paths : Dict (List String)
tunable_paths =
    (
      "base_slice_ns",
      "/sys/kernel/debug/sched/base_slice_ns" ∷ "/sys/kernel/debug/sched/latency_ns"
          ∷ "/proc/sys/kernel/sched_latency_ns" ∷ [],
    )
    ∷ (
      "sched_migration_cost_ns",
      "/proc/sys/kernel/sched_migration_cost_ns" ∷ "/sys/kernel/debug/sched/migration_cost_ns" ∷ [],
    )
    ∷ (
      "sched_nr_migrate",
      "/proc/sys/kernel/sched_nr_migrate" ∷ "/sys/kernel/debug/sched/nr_migrate" ∷ [],
    )
    ∷ ("sched_schedstats", "/proc/sys/kernel/sched_schedstats" ∷ [])
    ∷ []

abbrev pub tunables : List String
tunables =
    "base_slice_ns" ∷ "sched_migration_cost_ns" ∷ "sched_nr_migrate" ∷ "sched_schedstats" ∷ []

abbrev pub or_none : Option (List String) → List String
or_none none = []
or_none (some paths) = paths

-- `self.original_tunables[tunable_path] = value`
abbrev pub save_in : String → String → Option (Dict String) → Option (Dict String)
save_in path value none = none
save_in path value (some saved) = some (set path value saved)

module _ ⦃K : Kernel⦄ where
  unfoldable pub first_existing : K.World → List String → Option String
  first_existing w [] = none
  first_existing w (path ∷ paths) =
      let rest = first_existing w paths in if K.exists w path then some path else rest

  -- `_get_tunable_path`
  unfoldable pub get_tunable_path : K.World → String → Option String
  get_tunable_path w tunable_name = first_existing w (or_none (get tunable_name tunable_paths))

  unfoldable pub value_at : K.World → Option String → Option String
  value_at w none = none
  value_at w (some path) = read_value w path

  -- `_get_tunable`
  unfoldable pub get_tunable : K.World → String → Option String
  unfolding value_at
  get_tunable w tunable_name = value_at w (get_tunable_path w tunable_name)

  unfoldable pub save : String → String → Action Unit
  save path value =
      modify (λ s. record s { original_tunables = save_in path value s.original_tunables })

  -- A value that cannot be read is not saved.
  unfoldable pub save_value : String → Option String → Action Unit
  save_value path none = pure tt
  save_value path (some value) = save path value

  unfoldable pub save_tunable : Option String → Action Unit
  save_tunable none = pure tt
  save_tunable (some path) = do value ← gets (λ s. read_value s.world path); save_value path value

  -- `_check_and_save_tunables`
  unfoldable pub check_and_save_tunables : Action Unit
  check_and_save_tunables = for_each tunables (λ tunable_name. do
    path ← gets (λ s. get_tunable_path s.world tunable_name)
    save_tunable path)

  unfoldable pub write : String → String → Action Bool
  write path text s =
      pure (K.write_file s.world path text).0
        (record s { world = (K.write_file s.world path text).1 })

  -- `_set_tunable`
  unfoldable pub set_tunable : String → ℤ → Action Unit
  set_tunable tunable_name value = do
    found ← gets (λ s. get_tunable_path s.world tunable_name)
    path ← or_raise found (fail ("Tunable " <> (tunable_name <> " not found")))
    written ← write path (string_of_int value)
    if written then pure tt else raise (fail ("Failed to set " <> tunable_name))

  -- `_restore_tunables`: a write that raises is logged, and the next tunable is restored.
  unfoldable pub restore_tunables : Action Unit
  restore_tunables = do
    attribute ← gets (λ s. s.original_tunables)
    saved ← or_raise attribute attribute_error
    for_each saved (λ tunable. do written ← write tunable.0 tunable.1; pure tt)
