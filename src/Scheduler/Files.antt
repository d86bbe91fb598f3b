-- ===== src/Scheduler/Files.antt =====
-- cpu/scheduler_tunables_test.py: the files of the tunables under `_set_tunable` and a workload.
use Prim.{absurd}
use avocado_misc_tests.Prelude.{
  ℕ, String, ◌<>◌, ◌≡◌, refl, sym, ◌∙◌, ap, Bool, true, false, Bool-cases, Option, none, some, List,
  [], ◌∷◌, inl, inr, str_eq, if◌then◌else◌,
}
use avocado_misc_tests.Prelude.Dict.{get}
use avocado_misc_tests.Prelude.Int.{ℤ}
use avocado_misc_tests.Prelude.Lists.{In}
use avocado_misc_tests.Text.{string_of_int}
use avocado_misc_tests.Python.{ok, fail, pure, raise, or_raise, ◌>>=◌}
use avocado_misc_tests.Scheduler.{Kernel, Session, Action, read_value}
use avocado_misc_tests.Scheduler.Tunables.{
  or_none, tunable_paths, first_existing, get_tunable_path, value_at, get_tunable, write,
  set_tunable,
}

none-some : {A : Type 0} {a : A} {C : Type 0} → none ≡ some a → C
none-some e = cc

some-inj : {A : Type 0} {a b : A} → some a ≡ some b → a ≡ b
some-inj e = cc

module _ ⦃K : Kernel⦄ where
  -- two worlds with the same files
  pub record SameFiles (w v : K.World) : Type 0 where
    pub reads : (path : String) → read_value v path ≡ read_value w path
    pub there : (path : String) → K.exists v path ≡ K.exists w path

  -- What the kernel's documentation says of the files of the scheduler: a value whose write returned is what
  -- the file shows, the write leaves the other files as they were, and no workload changes a file.
  pub record QuietFiles : Type 0 where
    pub run_same : (command : String) (w : K.World) → SameFiles w (K.run command w).1
    pub sleep_same : (n : ℕ) (w : K.World) → SameFiles w (K.sleep n w)
    pub write_shows :
        (w : K.World) (path value : String)
        → (K.write_file w path value).0 ≡ true
        → read_value (K.write_file w path value).1 path ≡ some value
    pub write_elsewhere :
        (w : K.World) (path other value : String)
        → str_eq path other ≡ false
        → read_value (K.write_file w path value).1 other ≡ read_value w other
    pub write_there :
        (w : K.World) (path other value : String)
        → K.exists (K.write_file w path value).1 other ≡ K.exists w other

  pub same_refl : (w : K.World) → SameFiles w w
  same_refl w = record { reads = λ p. refl; there = λ p. refl }

  pub same_trans : (w v x : K.World) → SameFiles w v → SameFiles v x → SameFiles w x
  same_trans w v x h k = record {
    reads = λ p. k.reads p ∙ h.reads p;
    there = λ p. k.there p ∙ h.there p;
  }

  pub first_existing-same :
      (w v : K.World) (paths : List String)
      → ((path : String) → K.exists v path ≡ K.exists w path)
      → first_existing v paths ≡ first_existing w paths
  unfolding first_existing
  first_existing-same w v [] same = refl
  first_existing-same w v (path ∷ paths) same =
      rw (same path)
        (ap (λ r. if K.exists w path then some path else r) (first_existing-same w v paths same))

  pub path-same :
      (w v : K.World) (name : String)
      → ((path : String) → K.exists v path ≡ K.exists w path)
      → get_tunable_path v name ≡ get_tunable_path w name
  unfolding get_tunable_path
  path-same w v name same = first_existing-same w v (or_none (get name tunable_paths)) same

  pub value_at-some :
      (w : K.World) (name path : String)
      → get_tunable_path w name ≡ some path
      → get_tunable w name ≡ read_value w path
  unfolding get_tunable value_at
  value_at-some w name path found = rw (get_tunable, found) refl

  -- what `_set_tunable` did when it returned
  pub record Set (name : String) (value : ℤ) (s t : Session K) : Type 0 where
    pub path : String
    pub found : get_tunable_path s.world name ≡ some path
    pub accepted : (K.write_file s.world path (string_of_int value)).0 ≡ true
    pub world_is : t.world ≡ (K.write_file s.world path (string_of_int value)).1

  written-ok :
      (b : Bool) (message : String) (s t : Session K) (u : Unit)
      → (if b then pure tt else raise (fail message)) s ≡ (ok u, t)
      → (b ≡ true) × (t ≡ s)
  written-ok true message s t u h = (refl, sym (ap (λ r. r.1) h))
  written-ok false message s t u h = cc

  found-ok :
      (o : Option String) (message : String) (f : String → Action Unit) (s t : Session K) (u : Unit)
      → (or_raise o (fail message) >>= f) s ≡ (ok u, t)
      → (path : String) × (o ≡ some path) × (f path s ≡ (ok u, t))
  unfolding ◌>>=◌
  found-ok none message f s t u h = cc
  found-ok (some path) message f s t u h = (path, refl, h)

  pub set_tunable-Set :
      (name : String) (value : ℤ) (s t : Session K) (u : Unit)
      → set_tunable name value s ≡ (ok u, t)
      → Set name value s t
  unfolding set_tunable write ◌>>=◌
  set_tunable-Set name value s t u h =
      let (path, found, rest) =
        found-ok (get_tunable_path s.world name) _
          (λ p. write p (string_of_int value) >>= λ b.
            if b then pure tt else raise (fail ("Failed to set " <> name)))
          s t u h in
      let (accepted, is) =
        written-ok (K.write_file s.world path (string_of_int value)).0 ("Failed to set " <> name) _
          t u rest in
      record { path = path; found = found; accepted = accepted; world_is = ap (λ r. r.world) is }

  first_existing-In :
      (w : K.World) (paths : List String) (path : String)
      → first_existing w paths ≡ some path
      → In path paths
  unfolding first_existing
  first_existing-In w [] path h = none-some h
  first_existing-In w (p ∷ paths) path h = elim (Bool-cases (K.exists w p)) [
    | inl there ↦ inl (some-inj (sym (rw (first_existing, there) at h)))
    | inr missing ↦ inr (first_existing-In w paths path (rw (first_existing, missing) at h))
  ]

  -- the two tunables have no file in common
  pub apart :
      (w v : K.World) (p q : String)
      → get_tunable_path w "base_slice_ns" ≡ some p
      → get_tunable_path v "sched_migration_cost_ns" ≡ some q
      → str_eq q p ≡ false
  unfolding get_tunable_path get
  apart w v p q base cost = elim (first_existing-In v _ q cost) [
    | inl a ↦ rw a (from_base p (first_existing-In w _ p base)).0
    | inr (inl b) ↦ rw b (from_base p (first_existing-In w _ p base)).1
    | inr (inr none_left) ↦ absurd none_left
  ]
    where
      from_base :
          (p : String)
          → In p (
              "/sys/kernel/debug/sched/base_slice_ns" ∷ "/sys/kernel/debug/sched/latency_ns"
              ∷ "/proc/sys/kernel/sched_latency_ns" ∷ [])
          → (str_eq "/proc/sys/kernel/sched_migration_cost_ns" p ≡ false)
            × (str_eq "/sys/kernel/debug/sched/migration_cost_ns" p ≡ false)
      from_base p (inl a) = rw a (refl, refl)
      from_base p (inr (inl a)) = rw a (refl, refl)
      from_base p (inr (inr (inl a))) = rw a (refl, refl)
      from_base p (inr (inr (inr none_left))) = absurd none_left

  module _ (Q : QuietFiles) where
    -- the files behind a value that is set
    module _ (name : String) (value : ℤ) (s t : Session K) (done : Set name value s t) where
      pub set-reads : read_value t.world done.path ≡ some (string_of_int value)
      set-reads =
          rw done.world_is (Q.write_shows s.world done.path (string_of_int value) done.accepted)

      pub set-elsewhere :
          (other : String)
          → str_eq done.path other ≡ false
          → read_value t.world other ≡ read_value s.world other
      set-elsewhere other differ =
          rw done.world_is (Q.write_elsewhere s.world done.path other (string_of_int value) differ)

      pub set-there : (other : String) → K.exists t.world other ≡ K.exists s.world other
      set-there other =
          rw done.world_is (Q.write_there s.world done.path other (string_of_int value))
