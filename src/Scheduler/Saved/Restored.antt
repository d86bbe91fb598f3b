-- ===== src/Scheduler/Saved/Restored.antt =====
-- cpu/scheduler_tunables_test.py: `tearDown` restores what `setUp` has saved, whatever the test between
-- them did.
use avocado_misc_tests.Prelude.{
  String, ◌≡◌, refl, sym, ◌∙◌, ap, Bool, true, false, ◌||◌, some, [], ◌∷◌, arith, str_eq,
}
use avocado_misc_tests.Prelude.Dict.{Dict, has, IsDict}
use avocado_misc_tests.Prelude.Lists.{In, All, In-All, All-In}
use avocado_misc_tests.Python.{ok, attribute_error, pure, or_raise, for_each, ◌>>=◌, ◌>>◌}
use avocado_misc_tests.Python.Inversion.{>>=-eq-ok}
use avocado_misc_tests.Scheduler.{Kernel, Session, Action, read_value}
use avocado_misc_tests.Scheduler.Tunables.{
  tunables, write, get_tunable_path, check_and_save_tunables, restore_tunables,
}
use avocado_misc_tests.Scheduler.Cases.{
  install_package, configure, mount_debugfs, set_up, TestName, run_test, tear_down,
}
use avocado_misc_tests.Scheduler.Kept.{run_test-Keeps, mount_debugfs-Keeps}
use avocado_misc_tests.Scheduler.Saved.{Shows, Saving, check_and_save_tunables-Saving}

or-false : (a b : Bool) → (a || b) ≡ false → (a ≡ false) × (b ≡ false)
or-false a b h = ground (arith, h)

module _ ⦃K : Kernel⦄ where
  -- What the kernel's documentation says of the files of the scheduler: a value that a file has shown may be
  -- written to it, and is what it shows then; a write to one file leaves the others as they were.
  pub record TunableFiles : Type 0 where
    pub legal : String → String → Bool
    pub shown_is_legal :
        (w : K.World) (path value : String)
        → read_value w path ≡ some value
        → legal path value ≡ true
    pub write_shows :
        (w : K.World) (path value : String)
        → legal path value ≡ true
        → read_value (K.write_file w path value).1 path ≡ some value
    pub write_elsewhere :
        (w : K.World) (path other value : String)
        → str_eq path other ≡ false
        → read_value (K.write_file w path value).1 other ≡ read_value w other

  abbrev pub restoring : String × String → Action Unit
  restoring tunable = do written ← write tunable.0 tunable.1; pure tt

  module _ (F : TunableFiles) where
    abbrev Legal : String × String → Type 0
    Legal e = F.legal e.0 e.1 ≡ true

    -- the end of the loop that restores
    record Restored (saved : Dict String) (s : Session K) : Type 0 where
      returns : (for_each saved restoring s).0 ≡ ok tt
      shows : All (Shows (for_each saved restoring s).1.world) saved
      elsewhere :
          (path : String)
          → has path saved ≡ false
          → read_value (for_each saved restoring s).1.world path ≡ read_value s.world path

    restoring-lem :
        (saved : Dict String) (s : Session K) → IsDict saved → All Legal saved → Restored saved s
    unfolding for_each write ◌>>=◌ has
    restoring-lem [] s is_dict legal = record {
      returns = refl;
      shows = tt;
      elsewhere = λ path new. refl;
    }
    restoring-lem ((k, v) ∷ saved) s (new, is_dict) (here, legal) =
        let written = record s { world = (K.write_file s.world k v).1 } in
        let rest = restoring-lem saved written is_dict legal in
        record {
          returns = rest.returns;
          shows = (rest.elsewhere k new ∙ F.write_shows s.world k v here, rest.shows);
          elsewhere = λ path absent.
              let (differ, not_in) = or-false (str_eq k path) (has path saved) absent in
              rest.elsewhere path not_in ∙ F.write_elsewhere s.world k path v differ;
        }

    tear_down-restoring :
        (saved : Dict String) (s : Session K)
        → s.original_tunables ≡ some saved
        → tear_down s ≡ for_each saved restoring s
    unfolding restore_tunables ◌>>=◌
    tear_down-restoring saved s has_saved =
        ap (λ o. (or_raise o attribute_error >>= λ d. for_each d restoring) s) has_saved

    tear_down-lem :
        (saved : Dict String) (s : Session K)
        → s.original_tunables ≡ some saved
        → IsDict saved
        → All Legal saved
        → ((tear_down s).0 ≡ ok tt) × All (Shows (tear_down s).1.world) saved
    tear_down-lem saved s has_saved is_dict legal =
        let done = restoring-lem saved s is_dict legal in
        rw (tear_down-restoring saved s has_saved) (done.returns, done.shows)

    checked-Saving :
        (s t : Session K) (u : Unit)
        → s.original_tunables ≡ some []
        → check_and_save_tunables s ≡ (ok u, t)
        → (after : Dict String) × (t.original_tunables ≡ some after)
          × Saving t.world tunables [] after
    checked-Saving s t u none_saved h =
        let (after, checked, saving) = check_and_save_tunables-Saving s none_saved in
        let t_is : t ≡ record s { original_tunables = some after } =
          ap (λ r. r.1) (sym h ∙ checked) in
        (after, ap (λ r. r.original_tunables) t_is, rw (ap (λ r. r.world) t_is) saving)

    -- where `setUp` returned, its tunables are saved
    set_up-Saving :
        (s t : Session K) (u : Unit)
        → set_up s ≡ (ok u, t)
        → (after : Dict String) × (t.original_tunables ≡ some after)
          × Saving t.world tunables [] after
    unfolding set_up configure ◌>>=◌
    set_up-Saving s t u h =
        let (_, installed, _, rest) =
          >>=-eq-ok (for_each ("stress-ng" ∷ "perf" ∷ []) install_package)
            (λ _. configure >> (mount_debugfs >> check_and_save_tunables)) {s = s} h in
        let (_, configured, set, rest_1) =
          >>=-eq-ok configure (λ _. mount_debugfs >> check_and_save_tunables) {s = installed}
            rest in
        let (_, mounted, mount, rest_2) =
          >>=-eq-ok mount_debugfs (λ _. check_and_save_tunables) {s = configured} rest_1 in
        let none_saved : mounted.original_tunables ≡ some [] =
          sym (ap (λ r. r.1.original_tunables) mount)
          ∙ mount_debugfs-Keeps.kept configured
          ∙ sym (ap (λ r. r.1.original_tunables) set) in
        checked-Saving mounted t u none_saved rest_2

    -- Where the tunables' files keep to the kernel's documentation: if `setUp` returned, then whichever test is
    -- run, and however it ends, `tearDown` returns after it, and each of the four tunables that had a file with
    -- a value after `setUp` shows this value again in the same file.
    pub tear_down-restores :
        (name : TestName) (s t : Session K) (u : Unit) (tunable path value : String)
        → set_up s ≡ (ok u, t)
        → In tunable tunables
        → get_tunable_path t.world tunable ≡ some path
        → read_value t.world path ≡ some value
        → ((tear_down (run_test name t).1).0 ≡ ok tt)
          × (read_value (tear_down (run_test name t).1).1.world path ≡ some value)
    tear_down-restores name s t u tunable path value ready among found reads =
        let (after, has_saved, saving) = set_up-Saving s t u ready in
        let legal = All-In Legal after (λ e among.
          F.shown_is_legal t.world e.0 e.1 (In-All (Shows t.world) e after saving.shows among)) in
        let (returns, shows) =
          tear_down-lem after (run_test name t).1 ((run_test-Keeps name).kept t ∙ has_saved)
            saving.is_dict legal in
        (
          returns,
          In-All (Shows _) (path, value) after shows
              (saving.saved tunable path value among found reads),
        )
