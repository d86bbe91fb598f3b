-- ===== src/Scheduler/Saved.antt =====
-- cpu/scheduler_tunables_test.py: what `_check_and_save_tunables` has saved.
pub mod Restored
use Prim.{⊥, absurd}
use avocado_misc_tests.Prelude.{
  String, ◌≡◌, refl, sym, ◌∙◌, ap, Bool, true, false, Bool-cases, Option, none, some, Option-cases,
  List, [], ◌∷◌, inl, inr, str_eq, str_eq_iff, if◌then◌else◌,
}
use avocado_misc_tests.Prelude.Dict.{Dict, set, str_eq_refl, IsDict, set-IsDict}
use avocado_misc_tests.Prelude.Lists.{In, All}
use avocado_misc_tests.Python.{ok, gets, for_each, ◌>>=◌, ◌>>◌}
use avocado_misc_tests.Python.Inversion.{>>=-ok}
use avocado_misc_tests.Scheduler.{Kernel, Session, Action, read_value}
use avocado_misc_tests.Scheduler.Tunables.{
  tunables, save_in, get_tunable_path, save, save_value, save_tunable, check_and_save_tunables,
}

some-inj : {A : Type 0} {a b : A} → some a ≡ some b → a ≡ b
some-inj e = cc

none-some : {A : Type 0} {a : A} → none ≡ some a → ⊥
none-some e = cc

module _ ⦃K : Kernel⦄ where
  -- an entry is what its file shows
  abbrev pub Shows : K.World → String × String → Type 0
  Shows w e = read_value w e.0 ≡ some e.1

  module _ (w : K.World) where
    set-Shows :
        (path value : String) (saved : Dict String)
        → read_value w path ≡ some value
        → All (Shows w) saved
        → All (Shows w) (set path value saved)
    unfolding set
    set-Shows path value [] reads h = (reads, tt)
    set-Shows path value ((k, v) ∷ saved) reads (here, rest) = elim (Bool-cases (str_eq k path)) [
      | inl same ↦ rw (set, same) (rw ((str_eq_iff k path).0 same) reads, rest)
      | inr other ↦ rw (set, other) (here, set-Shows path value saved reads rest)
    ]

    set-In : (path value : String) (saved : Dict String) → In (path, value) (set path value saved)
    unfolding set
    set-In path value [] = inl refl
    set-In path value ((k, v) ∷ saved) = elim (Bool-cases (str_eq k path)) [
      | inl same ↦ rw (set, same) (inl (ap (λ p. (p, value)) (sym ((str_eq_iff k path).0 same))))
      | inr other ↦ rw (set, other) (inr (set-In path value saved))
    ]

    set-In_old :
        (path value : String) (e : String × String) (saved : Dict String)
        → read_value w path ≡ some value
        → Shows w e
        → In e saved
        → In e (set path value saved)
    unfolding set
    set-In_old path value e [] reads shows among = absurd among
    set-In_old path value e ((k, v) ∷ saved) reads shows among = elim (Bool-cases (str_eq k path)) [
      | inl same ↦
          rw (set, same)
            (elim among [
              | inl here ↦
                  let at_path : e.0 ≡ path = ap (λ x. x.0) here ∙ (str_eq_iff k path).0 same in
                  let new : value ≡ e.1 = some-inj (sym reads ∙ (rw at_path at shows)) in
                  inl (here ∙ ap (λ x. (k, x)) (sym (ap (λ x. x.1) here) ∙ sym new))
              | inr later ↦ inr later
            ])
      | inr other ↦
          rw (set, other)
            (elim among [
              | inl here ↦ inl here
              | inr later ↦ inr (set-In_old path value e saved reads shows later)
            ])
    ]

  -- What the loop over some of the tunables has saved, of files that it does not write.
  pub record Saving (w : K.World) (names : List String) (before after : Dict String) : Type 0 where
    pub is_dict : IsDict after
    pub shows : All (Shows w) after
    pub kept : (e : String × String) → Shows w e → In e before → In e after
    pub saved :
        (name path value : String)
        → In name names
        → get_tunable_path w name ≡ some path
        → read_value w path ≡ some value
        → In (path, value) after

  abbrev saving : String → Action Unit
  saving tunable_name = do
    path ← gets (λ s. get_tunable_path s.world tunable_name)
    save_tunable path

  abbrev with_saved : Session K → Dict String → Session K
  with_saved s after = record s { original_tunables = some after }

  as_before :
      (name : String) (s : Session K) (before : Dict String)
      → IsDict before
      → All (Shows s.world) before
      → ((path value : String)
          → get_tunable_path s.world name ≡ some path
          → read_value s.world path ≡ some value
          → ⊥)
      → Saving s.world (name ∷ []) before before
  as_before name s before is_dict shows unseen = record {
    is_dict = is_dict;
    shows = shows;
    kept = λ e shown among. among;
    saved = λ n p v among found reads. elim among [
      | inl is ↦ absurd (unseen p v (rw is at found) reads)
      | inr other ↦ absurd other
    ];
  }

  -- one round of the loop
  saving-lem :
      (name : String) (s : Session K) (before : Dict String)
      → s.original_tunables ≡ some before
      → IsDict before
      → All (Shows s.world) before
      → (after : Dict String) × (saving name s ≡ (ok tt, with_saved s after))
        × Saving s.world (name ∷ []) before after
  unfolding save_tunable save_value save ◌>>=◌
  saving-lem name s before has is_dict shows = elim (Option-cases (get_tunable_path s.world name)) [
    | inl missing ↦ (
      before,
      rw missing (ap (λ o. (ok tt, record s { original_tunables = o })) has),
      as_before name s before is_dict shows
          (λ path value found reads. none-some (sym missing ∙ found)),
    )
    | inr (path, found) ↦ elim (Option-cases (read_value s.world path)) [
      | inl unread ↦ (
        before,
        rw (found, unread) (ap (λ o. (ok tt, record s { original_tunables = o })) has),
        as_before name s before is_dict shows (λ p value found_p reads.
            let is : path ≡ p = some-inj (sym found ∙ found_p) in
            none-some (sym unread ∙ (rw (sym is) at reads))),
      )
      | inr (value, reads) ↦ (
        set path value before,
        rw (found, reads)
            (ap (λ o. (ok tt, record s { original_tunables = save_in path value o })) has),
        record {
          is_dict = set-IsDict path value before is_dict;
          shows = set-Shows s.world path value before reads shows;
          kept = λ e shown among. set-In_old s.world path value e before reads shown among;
          saved = λ n p v among found_n reads_p. elim among [
            | inl is ↦
                let found_name : get_tunable_path s.world name ≡ some p = rw is at found_n in
                let path_is : path ≡ p = some-inj (sym found ∙ found_name) in
                let reads_path : read_value s.world path ≡ some v = rw path_is reads_p in
                let value_is : value ≡ v = some-inj (sym reads ∙ reads_path) in
                rw (sym path_is, sym value_is) (set-In s.world path value before)
            | inr other ↦ absurd other
          ];
        },
      )
    ]
  ]

  saving-All :
      (names : List String) (s : Session K) (before : Dict String)
      → s.original_tunables ≡ some before
      → IsDict before
      → All (Shows s.world) before
      → (after : Dict String) × (for_each names saving s ≡ (ok tt, with_saved s after))
        × Saving s.world names before after
  unfolding for_each
  saving-All [] s before has is_dict shows = (
    before,
    ap (λ o. (ok tt, record s { original_tunables = o })) has,
    record {
      is_dict = is_dict;
      shows = shows;
      kept = λ e shown among. among;
      saved = λ n p v among. absurd among;
    },
  )
  saving-All (name ∷ names) s before has is_dict shows =
      let (middle, first, one) = saving-lem name s before has is_dict shows in
      let (after, others, rest) =
        saving-All names (with_saved s middle) middle refl one.is_dict one.shows in
      (
        after,
        >>=-ok (saving name) (λ u. for_each names saving) first ∙ others,
        record {
          is_dict = rest.is_dict;
          shows = rest.shows;
          kept = λ e shown among. rest.kept e shown (one.kept e shown among);
          saved = λ n p v among found reads. elim among [
            | inl is ↦ rest.kept (p, v) reads (one.saved n p v (inl is) found reads)
            | inr later ↦ rest.saved n p v later found reads
          ];
        },
      )

  -- `_check_and_save_tunables` with nothing saved: it returns, and what it has saved is what each file
  -- that a tunable has shows.
  pub check_and_save_tunables-Saving :
      (s : Session K)
      → s.original_tunables ≡ some []
      → (after : Dict String) × (check_and_save_tunables s
          ≡ (ok tt, record s { original_tunables = some after }))
        × Saving s.world tunables [] after
  unfolding check_and_save_tunables
  check_and_save_tunables-Saving s has = saving-All tunables s [] has tt tt
