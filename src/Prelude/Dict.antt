-- ===== src/Prelude/Dict.antt =====
-- Python's dictionaries with texts as keys, in the order in which the keys were first set.
use mathlib.Core.Path.{◌≡◌, refl, ◌∙◌, ap}
use mathlib.Core.Logic.{inl, inr}
use mathlib.Core.Bool.{Bool, true, false, ◌||◌}
use mathlib.Core.Option.{Option, none, some}
use mathlib.Core.List.{List, [], ◌∷◌}
use Prim.Native.String.{String}
use text.Mathlib.Text.{◌==◌ as str_eq}
use text.Mathlib.TextEquality.{eq_iff as str_eq_iff}
use avocado_misc_tests.Prelude.Tests.{if◌then◌else◌, Bool-cases}

pub str_eq_refl : (t : String) → str_eq t t ≡ true
str_eq_refl t = (str_eq_iff t t).1 refl

pub str_eq_sym_false : (p q : String) → str_eq p q ≡ false → str_eq q p ≡ false
str_eq_sym_false p q other = elim (Bool-cases (str_eq q p)) [
  | inl same ↦ let is : str_eq p q ≡ true = rw ((str_eq_iff q p).0 same) (str_eq_refl p) in cc
  | inr differ ↦ differ
]

abbrev pub Dict : Type 0 → Type 0
Dict V = List (String × V)

module _ {V : Type 0} where
  -- `d.get(key)`
  unfoldable pub get : String → Dict V → Option V
  get key [] = none
  get key ((k, v) ∷ d) = let rest = get key d in if str_eq k key then some v else rest

  -- `d[key] = value`
  unfoldable pub set : String → V → Dict V → Dict V
  set key value [] = (key, value) ∷ []
  set key value ((k, v) ∷ d) =
      let rest = set key value d in if str_eq k key then (k, value) ∷ d else (k, v) ∷ rest

  -- `key in d`
  unfoldable pub has : String → Dict V → Bool
  has key [] = false
  has key ((k, v) ∷ d) = str_eq k key || has key d

  -- no key stands twice
  abbrev pub IsDict : Dict V → Type 0
  IsDict [] = Unit
  IsDict ((k, v) ∷ d) = (has k d ≡ false) × IsDict d

  has-set :
      (q key : String) (value : V) (d : Dict V)
      → str_eq key q ≡ false
      → has q (set key value d) ≡ has q d
  unfolding has set
  has-set q key value [] other = rw other refl
  has-set q key value ((k, v) ∷ d) other = elim (Bool-cases (str_eq k key)) [
    | inl same ↦ rw (set, has, same) refl
    | inr differ ↦ rw (set, has, differ) (ap (λ r. str_eq k q || r) (has-set q key value d other))
  ]

  pub set-IsDict : (key : String) (value : V) (d : Dict V) → IsDict d → IsDict (set key value d)
  unfolding set has
  set-IsDict key value [] h = (refl, tt)
  set-IsDict key value ((k, v) ∷ d) (new, rest) = elim (Bool-cases (str_eq k key)) [
    | inl same ↦ rw (set, same) (new, rest)
    | inr other ↦
        rw (set, other)
          (has-set k key value d (str_eq_sym_false k key other) ∙ new, set-IsDict key value d rest)
  ]

pub some-inj : {A : Type 0} {a b : A} → some a ≡ some b → a ≡ b
some-inj e = cc
