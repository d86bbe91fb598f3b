-- ===== src/Prelude/Sort.antt =====
-- Python's `sorted`: a stable sort, here by insertion. `le x y` says that x may stay before y.
use Prim.Native.Nat.{ℕ, zero, suc}
use mathlib.Core.Path.{◌≡◌, refl, ◌∙◌, ap}
use mathlib.Core.Logic.{inl, inr}
use mathlib.Core.Bool.{Bool, true, false}
use mathlib.Core.List.{List, [], ◌∷◌, Perm}
use mathlib.Core.List.Perm
use native.Mathlib.Omega.{arith}
use avocado_misc_tests.Prelude.Tests.{if◌then◌else◌, Bool-cases}
use avocado_misc_tests.Prelude.Lists.{All, In, length, take, All-take}

module _ {A : Type 0} (le : A → A → Bool) where
  unfoldable pub insert : A → List A → List A
  insert x [] = x ∷ []
  insert x (y ∷ ys) = let rest = insert x ys in if le x y then x ∷ y ∷ ys else y ∷ rest

  unfoldable pub sort_by : List A → List A
  sort_by [] = []
  sort_by (x ∷ xs) = insert x (sort_by xs)

  insert-length : (x : A) (ys : List A) → length (insert x ys) ≡ suc (length ys)
  unfolding insert
  insert-length x [] = refl
  insert-length x (y ∷ ys) = ground (arith, insert-length x ys)

  pub length-sort_by : (xs : List A) → length (sort_by xs) ≡ length xs
  unfolding sort_by
  length-sort_by [] = refl
  length-sort_by (x ∷ xs) = insert-length x (sort_by xs) ∙ ap suc (length-sort_by xs)

  insert-perm : (x : A) (ys : List A) → Perm (insert x ys) (x ∷ ys)
  unfolding insert
  insert-perm x [] = Perm.refl (x ∷ [])
  insert-perm x (y ∷ ys) = elim (Bool-cases (le x y)) [
    | inl before ↦ rw before (Perm.refl (x ∷ y ∷ ys))
    | inr behind ↦ rw behind (Perm.trans (Perm.cons y (insert-perm x ys)) (Perm.swap x y ys))
  ]

  pub sort_by-perm : (xs : List A) → Perm (sort_by xs) xs
  unfolding sort_by
  sort_by-perm [] = Perm.refl []
  sort_by-perm (x ∷ xs) = Perm.trans (insert-perm x (sort_by xs)) (Perm.cons x (sort_by-perm xs))

  insert-All : (P : A → Type 0) (x : A) (ys : List A) → P x → All P ys → All P (insert x ys)
  unfolding insert
  insert-All P x [] h hs = (h, tt)
  insert-All P x (y ∷ ys) h (here, rest) = elim (Bool-cases (le x y)) [
    | inl before ↦ rw before (h, (here, rest))
    | inr behind ↦ rw behind (here, insert-All P x ys h rest)
  ]

  pub sort_by-All : (P : A → Type 0) (xs : List A) → All P xs → All P (sort_by xs)
  unfolding sort_by
  sort_by-All P [] h = tt
  sort_by-All P (x ∷ xs) (here, rest) = insert-All P x (sort_by xs) here (sort_by-All P xs rest)

  insert-In : (x z : A) (ys : List A) → In z (x ∷ ys) → In z (insert x ys)
  unfolding insert
  insert-In x z [] among = among
  insert-In x z (y ∷ ys) among = elim (Bool-cases (le x y)) [
    | inl before ↦ rw before among
    | inr behind ↦ rw behind (elim among [
      | inl new ↦ inr (insert-In x z ys (inl new))
      | inr (inl here) ↦ inl here
      | inr (inr later) ↦ inr (insert-In x z ys (inr later))
    ])
  ]

  pub sort_by-In : (z : A) (xs : List A) → In z xs → In z (sort_by xs)
  unfolding sort_by
  sort_by-In z [] among = among
  sort_by-In z (x ∷ xs) (inl here) = insert-In x z (sort_by xs) (inl here)
  sort_by-In z (x ∷ xs) (inr later) = insert-In x z (sort_by xs) (inr (sort_by-In z xs later))

  -- each may stand before all behind it
  abbrev pub Ordered : List A → Type 0
  Ordered [] = Unit
  Ordered (x ∷ xs) = All (λ y. le x y ≡ true) xs × Ordered xs

  module _ (total : (x y : A) → le x y ≡ false → le y x ≡ true)
      (trans : (x y z : A) → le x y ≡ true → le y z ≡ true → le x z ≡ true) where
    below-All :
        (x y : A) (ys : List A)
        → le x y ≡ true
        → All (λ z. le y z ≡ true) ys
        → All (λ z. le x z ≡ true) ys
    below-All x y [] h hs = tt
    below-All x y (z ∷ zs) h (here, rest) = (trans x y z h here, below-All x y zs h rest)

    insert-Ordered : (x : A) (ys : List A) → Ordered ys → Ordered (insert x ys)
    unfolding insert
    insert-Ordered x [] h = (tt, tt)
    insert-Ordered x (y ∷ ys) (here, rest) = elim (Bool-cases (le x y)) [
      | inl before ↦ rw before ((before, below-All x y ys before here), (here, rest))
      | inr behind ↦
          rw behind
            (insert-All (λ z. le y z ≡ true) x ys (total x y behind) here, insert-Ordered x ys rest)
    ]

    pub sort_by-Ordered : (xs : List A) → Ordered (sort_by xs)
    unfolding sort_by
    sort_by-Ordered [] = tt
    sort_by-Ordered (x ∷ xs) = insert-Ordered x (sort_by xs) (sort_by-Ordered xs)

  pub take-Ordered : (n : ℕ) (xs : List A) → Ordered xs → Ordered (take n xs)
  take-Ordered zero xs h = tt
  take-Ordered (suc n) [] h = tt
  take-Ordered (suc n) (x ∷ xs) (here, rest) =
      (All-take (λ y. le x y ≡ true) n xs here, take-Ordered n xs rest)
