-- ===== src/Python/Inversion.antt =====
-- What a call that returned says of its parts.
use avocado_misc_tests.Prelude.{◌≡◌, refl, ap, Option, none, some, arith}
use avocado_misc_tests.Python.{Error, Result, ok, err, Exec, continue, ◌>>=◌, or_raise}

module _ {S : Type 0} {A B : Type 0} where
  continue-eq-ok :
      (r : Result A) (t : S) (f : A → Exec S B) {b : B} {u : S}
      → continue r f t ≡ (ok b, u)
      → (a : A) × (r ≡ ok a) × (f a t ≡ (ok b, u))
  continue-eq-ok (ok a) t f h = (a, refl, h)
  continue-eq-ok (err e) t f h = cc

  -- A block that returned has a first part that returned, and the rest returned from its state.
  pub >>=-eq-ok :
      (m : Exec S A) (f : A → Exec S B) {s : S} {b : B} {u : S}
      → (m >>= f) s ≡ (ok b, u)
      → (a : A) × (t : S) × (m s ≡ (ok a, t)) × (f a t ≡ (ok b, u))
  unfolding ◌>>=◌
  >>=-eq-ok m f {s} h =
      let (a, e, rest) = continue-eq-ok (m s).0 (m s).1 f h in
      (a, (m s).1, λ i. (e i, (m s).1), rest)

  -- the same, for a goal
  pub >>=-inv :
      {P : Type 0} (m : Exec S A) (f : A → Exec S B) {s : S} {b : B} {u : S}
      → (m >>= f) s ≡ (ok b, u)
      → ((a : A) (t : S) → m s ≡ (ok a, t) → f a t ≡ (ok b, u) → P)
      → P
  >>=-inv m f h goal = let (a, t, e, rest) = >>=-eq-ok m f h in goal a t e rest

pub or_raise-eq-ok :
    {S A : Type 0} (o : Option A) (e : Error) {s u : S} {a : A}
    → or_raise {S = S} o e s ≡ (ok a, u)
    → (o ≡ some a) × (u ≡ s)
or_raise-eq-ok none e h = cc
or_raise-eq-ok (some a) e h = ground arith

module _ {S : Type 0} {A B : Type 0} where
  -- A part that returned hands its value and its state on.
  pub >>=-ok :
      (m : Exec S A) (f : A → Exec S B) {s t : S} {a : A} → m s ≡ (ok a, t) → (m >>= f) s ≡ f a t
  unfolding ◌>>=◌
  >>=-ok m f e = ap (λ r. continue r.0 f r.1) e
