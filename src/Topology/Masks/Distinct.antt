-- ===== src/Topology/Masks/Distinct.antt =====
-- cpu/cpu_die_topology.py: the set of the masks of a die.
use Prim.{absurd}
use avocado_misc_tests.Prelude.{
  ℕ, String, ◌≡◌, refl, sym, ◌∙◌, ap, true, false, Bool-cases, List, [], ◌∷◌, inl, inr, arith, ltb,
  str_eq, str_eq_iff,
}
use avocado_misc_tests.Prelude.Lists.{In, All, length}
use avocado_misc_tests.Topology.Checks.{holds, distinct}

holds-In : (t : String) (us : List String) → holds t us ≡ true → In t us
unfolding holds
holds-In t [] h = cc
holds-In t (u ∷ us) h = elim (Bool-cases (str_eq t u)) [
  | inl same ↦ inl ((str_eq_iff t u).0 same)
  | inr other ↦ inr (holds-In t us (rw (holds, other) at h))
]

str_eq_refl : (t : String) → str_eq t t ≡ true
str_eq_refl t = (str_eq_iff t t).1 refl

In-holds : (t : String) (us : List String) → In t us → holds t us ≡ true
unfolding holds
In-holds t [] among = absurd among
In-holds t (u ∷ us) (inl here) = rw here (rw (str_eq_refl u) refl)
In-holds t (u ∷ us) (inr later) = rw (In-holds t us later) (ground arith)

pub distinct-In :
    (cpu : ℕ) (mask : String) (masks : List (ℕ × String))
    → In (cpu, mask) masks
    → In mask (distinct masks)
unfolding distinct
distinct-In cpu mask [] among = absurd among
distinct-In cpu mask ((c, m) ∷ masks) (inl here) =
    let is : mask ≡ m = ap (λ g. g.1) here in
    elim (Bool-cases (holds m (distinct masks))) [
      | inl held ↦ rw (distinct, held, is) (holds-In m (distinct masks) held)
      | inr new ↦ rw (distinct, new) (inl is)
    ]
distinct-In cpu mask ((c, m) ∷ masks) (inr later) = elim (Bool-cases (holds m (distinct masks))) [
  | inl held ↦ rw (distinct, held) (distinct-In cpu mask masks later)
  | inr new ↦ rw (distinct, new) (inr (distinct-In cpu mask masks later))
]

-- a list of one value at most
pub one_value :
    (us : List String) (t u : String) → ltb 1 (length us) ≡ false → In t us → In u us → t ≡ u
one_value [] t u short in_t in_u = absurd in_t
one_value (v ∷ []) t u short (inl p) (inl q) = p ∙ sym q
one_value (v ∷ []) t u short (inl p) (inr q) = absurd q
one_value (v ∷ []) t u short (inr p) in_u = absurd p
one_value (v ∷ (w ∷ us)) t u short in_t in_u = ground (arith, short)

holds-none :
    (m u : String) (us : List String) → u ≡ m → All (λ t. t ≡ m) us → holds u us ≡ false → us ≡ []
unfolding holds
holds-none m u [] is same new = refl
holds-none m u (t ∷ us) is (here, rest) new =
    let found : holds u (t ∷ us) ≡ true = In-holds u (t ∷ us) (inl (is ∙ sym here)) in cc

distinct-All :
    (P : String → Type 0) (masks : List (ℕ × String))
    → All (λ g. P g.1) masks
    → All P (distinct masks)
unfolding distinct
distinct-All P [] h = tt
distinct-All P ((c, m) ∷ masks) (here, rest) = elim (Bool-cases (holds m (distinct masks))) [
  | inl held ↦ rw (distinct, held) (distinct-All P masks rest)
  | inr new ↦ rw (distinct, new) (here, distinct-All P masks rest)
]

-- where all masks are one
distinct-short :
    (m : String) (masks : List (ℕ × String))
    → All (λ g. g.1 ≡ m) masks
    → ltb 1 (length (distinct masks)) ≡ false
unfolding distinct
distinct-short m [] h = refl
distinct-short m ((c, u) ∷ masks) (here, rest) = elim (Bool-cases (holds u (distinct masks))) [
  | inl held ↦ rw (distinct, held) (distinct-short m masks rest)
  | inr new ↦
      let none_else =
        holds-none m u (distinct masks) here (distinct-All (λ t. t ≡ m) masks rest) new in
      rw (distinct, new, none_else) refl
]

-- Every two items agree with the first.
pub masks_alike :
    (masks : List (ℕ × String))
    → ((a b : ℕ) (m n : String) → In (a, m) masks → In (b, n) masks → m ≡ n)
    → ltb 1 (length (distinct masks)) ≡ false
unfolding distinct
masks_alike [] alike = refl
masks_alike ((c, m) ∷ masks) alike =
    distinct-short m ((c, m) ∷ masks)
      (go ((c, m) ∷ masks) (λ b n among. alike b c n m among (inl refl)))
  where
    go :
        (ms : List (ℕ × String))
        → ((b : ℕ) (n : String) → In (b, n) ms → n ≡ m)
        → All (λ g. g.1 ≡ m) ms
    go [] h = tt
    go ((b, n) ∷ ms) h = (h b n (inl refl), go ms (λ e k among. h e k (inr among)))
