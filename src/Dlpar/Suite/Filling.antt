-- ===== src/Dlpar/Suite/Filling.antt =====
-- dlpar/dlpar_main.py: the amounts of `cpu_payload_data` in the loop of `test_cpu_add`.
use avocado_misc_tests.Prelude.{
  ℕ, ◌+◌, ◌-◌, ◌*◌, ◌≤◌, ◌<◌, ◌≡◌, refl, ◌∙◌, ap, true, List, [], ◌∷◌, map, arith, le→leb,
}
use avocado_misc_tests.Prelude.Int.{pos}
use avocado_misc_tests.Prelude.Lists.{All, sum}
use avocado_misc_tests.Python.{for_each, ◌>>=◌}
use avocado_misc_tests.Python.Inversion.{>>=-ok}
use avocado_misc_tests.Dlpar.Host.{Host, ExactFloats}
use avocado_misc_tests.Dlpar.Num.{int, num_int}
use avocado_misc_tests.Dlpar.Session.{Machine, Session}
use avocado_misc_tests.Dlpar.Payload.Cpu.{progression}
use avocado_misc_tests.Dlpar.Payload.Numbers.{cpu_amounts}
use avocado_misc_tests.Dlpar.Payload.Floats.{whole, cpu_payload_data-progression}
use avocado_misc_tests.Dlpar.Suite.Cpu.{add_round}
use avocado_misc_tests.Dlpar.Suite.Console.{DedicatedConsole, At, Runs}
use avocado_misc_tests.Dlpar.Suite.Adding.{add_all, Ends, add_rounds-refine}

All-sum : (bound : ℕ) (qs : List ℕ) → sum qs ≤ bound → All (λ q. q ≤ bound) qs
All-sum bound [] h = tt
All-sum bound (q ∷ qs) h = (omega (arith, h), All-sum bound qs (omega (arith, h)))

add_all-sum :
    (limit n : ℕ) (qs : List ℕ) → n + sum qs ≤ limit → add_all limit n qs ≡ (n + sum qs, true)
unfolding add_all
add_all-sum limit n [] h = let e : n ≡ n + 0 = omega arith in ap (λ x. (x, true)) e
add_all-sum limit n (q ∷ qs) h =
    let rest = add_all-sum limit (n + q) qs (omega (arith, h)) in
    let e : n + q + sum qs ≡ n + (q + sum qs) = omega arith in
    rw (le→leb (n + q) limit (omega (arith, h))) (rest ∙ ap (λ x. (x, true)) e)

module _ ⦃H : Host⦄ (X : ExactFloats H) where
  ints_of_whole : (qs : List ℕ) → sum qs ≤ X.bound → map num_int (map whole qs) ≡ map pos qs
  unfolding num_int
  ints_of_whole [] small = refl
  ints_of_whole (q ∷ qs) small =
      let first = X.truncates q (omega (arith, small)) in
      let rest = ints_of_whole qs (omega (arith, small)) in rw (first, rest) refl

module _ ⦃H : Host⦄ (m : Machine) (L : DedicatedConsole m) (X : ExactFloats H) where
  -- On a console that keeps to its manual, where one command may add all that the partition has room
  -- for, and of numbers in the range where floats are exact, the amounts that `cpu_payload_data` makes
  -- with its default step, on rounds for the room, are all added: `cpu_payload_data` and the loop of
  -- `test_cpu_add` over what it returns return, the partition has got the amounts 1, 2, …, k and no more
  -- than the maximum, and the next amount in the row would exceed it.
  pub cpu_payload_data-add_rounds :
      (rounds n : ℕ) (s : Session H)
      → L.limit - n ≤ L.largest
      → n ≤ L.limit
      → L.limit - n + 1 < rounds
      → 2 * (L.limit + 1) ≤ X.bound
      → At m L n s
      → (k : ℕ) × Runs m L
          (cpu_amounts rounds (int (pos L.limit)) (int (pos n)) (int (pos 1)) >>= λ cpu_payload.
            for_each cpu_payload add_round)
          s
          tt
          (n + sum (progression 1 1 k))
        × (n + sum (progression 1 1 k) ≤ L.limit)
        × (L.limit < n + sum (progression 1 1 k) + (k + 1))
  cpu_payload_data-add_rounds rounds n s room_wide room enough range at =
      let (k, made, fits, full) =
        cpu_payload_data-progression X rounds L.limit n 1 s room (omega arith) enough range in
      let qs = progression 1 1 k in
      let small = All-sum L.largest qs (omega (arith, fits, room_wide)) in
      let (r, t, ran, ends, end) =
        add_rounds-refine m L (map whole qs) qs n s
          (ints_of_whole X qs (omega (arith, fits, range))) small at in
      let all = add_all-sum L.limit n qs fits in
      let returned : Ends m L true r = rw all at ends in
      let looped = rw returned at ran in
      (
        k,
        (
          t,
          >>=-ok (cpu_amounts rounds (int (pos L.limit)) (int (pos n)) (int (pos 1)))
                (λ cpu_payload. for_each cpu_payload add_round) made
              ∙ looped,
          rw all at end,
        ),
        fits,
        omega (arith, full),
      )
