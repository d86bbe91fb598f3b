-- ===== src/PortBounce/Paths.antt =====
-- io/disk/port_bounce.py: what `mpath_state_check` finds out about the paths of a host.
use Prim.{absurd}
use Prim.Native.Char.{Char}
use Prim.Native.String.append
use Prim.Native.String.{len, find}
use native.Mathlib.Omega.{compare-lt, compare-eq}
use text.Mathlib.TextFind.{find_cases, Hit}
use text.Mathlib.Text.{is_le, when}
use Prim.Native.Nat.{Ordering, compare}
use avocado_misc_tests.Prelude.{
  ℕ, suc, ◌+◌, String, ◌<>◌, ◌≡◌, refl, ◌⊎◌, ◌∙◌, ap, true, false, none, some, List, [], ◌∷◌, inl,
  inr, arith,
}
use avocado_misc_tests.Prelude.Dict.{Dict, get}
use avocado_misc_tests.Prelude.Lists.{All}
use avocado_misc_tests.Text.{contains}
use avocado_misc_tests.Python.{ok, ◌>>=◌}
use avocado_misc_tests.PortBounce.{
  Fabric, Session, characters, host_of, paths_in, get_paths, err_paths, all_err_paths, report_paths,
  mpath_state_check,
}

chars : String → ℕ
chars String.[] = 0
chars (String.◌∷◌ c s) = suc (chars s)

chars-append : (s t : String) → chars (s <> t) ≡ chars s + chars t
unfolding chars
chars-append String.[] t = ap chars (append.nil t) ∙ omega arith
chars-append (String.◌∷◌ c s) t =
    let rest = chars-append s t in
    let front = ap chars (append.cons c s t) in omega (arith, rest, front)

past : (n : ℕ) (o : Ordering) → compare (suc n) n ≡ o → when (is_le o) (suc n) ≡ none
past n Ordering.lt e = let less = compare-lt (suc n) n e in absurd (omega (arith, less))
past n Ordering.eq e = let same = compare-eq (suc n) n e in absurd (omega (arith, same))
past n Ordering.gt e = refl

miss-none :
    (m n : ℕ)
    → m ≡ suc n
    → (elim (when (is_le (compare m n)) m) [ none ↦ false | some _ ↦ true ]) ≡ false
miss-none m n h = rw h (rw (past n (compare (suc n) n) refl) refl)

-- a text of one character holds none of two
contains-character :
    (c : Char) (host : String) → contains (String.◌∷◌ c "") ("/" <> (host <> "/")) ≡ false
unfolding chars
contains-character c host = by (find_cases (String.◌∷◌ c "") ("/" <> (host <> "/")))
  where
    by :
        Hit (String.◌∷◌ c "") ("/" <> (host <> "/"))
          ⊎ (find (String.◌∷◌ c "") ("/" <> (host <> "/")) ≡ suc (len (String.◌∷◌ c "")))
        → contains (String.◌∷◌ c "") ("/" <> (host <> "/")) ≡ false
    by (inl (u, v, is, at)) =
        let whole : 1 ≡ chars (u <> (("/" <> (host <> "/")) <> v)) = ap chars is in
        let a = chars-append u (("/" <> (host <> "/")) <> v) in
        let b = chars-append ("/" <> (host <> "/")) v in
        let d = chars-append "/" (host <> "/") in
        let e = chars-append host "/" in absurd (omega (arith, whole, a, b, d, e))
    by (inr miss) =
        miss-none (find (String.◌∷◌ c "") ("/" <> (host <> "/"))) (len (String.◌∷◌ c "")) miss

module _ ⦃F : Fabric⦄ where
  -- A loop over the characters of a text keeps no path.
  paths_in-characters : (host text : String) → paths_in host (characters text) ≡ []
  unfolding paths_in characters
  paths_in-characters host String.[] = refl
  paths_in-characters host (String.◌∷◌ c s) =
      rw (contains-character c host) (paths_in-characters host s)

  -- Every port has its host.
  abbrev pub Known : List String → Dict String → Type 0
  Known ports dic = All (λ port. (host : String) × (get port dic ≡ some host)) ports

  get_paths-none :
      (host : String) (s : Session F)
      → (t : Session F) × (get_paths host s ≡ (ok [], t)) × (t.dic ≡ s.dic)
  unfolding get_paths ◌>>=◌
  get_paths-none host s =
      let (text, world) = F.getoutput ("ls -l /sys/block/ | grep -i " <> host) s.world in
      let t : Session F = record s { world = world } in
      (t, ap (λ ps. (ok ps, t)) (paths_in-characters host text), refl)

  all_err_paths-none :
      (state1 state2 : String) (ports : List String) (s : Session F)
      → Known ports s.dic
      → (t : Session F) × (all_err_paths state1 state2 ports s ≡ (ok [], t))
  unfolding all_err_paths err_paths host_of ◌>>=◌
  all_err_paths-none state1 state2 [] s known = (s, refl)
  all_err_paths-none state1 state2 (port ∷ ports) s ((host, at), known) =
      let (t, got, kept) = get_paths-none host s in
      let (u, rest) = all_err_paths-none state1 state2 ports t (rw kept known) in
      (u, rw at (rw got (rw rest refl)))

  -- Whatever states the paths are in, and whatever states they are expected in,
  -- `mpath_state_check` of ports that have a host returns, and reports none.
  pub mpath_state_check-passes :
      (ports : List String) (state1 state2 : String) (s : Session F)
      → Known ports s.dic
      → (mpath_state_check ports state1 state2 s).0 ≡ ok tt
  unfolding mpath_state_check report_paths ◌>>=◌
  mpath_state_check-passes ports state1 state2 s known =
      let (t, e) = all_err_paths-none state1 state2 ports s known in rw e refl
