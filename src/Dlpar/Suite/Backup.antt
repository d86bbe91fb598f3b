-- ===== src/Dlpar/Suite/Backup.antt =====
-- dlpar/dlpar_main.py: what the backup of the amounts in config.txt hands to the tests after it.
use Prim.Native.Char.{Char, code}
use text.Mathlib.TextLemmas.{append-nil, append_assoc}
use Prim.Native.String.append
use avocado_misc_tests.Prelude.{
  String, ◌<>◌, ◌≡◌, refl, sym, ◌∙◌, ap, Bool, false, ◌||◌, none, some, List, [], ◌∷◌, map, ◌==◌,
  Bool-cases, inl, inr,
}
use avocado_misc_tests.Prelude.Lists.{All}
use avocado_misc_tests.Text.{read_lines}
use avocado_misc_tests.Python.{ok, ◌>>=◌, ◌>>◌, for_each}
use avocado_misc_tests.Python.Inversion.{>>=-ok}
use avocado_misc_tests.Dlpar.Host.{Host}
use avocado_misc_tests.Dlpar.Num.{Number}
use avocado_misc_tests.Dlpar.Session.{Session}
use avocado_misc_tests.Dlpar.Suite.Outcome.{
  str_of_list, or_empty, data_payload_backup, data_payload_extract,
}

unfoldable pub has_line_feed : String → Bool
has_line_feed String.[] = false
has_line_feed (String.◌∷◌ c s) = code c == 10 || has_line_feed s

one-append : (c : Char) (t : String) → String.◌∷◌ c "" <> t ≡ String.◌∷◌ c t
one-append c t = append.cons c "" t ∙ ap (λ r. String.◌∷◌ c r) (append.nil t)

read_lines-feed : (v : String) → read_lines ("\n" <> v) ≡ "\n" ∷ read_lines v
unfolding read_lines
read_lines-feed v = ap read_lines (one-append _ v)

read_lines-line :
    (u v : String)
    → has_line_feed u ≡ false
    → read_lines (u <> ("\n" <> v)) ≡ (u <> "\n") ∷ read_lines v
unfolding read_lines has_line_feed
read_lines-line String.[] v h =
    ap read_lines (append.nil ("\n" <> v))
    ∙ read_lines-feed v
    ∙ ap (λ l. l ∷ read_lines v) (sym (append.nil "\n"))
read_lines-line (String.◌∷◌ c u) v h = elim (Bool-cases (code c == 10)) [
  | inl is ↦ cc
  | inr other ↦
      let rest = read_lines-line u v (rw other at h) in
      ap read_lines (append.cons c u ("\n" <> v))
      ∙ rw (read_lines, other, rest)
          (ap (λ l. l ∷ read_lines v) (one-append c (u <> "\n") ∙ sym (append.cons c u "\n")))
]

module _ ⦃H : Host⦄ where
  -- the line of a list of amounts, as `data_payload_backup` writes it
  abbrev pub line_of : List Number → String
  line_of payload = str_of_list payload <> "\n"

  content_of : List (List Number) → String
  content_of [] = ""
  content_of (payload ∷ payloads) = str_of_list payload <> ("\n" <> content_of payloads)

  read_lines-content :
      (payloads : List (List Number))
      → All (λ payload. has_line_feed (str_of_list payload) ≡ false) payloads
      → read_lines (content_of payloads) ≡ map line_of payloads
  unfolding content_of read_lines
  read_lines-content [] plain = refl
  read_lines-content (payload ∷ payloads) (here, plain) =
      read_lines-line (str_of_list payload) (content_of payloads) here
      ∙ ap (λ ls. line_of payload ∷ ls) (read_lines-content payloads plain)

  backups :
      (payloads : List (List Number)) (content : String) (s : Session H)
      → for_each payloads data_payload_backup (record s { config_txt = some content })
        ≡ (ok tt, record s { config_txt = some (content <> content_of payloads) })
  unfolding for_each data_payload_backup or_empty content_of ◌>>=◌
  backups [] content s =
      ap (λ t. (ok tt, record s { config_txt = some t })) (sym (append-nil content))
  backups (payload ∷ payloads) content s =
      backups payloads (content <> line_of payload) s
      ∙ ap (λ t. (ok tt, record s { config_txt = some t }))
          (append_assoc content (line_of payload) (content_of payloads)
            ∙ ap (λ t. content <> t)
                (append_assoc (str_of_list payload) "\n" (content_of payloads)))

  evals :
      (payloads : List (List Number))
      → All (λ p. H.eval_list (line_of p) ≡ some p) payloads
      → map H.eval_list (map line_of payloads) ≡ map some payloads
  evals [] reads = refl
  evals (payload ∷ payloads) (here, reads) = rw (here, evals payloads reads) refl

  -- Where there is no file, `data_payload_extract` after backups of lists of amounts returns one line
  -- for each list, in the order of the backups, and `eval` of the lines gives the lists back, provided
  -- that `str` of each list has no line feed in it and that `eval` reads what `str` makes of it.
  pub data_payload_extract-backups :
      (payload : List Number) (payloads : List (List Number)) (s : Session H)
      → s.config_txt ≡ none
      → All (λ p. has_line_feed (str_of_list p) ≡ false) (payload ∷ payloads)
      → All (λ p. H.eval_list (line_of p) ≡ some p) (payload ∷ payloads)
      → (lines : List String) × (t : Session H) × ((for_each
                (payload ∷ payloads)
                data_payload_backup
              >> data_payload_extract)
            s
          ≡ (ok lines, t))
        × (map H.eval_list lines ≡ map some (payload ∷ payloads))
  unfolding for_each data_payload_backup data_payload_extract or_empty ◌>>=◌
  data_payload_extract-backups payload payloads s fresh plain reads =
      let all = payload ∷ payloads in
      let t = record s { config_txt = some ("" <> content_of all) } in
      let e : s ≡ record s { config_txt = none } = ap (λ x. record s { config_txt = x }) fresh in
      let written : for_each all data_payload_backup s ≡ (ok tt, t) =
        ap (for_each all data_payload_backup) e ∙ backups all "" s in
      let lines_are : read_lines ("" <> content_of all) ≡ map line_of all =
        ap read_lines (append.nil (content_of all)) ∙ read_lines-content all plain in
      (
        map line_of all,
        t,
        >>=-ok (for_each all data_payload_backup) (λ _. data_payload_extract) {s = s} written
            ∙ ap (λ ls. (ok ls, t)) lines_are,
        evals all reads,
      )
