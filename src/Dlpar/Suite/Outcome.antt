-- ===== src/Dlpar/Suite/Outcome.antt =====
-- dlpar/dlpar_main.py: how a test ends after a refused operation, `_cancel_on_capacity_exceeded`, and
-- the backup of the amounts, `data_payload_backup` and `data_payload_extract`.
use avocado_misc_tests.Prelude.{
  ℕ, String, ◌<>◌, Bool, false, ◌||◌, Option, none, some, List, [], ◌∷◌, ◌==◌, if◌then◌else◌,
}
use avocado_misc_tests.Text.{contains, is_empty, read_lines}
use avocado_misc_tests.Python.{
  fail, cancel, attribute_error, index_error, eval_error, file_error, pure, raise, gets, or_raise,
  modify, ◌>>=◌, ◌>>◌,
}
use avocado_misc_tests.Dlpar.Host.{Host}
use avocado_misc_tests.Dlpar.Num.{Number, num_str}
use avocado_misc_tests.Dlpar.Session.{Action}

-- what the console prints where a partition or the system has no room for an operation
abbrev pub capacity_markers : List String
capacity_markers =
    "The operation failed because the ratio of assigned processing units to assigned virtual processors"
    ∷ "processing units to exceed the maximum capacity allowed with the virtual processor setting"
    ∷ "The quantity to be added exceeds the available resources."
    ∷ "Your memory request exceeds the profile's Maximum memory limit."
    ∷ "Your memory request is below the profile’s Minimum memory limit."
    ∷ "Not enough memory resources to meet the allocation setting" ∷ []

unfoldable pub contains_any : String → List String → Bool
contains_any s [] = false
contains_any s (marker ∷ markers) = contains s marker || contains_any s markers

module _ ⦃H : Host⦄ where
  unfoldable pub cancel_on_capacity_exceeded : String → Action Unit
  unfolding contains_any
  cancel_on_capacity_exceeded stdout =
      if is_empty stdout
      then pure tt
      else if contains_any stdout capacity_markers
      then raise (cancel stdout)
      else pure tt

  -- `if rvalue == 1:` the last output decides between a cancelled and a failed test
  unfoldable pub stop_if_refused : ℕ → String → Action Unit
  stop_if_refused rvalue message =
      if rvalue == 1
      then (do
        result ← gets (λ s. s.cmd_result)
        stdout ← or_raise result attribute_error
        cancel_on_capacity_exceeded stdout
        raise (fail message))
      else pure tt

  rest_of_list : List Number → String
  rest_of_list [] = "]"
  rest_of_list (x ∷ xs) = ", " <> (num_str x <> rest_of_list xs)

  -- `str(payload)`
  unfoldable pub str_of_list : List Number → String
  unfolding rest_of_list
  str_of_list [] = "[]"
  str_of_list (x ∷ xs) = "[" <> (num_str x <> rest_of_list xs)

  unfoldable pub or_empty : Option String → String
  or_empty none = ""
  or_empty (some content) = content

  -- the file is opened to append, and made if it is not there
  unfoldable pub data_payload_backup : List Number → Action Unit
  unfolding or_empty
  data_payload_backup payload_data = modify (λ s. record s {
    config_txt = some (or_empty s.config_txt <> (str_of_list payload_data <> "\n"));
  })

  unfoldable pub data_payload_extract : Action (List String)
  data_payload_extract = do
    content ← gets (λ s. s.config_txt)
    content ← or_raise content file_error
    pure (read_lines content)

  -- `eval(str(lines[0]))`, `eval(str(lines[1]))`
  abbrev pub line_0 : List String → Action (List Number)
  line_0 [] = raise index_error
  line_0 (l ∷ ls) = or_raise (H.eval_list l) eval_error

  abbrev pub line_1 : List String → Action (List Number)
  line_1 [] = raise index_error
  line_1 (l ∷ ls) = line_0 ls

  -- `os.remove('config.txt')`
  unfoldable pub remove_config : Action Unit
  remove_config = do
    lines ← gets (λ s. s.config_txt)
    or_raise lines file_error
    modify (λ s. record s { config_txt = none })
