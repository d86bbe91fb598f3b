-- ===== src/Dlpar/Suite/SetUp.antt =====
-- dlpar/dlpar_main.py: `get_mcp_component`, `get_hmc_from_mcproxy`, `get_partition_name` and `setUp`.
use Prim.Native.String.{slice, len}
use avocado_misc_tests.Prelude.{
  ℕ, String, ◌<>◌, ◌≡◌, refl, Bool, ◌||◌, Option, none, some, List, [], ◌∷◌, starts_with, ◌==◌,
  if◌then◌else◌,
}
use avocado_misc_tests.Text.{
  contains, is_empty, is_space, lstrip_by, take_until, strip, strip_by, last_word, after_last,
  splitlines,
}
use avocado_misc_tests.Python.{index_error, pure, or_raise, ◌>>=◌, ◌>>◌}
use avocado_misc_tests.Dlpar.Host.{Host}
use avocado_misc_tests.Dlpar.Session.{Action, log_info, local_text}
use avocado_misc_tests.Dlpar.Connections.{Config}

-- the characters that `strip('{}\"')` takes off
abbrev is_brace : ℕ → Bool
is_brace c = c == b'{' || c == b'}' || c == b'"'

-- `re.match(r'\s*Hostname:\s*(\S+)', line)` with its group
unfoldable pub hostname_of : String → Option String
unfolding lstrip_by take_until is_space
hostname_of line =
    let front = lstrip_by is_space line in
    if starts_with front "Hostname:"
    then (let host = take_until is_space (lstrip_by is_space (slice front 9 (len front))) in
        if is_empty host then none else some host)
    else none

unfoldable pub first_hostname : List String → String
unfolding hostname_of
first_hostname [] = ""
first_hostname (line ∷ lines) = elim (hostname_of line) [
  | none ↦ first_hostname lines
  | some host ↦ host
]

-- the line that the loops of the two other methods stop at
unfoldable pub first_with : String → List String → Option String
first_with component [] = none
first_with component (line ∷ lines) =
    if contains line component then some line else first_with component lines

module _ ⦃H : Host⦄ where
  last_field : Option String → Action String
  last_field none = pure ""
  last_field (some line) = do
    word ← or_raise (last_word line) index_error
    pure (strip_by is_brace word)

  unfoldable pub get_mcp_component : String → Action String
  unfolding last_field
  get_mcp_component component = do
    out ← local_text ("lsrsrc IBM.MCP " <> component)
    last_field (first_with component (splitlines out))

  unfoldable pub get_hmc_from_mcproxy : Action String
  get_hmc_from_mcproxy = do
    out ← local_text "lssrc -ls mcproxy"
    pure (first_hostname (splitlines out))

  partition_field : Option String → String
  partition_field none = ""
  partition_field (some line) = strip (after_last b':' line)

  unfoldable pub get_partition_name : String → Action String
  unfolding partition_field
  get_partition_name component = do
    out ← local_text "lparstat -i"
    pure (partition_field (first_with component (splitlines out)))

  -- `setUp`. `wait_for` is the poll of the test framework, and `c` holds the parameters of the run;
  -- what is set here is what the partition and its console say of themselves.
  unfoldable pub set_up : (Action String → Action String) → Config H → Action (Config H)
  set_up wait_for c = do
    polled ← wait_for (get_mcp_component "HMCIPAddr")
    hmc_ip ←
        if is_empty polled
        then (do
          log_info (
              "HMCIPAddr not found via lsrsrc IBM.MCP, "
              <> "falling back to lssrc -ls mcproxy for hostname")
          get_hmc_from_mcproxy)
        else pure polled
    partition ← get_partition_name "Partition Name"
    name ← get_partition_name "Node Name"
    log_info "Calling Config file creation method--!!"
    pure (record c { src_partition = partition; src_name = name; hmc_name = hmc_ip })

hostname_runs :
    (first_hostname ("Subsystem x" ∷ "  Hostname:  hmc1.example.com  up" ∷ []) ≡ "hmc1.example.com")
    × (hostname_of "Hostname:   " ≡ none)
    × (strip_by is_brace "{\"9.3.1.2\"}" ≡ "9.3.1.2")
unfolding first_hostname strip_by
hostname_runs = (refl, refl, refl)
