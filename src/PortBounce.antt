-- ===== src/PortBounce.antt =====
-- io/disk/port_bounce.py, `PortBounceTest`: the ports of a switch are disabled and enabled, and the
-- switch, the host and the disks' paths are checked after each step.
pub mod Paths
mod Tests
use Prim.Native.Char.{code}
use avocado_misc_tests.Prelude.{
  ℕ, zero, suc, String, ◌<>◌, Bool, true, false, ◌&&◌, ◌||◌, not, Option, none, some, List, [], ◌∷◌,
  ◌++◌, str_eq, ◌==◌, if◌then◌else◌,
}
use avocado_misc_tests.Prelude.Dict.{Dict, get, set}
use avocado_misc_tests.Prelude.Lists.{drop_last}
use avocado_misc_tests.Text.{
  contains, is_empty, is_space, strip, lstrip_by, rstrip_by, splitlines, after_last,
}
use avocado_misc_tests.Text.Words.{split_on}
use avocado_misc_tests.Python.{
  Exec, attribute_error, key_error, file_error, test_error, fail, pure, raise, gets, modify,
  or_raise, for_each, ◌>>=◌, ◌>>◌,
}

-- The switch, the host and its disks.
pub record Fabric : Type 1 where
  pub World : Type 0
  -- `ssh_session.cmd(c).stdout_text`, or `none` if it raises
  pub switch_cmd : String → World → Option String × World
  -- `process.getoutput(c)`
  pub getoutput : String → World → String × World
  -- `genio.read_file`, or `none` if it raises
  pub read_file : World → String → Option String
  pub sleep : ℕ → World → World
  -- the list that `multipath.get_path_status` returns for a path
  pub get_path_status : String → World → (String × String × String) × World
  -- `wait.wait_for` of a check and a number of seconds: whether the check held before they were over
  pub wait_for : (World → Bool × World) → ℕ → World → Bool × World
  -- how the interpreter prints `failure_list`, and the list of the paths
  pub failures_text : Dict String → String
  pub paths_text : List String → String
  pub sbt : ℕ
  pub lbt : ℕ
  pub count : ℕ
  pub adapter_type : String

-- The attributes of the test; `connected` says that `ssh_session` has been set.
pub record Session (F : Fabric) : Type 0 where
  pub connected : Bool
  pub port_ids : List String
  pub dic : Dict String
  pub failure_list : Dict String
  pub world : F.World

-- whether p stands on a line with t behind it
unfoldable pub behind : String → String → Option String
behind p String.[] = if is_empty p then some "" else none
behind p (String.◌∷◌ c s) =
    let rest = behind p s in elim (cut p (String.◌∷◌ c s)) [ none ↦ rest | some after ↦ some after ]
  where
    cut : String → String → Option String
    cut String.[] s = some s
    cut (String.◌∷◌ d p) String.[] = none
    cut (String.◌∷◌ d p) (String.◌∷◌ c s) =
        if str_eq (String.◌∷◌ d "") (String.◌∷◌ c "") then cut p s else none

unfoldable pub line_has : String → String → String → Bool
line_has p t line = elim (behind p line) [ none ↦ false | some after ↦ contains after t ]

-- `re.search(".*%s.*%s" % (port, state), switch_info)` of a port that is a number
unfoldable pub any_line : String → String → List String → Bool
any_line p t [] = false
any_line p t (line ∷ lines) = line_has p t line || any_line p t lines

-- the characters of a text, which is what a loop over the text goes through
unfoldable pub characters : String → List String
characters String.[] = []
characters (String.◌∷◌ c s) = String.◌∷◌ c "" ∷ characters s

-- `_send_only_result`
unfoldable pub drop_echo : String → List String → List String
drop_echo command [] = []
drop_echo command (line ∷ lines) = if contains line command then lines else line ∷ lines

unfoldable pub drop_empty_last : List String → List String
drop_empty_last [] = []
drop_empty_last (line ∷ []) = if is_empty (strip line) then [] else line ∷ []
drop_empty_last (line ∷ (next ∷ lines)) = line ∷ drop_empty_last (next ∷ lines)

unfoldable pub joined : List String → String
joined [] = ""
joined (line ∷ lines) = lstrip_by is_space line <> ("\n" <> joined lines)

unfoldable pub send_only_result : String → String → String
send_only_result command stdout_text =
    strip (joined (drop_empty_last (drop_echo command (splitlines stdout_text))))

-- `" ".join(test_ports)`
unfoldable pub join_ports : List String → String
join_ports [] = ""
join_ports (port ∷ []) = port
join_ports (port ∷ (next ∷ ports)) = port <> (" " <> join_ports (next ∷ ports))

module _ ⦃F : Fabric⦄ where
  abbrev pub Action : Type 0 → Type 0
  Action = Exec (Session F)

  -- a call that changes the world, with what it returned
  abbrev pub on_world : {A : Type 0} → (F.World → A × F.World) → Action A
  on_world call s = pure (call s.world).0 (record s { world = (call s.world).1 })

  replied : String → Option String → Action String
  replied command none = raise (fail ("Failed to execute command '" <> (command <> "'")))
  replied command (some stdout_text) = pure (send_only_result command stdout_text)

  -- `run_command`
  unfoldable pub run_command : String → Action String
  unfolding replied
  run_command command = do
    connected ← gets (λ s. s.connected)
    (if connected
        then pure tt
        else raise (fail "SSH connection to the fc/nic switch not yet established"))
    reply ← on_world (F.switch_cmd command)
    replied command reply

  -- `port_enable_disable`: what `run_command` raises is no CommandFailed, so nothing is caught.
  unfoldable pub port_enable_disable : List String → String → Action Unit
  port_enable_disable test_ports typ = do
    run_command "switchshow"
    run_command ("port" <> (typ <> (" " <> join_ports test_ports)))
    pure tt

  -- what one port of `verify_switch_port_state` adds to the failures
  unfoldable pub note_port : String → String → String → Action Unit
  note_port switch_info state port =
      if any_line port state (split_on b'\n' switch_info)
      then pure tt
      else modify (λ s. record s {
        failure_list = set port ("Port " <> (port <> (" is failed to " <> state))) s.failure_list;
      })

  unfoldable pub verify_switch_port_state : List String → String → Action Unit
  verify_switch_port_state test_ports state = do
    switch_info ← run_command "switchshow"
    for_each test_ports (note_port switch_info state)

  -- `self.dic[port]`
  unfoldable pub host_of : String → Action String
  host_of port s = or_raise (get port s.dic) key_error s

  -- whether the host's state is the one that is expected
  unfoldable pub expected_state : String → String → Bool
  expected_state status state =
      if str_eq status "Linkdown"
      then str_eq state status || str_eq state "Offline"
      else str_eq state status

  -- The two messages have the indentations of their lines of the source in them.
  not_changed : String
  not_changed = "port state not changed in host expected "

  indent : String → String
  indent status =
      if str_eq status "Linkdown"
      then "                              "
      else "                          "

  unfoldable pub verify_host : String → String → Action Unit
  unfolding not_changed indent
  verify_host status port = do
    host ← host_of port
    read ← gets (λ s. F.read_file s.world ("/sys/class/fc_host/" <> (host <> "/port_state")))
    text ← or_raise read file_error
    (if expected_state status (rstrip_by (λ c. c == 10) text)
        then pure tt
        else raise (
            fail (
              not_changed
              <> (indent status
                  <> ("state: "
                      <> (status <> (",actual_state: " <> rstrip_by (λ c. c == 10) text)))))))

  unfoldable pub verify_port_host_state : List String → String → Action Unit
  verify_port_host_state test_ports status = for_each test_ports (verify_host status)

  -- the lines of `get_paths` that are kept
  unfoldable pub paths_in : String → List String → List String
  paths_in fc_host [] = []
  paths_in fc_host (line ∷ lines) =
      let rest = paths_in fc_host lines in
      if contains line ("/" <> (fc_host <> "/")) then after_last b'/' line ∷ rest else rest

  -- `get_paths`: its loop goes through the characters of what the command printed.
  unfoldable pub get_paths : String → Action (List String)
  get_paths fc_host = do
    output ← on_world (F.getoutput ("ls -l /sys/block/ | grep -i " <> fc_host))
    pure (paths_in fc_host (characters output))

  -- `is_path_online`
  unfoldable pub is_path_online : String → String → String → F.World → Bool × F.World
  is_path_online state1 state2 curr_path world =
      let ((first, second, third), after) = F.get_path_status curr_path world in
      (str_eq first state1 && str_eq third state2, after)

  -- the paths of a port that are not in the two states
  unfoldable pub err_paths : String → String → String → List String → Action (List String)
  err_paths state1 state2 port [] = pure []
  err_paths state1 state2 port (path ∷ paths) = do
    online ← on_world (F.wait_for (is_path_online state1 state2 path) 10)
    rest ← err_paths state1 state2 port paths
    pure (if online then rest else (port <> (":" <> path)) ∷ rest)

  unfoldable pub all_err_paths : String → String → List String → Action (List String)
  all_err_paths state1 state2 [] = pure []
  all_err_paths state1 state2 (port ∷ ports) = do
    host ← host_of port
    paths ← get_paths host
    errors ← err_paths state1 state2 port paths
    rest ← all_err_paths state1 state2 ports
    pure (errors ++ rest)

  report_paths : String → List String → Action Unit
  report_paths state1 [] = pure tt
  report_paths state1 (path ∷ paths) =
      raise
        (test_error ("following paths not " <> (state1 <> (": " <> F.paths_text (path ∷ paths)))))

  -- `mpath_state_check`
  unfoldable pub mpath_state_check : List String → String → String → Action Unit
  unfolding report_paths
  mpath_state_check ports state1 state2 = do
    errors ← all_err_paths state1 state2 ports
    report_paths state1 errors

  unfoldable pub sleep : ℕ → Action Unit
  sleep n = modify (λ s. record s { world = F.sleep n s.world })

  unless_nvmf : Action Unit → Action Unit
  unless_nvmf check = if str_eq F.adapter_type "nvmf" then pure tt else check

  -- `porttoggle`
  unfoldable pub porttoggle : List String → ℕ → Action Unit
  unfolding unless_nvmf
  porttoggle test_ports sleep_time = do
    port_enable_disable test_ports "disable"
    sleep 20
    verify_switch_port_state test_ports "Disabled"
    verify_port_host_state test_ports "Linkdown"
    unless_nvmf (mpath_state_check test_ports "failed" "faulty")
    sleep sleep_time
    port_enable_disable test_ports "enable"
    sleep 20
    verify_switch_port_state test_ports "Online"
    verify_port_host_state test_ports "Online"
    sleep 20
    unless_nvmf (mpath_state_check test_ports "active" "ready")

  unfoldable pub times : ℕ → Action Unit → Action Unit
  times zero body = pure tt
  times (suc n) body = body >> times n body

  -- `port_bounce`
  unfoldable pub port_bounce : Action Unit
  port_bounce = do
    port_ids ← gets (λ s. s.port_ids)
    for_each (F.sbt ∷ F.lbt ∷ [])
        (λ b_time. for_each port_ids (λ port. times F.count (porttoggle (port ∷ []) b_time)))
    times F.count (porttoggle port_ids 300)

  report_failures : Dict String → Action Unit
  report_failures [] = pure tt
  report_failures (f ∷ fs) = raise (fail ("failed ports, details: " <> F.failures_text (f ∷ fs)))

  -- `test`
  unfoldable pub test : Action Unit
  unfolding report_failures
  test = do
    modify (λ s. record s { failure_list = [] })
    port_bounce
    failures ← gets (λ s. s.failure_list)
    report_failures failures
