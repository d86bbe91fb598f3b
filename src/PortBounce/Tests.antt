-- ===== src/PortBounce/Tests.antt =====
-- io/disk/port_bounce.py: a switch with one port, whose host has one path, and that path never online.
use avocado_misc_tests.Prelude.{◌≡◌, refl, true, false, some, [], ◌∷◌}
use avocado_misc_tests.Prelude.Dict.{get}
use avocado_misc_tests.Text.{after_last}
use avocado_misc_tests.Python.{ok}
use avocado_misc_tests.PortBounce.{
  Fabric, Session, any_line, line_has, behind, mpath_state_check, paths_in,
}
use avocado_misc_tests.PortBounce.Paths.{mpath_state_check-passes}

abbrev offline : Fabric
offline = record {
  World = Unit;
  switch_cmd = λ command world. (some "switchshow\n 4 id N32 Online\n", world);
  getoutput = λ command world. ("sda -> ../devices/pci/host3/block/sda", world);
  read_file = λ world file. some "Online\n";
  sleep = λ seconds world. world;
  get_path_status = λ path world. (("failed", "undef", "faulty"), world);
  wait_for = λ check seconds world. check world;
  failures_text = λ failures. "";
  paths_text = λ paths. "";
  sbt = 10;
  lbt = 250;
  count = 2;
  adapter_type = "fc";
}

abbrev one_port : Session offline
one_port = record {
  connected = true;
  port_ids = "4" ∷ [];
  dic = ("4", "host3") ∷ [];
  failure_list = [];
  world = tt;
}

-- The line of the path is one that the loop is meant to keep.
line_is_kept :
    paths_in ⦃F = offline⦄ "host3" ("sda -> ../devices/pci/host3/block/sda" ∷ []) ≡ "sda" ∷ []
unfolding paths_in after_last
line_is_kept = refl

any_line_runs :
    (any_line "4" "Online" (" 4 id N32 Online" ∷ []) ≡ true)
    × (any_line "4" "Online" (" 4 id N32 Disabled" ∷ " 5 id N32 Online" ∷ []) ≡ false)
unfolding any_line line_has behind
any_line_runs = (refl, refl)

mpath_state_check-passes_example :
    (mpath_state_check ⦃F = offline⦄ ("4" ∷ []) "active" "ready" one_port).0 ≡ ok tt
unfolding get
mpath_state_check-passes_example =
    mpath_state_check-passes ⦃F = offline⦄ ("4" ∷ []) "active" "ready" one_port
      (("host3", refl), tt)
