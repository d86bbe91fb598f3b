-- ===== src/Dlpar/Connections/Machines.antt =====
-- dlpar/dlpar_api/api.py: which machines `get_connections` leaves in the test object.
use avocado_misc_tests.Prelude.{◌≡◌, refl, ◌∙◌, ap, Bool, true, false, none, some, if◌then◌else◌}
use avocado_misc_tests.Python.{err, attribute_error, ◌>>=◌}
use avocado_misc_tests.Dlpar.Host.{Host}
use avocado_misc_tests.Dlpar.Session.{Machine, Session}
use avocado_misc_tests.Dlpar.Connections.{
  Config, check_log, check, ssh_machine, machine_of, get_connections,
}

module _ ⦃H : Host⦄ where
  -- On an object without a secondary partition, where the connection to the console does not raise,
  -- `get_connections(clients='primary')` connects the console, with the flag that says whether it was
  -- refused, and the primary partition, and then still raises an AttributeError.
  pub get_connections-primary_alone :
      (c : Config H) (s : Session H) (connects : Bool)
      → s.linux_2 ≡ none
      → (H.connect c.hmc_name c.hmc_user c.hmc_passwd s.world).0 ≡ some connects
      → (t : Session H) × (get_connections c "primary" s ≡ (err attribute_error, t))
        × ((m : Machine) × (t.hmc ≡ some m) × (m.mac_con ≡ (if connects then 0 else 1)))
        × ((m : Machine) × (t.linux_1 ≡ some m) × (m.partition ≡ c.src_partition))
  unfolding get_connections machine_of ssh_machine check check_log ◌>>=◌
  get_connections-primary_alone c s connects alone answer =
      let alone_s = record s { linux_2 = none } in
      let e : s ≡ alone_s = ap (λ second. record s { linux_2 = second }) alone in
      let t = (get_connections c "primary" alone_s).1 in
      let ended : get_connections c "primary" alone_s ≡ (err attribute_error, t) = rw answer refl in
      let console : Machine = record {
        name = c.hmc_name;
        machine = c.hmc_manage_system;
        partition = c.hmc_manage_system;
        connected = true;
        mac_con = if connects then 0 else 1;
      } in
      let primary : Machine = record {
        name = c.src_name;
        machine = c.hmc_manage_system;
        partition = c.src_partition;
        connected = false;
        mac_con = 0;
      } in
      (
        t,
        ap (get_connections c "primary") e ∙ ended,
        (console, rw answer refl, refl),
        (primary, rw answer refl, refl),
      )
