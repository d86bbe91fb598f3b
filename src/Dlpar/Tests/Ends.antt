-- ===== src/Dlpar/Tests/Ends.antt =====
-- Connections and the backup of the amounts of the DLPAR suite at concrete sessions.
use avocado_misc_tests.Prelude.{String, ◌≡◌, refl, true, none, some, List, [], ◌∷◌, map}
use avocado_misc_tests.Prelude.Int.{pos}
use avocado_misc_tests.Text.{string_of_int}
use avocado_misc_tests.Python.{ok, err, attribute_error, ◌>>◌, for_each}
use avocado_misc_tests.Dlpar.Num.{Number, int, num_str}
use avocado_misc_tests.Dlpar.Session.{Session, Machine}
use avocado_misc_tests.Dlpar.Connections.{get_connections}
use avocado_misc_tests.Dlpar.Connections.Machines.{get_connections-primary_alone}
use avocado_misc_tests.Dlpar.Suite.Outcome.{str_of_list, data_payload_backup, data_payload_extract}
use avocado_misc_tests.Dlpar.Suite.Backup.{has_line_feed, data_payload_extract-backups}
use avocado_misc_tests.Dlpar.Tests.Hosts.{scripted, connected, config}

abbrev amounts_1 : List (Number ⦃H = scripted⦄)
amounts_1 = int (pos 1) ∷ int (pos 2) ∷ []

abbrev amounts_2 : List (Number ⦃H = scripted⦄)
amounts_2 = int (pos 3) ∷ []

abbrev fresh_file : Session scripted
fresh_file = connected scripted []

data_payload_extract-backups_example :
    (lines : List String) × (t : Session scripted) × ((for_each
            (amounts_1 ∷ amounts_2 ∷ [])
            (data_payload_backup ⦃H = scripted⦄)
          >> data_payload_extract ⦃H = scripted⦄)
        fresh_file
      ≡ (ok lines, t))
    × (map scripted.eval_list lines ≡ map some (amounts_1 ∷ amounts_2 ∷ []))
unfolding str_of_list has_line_feed num_str string_of_int
data_payload_extract-backups_example =
    data_payload_extract-backups ⦃H = scripted⦄ amounts_1 (amounts_2 ∷ []) fresh_file refl
      (refl, (refl, tt)) (refl, (refl, tt))

abbrev fresh : Session scripted
fresh = record (connected scripted []) { hmc = none; linux_1 = none; linux_2 = none }

get_connections-primary_alone_example :
    (t : Session scripted) × (get_connections ⦃H = scripted⦄ (config scripted) "primary" fresh
      ≡ (err attribute_error, t))
    × ((m : Machine) × (t.hmc ≡ some m) × (m.mac_con ≡ 0))
    × ((m : Machine) × (t.linux_1 ≡ some m) × (m.partition ≡ "lp1"))
get_connections-primary_alone_example =
    get_connections-primary_alone ⦃H = scripted⦄ (config scripted) fresh true refl refl
