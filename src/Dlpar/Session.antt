-- ===== src/Dlpar/Session.antt =====
-- The state that the methods of dlpar/dlpar_api/api.py work on: the attributes of the test object,
-- its log, and the world that its commands change.
use avocado_misc_tests.Prelude.{ℕ, String, Bool, Option, none, some, List, ◌∷◌}
use avocado_misc_tests.Prelude.Int.{ℤ}
use avocado_misc_tests.Text.{int_of_string}
use avocado_misc_tests.Python.{
  attribute_error, cmd_error, value_error, ok, err, Exec, raise, gets, or_raise, modify, ◌>>=◌,
  ◌>>◌,
}
use avocado_misc_tests.Dlpar.Host.{Host}
use avocado_misc_tests.Dlpar.Num.{Num}

-- `SshMachine`. `connected` says that it has an ssh session, which the primary partition has not.
pub record Machine : Type 0 where
  pub name : String
  pub machine : String
  pub partition : String
  pub connected : Bool
  pub mac_con : ℕ

pub data Entry : Type 0 where
  debug info error : String → Entry

-- What went over the wires, for statements about it: a command and its reply.
pub data Event : Type 0 where
  hmc_ran peer_ran local_ran : String → String → Event
  slept : ℤ → Event

pub record Session (H : Host) : Type 0 where
  pub world : H.World
  -- newest first
  pub history : List Event
  pub log : List Entry
  pub hmc : Option Machine
  pub linux_1 : Option Machine
  pub linux_2 : Option Machine
  pub cmd_result : Option String
  pub cpu_per_processor : ℤ
  pub quant_to_test : Option (Num H.Float)
  pub sleep_time : ℤ
  -- what stands in config.txt, or `none` where there is no such file
  pub config_txt : Option String

module _ ⦃H : Host⦄ where
  abbrev pub Action : Type 0 → Type 0
  Action = Exec (Session H)

  abbrev pub log_debug : String → Action Unit
  log_debug m = modify (λ s. record s { log = debug m ∷ s.log })

  abbrev pub log_info : String → Action Unit
  log_info m = modify (λ s. record s { log = info m ∷ s.log })

  abbrev pub log_error : String → Action Unit
  log_error m = modify (λ s. record s { log = error m ∷ s.log })

  -- the end of a remote or local call: it raised, or its output is recorded and returned
  unfoldable pub answered : (String → Event) → Option String × H.World → Action String
  answered event (none, w) s = (err cmd_error, record s { world = w })
  answered event (some out, w) s = (ok out, record s { world = w; history = event out ∷ s.history })

  -- `self.hmc.sshcnx.cmd(c).stdout_text`
  unfoldable pub hmc_text : String → Action String
  unfolding answered
  hmc_text c = do
    hmc ← gets (λ s. s.hmc)
    or_raise hmc attribute_error
    λ s. answered (hmc_ran c) (H.hmc_cmd c s.world) s

  -- `machine.sshcnx.cmd(c).stdout_text`
  unfoldable pub peer_text : Machine → String → Action String
  unfolding answered
  peer_text m c = elim m.connected [
    | Bool.false ↦ raise attribute_error
    | Bool.true ↦ λ s. answered (peer_ran c) (H.peer_cmd m.name c s.world) s
  ]

  -- `process.run(c).stdout.decode()`
  unfoldable pub local_text : String → Action String
  unfolding answered
  local_text c s = answered (local_ran c) (H.local_cmd c s.world) s

  -- `time.sleep(n)`
  unfoldable pub sleep : ℤ → Action Unit
  sleep n s = (ok tt, record s { world = H.sleep n s.world; history = slept n ∷ s.history })

  -- `int(text)`
  abbrev pub to_int : String → Action ℤ
  to_int t = or_raise (int_of_string t) value_error

  -- `float(text)`
  abbrev pub to_float_of : String → Action H.Float
  to_float_of t = or_raise (H.float_of_string t) value_error
