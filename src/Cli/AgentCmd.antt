-- ===== src/Cli/AgentCmd.antt =====
-- crates/nexus-link-cli/src/commands/agent.rs: the systemd mode, `systemctl`, and the search for
-- the binaries. What is printed is left out.
pub mod Units
pub mod Commands
pub mod Privileges
pub mod Started
use Prim.Native.String.{◌++◌}
use nexus_link.Base.{
  Bool, List, Option, Result, String, [], err, false, if◌then◌else◌, none, not, ok, some, true,
  unwrap_or, ◌∷◌,
}
use nexus_link.Text.{trim}
use nexus_link.Fs.{Fs, join, path_exists}
use nexus_link.Process.{Output, Spawned, ran}
use nexus_link.Shell.{Os, Step, Try, exists, files, pure, run, run_ignored, ◌>>=◌}
use nexus_link.Core.ConfigFile.{Env}

abbrev pub agent_service_name : String
agent_service_name = "nexus-link-agent"

abbrev pub service_service_name : String
service_service_name = "nexus-link-service"

pub data SystemdMode : Type 0 where
  system_mode : SystemdMode
  user_mode : SystemdMode

abbrev pub sudo_probe : List String
sudo_probe = "sudo" ∷ "-n" ∷ "true" ∷ []

unfoldable pub has_sudo : Os → Step Bool
has_sudo os = run os sudo_probe >>= λ r. pure (ran r)

unfoldable pub mode_of : Bool → SystemdMode
mode_of true = system_mode
mode_of false = user_mode

mode_unless_root : Os → Bool → Step SystemdMode
mode_unless_root os true = pure system_mode
mode_unless_root os false = has_sudo os >>= λ b. pure (mode_of b)

unfoldable pub detect_systemd_mode : Os → Step SystemdMode
unfolding mode_unless_root
detect_systemd_mode os = mode_unless_root os os.is_root

-- `$HOME`, or that of root
unfoldable pub home_of : Env → String
home_of env = unwrap_or env.home "/root"

unfoldable pub systemd_unit_path : Env → String → SystemdMode → String
systemd_unit_path env service_name system_mode =
    "/etc/systemd/system/" ++ (service_name ++ ".service")
systemd_unit_path env service_name user_mode =
    join (join (home_of env) ".config/systemd/user") (service_name ++ ".service")

unfoldable pub systemd_unit_exists : Os → String → SystemdMode → Step Bool
systemd_unit_exists os service_name mode = exists os (systemd_unit_path os.env service_name mode)

unfoldable pub systemctl_args : String → String → SystemdMode → List String
systemctl_args command service system_mode = "systemctl" ∷ command ∷ service ∷ []
systemctl_args command service user_mode = "systemctl" ∷ "--user" ∷ command ∷ service ∷ []

-- The result of the last attempt, with the prefix of its message.
unfoldable pub finished : String → Spawned → Result (Unit {0}) String
finished message (err e) = err e
finished message (ok o) =
    if o.success then ok tt else err (message ++ (" failed: " ++ trim o.stderr))

retry_unless : Os → String → String → SystemdMode → Output → Bool → Try (Unit {0})
retry_unless os command service mode o true = pure (ok tt)
retry_unless os command service system_mode o false =
    run os ("sudo" ∷ systemctl_args command service system_mode) >>= λ r.
    pure (finished ("systemctl " ++ (command ++ (" " ++ service))) r)
retry_unless os command service user_mode o false =
    pure (finished ("systemctl --user " ++ (command ++ (" " ++ service))) (ok o))

retry : Os → String → String → SystemdMode → Spawned → Try (Unit {0})
retry os command service mode (err e) = pure (err e)
retry os command service mode (ok o) = retry_unless os command service mode o o.success

unfoldable pub systemctl : Os → String → String → SystemdMode → Try (Unit {0})
unfolding retry retry_unless
systemctl os command service mode =
    run os (systemctl_args command service mode) >>= retry os command service mode

unfoldable pub reload_args : SystemdMode → List String
reload_args system_mode = "systemctl" ∷ "daemon-reload" ∷ []
reload_args user_mode = "systemctl" ∷ "--user" ∷ "daemon-reload" ∷ []

reload_again : Os → SystemdMode → Bool → Step (Unit {0})
reload_again os mode true = pure tt
reload_again os system_mode false = run_ignored os ("sudo" ∷ "systemctl" ∷ "daemon-reload" ∷ [])
reload_again os user_mode false = pure tt

-- It never fails.
unfoldable pub reload_systemd : Os → SystemdMode → Step (Unit {0})
unfolding reload_again
reload_systemd os mode = run os (reload_args mode) >>= λ r. reload_again os mode (ran r)

first_existing : Fs → List String → Option String
first_existing fs [] = none
first_existing fs (p ∷ ps) =
    let rest = first_existing fs ps in if path_exists fs p then some p else rest

binary_places : Env → String → List String
binary_places env name =
    join (join (home_of env) ".local/bin") name
    ∷ ("/usr/local/bin/" ++ name)
    ∷ ("/usr/bin/" ++ name)
    ∷ []

which_result : String → Spawned → Result String String
which_result name (err e) = err e
which_result name (ok o) =
    if o.success
    then ok (trim o.stdout)
    else err ("Binary '" ++ (name ++ "' not found. Ensure nexus-link is installed in PATH."))

found_or_which : Os → String → Option String → Try String
found_or_which os name (some p) = pure (ok p)
found_or_which os name none = run os ("which" ∷ name ∷ []) >>= λ r. pure (which_result name r)

unfoldable pub which_binary : Os → String → Try String
unfolding first_existing binary_places found_or_which which_result
which_binary os name =
    files (λ fs. first_existing fs (binary_places os.env name)) os >>= found_or_which os name
