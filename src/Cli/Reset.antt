-- ===== src/Cli/Reset.antt =====
-- crates/nexus-link-cli/src/commands/reset.rs. What is printed of a result is left out.
pub mod Allowed
pub mod Removal
use nexus_link.Base.{Bool, List, String, [], err, false, not, ok, true, ◌||◌, ◌∷◌}
use nexus_link.Fs.{path_exists}
use nexus_link.Process.{Spawned, ran}
use nexus_link.Shell.{
  Os, Step, Try, ask, exists, io, is_yes, proceed, pure, removed_tree, run, run_ignored, ◌>>=◌,
  ◌>>◌,
}
use nexus_link.Core.ConfigFile.{dirs_home, service_user, system_config_dir, system_state_dir}

abbrev pub services : List String
services = "nexus-link-agent" ∷ "nexus-link-service" ∷ []

abbrev pub unit_files : List String
unit_files =
    "/etc/systemd/system/nexus-link-agent.service"
    ∷ "/etc/systemd/system/nexus-link-service.service" ∷ []

abbrev pub installed_binaries : List String
installed_binaries =
    "/usr/local/bin/nexus-link" ∷ "/usr/local/bin/nexus-link-agent"
    ∷ "/usr/local/bin/nexus-link-service" ∷ []

abbrev pub sudo_if : Bool → List String → List String
sudo_if true args = "sudo" ∷ args
sudo_if false args = args

disable_service : Os → String → Bool → Step (Unit {0})
disable_service os service true = run_ignored os ("systemctl" ∷ "--user" ∷ "disable" ∷ service ∷ [])
disable_service os service false = run_ignored os ("sudo" ∷ "systemctl" ∷ "disable" ∷ service ∷ [])

stopped_system : Os → String → Bool → Step (Unit {0})
stopped_system os service true = disable_service os service false
stopped_system os service false = run_ignored os ("pkill" ∷ "-f" ∷ service ∷ [])

stopped_user : Os → String → Bool → Step (Unit {0})
stopped_user os service true = disable_service os service true
stopped_user os service false =
    run os ("sudo" ∷ "systemctl" ∷ "stop" ∷ service ∷ []) >>= λ r. stopped_system os service (ran r)

unfoldable pub stop_service : Os → String → Step (Unit {0})
unfolding stopped_user stopped_system disable_service
stop_service os service =
    run os ("systemctl" ∷ "--user" ∷ "stop" ∷ service ∷ []) >>= λ r. stopped_user os service (ran r)

unfoldable pub for_each : (String → Step (Unit {0})) → List String → Step (Unit {0})
for_each f [] = pure tt
for_each f (x ∷ xs) = f x >> for_each f xs

unfoldable pub stop_and_disable_services : Os → Step (Unit {0})
stop_and_disable_services os = for_each (stop_service os) services

unfoldable pub remove_if : Os → List String → Bool → Step (Unit {0})
remove_if os args true = run_ignored os args
remove_if os args false = pure tt

unfoldable pub remove_unit : Os → String → Step (Unit {0})
remove_unit os unit = exists os unit >>= remove_if os ("sudo" ∷ "rm" ∷ "-f" ∷ unit ∷ [])

unfoldable pub remove_systemd_units : Os → Step (Unit {0})
remove_systemd_units os =
    for_each (remove_unit os) unit_files
    >> run_ignored os ("sudo" ∷ "systemctl" ∷ "daemon-reload" ∷ [])

unfoldable pub remove_tree_if : Os → String → Bool → Step (Unit {0})
remove_tree_if os dir true = io os (removed_tree dir) >> pure tt
remove_tree_if os dir false = pure tt

unfoldable pub remove_dir_if_exists : Os → String → Step (Unit {0})
remove_dir_if_exists os dir = exists os dir >>= remove_tree_if os dir

unfoldable pub remove_system_dir : Os → String → Step (Unit {0})
remove_system_dir os dir = exists os dir >>= remove_if os ("sudo" ∷ "rm" ∷ "-rf" ∷ dir ∷ [])

unfoldable pub is_installed : Os → String → Step Bool
is_installed os bin h = (path_exists (os.fs h) bin || os.has_metadata h bin, h)

unfoldable pub remove_binary : Os → String → Step (Unit {0})
remove_binary os bin = is_installed os bin >>= remove_if os ("sudo" ∷ "rm" ∷ "-f" ∷ bin ∷ [])

unfoldable pub remove_installed_binaries : Os → Step (Unit {0})
remove_installed_binaries os = for_each (remove_binary os) installed_binaries

-- `id` was run and did not find the user.
unfoldable pub is_no_user : Spawned → Bool
is_no_user (ok o) = not o.success
is_no_user (err e) = false

unfoldable pub remove_system_user : Os → Step (Unit {0})
remove_system_user os = run os ("id" ∷ service_user ∷ []) >>= λ r.
    remove_if os ("sudo" ∷ "userdel" ∷ service_user ∷ []) (not (is_no_user r))

-- The seven removals in their order.
unfoldable pub reset_all : Os → Step (Unit {0})
reset_all os =
    stop_and_disable_services os
    >> remove_systemd_units os
    >> remove_dir_if_exists os (dirs_home os.env)
    >> remove_system_dir os system_config_dir
    >> remove_system_dir os system_state_dir
    >> remove_installed_binaries os
    >> remove_system_user os

-- The answer to the prompt: a failed read is an error, and all but "y" cancels.
unfoldable pub reset_if : Os → Bool → Try (Unit {0})
reset_if os true = reset_all os >> pure (ok tt)
reset_if os false = pure (ok tt)

unfoldable pub execute : Os → Bool → Try (Unit {0})
execute os true = reset_if os true
execute os false = ask os >>= proceed λ line. reset_if os (is_yes line)
