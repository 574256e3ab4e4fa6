-- ===== src/Tests/RefreshTests.antt =====
-- The refresh of tokens at concrete values.
use nexus_link.Base.{Option, String, err, none, ok, refl, some, ◌≡◌}
use nexus_link.Text.{can_cut, starts_with}
use nexus_link.Fs.{Fs, create_dir_all, read_to_string, set_file, set_permissions, write}
use nexus_link.Core.Token.{validate_cmd_token_format}
use nexus_link.Core.Config.{Config, cmd_token, migrate_legacy_fields}
use nexus_link.Core.ConfigFile.{
  Env, SaveFaults, dirs_home, effective_config_path, load, load_from, save, save_to,
}
use nexus_link.Cli.Refresh.{Client, Systemctl, execute, execute_cmd, is_set}
use nexus_link.Cli.ConfigCmd.{KeyFaults, apply, apply_key, cmd_token_key, key_of, read, set}
use nexus_link.Cli.ConfigCmd.Laws.{IsAnswer, read-set}
use nexus_link.Cli.Refresh.Laws.{load_from-execute_cmd}
use nexus_link.Tests.Samples.{
  config_of, entry_1, is_agent, is_api, is_compose, is_entry, is_node, is_plain, is_service,
  no_files, node_toml, old_print, old_toml, old_toml-IsToml,
}

abbrev no_save_faults : SaveFaults
no_save_faults = record { create = none; dir_mode = none; write = none; file_mode = none }

abbrev env : Env
env = record { home = some "/root"; nexus_link_config = some "/c.toml"; sudo_user = none }

abbrev root_parent : String → Option String
root_parent p = some "/"

abbrev stored : Fs
stored = set_file "/c.toml" (some "nxs_node_1") no_files

abbrev not_run : Systemctl
not_run = record { user = err ""; system = err ""; with_sudo = err "" }

abbrev accepting : Client
accepting = some (λ h. ok 200)

abbrev after_refresh : Fs
after_refresh =
    (execute node_toml none no_save_faults root_parent env accepting not_run "nxs_node_2" stored).1

abbrev old_stored : Fs
old_stored = set_file "/c.toml" (some "nxs_cmd_0") no_files

abbrev rotated : Fs
rotated = (execute_cmd old_toml none no_save_faults root_parent env "nxs_cmd_2" old_stored).1

abbrev old_loaded : Config
old_loaded = config_of "" none (some entry_1) (some "nxs_cmd_0")

is_old_loaded : load old_toml none env old_stored ≡ ok old_loaded
unfolding load load_from read_to_string migrate_legacy_fields effective_config_path
is_old_loaded = refl

is_rotated :
    execute_cmd old_toml none no_save_faults root_parent env "nxs_cmd_2" old_stored
    ≡ (ok tt, rotated)
unfolding can_cut execute_cmd save save_to create_dir_all set_permissions write old_print is_plain
    is_node is_api is_agent is_service is_compose is_entry load load_from read_to_string
    migrate_legacy_fields effective_config_path validate_cmd_token_format starts_with
is_rotated = refl

load_from-execute_cmd_example :
    (c' : Config) × (load_from old_toml none (effective_config_path env old_stored) rotated ≡ ok c')
    × (c'.compose ≡ record old_loaded.compose { cmd_token = some "nxs_cmd_2" })
    × (cmd_token c' ≡ some "nxs_cmd_1")
unfolding is_set
load_from-execute_cmd_example =
    load_from-execute_cmd old_toml old_toml-IsToml none no_save_faults root_parent env "nxs_cmd_2"
      old_stored rotated old_loaded entry_1 is_old_loaded refl refl is_rotated

abbrev no_key_faults : KeyFaults
no_key_faults = record { remove = none; create = none; write = none }

abbrev set_to : Fs
set_to =
    (set old_toml none no_save_faults no_key_faults root_parent env "cmd_token" "nxs_cmd_2"
      old_stored).1

is_cmd_token_key : key_of "cmd_token" ≡ some cmd_token_key
unfolding key_of
is_cmd_token_key = refl

is_set_to :
    set old_toml none no_save_faults no_key_faults root_parent env "cmd_token" "nxs_cmd_2"
      old_stored
    ≡ (ok tt, set_to)
unfolding set apply_key key_of apply can_cut save save_to create_dir_all set_permissions write
    old_print is_plain is_node is_api is_agent is_service is_compose is_entry load load_from
    read_to_string migrate_legacy_fields effective_config_path validate_cmd_token_format starts_with
is_set_to = refl

read-set_example :
    (c c' saved : Config) × (m : Fs) × (load old_toml none env old_stored ≡ ok c)
    × (apply no_key_faults (dirs_home env) cmd_token_key "nxs_cmd_2" c old_stored ≡ (ok c', m))
    × (load_from old_toml none (effective_config_path env m) set_to ≡ ok saved)
    × IsAnswer c cmd_token_key "nxs_cmd_2" (read cmd_token_key saved)
read-set_example =
    read-set old_toml old_toml-IsToml none no_save_faults no_key_faults root_parent env "cmd_token"
      "nxs_cmd_2" cmd_token_key old_stored set_to is_cmd_token_key is_set_to
