-- ===== src/Tests/MachineTests.antt =====
-- The setup, and the reset, unregister and agent commands on concrete machines.
use nexus_link.Base.{List, [], ap, false, none, ok, refl, some, true, ◌≡◌, ◌≢◌}
use nexus_link.Cli.Main.{preflight, setup_exit, verdict_exit}
use nexus_link.Cli.Main.Laws.{preflight-IsEnabled}
use nexus_link.Core.Preflight.{PreflightReport, compatible, incompatible}
use nexus_link.Shell.{Event, Os, exists, files, proceed, pure, run, ◌&>◌, ◌>>=◌, ◌>>◌}
use nexus_link.Shell.Extends.{Extends}
use nexus_link.Core.ConfigFile.{
  default_config_path, dirs_home, legacy_system_path, system_config_path,
}
use nexus_link.Core.Setup.{
  add_docker_group, copy_config, copy_key, copy_key_unless, create_config_dir, create_system_user,
  create_user_unless, created, dirs_step, ensure_dir, is_member, join_group_if, join_group_unless,
  made, make_dir, make_dir_unless, migrate_from, migrate_legacy_config, migrate_unless,
  migration_source, push, report_step, signing_key_name, state_key, sudo, tee_result,
  write_file_sudo,
}
use nexus_link.Core.Setup.Steps.{is_failed, run_all, run_setup, setup_steps}
use nexus_link.Core.Setup.Skipped.{IsQuery, setup_steps-skipped}
use nexus_link.Core.Setup.Migration.{IsMigratedFrom, load-migrate_legacy_config}
use nexus_link.Cli.Reset.{execute as reset_node}
use nexus_link.Cli.Unregister.{execute as unregister}
use nexus_link.Cli.Reset.Allowed.{IsAllowed, execute-IsAllowed}
use nexus_link.Cli.AgentCmd.Commands.{logs, restart, start, stop}
use nexus_link.Cli.AgentCmd.Privileges.{IsUnprivileged, commands-IsUnprivileged}
use nexus_link.Cli.AgentCmd.Units.{agent_unit, service_unit}
use nexus_link.Tests.Machines.{
  copied_files, copying, copying-IsShell, machine, nobody, removing, says,
}
use nexus_link.Tests.Samples.{no_files, node_toml}
use nexus_link.Fs.{Fs, join, set_file}
use nexus_link.Text.{
  is_whitespace, join_texts, reverse, starts_with, trim, trim_end_matches, trim_start_matches,
}
use nexus_link.Core.Config.{Config}
use nexus_link.Core.Setup.Success.{IsEnabled}
use nexus_link.Text.Split.{split, split_whitespace}
use nexus_link.Core.Setup.Binaries.{
  cannot, copy_binary, effective_source, find_user_binary_dir, install_binaries, install_each,
  install_from_dir, install_one, install_unless, install_unless_same, installed_step, is_passed,
  note_result, of_current, of_parent, of_real, remove_if,
}
use nexus_link.Core.Setup.Units.{enable_services, install_systemd_units}
use nexus_link.Text.Number.{to_string}

setup_steps-skipped_example : Extends IsQuery [] (create_system_user copying []).1
unfolding setup_steps create_system_user create_user_unless run pure ◌>>=◌
setup_steps-skipped_example =
    setup_steps-skipped copying 0 (create_system_user copying) [] refl refl

migration_created : (migrate_legacy_config copying []).0.status ≡ created
unfolding migrate_legacy_config migrate_unless migrate_from migration_source copy_config sudo exists
    files copy_key_unless report_step run proceed pure ◌&>◌ ◌>>=◌ ◌>>◌ legacy_system_path
    system_config_path default_config_path dirs_home join starts_with
migration_created = refl

load-migrate_legacy_config_example :
    IsMigratedFrom node_toml nobody
      (copied_files [])
      (copied_files (migrate_legacy_config copying []).1)
load-migrate_legacy_config_example =
    load-migrate_legacy_config node_toml copying [] copying-IsShell refl migration_created

execute-IsAllowed_example :
    Extends (IsAllowed (dirs_home nobody)) [] (reset_node removing false []).1
execute-IsAllowed_example = execute-IsAllowed removing false []

-- A node with a configuration in the home directory.
abbrev registered : Fs
registered = set_file "/home/op/.nexus-link/config.toml" (some "tok") no_files

abbrev denied : Os
denied = machine (λ h args. says false) (λ h. registered) false

commands-IsUnprivileged_example :
    Extends IsUnprivileged [] (start denied node_toml none []).1
    × Extends IsUnprivileged [] (restart denied node_toml none []).1
    × Extends IsUnprivileged [] (stop denied []).1
    × Extends IsUnprivileged [] (logs denied 50 []).1
commands-IsUnprivileged_example = commands-IsUnprivileged denied node_toml none 50 [] refl refl

abbrev allowed : Os
allowed = machine (λ h args. says true) (λ h. registered) true

set_up : (run_setup allowed []).0.success ≡ true
unfolding run_setup ◌>>=◌ pure create_system_user create_user_unless run add_docker_group
    join_group_if join_group_unless is_member split_whitespace report_step sudo create_config_dir
    dirs_step proceed ensure_dir make_dir_unless default_config_path dirs_home legacy_system_path
    system_config_path cannot copy_binary effective_source find_user_binary_dir install_binaries
    install_each install_from_dir install_one install_unless install_unless_same installed_step
    is_passed note_result of_current of_parent of_real remove_if is_failed run_all setup_steps
    agent_unit enable_services install_systemd_units service_unit copy_config copy_key
    copy_key_unless made make_dir migrate_from migrate_legacy_config migrate_unless migration_source
    push signing_key_name state_key tee_result write_file_sudo join exists files ◌&>◌ ◌>>◌ to_string
    split is_whitespace join_texts reverse starts_with trim trim_end_matches trim_start_matches
set_up = refl

abbrev ready_report : PreflightReport
ready_report = record { checks = []; verdict = compatible; device_match = none }

preflight_passed : (preflight allowed ready_report true []).0 ≡ ok tt
unfolding preflight setup_exit verdict_exit pure ◌>>=◌
preflight_passed = ap (λ b. setup_exit b compatible) set_up

preflight-IsEnabled_example :
    (compatible ≢ incompatible)
    × ((before : List Event) × IsEnabled allowed before (preflight allowed ready_report true []).1)
preflight-IsEnabled_example = preflight-IsEnabled allowed ready_report [] preflight_passed
