-- ===== src/Tests/CliTests.antt =====
-- The commands of the command line at concrete values.
use Prim.Native.String.{◌++◌}
use nexus_link.Cli.Upgrade.Versions.{parse_version-version_text, version_text}
use nexus_link.Base.{Result, String, [], arith, false, is_ok, none, refl, some, true, ◌≡◌}
use nexus_link.Fs.{Fs, not_opened, set_file}
use nexus_link.Core.Config.{Config}
use nexus_link.Cli.ConfigCmd.{KeyFaults}
use nexus_link.Cli.Register.{RegisterArgs, RegisterResponse, register_config}
use nexus_link.Cli.Upgrade.{InstallFaults, backup_of, install_from, parse_version}
use nexus_link.Cli.Upgrade.Install.{install_from-not_copied}
use nexus_link.Tests.Samples.{config_of, entry_1, no_files}

abbrev no_key_faults : KeyFaults
no_key_faults = record { remove = none; create = none; write = none }

abbrev a_config : Config
a_config = config_of "nxs_node_1" none (some entry_1) none

abbrev pushed : Config
pushed = record a_config { agent = record { push_sec = 30; poll_sec = 2 } }

abbrev by_entry : Config
by_entry = record a_config {
  api = record a_config.api {
    tokens = record {
      telemetry = none;
      command = some (record { token = "nxs_cmd_2"; scope = "read_write" });
    };
  };
  compose = record a_config.compose { cmd_token = some "nxs_cmd_2" };
}

abbrev by_old_place : Config
by_old_place = record a_config {
  compose = record a_config.compose { cmd_token = some "nxs_cmd_2" };
}

abbrev register_args : RegisterArgs
register_args = record {
  api_url = "https://nexus";
  token = "nxs_node_1";
  cmd_token = some "nxs_cmd_1";
  name = none;
  tags = [];
  skip_preflight = false;
  force = true;
}

abbrev register_response : RegisterResponse
register_response = record {
  node_id = "n1";
  token = "nxs_node_2";
  cmd_token = none;
  signing_public_key = none;
  database_url = none;
}

abbrev registered : Config
registered = register_config register_args "spark" register_response

abbrev disk_full : InstallFaults
disk_full = record {
  remove = none;
  rename = none;
  copy = some (not_opened "disk full");
  mode = none;
  clean = none;
}

abbrev installed_before : Fs
installed_before =
    set_file "/bin/nexus-link" (some "old") (set_file "/tmp/x/nexus-link" (some "new") no_files)

abbrev not_installed : Result (Unit {0}) String × Fs
not_installed = install_from disk_full "/tmp/x/nexus-link" "/bin/nexus-link" installed_before

install_from-not_copied_example :
    (is_ok not_installed.0 ≡ false)
    × (not_installed.1.file "/bin/nexus-link" ≡ none)
    × (not_installed.1.file (backup_of "/bin/nexus-link") ≡ some "old")
unfolding backup_of
install_from-not_copied_example =
    install_from-not_copied disk_full "/tmp/x/nexus-link" "/bin/nexus-link" "old" "new"
      (not_opened "disk full") installed_before refl refl refl refl refl refl refl

parse_version-version_text_example :
    (parse_version (version_text 0 10 2) ≡ (0, 10, 2))
    × (parse_version ("v" ++ version_text 0 10 2) ≡ (0, 10, 2))
parse_version-version_text_example =
    parse_version-version_text 0 10 2 (omega arith) (omega arith) (omega arith)
