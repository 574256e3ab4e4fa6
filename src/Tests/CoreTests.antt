-- ===== src/Tests/CoreTests.antt =====
-- The tokens, the configuration, the preflight and the network at concrete values.

use nexus_link.Base.{Result, String, err, none, ok, refl, some, true, ◌↔◌, ◌≡◌}
use nexus_link.Fs.{Fs, create_dir_all, read_to_string, set_file, set_permissions, write}
use nexus_link.Process.{Spawned}
use nexus_link.Core.Token.{hash_token, verify_token}
use nexus_link.Core.Token.Hashing.{verify_token-hash_token}
use nexus_link.Core.Config.{Config, cmd_token, migrate_legacy_fields, node_token}
use nexus_link.Core.Config.Migration.{tokens-migrate_legacy_fields}
use nexus_link.Core.ConfigFile.{SaveFaults, load_from, save_to, serialized}
use nexus_link.Core.ConfigFile.Laws.{load_from-save_to, load_from-save_to_loaded}
use nexus_link.Core.Preflight.{Machine, PreflightReport, run_preflight}
use nexus_link.Tests.Samples.{
  api_of, config_of, crypto, crypto-IsCrypto, is_agent, is_api, is_compose, is_entry, is_node,
  is_plain, is_service, no_files, node_print, node_toml, node_toml-IsToml,
}

verify_token-hash_token_example :
    (verify_token crypto "nxs_node_a" (hash_token crypto "nxs_node_b") ≡ true)
    ↔ (crypto.sha256 "nxs_node_a" ≡ crypto.sha256 "nxs_node_b")
verify_token-hash_token_example =
    verify_token-hash_token crypto crypto-IsCrypto "nxs_node_a" "nxs_node_b"

-- An old configuration: tokens in the old places, and an old interval.
abbrev old_config : Config
old_config = record (config_of "nxs_node_1" none none (some "nxs_cmd_1")) {
  api = record (api_of none none) { push_interval_secs = some 30 };
}

tokens-migrate_legacy_fields_example :
    (node_token (migrate_legacy_fields old_config) ≡ node_token old_config)
    × (cmd_token (migrate_legacy_fields old_config) ≡ cmd_token old_config)
tokens-migrate_legacy_fields_example = tokens-migrate_legacy_fields old_config

abbrev pub no_save_faults : SaveFaults
no_save_faults = record { create = none; dir_mode = none; write = none; file_mode = none }

abbrev node_config : Config
node_config =
    config_of "nxs_node_1" (some (record { token = "nxs_node_1"; scope = "read" })) none none

abbrev saved_state : Result (Unit {0}) String × Fs
saved_state =
    save_to node_toml no_save_faults (some "/etc/nexus-link") "/etc/nexus-link/config.toml"
      node_config no_files

is_saved : saved_state ≡ (ok tt, saved_state.1)
unfolding save_to create_dir_all set_permissions write node_print is_plain is_node is_api is_agent
    is_service is_compose is_entry
is_saved = refl

load_from-save_to_example :
    (load_from node_toml none "/etc/nexus-link/config.toml" saved_state.1
      ≡ ok (migrate_legacy_fields (serialized node_config)))
    × (saved_state.1.mode "/etc/nexus-link/config.toml" ≡ 0o600)
load_from-save_to_example =
    load_from-save_to node_toml node_toml-IsToml no_save_faults (some "/etc/nexus-link")
      "/etc/nexus-link/config.toml" node_config no_files saved_state.1 is_saved

abbrev one_file : Fs
one_file = set_file "/root/old.toml" (some "nxs_node_1") no_files

is_loaded : load_from node_toml none "/root/old.toml" one_file ≡ ok node_config
unfolding load_from read_to_string migrate_legacy_fields
is_loaded = refl

load_from-save_to_loaded_example :
    load_from node_toml none "/etc/nexus-link/config.toml" saved_state.1 ≡ ok node_config
load_from-save_to_loaded_example =
    load_from-save_to_loaded node_toml node_toml-IsToml none "/root/old.toml" one_file
      no_save_faults (some "/etc/nexus-link") "/etc/nexus-link/config.toml" node_config no_files
      saved_state.1 is_loaded is_saved

abbrev ran_with : String → Spawned
ran_with text = ok (record { success = true; code = some 0; stdout = text; stderr = "" })

abbrev spark : Machine
spark = record {
  os = "linux";
  arch = "aarch64";
  nvidia_smi = ran_with "NVIDIA GB10, 131072, 570";
  docker_info = ran_with "";
  curl = ran_with "200";
  df = ran_with "Avail\n 100G\n";
  df_macos = err "no df";
  model = none;
  product_name = none;
  gpu_names = ran_with "nvidia gb10";
}

abbrev spark_report : PreflightReport
spark_report = run_preflight (λ s. s) spark
