-- ===== src/Cli/Refresh/Laws.antt =====
-- The outcome of a refresh of the node token and of the command token.
use nexus_link.Base.{Option, String, arith, false, none, ok, some, ◌≡◌}
use nexus_link.Fs.{Fs}
use nexus_link.Core.Config.{Config, TokenEntry, cmd_token, migrate_legacy_fields}
use nexus_link.Core.ConfigFile.{
  Env, IsToml, SaveFaults, Toml, effective_config_path, load, load_from, save, serialized,
}
use nexus_link.Cli.Refresh.{execute_cmd, is_set}
use nexus_link.Core.ConfigFile.Laws.{load_from-save_to}

kept_entry :
    (new_token : String) (c : Config) (entry : TokenEntry)
    → c.api.tokens.command ≡ some entry
    → cmd_token (
        migrate_legacy_fields
          (serialized (record c { compose = record c.compose { cmd_token = some new_token } })))
      ≡ some entry.token
unfolding cmd_token migrate_legacy_fields
kept_entry new_token c entry h = ground arith

kept_text :
    (new_token : String) (c : Config)
    → (migrate_legacy_fields (
        serialized
          (record c { compose = record c.compose { cmd_token = some new_token } }))).compose
      ≡ record c.compose { cmd_token = some new_token }
unfolding migrate_legacy_fields
kept_text new_token c = ground arith

-- Where the loaded configuration has a command token entry and another text in the old place, a
-- successful change of the command token saves the new one in the old place, with the rest of that
-- section as it was, and leaves the effective command token of the saved configuration the entry's.
pub load_from-execute_cmd :
    (t : Toml) (law : IsToml t) (read_fault : Option String) (faults : SaveFaults)
    (parent : String → Option String) (env : Env) (new_token : String) (fs fs' : Fs) (c : Config)
    (entry : TokenEntry)
    → load t read_fault env fs ≡ ok c
    → c.api.tokens.command ≡ some entry
    → is_set c.compose.cmd_token new_token ≡ false
    → execute_cmd t read_fault faults parent env new_token fs ≡ (ok tt, fs')
    → (c' : Config) × (load_from t none (effective_config_path env fs) fs' ≡ ok c')
      × (c'.compose ≡ record c.compose { cmd_token = some new_token })
      × (cmd_token c' ≡ some entry.token)
unfolding execute_cmd
load_from-execute_cmd t law read_fault faults parent env new_token fs fs' c entry l h n e =
    let changed : Config = record c { compose = record c.compose { cmd_token = some new_token } } in
    let saved : save t faults parent env changed fs ≡ (ok tt, fs') = ground arith in
    (
      migrate_legacy_fields (serialized changed),
      (load_from-save_to t law faults (parent (effective_config_path env fs))
          (effective_config_path env fs) changed fs fs' (unfold save in saved)).0,
      kept_text new_token c,
      kept_entry new_token c entry h,
    )
