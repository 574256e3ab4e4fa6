-- ===== src/Core/ConfigFile.antt =====
-- crates/nexus-link-core/src/config.rs: the paths of the configuration, and reading and writing it.
-- `toml` is a third-party crate: a `Toml` holds its two functions, and `IsToml` what its
-- documentation states of them together with the attributes of the fields.
pub mod Laws
use nexus_link.Base.{
  List, Option, Result, String, err, if◌then◌else◌, none, ok, some, unwrap_or, ◌≡◌,
}
use nexus_link.Fs.{
  Action, Fs, WriteFault, create_dir_all, join, path_exists, pure, read_to_string, set_permissions,
  write, ◌>>=◌, ◌>>◌,
}
use nexus_link.Core.Config.{Config, migrate_legacy_fields}

abbrev pub system_config_dir : String
system_config_dir = "/etc/nexus-link"

abbrev pub system_state_dir : String
system_state_dir = "/var/lib/nexus-link"

abbrev pub service_user : String
service_user = "nexus-link"

abbrev pub service_group : String
service_group = "nexus-link"

-- The environment variables that the program reads.
pub record Env : Type 0 where
  pub home : Option String
  pub nexus_link_config : Option String
  pub sudo_user : Option String

-- `~/.nexus-link`
unfoldable pub dirs_home : Env → String
dirs_home env = join (unwrap_or env.home "/root") ".nexus-link"

unfoldable pub system_config_path : String
system_config_path = join system_config_dir "config.toml"

unfoldable pub legacy_system_path : String
legacy_system_path = join system_state_dir "config.toml"

unfoldable pub default_config_path : Env → String
default_config_path env = join (dirs_home env) "config.toml"

unfoldable pub effective_config_path : Env → Fs → String
effective_config_path env fs = elim env.nexus_link_config [
  | some p ↦ p
  | none ↦
      if path_exists fs system_config_path
      then system_config_path
      else if path_exists fs legacy_system_path
      then legacy_system_path
      else default_config_path env
]

pub record Toml : Type 0 where
  -- `toml::to_string_pretty`
  pub print : Config → Result String String
  -- `toml::from_str`
  pub parse : String → Result Config String

-- `push_interval_secs` has the attribute `skip_serializing`.
abbrev pub serialized : Config → Config
serialized c = record c { api = record c.api { push_interval_secs = none } }

pub record IsToml (t : Toml) : Type 0 where
  pub parse-print :
      (c : Config) (text : String) → t.print c ≡ ok text → t.parse text ≡ ok (serialized c)

migrated : Result Config String → Result Config String
migrated (ok c) = ok (migrate_legacy_fields c)
migrated (err e) = err e

pub parsed : Toml → Result String String → Result Config String
parsed t (ok content) = migrated (t.parse content)
parsed t (err e) = err e

-- `Config::load_from`; the error's text is that of the operation that failed.
unfoldable pub load_from : Toml → Option String → String → Fs → Result Config String
unfolding parsed migrated
load_from t fault path fs = parsed t (read_to_string fault path fs)

-- `Config::load`
unfoldable pub load : Toml → Option String → Env → Fs → Result Config String
load t fault env fs = load_from t fault (effective_config_path env fs) fs

-- How the file operations of a save fail, if they do.
pub record SaveFaults : Type 0 where
  pub create : Option (String × List String)
  pub dir_mode : Option String
  pub write : Option WriteFault
  pub file_mode : Option String

-- `let _ =` drops the result of the directory's permissions.
ignored : Action String (Unit {0}) → Action String (Unit {0})
ignored m fs = (ok tt, (m fs).1)

prepare_parent : SaveFaults → Option String → Action String (Unit {0})
prepare_parent faults none = pure tt
prepare_parent faults (some parent) = do
  create_dir_all faults.create parent
  ignored (set_permissions faults.dir_mode parent 0o700)

printed : Result String String → Action String String
printed (ok content) fs = (ok content, fs)
printed (err e) fs = (err e, fs)

-- `Config::save_to`; `parent` is `path.parent()`.
unfoldable pub save_to :
    Toml → SaveFaults → Option String → String → Config → Action String (Unit {0})
unfolding prepare_parent ignored printed
save_to t faults parent path config = do
  prepare_parent faults parent
  content ← printed (t.print config)
  write faults.write path content
  set_permissions faults.file_mode path 0o600

-- `Config::save`
unfoldable pub save :
    Toml → SaveFaults → (String → Option String) → Env → Config → Action String (Unit {0})
save t faults parent env config fs =
    let path = effective_config_path env fs in save_to t faults (parent path) path config fs
