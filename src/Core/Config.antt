-- ===== src/Core/Config.antt =====
-- crates/nexus-link-core/src/config.rs: the configuration, its defaults, its paths, the migration
-- of old layouts and the effective tokens. A path is its text.
pub mod Migration
use Prim.Native.String.{[], ◌∷◌}
use nexus_link.Base.{
  Bool, List, Option, String, [], eqb, false, if◌then◌else◌, is_some, none, not, option_map,
  or_else, some, unwrap_or, ℕ, ◌&&◌, ◌∷◌,
}
use nexus_link.Text.{is_empty}

-- "read" or "read_write"
pub record TokenEntry : Type 0 where
  pub token : String
  pub scope : String

pub record ApiTokens : Type 0 where
  pub telemetry : Option TokenEntry
  pub command : Option TokenEntry

pub record ApiConfig : Type 0 where
  pub base_url : String
  pub database_url : Option String
  pub tokens : ApiTokens
  pub push_interval_secs : Option ℕ  -- u64

pub record AgentConfig : Type 0 where
  pub push_sec : ℕ  -- u64
  pub poll_sec : ℕ  -- u64

pub record NodeConfig : Type 0 where
  pub node_id : String
  pub name : String
  pub token : String
  pub tags : List String

pub record ComposeConfig : Type 0 where
  pub dir : String
  pub extra_extensions : List String
  pub cmd_token : Option String
  pub signing_public_key : Option String
  pub require_signatures : Bool

pub record ServiceConfig : Type 0 where
  pub listen_addr : String
  pub port : ℕ  -- u16

pub record Config : Type 0 where
  pub node : NodeConfig
  pub api : ApiConfig
  pub agent : AgentConfig
  pub service : ServiceConfig
  pub compose : ComposeConfig

abbrev pub default_push_sec : ℕ
default_push_sec = 6

abbrev pub default_poll_sec : ℕ
default_poll_sec = 2

abbrev pub default_listen_addr : String
default_listen_addr = "127.0.0.1"

abbrev pub default_listen_port : ℕ
default_listen_port = 8443

abbrev pub default_compose_dir : String
default_compose_dir = "/opt/dgx-llm"

abbrev pub default_compose_extra_extensions : List String
default_compose_extra_extensions = ".env" ∷ ".conf" ∷ ".toml" ∷ []

abbrev pub default_agent : AgentConfig
default_agent = record { push_sec = default_push_sec; poll_sec = default_poll_sec }

abbrev pub default_service : ServiceConfig
default_service = record { listen_addr = default_listen_addr; port = default_listen_port }

abbrev pub default_compose : ComposeConfig
default_compose = record {
  dir = default_compose_dir;
  extra_extensions = default_compose_extra_extensions;
  cmd_token = none;
  signing_public_key = none;
  require_signatures = false;
}

-- `take()` empties the old field; the new one is set where it has its default.
migrate_interval : Config → Config
migrate_interval c =
    let old = c.api.push_interval_secs in
    let taken = record c { api = record c.api { push_interval_secs = none } } in
    elim old [
      | none ↦ taken
      | some old_interval ↦
          if eqb c.agent.push_sec default_push_sec
          then record taken { agent = record c.agent { push_sec = old_interval } }
          else taken
    ]

migrate_telemetry : Config → Config
migrate_telemetry c =
    if not (is_some c.api.tokens.telemetry) && not (is_empty c.node.token)
    then record c {
      api = record c.api {
        tokens = record c.api.tokens {
          telemetry = some (record { token = c.node.token; scope = "read" });
        };
      };
    }
    else c

migrate_command : Config → Config
migrate_command c = elim c.compose.cmd_token [
  | none ↦ c
  | some cmd ↦
      if not (is_some c.api.tokens.command)
      then record c {
        api = record c.api {
          tokens = record c.api.tokens {
            command = some (record { token = cmd; scope = "read_write" });
          };
        };
      }
      else c
]

unfoldable pub migrate_legacy_fields : Config → Config
unfolding migrate_interval migrate_telemetry migrate_command
migrate_legacy_fields c = migrate_command (migrate_telemetry (migrate_interval c))

abbrev entry_token : TokenEntry → String
entry_token t = t.token

-- The effective node token.
unfoldable pub node_token : Config → String
node_token c = unwrap_or (option_map entry_token c.api.tokens.telemetry) c.node.token

-- The effective command token.
unfoldable pub cmd_token : Config → Option String
cmd_token c = or_else (option_map entry_token c.api.tokens.command) c.compose.cmd_token
