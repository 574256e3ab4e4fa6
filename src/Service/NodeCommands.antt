-- ===== src/Service/NodeCommands.antt =====
-- The commands of the backend over HTTP: crates/nexus-link-service/src/handlers/commands.rs, with
-- their types in crates/nexus-link-core/src/types.rs, and handlers/health.rs. `Value` is the type of
-- JSON values of serde_json.
use Prim.Native.String.{◌++◌}
use nexus_link.Base.{Bool, Option, String, none, some, true, unwrap_or, ℕ}

pub record ComposeRestartPayload : Type 0 where
  pub service : Option String

pub record ComposeLogsPayload : Type 0 where
  pub service : String
  pub tail : ℕ  -- u32

pub record ConfigExchangePayload (Value : Type 0) : Type 0 where
  pub key : String
  pub value : Option Value

pub data NodeCommand (Value : Type 0) : Type 0 where
  compose_restart : ComposeRestartPayload → NodeCommand Value
  compose_logs : ComposeLogsPayload → NodeCommand Value
  config_exchange : ConfigExchangePayload Value → NodeCommand Value

pub record CommandResponse (Value : Type 0) : Type 0 where
  pub success : Bool
  pub message : String
  pub data_value : Option Value

module _ {Value : Type 0} where
  handle_compose_restart : ComposeRestartPayload → CommandResponse Value
  handle_compose_restart payload = record {
    success = true;
    message = "Restart initiated for: " ++ unwrap_or payload.service "all services";
    data_value = none;
  }

  -- `no_lines` is the value {"lines": []}.
  handle_compose_logs : Value → ComposeLogsPayload → CommandResponse Value
  handle_compose_logs no_lines payload = record {
    success = true;
    message = "Logs for: " ++ payload.service;
    data_value = some no_lines;
  }

  handle_config_exchange : ConfigExchangePayload Value → CommandResponse Value
  handle_config_exchange payload = record {
    success = true;
    message = "Config key: " ++ payload.key;
    data_value = none;
  }

  -- No handler fails, so that the answer of a failed command is never given.
  unfoldable pub execute_command : Value → NodeCommand Value → CommandResponse Value
  unfolding handle_compose_restart handle_compose_logs handle_config_exchange
  execute_command no_lines (compose_restart payload) = handle_compose_restart payload
  execute_command no_lines (compose_logs payload) = handle_compose_logs no_lines payload
  execute_command no_lines (config_exchange payload) = handle_config_exchange payload

pub record HealthResponse : Type 0 where
  pub status : String
  pub version : String

-- `version` is that of the package.
unfoldable pub health_check : String → HealthResponse
health_check version = record { status = "ok"; version = version }
