-- ===== src/Service/Command.antt =====
-- The commands of the queue and their results (crates/nexus-link-core/src/types.rs), and the cut of
-- long outputs (crates/nexus-link-service/src/poller.rs). The arguments of a command are JSON of
-- `serde_json`: they are known by what their two accessors answer.
pub mod Cut
use text.Mathlib.Text.{get?}
use Prim.Native.String.{◌++◌}
use nexus_link.Base.{Bool, List, Option, String, if◌then◌else◌, leb, len, none, option_map, some, ℕ}
use nexus_link.Text.Number.{to_string}
use nexus_link.Process.{ℤ}

pub data ComposeCommandType : Type 0 where
  get_file put_file activate get_logs_snapshot validate_yaml : ComposeCommandType

-- `args.get(key).and_then(Value::as_str)` and `args.get(key).and_then(Value::as_u64)`
pub record Args : Type 0 where
  pub text : String → Option String
  pub number : String → Option ℕ

pub record ComposeCommandItem : Type 0 where
  pub id : String
  pub command_type : ComposeCommandType
  pub args : Args

pub data ComposeCommandStatus : Type 0 where
  completed failed : ComposeCommandStatus

-- The JSON values that the results carry.
pub data Payload : Type 0 where
  file_content : (path content : String) (files : List (String × String)) → Payload
  file_written : (path : String) (committed : Bool) → Payload
  activated : (success : Bool) (exit_code : ℤ) (stdout stderr : String) → Payload
  log_lines : (service : Option String) (lines : List String) (truncated : Bool) → Payload
  validity : (valid : Bool) (error : Option String) → Payload

pub record ComposeCommandResult : Type 0 where
  pub status : ComposeCommandStatus
  pub result : Option Payload
  pub error : Option String

abbrev pub failure : String → ComposeCommandResult
failure e = record { status = failed; result = none; error = some e }

abbrev pub success : Payload → ComposeCommandResult
success p = record { status = completed; result = some p; error = none }

abbrev pub max_output_len : ℕ
max_output_len = 8192

-- `none` where the slice panics, inside a character.
unfoldable pub truncate_output : String → Option String
truncate_output s =
    if leb (len s) max_output_len
    then some s
    else option_map (λ t. t ++ ("... [truncated, " ++ (to_string (len s) ++ " bytes total]")))
        (get? s 0 max_output_len)
