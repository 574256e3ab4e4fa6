-- ===== src/Cli/Register.antt =====
-- crates/nexus-link-cli/src/commands/register.rs: the gate of the preflight verdict, the checks
-- before the request, the request, the configuration made from the answer, and its save. The HTTP
-- client, the setup's outcome, the detected address, file failures and processes are arguments.
pub mod Laws
use Prim.Native.String.{◌++◌}
use nexus_link.Base.{
  Bool, List, Option, Result, String, err, false, if◌then◌else◌, leb, ltb, none, not, ok,
  option_map, or_else, some, unwrap_or, ℕ, ◌&&◌,
}
use nexus_link.Fs.{Action, WriteFault, fail, join, path_exists, pure, set_file, write, ◌>>=◌, ◌>>◌}
use nexus_link.Text.Number.{to_string}
use nexus_link.Core.Token.{validate_cmd_token_format, validate_token_format}
use nexus_link.Core.Config.{
  Config, TokenEntry, cmd_token, default_agent, default_compose, default_service,
}
use nexus_link.Core.ConfigFile.{
  Env, SaveFaults, Toml, effective_config_path, save, save_to, system_config_dir,
  system_config_path,
}
use nexus_link.Core.Preflight.{PreflightVerdict, compatible, incompatible, not_recommended}

pub record RegisterRequest : Type 0 where
  pub name : String
  pub private_ip : Option String
  pub tags : List String
  pub description : Option String
  pub public_endpoint : Option String

pub record RegisterResponse : Type 0 where
  pub node_id : String
  pub token : String
  pub cmd_token : Option String
  pub signing_public_key : Option String
  pub database_url : Option String

-- The arguments of `register`.
pub record RegisterArgs : Type 0 where
  pub api_url : String
  pub token : String
  pub cmd_token : Option String
  pub name : Option String
  pub tags : List String
  pub skip_preflight : Bool
  pub force : Bool

-- `format_service_endpoint` of crates/nexus-link-core/src/network.rs
unfoldable pub format_service_endpoint : String → ℕ → String
format_service_endpoint ip port = ip ++ (":" ++ to_string port)

-- The `match` on the verdict; `none` goes on.
unfoldable pub verdict_error : Bool → PreflightVerdict → Option String
verdict_error force compatible = none
verdict_error force not_recommended =
    if not force then some "Device is not in the compatibility registry." else none
verdict_error force incompatible =
    if not force then some "Device is incompatible (no GPU detected)." else none

bad_cmd_token : Option String → Bool
bad_cmd_token none = false
bad_cmd_token (some t) = not (validate_cmd_token_format t)

-- From the start to the request: the error that ends the command, if one does. `setup_ok` is the
-- success of the setup's report.
unfoldable pub register_error : RegisterArgs → PreflightVerdict → Bool → Option String
unfolding bad_cmd_token verdict_error
register_error args verdict setup_ok =
    or_else (if args.skip_preflight then none else verdict_error args.force verdict) (
      if not setup_ok
      then some "System setup failed — resolve the issues above before registering."
      else if not (validate_token_format args.token)
      then some "Invalid token format. Expected: nxs_node_<...>"
      else if bad_cmd_token args.cmd_token
      then some "Invalid cmd-token format. Expected: nxs_cmd_<...>"
      else none)

-- The body of the request.
unfoldable pub register_request : RegisterArgs → String → Option String → RegisterRequest
register_request args hostname private_ip = record {
  name = unwrap_or args.name hostname;
  private_ip = private_ip;
  tags = args.tags;
  description = some ("Registered via nexus-link CLI from " ++ hostname);
  public_endpoint = option_map (λ ip. format_service_endpoint ip 8443) private_ip;
}

command_entry : String → TokenEntry
command_entry t = record { token = t; scope = "read_write" }

-- The configuration made from the answer.
unfoldable pub register_config : RegisterArgs → String → RegisterResponse → Config
unfolding command_entry
register_config args hostname resp =
    let resolved_cmd_token = or_else resp.cmd_token args.cmd_token in
    record {
      node = record {
        node_id = resp.node_id;
        name = unwrap_or args.name hostname;
        token = resp.token;
        tags = args.tags;
      };
      api = record {
        base_url = args.api_url;
        database_url = resp.database_url;
        tokens = record {
          telemetry = some (record { token = resp.token; scope = "read" });
          command = option_map command_entry resolved_cmd_token;
        };
        push_interval_secs = none;
      };
      agent = default_agent;
      service = default_service;
      compose = record default_compose {
        cmd_token = resolved_cmd_token;
        signing_public_key = resp.signing_public_key;
      };
    }

-- The answer of the backend: a status, the body as text, and the body read as a response.
pub record HttpAnswer : Type 0 where
  pub status : ℕ
  pub text : String
  pub json : Result RegisterResponse String

-- The path of the saved configuration. `sudo chown` and `sudo chmod` give the file to the service
-- user; what becomes of them is ignored.
save_config : Toml → SaveFaults → (String → Option String) → Env → Config → Action String String
save_config t faults parent env config fs =
    if path_exists fs system_config_dir
    then (save_to t faults (parent system_config_path) system_config_path config
          >> pure system_config_path)
        fs
    else (save t faults parent env config >> (λ fs'. (ok (effective_config_path env fs'), fs'))) fs

-- `sudo tee`: an error of the process or of its pipe, or its end; then whether it wrote the file,
-- which the command does not look at.
pub data Tee : Type 0 where
  broken : String → Tee
  ended : Bool → Tee

tee_key : Tee → String → String → Action String (Unit {0})
tee_key (broken e) path key fs = (err e, fs)
tee_key (ended written) path key fs = (ok tt, if written then set_file path (some key) fs else fs)

after_write : Tee → String → String → Result (Unit {0}) String → Action String (Unit {0})
after_write tee path key (ok u) fs = (ok u, fs)
after_write tee path key (err e) fs = tee_key tee path key fs

write_key_to : Option WriteFault → Tee → String → String → Action String (Unit {0})
write_key_to fault tee path key fs =
    let (r, fs') = write fault path key fs in after_write tee path key r fs'

write_key :
    Option WriteFault
    → Tee
    → (String → Option String)
    → String
    → Option String
    → Action String (Unit {0})
write_key fault tee parent path none = pure tt
write_key fault tee parent path (some key) =
    write_key_to fault tee (join (unwrap_or (parent path) system_config_dir) "signing_key.pub") key

-- What surrounds the command.
pub record Site : Type 0 where
  pub hostname : String
  pub verdict : PreflightVerdict
  pub setup_ok : Bool
  pub private_ip : Option String
  pub post : RegisterRequest → Result HttpAnswer String
  pub save_faults : SaveFaults
  pub parent : String → Option String
  pub env : Env
  pub key_fault : Option WriteFault
  pub tee : Tee

module _ (t : Toml) (site : Site) (args : RegisterArgs) where
  store_answer : RegisterResponse → Action String String
  store_answer resp = do
    save_path ←
        save_config t site.save_faults site.parent site.env
          (register_config args site.hostname resp)
    write_key site.key_fault site.tee site.parent save_path resp.signing_public_key
    pure save_path

  take_answer : Result HttpAnswer String → Action String String
  take_answer (err e) = fail e
  take_answer (ok answer) =
      if not (leb 200 answer.status && ltb answer.status 300)
      then fail ("Registration failed (" ++ (to_string answer.status ++ ("): " ++ answer.text)))
      else elim answer.json [ err e ↦ fail e | ok resp ↦ store_answer resp ]

  -- `execute`; its result is the path of the saved configuration.
  unfoldable pub execute : Action String String
  unfolding take_answer store_answer save_config write_key write_key_to after_write tee_key
  execute = elim (register_error args site.verdict site.setup_ok) [
    | some e ↦ fail e
    | none ↦ take_answer (site.post (register_request args site.hostname site.private_ip))
  ]
