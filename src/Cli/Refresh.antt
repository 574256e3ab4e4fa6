-- ===== src/Cli/Refresh.antt =====
-- crates/nexus-link-cli/src/commands/refresh.rs and refresh_cmd.rs: a new node token, kept only if the
-- backend accepts it, and a new command token. The HTTP client, file failures and processes are
-- arguments; what is printed is left out.
pub mod Laws
use Prim.Native.String.{◌++◌}
use nexus_link.Base.{
  Bool, Option, Result, String, err, false, if◌then◌else◌, leb, ltb, none, not, ok, some, ℕ, ◌&&◌,
  ◌==◌,
}
use nexus_link.Process.{Spawned, ran}
use nexus_link.Text.{can_cut}
use nexus_link.Fs.{Action, fail, pure, ◌>>=◌, ◌>>◌}
use nexus_link.Core.Token.{validate_cmd_token_format, validate_token_format}
use nexus_link.Core.Config.{Config, cmd_token}
use nexus_link.Core.ConfigFile.{Env, SaveFaults, Toml, load, save}

-- The request that `send_heartbeat` posts.
pub record Heartbeat : Type 0 where
  pub url : String
  pub bearer : String
  pub status : String
  pub reason : String

unfoldable pub heartbeat : Config → Heartbeat
heartbeat config = record {
  url = config.api.base_url ++ ("/api/nodes/" ++ (config.node.node_id ++ "/heartbeat"));
  bearer = config.node.token;
  status = "online";
  reason = "token_refresh";
}

-- A client answers with a status or fails; `none` where it cannot be built.
abbrev pub Client : Type 0
Client = Option (Heartbeat → Result ℕ String)

answered : Result ℕ String → Bool
answered (ok status) = leb 200 status && ltb status 300
answered (err e) = false

unfoldable pub send_heartbeat : Client → Config → Bool
unfolding answered
send_heartbeat none config = false
send_heartbeat (some post) config = answered (post (heartbeat config))

-- How the agent was restarted.
pub data Restarted : Type 0 where
  user_service system_service sudo not_running : Restarted

-- The outcomes of `systemctl --user restart`, `systemctl restart` and `sudo -n systemctl restart`.
pub record Systemctl : Type 0 where
  pub user : Spawned
  pub system : Spawned
  pub with_sudo : Spawned

unfoldable pub restart_agent : Systemctl → Restarted
restart_agent s =
    if ran s.user
    then user_service
    else if ran s.system
    then system_service
    else if ran s.with_sudo
    then sudo
    else not_running

-- The new token in both places.
unfoldable pub with_token : String → Config → Config
with_token new_token c = record c {
  node = record c.node { token = new_token };
  api = record c.api {
    tokens = record c.api.tokens {
      telemetry = elim c.api.tokens.telemetry [
        | none ↦ some (record { token = new_token; scope = "read" })
        | some t ↦ some (record t { token = new_token })
      ];
    };
  };
}

pub data Refreshed : Type 0 where
  already_same : Refreshed
  refreshed : Restarted → Refreshed

loaded : Toml → Option String → Env → Action String Config
loaded t read_fault env fs = (load t read_fault env fs, fs)

-- Whether `compose.cmd_token` is the given text already.
unfoldable pub is_set : Option String → String → Bool
is_set none s = false
is_set (some old) s = old == s

module _ (t : Toml) (read_fault : Option String) (faults : SaveFaults)
    (parent : String → Option String) (env : Env) where
  save_refreshed : Systemctl → Config → Action String Refreshed
  save_refreshed systemctl config = do
    save t faults parent env config
    pure (refreshed (restart_agent systemctl))

  keep_token : Client → Systemctl → Config → Action String Refreshed
  keep_token client systemctl config =
      if send_heartbeat client config
      then save_refreshed systemctl config
      else fail "Token refresh failed. No changes made."

  replace_token : Client → Systemctl → String → Config → Action String Refreshed
  replace_token client systemctl new_token config =
      if config.node.token == new_token
      then pure already_same
      else keep_token client systemctl (with_token new_token config)

  -- `refresh::execute`
  unfoldable pub execute : Client → Systemctl → String → Action String Refreshed
  unfolding replace_token keep_token save_refreshed loaded
  execute client systemctl new_token =
      if not (validate_token_format new_token)
      then fail "Invalid token format. Expected: nxs_node_<...>"
      else loaded t read_fault env >>= replace_token client systemctl new_token

  -- The prefix of 16 bytes that is printed panics inside a character, which ends the command.
  replace_cmd_token : String → Config → Action String (Unit {0})
  replace_cmd_token new_token config =
      if is_set config.compose.cmd_token new_token
      then pure tt
      else if not (can_cut 16 new_token)
      then fail "byte index is not a char boundary"
      else save t faults parent env
          (record config { compose = record config.compose { cmd_token = some new_token } })

  -- `refresh_cmd::execute`
  unfoldable pub execute_cmd : String → Action String (Unit {0})
  unfolding replace_cmd_token is_set loaded
  execute_cmd new_token =
      if not (validate_cmd_token_format new_token)
      then fail "Invalid cmd-token format. Expected: nxs_cmd_<...>"
      else loaded t read_fault env >>= replace_cmd_token new_token
