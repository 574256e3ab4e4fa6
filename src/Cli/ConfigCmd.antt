-- ===== src/Cli/ConfigCmd.antt =====
-- crates/nexus-link-cli/src/commands/config.rs: `config set` and `config get`. The paths and failures
-- of the file operations are arguments; what is printed is left out.
pub mod Laws
use Prim.Native.String.{◌++◌}
use nexus_link.Base.{
  Bool, List, Option, Result, String, [], eqb, err, false, if◌then◌else◌, ltb, none, not, ok,
  option_map, some, true, unwrap_or, ℕ, ◌&&◌, ◌==◌, ◌∷◌,
}
use nexus_link.Text.{can_cut, is_empty, join_texts, trim}
use nexus_link.Text.Split.{split}
use nexus_link.Text.Number.{parse, to_string, u16_max, u64_max}
use nexus_link.Fs.{
  Action, Fs, WriteFault, create_dir_all, fail, join, pure, remove_file, write, ◌>>=◌, ◌>>◌,
}
use nexus_link.Core.Token.{validate_cmd_token_format}
use nexus_link.Core.Config.{Config, TokenEntry, cmd_token}
use Prim.Native.Char.{Char, code}
use nexus_link.Core.ConfigFile.{Env, SaveFaults, Toml, dirs_home, load, save}

-- The keys, each with the names that the `match` has for it.
pub data Key : Type 0 where
  base_url_key push_sec_key poll_sec_key telemetry_token_key command_token_key : Key
  listen_addr_key port_key name_key node_id_key tags_key token_key compose_dir_key : Key
  cmd_token_key require_signatures_key signing_public_key_key : Key

abbrev key_names : List (String × Key)
key_names =
    ("api.base_url", base_url_key)
    ∷ ("api_url", base_url_key)
    ∷ ("agent.push_sec", push_sec_key)
    ∷ ("api.push_interval_secs", push_sec_key)
    ∷ ("push_interval", push_sec_key)
    ∷ ("interval", push_sec_key)
    ∷ ("agent.poll_sec", poll_sec_key)
    ∷ ("poll_sec", poll_sec_key)
    ∷ ("api.tokens.telemetry", telemetry_token_key)
    ∷ ("telemetry_token", telemetry_token_key)
    ∷ ("api.tokens.command", command_token_key)
    ∷ ("command_token", command_token_key)
    ∷ ("service.listen_addr", listen_addr_key)
    ∷ ("listen_addr", listen_addr_key)
    ∷ ("service.port", port_key)
    ∷ ("port", port_key)
    ∷ ("node.name", name_key)
    ∷ ("name", name_key)
    ∷ ("node.node_id", node_id_key)
    ∷ ("node_id", node_id_key)
    ∷ ("node.tags", tags_key)
    ∷ ("tags", tags_key)
    ∷ ("node.token", token_key)
    ∷ ("token", token_key)
    ∷ ("compose.dir", compose_dir_key)
    ∷ ("compose_dir", compose_dir_key)
    ∷ ("compose.cmd_token", cmd_token_key)
    ∷ ("cmd_token", cmd_token_key)
    ∷ ("compose.require_signatures", require_signatures_key)
    ∷ ("require_signatures", require_signatures_key)
    ∷ ("compose.signing_public_key", signing_public_key_key)
    ∷ ("signing_public_key", signing_public_key_key)
    ∷ []

lookup_key : List (String × Key) → String → Option Key
lookup_key [] key = none
lookup_key ((k, v) ∷ names) key =
    let rest = lookup_key names key in if k == key then some v else rest

unfoldable pub key_of : String → Option Key
unfolding lookup_key
key_of = lookup_key key_names

non_empty : String → Option String
non_empty s = if is_empty s then none else some s

pub is_comma : Char → Bool
is_comma c = eqb (code c) b','

pub trimmed : List String → List String
trimmed [] = []
trimmed (s ∷ ss) = trim s ∷ trimmed ss

parse_bool : String → Option Bool
parse_bool s = if s == "true" then some true else if s == "false" then some false else none

set_telemetry : Option String → Config → Config
set_telemetry none c = record c {
  api = record c.api { tokens = record c.api.tokens { telemetry = none } };
}
set_telemetry (some value) c = record c {
  api = record c.api {
    tokens = record c.api.tokens { telemetry = some (record { token = value; scope = "read" }) };
  };
  node = record c.node { token = value };
}

command_entry : String → TokenEntry
command_entry value = record { token = value; scope = "read_write" }

set_command : Option String → Config → Config
set_command value c = record c {
  api = record c.api { tokens = record c.api.tokens { command = option_map command_entry value } };
  compose = record c.compose { cmd_token = value };
}

set_seconds : String → String → (ℕ → Config) → Result Config String
set_seconds value least set = elim (parse u64_max value) [
  | none ↦ err "Invalid value: expected integer (seconds)"
  | some secs ↦ if ltb secs 1 then err least else ok (set secs)
]

-- How the file operations on signing_key.pub fail, if they do.
pub record KeyFaults : Type 0 where
  pub remove : Option String
  pub create : Option (String × List String)
  pub write : Option WriteFault

lift : Result Config String → Action String Config
lift r fs = (r, fs)

-- The first 20 bytes of the value are printed: where they end inside a character, that panics, which
-- ends the command as an error does.
shown : String → Config → Action String Config
shown value c = if can_cut 20 value then pure c else fail "byte index is not a char boundary"

cleared_key : KeyFaults → String → Config → Action String Config
cleared_key faults key_path c fs = (
  ok (record c { compose = record c.compose { signing_public_key = none } }),
  remove_file faults.remove key_path fs,
)

set_signing_key : KeyFaults → String → String → Config → Action String Config
set_signing_key faults key_dir value c =
    let key_path = join key_dir "signing_key.pub" in
    if is_empty value then cleared_key faults key_path c else do
      create_dir_all faults.create key_dir
      write faults.write key_path value
      shown value (record c { compose = record c.compose { signing_public_key = some value } })

-- The arms of the `match` of `set`.
unfoldable pub apply : KeyFaults → String → Key → String → Config → Action String Config
unfolding set_signing_key shown cleared_key lift set_seconds set_command set_telemetry command_entry
    parse_bool trimmed is_comma non_empty
apply faults key_dir base_url_key value c =
    pure (record c { api = record c.api { base_url = value } })
apply faults key_dir push_sec_key value c = lift (
    set_seconds value "Push interval must be at least 1 second"
      (λ secs. record c { agent = record c.agent { push_sec = secs } }))
apply faults key_dir poll_sec_key value c = lift (
    set_seconds value "Poll interval must be at least 1 second"
      (λ secs. record c { agent = record c.agent { poll_sec = secs } }))
apply faults key_dir telemetry_token_key value c = pure (set_telemetry (non_empty value) c)
apply faults key_dir command_token_key value c = pure (set_command (non_empty value) c)
apply faults key_dir listen_addr_key value c =
    pure (record c { service = record c.service { listen_addr = value } })
apply faults key_dir port_key value c = elim (parse u16_max value) [
  | none ↦ lift (err "Invalid value: expected port number (1-65535)")
  | some n ↦ pure (record c { service = record c.service { port = n } })
]
apply faults key_dir name_key value c = pure (record c { node = record c.node { name = value } })
apply faults key_dir tags_key value c =
    pure (record c { node = record c.node { tags = trimmed (split is_comma value) } })
apply faults key_dir compose_dir_key value c =
    pure (record c { compose = record c.compose { dir = value } })
apply faults key_dir cmd_token_key value c =
    if not (is_empty value) && not (validate_cmd_token_format value)
    then lift (err "Invalid cmd_token format. Expected: nxs_cmd_<...>")
    else shown value (record c { compose = record c.compose { cmd_token = non_empty value } })
apply faults key_dir require_signatures_key value c = elim (parse_bool value) [
  | none ↦ lift (err "Expected true or false")
  | some v ↦ pure (record c { compose = record c.compose { require_signatures = v } })
]
apply faults key_dir signing_public_key_key value c = set_signing_key faults key_dir value c
apply faults key_dir node_id_key value c = lift (err "Unknown config key")
apply faults key_dir token_key value c = lift (err "Unknown config key")

bool_text : Bool → String
bool_text true = "true"
bool_text false = "false"

abbrev not_configured : String
not_configured = "(not configured)"

entry_text : Option TokenEntry → String
entry_text none = not_configured
entry_text (some t) = t.token

-- The arms of the `match` of `get`.
unfoldable pub read : Key → Config → String
unfolding bool_text entry_text
read base_url_key c = c.api.base_url
read push_sec_key c = to_string c.agent.push_sec
read poll_sec_key c = to_string c.agent.poll_sec
read telemetry_token_key c = entry_text c.api.tokens.telemetry
read command_token_key c = entry_text c.api.tokens.command
read listen_addr_key c = c.service.listen_addr
read port_key c = to_string c.service.port
read name_key c = c.node.name
read node_id_key c = c.node.node_id
read tags_key c = join_texts "," c.node.tags
read token_key c = c.node.token
read compose_dir_key c = c.compose.dir
read cmd_token_key c = unwrap_or c.compose.cmd_token not_configured
read require_signatures_key c = bool_text c.compose.require_signatures
read signing_public_key_key c = unwrap_or c.compose.signing_public_key not_configured

unfoldable pub apply_key : KeyFaults → String → Option Key → String → Config → Action String Config
unfolding lift
apply_key faults key_dir none value c = lift (err "Unknown config key")
apply_key faults key_dir (some key) value c = apply faults key_dir key value c

-- `set`. `read_fault` and the other arguments before the key are the file operations' outcomes.
unfoldable pub set :
    Toml
    → Option String
    → SaveFaults
    → KeyFaults
    → (String → Option String)
    → Env
    → String
    → String
    → Action String (Unit {0})
unfolding apply_key lift
set t read_fault save_faults key_faults parent env key value = do
  config ← λ fs. (load t read_fault env fs, fs)
  changed ← apply_key key_faults (dirs_home env) (key_of key) value config
  save t save_faults parent env changed

-- What `get` prints.
unfoldable pub get : Toml → Option String → Env → String → Fs → Result String String
get t read_fault env key fs = elim (load t read_fault env fs) [
  | err e ↦ err e
  | ok config ↦ elim (key_of key) [ none ↦ err "Unknown config key" | some k ↦ ok (read k config) ]
]
