-- ===== src/Tests/Samples.antt =====
-- Concrete values and functions in place of the third-party code: they meet the hypotheses that the
-- theorems make of it.
use nexus_link.Base.{
  Bool, List, Option, Result, String, [], arith, eq_iff, eqb, err, false, if◌then◌else◌, is_some,
  none, not, ok, refl, some, suc, true, unwrap_or, zero, ℕ, ◌&&◌, ◌==◌, ◌∷◌, ◌≡◌,
}
use nexus_link.Text.{is_empty}
use nexus_link.Fs.{Fs}
use nexus_link.Core.Token.{Crypto, IsCrypto}
use nexus_link.Core.Config.{
  AgentConfig, ApiConfig, ComposeConfig, Config, NodeConfig, ServiceConfig, TokenEntry, cmd_token,
}
use nexus_link.Core.ConfigFile.{IsToml, Toml, serialized}

abbrev zeros : ℕ → List ℕ
zeros zero = []
zeros (suc n) = 0 ∷ zeros n

-- One digest for all texts.
abbrev pub crypto : Crypto
crypto = record { sha256 = λ s. zeros 32; base64url = λ bs. "A"; ct_eq = λ s t. s == t }

pub crypto-IsCrypto : IsCrypto crypto
crypto-IsCrypto = record {
  sha256-length = λ s. refl;
  sha256-IsByte = λ s. ground arith;
  base64url-ne-empty = λ b bs. refl;
  ct_eq_iff = λ s t. eq_iff s t;
}

abbrev pub zero_hash : String
zero_hash = "0000000000000000000000000000000000000000000000000000000000000000"

-- No files.
abbrev pub no_files : Fs
no_files = record { file = λ p. none; dir = λ p. false; mode = λ p. 0; new_mode = 0o644 }

abbrev pub node_of : String → NodeConfig
node_of s = record { node_id = ""; name = ""; token = s; tags = [] }

abbrev pub api_of : Option TokenEntry → Option TokenEntry → ApiConfig
api_of telemetry command = record {
  base_url = "";
  database_url = none;
  tokens = record { telemetry = telemetry; command = command };
  push_interval_secs = none;
}

abbrev pub compose_of : Option String → ComposeConfig
compose_of cmd_token = record {
  dir = "";
  extra_extensions = [];
  cmd_token = cmd_token;
  signing_public_key = none;
  require_signatures = false;
}

-- A configuration with the three kinds of tokens; the rest is empty.
abbrev pub config_of : String → Option TokenEntry → Option TokenEntry → Option String → Config
config_of s telemetry command old = record {
  node = node_of s;
  api = api_of telemetry command;
  agent = record { push_sec = 6; poll_sec = 2 };
  service = record { listen_addr = ""; port = 0 };
  compose = compose_of old;
}

abbrev null : List String → Bool
null [] = true
null (x ∷ xs) = false

unfoldable pub is_entry : String → String → Option TokenEntry → Bool
is_entry token scope none = false
is_entry token scope (some e) = e.token == token && e.scope == scope

unfoldable pub is_node : NodeConfig → Bool
is_node n = is_empty n.node_id && is_empty n.name && null n.tags

unfoldable pub is_api : ApiConfig → Bool
is_api a = is_empty a.base_url && not (is_some a.database_url)

unfoldable pub is_agent : AgentConfig → Bool
is_agent a = eqb a.push_sec 6 && eqb a.poll_sec 2

unfoldable pub is_service : ServiceConfig → Bool
is_service s = is_empty s.listen_addr && eqb s.port 0

unfoldable pub is_compose : ComposeConfig → Bool
is_compose c =
    is_empty c.dir
    && null c.extra_extensions
    && not (is_some c.signing_public_key)
    && not c.require_signatures

unfoldable pub is_plain : Config → Bool
is_plain c =
    is_node c.node
    && is_api c.api
    && is_agent c.agent
    && is_service c.service
    && is_compose c.compose

is_entry-eq :
    (token scope : String) (o : Option TokenEntry)
    → is_entry token scope o ≡ true
    → o ≡ some (record { token = token; scope = scope })
unfolding is_entry
is_entry-eq token scope none h = absurd (ground arith)
is_entry-eq token scope (some e) h = ground (arith, eq_iff e.token token, eq_iff e.scope scope)

is_node-eq : (n : NodeConfig) → is_node n ≡ true → n ≡ node_of n.token
unfolding is_node
is_node-eq n h = ground arith

is_api-eq :
    (a : ApiConfig)
    → is_api a ≡ true
    → record a { push_interval_secs = none } ≡ api_of a.tokens.telemetry a.tokens.command
unfolding is_api
is_api-eq a h = ground arith

is_agent-eq : (a : AgentConfig) → is_agent a ≡ true → a ≡ record { push_sec = 6; poll_sec = 2 }
unfolding is_agent
is_agent-eq a h = ground arith

is_service-eq :
    (s : ServiceConfig) → is_service s ≡ true → s ≡ record { listen_addr = ""; port = 0 }
unfolding is_service
is_service-eq s h = ground arith

is_compose-eq : (c : ComposeConfig) → is_compose c ≡ true → c ≡ compose_of c.cmd_token
unfolding is_compose
is_compose-eq c h = ground arith

is_plain-eq :
    (c : Config)
    → is_plain c ≡ true
    → serialized c
      ≡ config_of c.node.token c.api.tokens.telemetry c.api.tokens.command c.compose.cmd_token
unfolding is_plain
is_plain-eq c h = cc (
  is_node-eq c.node (ground arith),
  is_api-eq c.api (ground arith),
  is_agent-eq c.agent (ground arith),
  is_service-eq c.service (ground arith),
  is_compose-eq c.compose (ground arith),
)

-- It prints the configurations with a node token only, as that token.
unfoldable pub node_print : Config → Result String String
node_print c =
    if is_plain c
      && is_entry c.node.token "read" c.api.tokens.telemetry
      && not (is_some c.api.tokens.command)
      && not (is_some c.compose.cmd_token)
    then ok c.node.token
    else err "unsupported value"

abbrev pub node_toml : Toml
node_toml = record {
  print = node_print;
  parse = λ s. ok (config_of s (some (record { token = s; scope = "read" })) none none);
}

node_toml-parse :
    (c : Config) (text : String)
    → node_toml.print c ≡ ok text
    → node_toml.parse text ≡ ok (serialized c)
unfolding node_print
node_toml-parse c text h =
    let plain : is_plain c ≡ true = ground arith in
    let entry : is_entry c.node.token "read" c.api.tokens.telemetry ≡ true = ground arith in
    let no_command : c.api.tokens.command ≡ none = ground arith in
    let no_old : c.compose.cmd_token ≡ none = ground arith in
    let same : text ≡ c.node.token = ground arith in
    cc (
      is_plain-eq c plain,
      is_entry-eq c.node.token "read" c.api.tokens.telemetry entry,
      no_command,
      no_old,
      same,
    )

pub node_toml-IsToml : IsToml node_toml
node_toml-IsToml = record { parse-print = node_toml-parse }

-- It prints the configurations with a command token entry and a token in the old place only, as the
-- latter.
unfoldable pub old_print : Config → Result String String
old_print c =
    if is_plain c
      && is_empty c.node.token
      && not (is_some c.api.tokens.telemetry)
      && is_entry "nxs_cmd_1" "read_write" c.api.tokens.command
      && is_some c.compose.cmd_token
    then ok (unwrap_or c.compose.cmd_token "")
    else err "unsupported value"

abbrev pub entry_1 : TokenEntry
entry_1 = record { token = "nxs_cmd_1"; scope = "read_write" }

abbrev pub old_toml : Toml
old_toml = record { print = old_print; parse = λ s. ok (config_of "" none (some entry_1) (some s)) }

old_toml-parse :
    (c : Config) (text : String)
    → old_toml.print c ≡ ok text
    → old_toml.parse text ≡ ok (serialized c)
unfolding old_print
old_toml-parse c text h =
    let plain : is_plain c ≡ true = ground arith in
    let entry : is_entry "nxs_cmd_1" "read_write" c.api.tokens.command ≡ true = ground arith in
    let no_token : c.node.token ≡ "" = ground arith in
    let no_telemetry : c.api.tokens.telemetry ≡ none = ground arith in
    let same : c.compose.cmd_token ≡ some text = ground arith in
    cc (
      is_plain-eq c plain,
      is_entry-eq "nxs_cmd_1" "read_write" c.api.tokens.command entry,
      no_token,
      no_telemetry,
      same,
    )

pub old_toml-IsToml : IsToml old_toml
old_toml-IsToml = record { parse-print = old_toml-parse }
