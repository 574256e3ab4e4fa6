-- ===== src/Cli/Register/Laws.antt =====
-- What a registration does before the request, and the configuration that it saves.
use nexus_link.Base.{String, arith, err, or_else, some, ◌≡◌}
use nexus_link.Fs.{Fs}
use nexus_link.Core.Config.{cmd_token, migrate_legacy_fields, node_token}
use nexus_link.Core.ConfigFile.{Toml, serialized}
use nexus_link.Cli.Register.{
  RegisterArgs, RegisterResponse, Site, execute, register_config, register_error,
}

-- Where the command ends before the request, no file changes.
execute_refused :
    (t : Toml) (site : Site) (args : RegisterArgs) (fs : Fs) (e : String)
    → register_error args site.verdict site.setup_ok ≡ some e
    → execute t site args fs ≡ (err e, fs)
unfolding execute
execute_refused t site args fs e h = ground arith

-- The configuration made from the answer needs no migration and holds the answer's tokens: the node
-- token in both places, and for commands the answer's, or else the one given.
register_config_lem :
    (args : RegisterArgs) (hostname : String) (resp : RegisterResponse)
    → let c = register_config args hostname resp in
      (migrate_legacy_fields (serialized c) ≡ c)
      × (node_token c ≡ resp.token)
      × (c.node.token ≡ resp.token)
      × (cmd_token c ≡ or_else resp.cmd_token args.cmd_token)
      × (c.compose.cmd_token ≡ or_else resp.cmd_token args.cmd_token)
unfolding register_config migrate_legacy_fields node_token cmd_token
register_config_lem args hostname resp = ground arith
