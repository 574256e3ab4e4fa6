-- ===== src/Cli/Unregister.antt =====
-- crates/nexus-link-cli/src/commands/unregister.rs. What is printed of a result is left out.
pub mod Laws
use Prim.Native.String.{◌++◌}
use nexus_link.Base.{Bool, Option, Result, String, [], err, false, none, not, ok, some, true, ◌∷◌}
use nexus_link.Process.{ran}
use nexus_link.Shell.{
  IoError, Os, Step, Try, ask, exists, files, io, io_text, is_yes, posted, proceed, pure,
  removed_dir, removed_file, run, run_ignored, ◌&>◌, ◌>>=◌, ◌>>◌,
}
use nexus_link.Core.Config.{Config}
use nexus_link.Core.ConfigFile.{Toml, default_config_path, load_from}

-- The last heartbeat; a client that cannot be built sends nothing, and the answer is dropped.
unfoldable pub send_offline_heartbeat : Bool → Config → Step (Unit {0})
send_offline_heartbeat false config h = (tt, h)
send_offline_heartbeat true config h = (
  tt,
  posted (config.api.base_url ++ ("/api/nodes/" ++ (config.node.node_id ++ "/heartbeat")))
        config.node.token
      ∷ h,
)

kill_unless : Os → Bool → Step (Unit {0})
kill_unless os true = pure tt
kill_unless os false = run_ignored os ("pkill" ∷ "-f" ∷ "nexus-link-agent" ∷ [])

unfoldable pub stop_agent : Os → Step (Unit {0})
unfolding kill_unless
stop_agent os =
    run os ("systemctl" ∷ "stop" ∷ "nexus-link-agent" ∷ []) >>= λ r. kill_unless os (ran r)

removal : Bool → Result (Unit {0}) IoError → Result (Unit {0}) String
removal force (ok u) = ok tt
removal true (err e) = ok tt
removal false (err e) = err ("Failed to remove config: " ++ io_text e)

remove_parent : Os → Option String → Step (Unit {0})
remove_parent os none = pure tt
remove_parent os (some parent) = io os (removed_dir parent) >> pure tt

unfoldable pub unregister_node : Os → Bool → Bool → String → Config → Try (Unit {0})
unfolding removal remove_parent
unregister_node os client force path config =
    send_offline_heartbeat client config >> stop_agent os >> io os (removed_file path) >>= λ r.
    (pure (removal force r) &> (remove_parent os (os.parent path) >> pure (ok tt)))

unfoldable pub unregister_if : Os → Bool → Bool → String → Config → Bool → Try (Unit {0})
unregister_if os client force path config true = unregister_node os client force path config
unregister_if os client force path config false = pure (ok tt)

unfoldable pub confirm : Os → Bool → Bool → String → Config → Try (Unit {0})
confirm os client true path config = unregister_if os client true path config true
confirm os client false path config =
    ask os >>= proceed λ line. unregister_if os client false path config (is_yes line)

unfoldable pub unregister_at :
    Os → Toml → Option String → Bool → Bool → String → Bool → Try (Unit {0})
unregister_at os t fault client true path false = pure (ok tt)
unregister_at os t fault client false path false =
    pure (err ("No config found at " ++ (path ++ ". Node is not registered.")))
unregister_at os t fault client force path true =
    files (load_from t fault path) os >>= proceed (confirm os client force path)

-- `execute(force)`; `client` tells whether the HTTP client can be built, and `fault` how the read
-- of the configuration fails, if it does.
unfoldable pub execute : Os → Toml → Option String → Bool → Bool → Try (Unit {0})
execute os t fault client force =
    exists os (default_config_path os.env)
    >>= unregister_at os t fault client force (default_config_path os.env)
