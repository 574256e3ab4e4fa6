-- ===== src/Cli/Unregister/Laws.antt =====
-- What was done where `unregister` reports success.
use Prim.Native.String.{◌++◌}
use nexus_link.Base.{Bool, List, String, [], false, if◌then◌else◌, none, some, true, ◌∷◌, ◌≡◌, ◌⊎◌}
use nexus_link.Process.{ran}
use nexus_link.Shell.{Event, Os, io, posted, removed_dir, removed_file, run, started}
use nexus_link.Shell.Extends.{Extends}
use nexus_link.Core.Config.{Config}

abbrev systemctl_stop : List String
systemctl_stop = "systemctl" ∷ "stop" ∷ "nexus-link-agent" ∷ []

abbrev pkill : List String
pkill = "pkill" ∷ "-f" ∷ "nexus-link-agent" ∷ []

-- The agent was stopped: systemctl stopped it, or else pkill was run.
abbrev pub IsStopped : Os → List Event → List Event → Type 0
IsStopped os h k =
    ((ran (os.run h systemctl_stop) ≡ true) × (k ≡ started systemctl_stop ∷ h))
    ⊎ ((ran (os.run h systemctl_stop) ≡ false) × (k ≡ started pkill ∷ started systemctl_stop ∷ h))

-- The last heartbeat of the node, with its token, unless no HTTP client could be built.
abbrev pub last_heartbeat : Bool → Config → List Event → List Event
last_heartbeat client config h =
    if client
    then posted (config.api.base_url ++ ("/api/nodes/" ++ (config.node.node_id ++ "/heartbeat")))
        config.node.token
      ∷ h
    else h

abbrev pub IsDirRemoval : Os → String → Event → Type 0
IsDirRemoval os path e = (dir : String) × (os.parent path ≡ some dir) × (e ≡ removed_dir dir)

-- The node was unregistered: the backend was told first, then the agent stopped, then the
-- configuration at the path removed, and last its directory tried.
abbrev pub IsUnregistered : Os → Bool → String → Config → List Event → List Event → Type 0
IsUnregistered os client path config h after =
    (k : List Event) × IsStopped os (last_heartbeat client config h) k
    × (os.io k (removed_file path) ≡ none)
    × Extends (IsDirRemoval os path) (removed_file path ∷ k) after
