-- ===== src/Cli/AgentCmd/Started.antt =====
-- What was done where `agent start` reports success.
use nexus_link.Base.{List, String, [], true, unwrap_or, ◌∷◌, ◌≡◌, ◌⊎◌}
use nexus_link.Process.{ran}
use nexus_link.Shell.{Event, Os, run, started}
use nexus_link.Cli.AgentCmd.{SystemdMode, agent_service_name, service_service_name, systemctl_args}
use nexus_link.Core.Config.{Config}

-- The call of systemctl succeeded, at once or repeated with `sudo`.
abbrev pub IsDone : Os → SystemdMode → String → String → List Event → List Event → Type 0
IsDone os mode command service h after =
    let args = systemctl_args command service mode in
    ((after ≡ started args ∷ h) × (ran (os.run h args) ≡ true))
    ⊎ ((after ≡ started ("sudo" ∷ args) ∷ started args ∷ h)
        × (ran (os.run (started args ∷ h) ("sudo" ∷ args)) ≡ true))

-- Both services were enabled and started in their order.
pub record IsStarted (os : Os) (mode : SystemdMode) (h after : List Event) : Type 0 where
  pub agent_enabled : List Event
  pub agent_started : List Event
  pub service_enabled : List Event
  pub enable_agent : IsDone os mode "enable" agent_service_name h agent_enabled
  pub start_agent : IsDone os mode "start" agent_service_name agent_enabled agent_started
  pub enable_service : IsDone os mode "enable" service_service_name agent_started service_enabled
  pub start_service : IsDone os mode "start" service_service_name service_enabled after

-- What starting ends with: nothing, or the check of the lingering of a user's services.
abbrev pub IsLingerCheck : Os → List Event → List Event → Type 0
IsLingerCheck os h after =
    (after ≡ h)
    ⊎ (after
        ≡ started ("loginctl" ∷ "show-user" ∷ unwrap_or os.user "" ∷ "--property=Linger" ∷ []) ∷ h)
