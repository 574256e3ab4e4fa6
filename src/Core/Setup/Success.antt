-- ===== src/Core/Setup/Success.antt =====
-- What was done where the setup reports success.
use nexus_link.Base.{
  Bool, List, Result, String, [], ap, arith, err, false, is_ok, not, ok, refl, true, ◌&&◌, ◌∙◌, ◌∷◌,
  ◌≡◌,
}
use nexus_link.Process.{ran}
use nexus_link.Shell.{
  Event, Os, Piped, exited, not_spawned, not_waited, not_written, pure, run, teed, ◌&>◌, ◌>>=◌,
}
use nexus_link.Core.Setup.{
  add_docker_group, create_config_dir, create_system_user, migrate_legacy_config, report_step, sudo,
  tee_result, write_file_sudo,
}
use nexus_link.Core.Setup.Commands.{sudo-history, sudo-ran, sudo_event}
use nexus_link.Core.Setup.Units.{agent_unit, enable_services, install_systemd_units, service_unit}
use nexus_link.Core.Setup.Steps.{is_failed, run_all, run_setup, setup_steps}
use nexus_link.Shell.Chain.{chain-ok}
use nexus_link.Core.Setup.Binaries.{install_binaries}

abbrev pub agent_path : String
agent_path = "/etc/systemd/system/nexus-link-agent.service"

abbrev pub service_path : String
service_path = "/etc/systemd/system/nexus-link-service.service"

abbrev pub reload : List String
reload = "systemctl" ∷ "daemon-reload" ∷ []

abbrev pub enable : String → List String
enable unit = "systemctl" ∷ "enable" ∷ "--now" ∷ unit ∷ []

-- `sudo tee` wrote the content.
abbrev pub IsWritten : Os → List Event → String → String → Type 0
IsWritten os h path content = (status : String) × (os.pipe h path content ≡ exited true status)

abbrev pub Succeeded : Os → List Event → List String → Type 0
Succeeded os h args = ran (os.run h ("sudo" ∷ args)) ≡ true

-- The last five commands, each of which succeeded: both unit files were written, systemd reloaded,
-- and both services enabled and started.
pub record IsEnabled (os : Os) (before after : List Event) : Type 0 where
  pub agent_unit_written : IsWritten os before agent_path agent_unit
  pub service_unit_written :
      IsWritten os (teed agent_path agent_unit ∷ before) service_path service_unit
  pub reloaded :
      Succeeded os (teed service_path service_unit ∷ teed agent_path agent_unit ∷ before) reload
  pub agent_enabled :
      Succeeded os
        (sudo_event reload ∷ teed service_path service_unit ∷ teed agent_path agent_unit ∷ before)
        (enable "nexus-link-agent.service")
  pub service_enabled :
      Succeeded os
        (sudo_event (enable "nexus-link-agent.service")
          ∷ sudo_event reload
          ∷ teed service_path service_unit
          ∷ teed agent_path agent_unit
          ∷ before)
        (enable "nexus-link-service.service")
  pub no_more :
      after
      ≡ sudo_event (enable "nexus-link-service.service")
        ∷ sudo_event (enable "nexus-link-agent.service")
        ∷ sudo_event reload
        ∷ teed service_path service_unit
        ∷ teed agent_path agent_unit
        ∷ before

report_step-ok :
    (name message failure : String) (r : Result (Unit {0}) String)
    → is_failed (report_step name message failure r) ≡ false
    → is_ok r ≡ true
unfolding report_step is_failed
report_step-ok name message failure (ok u) e = refl
report_step-ok name message failure (err x) e = ground arith

tee_result-ok :
    (path : String) (r : Piped)
    → is_ok (tee_result path r) ≡ true
    → (status : String) × (r ≡ exited true status)
unfolding tee_result
tee_result-ok path (not_spawned x) e = absurd (ground arith)
tee_result-ok path (not_written x) e = absurd (ground arith)
tee_result-ok path (not_waited x) e = absurd (ground arith)
tee_result-ok path (exited true status) e = (status, refl)
tee_result-ok path (exited false status) e = absurd (ground arith)

write_file_sudo-ok :
    (os : Os) (path content : String) (h : List Event)
    → is_ok (write_file_sudo os path content h).0 ≡ true
    → IsWritten os h path content
unfolding write_file_sudo
write_file_sudo-ok os path content h e = tee_result-ok path (os.pipe h path content) e

write_file_sudo-history :
    (os : Os) (path content : String) (h : List Event)
    → (write_file_sudo os path content h).1 ≡ teed path content ∷ h
unfolding write_file_sudo
write_file_sudo-history os path content h = refl

-- The chain of the unit files.
units-ok :
    (os : Os) (h : List Event)
    → let chain =
        write_file_sudo os agent_path agent_unit
        &> write_file_sudo os service_path service_unit
        &> sudo os reload in
      is_ok (chain h).0 ≡ true
      → IsWritten os h agent_path agent_unit
        × IsWritten os (teed agent_path agent_unit ∷ h) service_path service_unit
        × Succeeded os (teed service_path service_unit ∷ teed agent_path agent_unit ∷ h) reload
        × ((chain h).1
            ≡ sudo_event reload ∷ teed service_path service_unit ∷ teed agent_path agent_unit ∷ h)
unfolding write_file_sudo
units-ok os h e =
    let agent = write_file_sudo os agent_path agent_unit in
    let both = agent &> write_file_sudo os service_path service_unit in
    let (p, q) = chain-ok both (sudo os reload) h e in
    let (p₁, q₁) = chain-ok agent (write_file_sudo os service_path service_unit) h p in
    let before =
      ap (λ r. r.1) q₁
      ∙ write_file_sudo-history os service_path service_unit (agent h).1
      ∙ ap (λ k. teed service_path service_unit ∷ k)
          (write_file_sudo-history os agent_path agent_unit h) in
    let last = sudo-ran os reload (both h).1 (rw q at e) in
    (
      write_file_sudo-ok os agent_path agent_unit h p₁,
      write_file_sudo-ok os service_path service_unit _ (rw q₁ at p),
      rw before at last,
      ap (λ r. r.1) q ∙ sudo-history os reload (both h).1 ∙ ap (λ k. sudo_event reload ∷ k) before,
    )

enable-ok :
    (os : Os) (h : List Event)
    → let agent = sudo os (enable "nexus-link-agent.service") in
      let chain = agent &> sudo os (enable "nexus-link-service.service") in
      is_ok (chain h).0 ≡ true
      → Succeeded os h (enable "nexus-link-agent.service")
        × Succeeded os
            (sudo_event (enable "nexus-link-agent.service") ∷ h)
            (enable "nexus-link-service.service")
        × ((chain h).1
            ≡ sudo_event (enable "nexus-link-service.service")
              ∷ sudo_event (enable "nexus-link-agent.service")
              ∷ h)
unfolding sudo run pure ◌>>=◌
enable-ok os h e =
    let agent = sudo os (enable "nexus-link-agent.service") in
    let service = sudo os (enable "nexus-link-service.service") in
    let (p, q) = chain-ok agent service h e in
    (
      sudo-ran os (enable "nexus-link-agent.service") h p,
      sudo-ran os (enable "nexus-link-service.service") _ (rw q at e),
      ap (λ r. r.1) q ∙ sudo-history os (enable "nexus-link-service.service") (agent h).1,
    )

last_two :
    (a b c d e f g : Bool)
    → (not a && (not b && (not c && (not d && (not e && (not f && (not g && true))))))) ≡ true
    → (f ≡ false) × (g ≡ false)
last_two a b c d e f g h = ground arith

abbrev installed : String
installed = "Installed nexus-link-agent.service + nexus-link-service.service, daemon-reload done"

abbrev enabled : String
enabled = "Enabled and started nexus-link-agent + nexus-link-service"

last-IsEnabled :
    (os : Os) (k : List Event)
    → is_failed (install_systemd_units os k).0 ≡ false
    → is_failed (enable_services os (install_systemd_units os k).1).0 ≡ false
    → IsEnabled os k (enable_services os (install_systemd_units os k).1).1
unfolding install_systemd_units enable_services ◌>>=◌ pure
last-IsEnabled os k p q =
    let (agent_unit_ok, service_unit_ok, reload_ok, after_units) =
      units-ok os k (report_step-ok "Systemd units" installed "Failed: " _ p) in
    let (agent_ok, service_ok, after_enable) =
      enable-ok os _ (report_step-ok "Enable services" enabled "Failed: " _ q) in
    record {
      agent_unit_written = agent_unit_ok;
      service_unit_written = service_unit_ok;
      reloaded = reload_ok;
      agent_enabled = rw after_units at agent_ok;
      service_enabled = rw after_units at service_ok;
      no_more =
          after_enable
          ∙ ap
              (λ k'.
                sudo_event (enable "nexus-link-service.service")
                ∷ (sudo_event (enable "nexus-link-agent.service") ∷ k'))
              after_units;
    }

-- The setup reports success only where its last five commands succeeded and nothing followed them:
-- both unit files were written, systemd was reloaded, and the agent and then the service were
-- enabled and started.
pub run_setup-IsEnabled :
    (os : Os) (h : List Event)
    → (run_setup os h).0.success ≡ true
    → (before : List Event) × IsEnabled os before (run_setup os h).1
unfolding run_setup setup_steps run_all ◌>>=◌ pure
run_setup-IsEnabled os h e =
    let h₁ = (create_system_user os h).1 in
    let h₂ = (add_docker_group os h₁).1 in
    let h₃ = (create_config_dir os h₂).1 in
    let h₄ = (migrate_legacy_config os h₃).1 in
    let before = (install_binaries os h₄).1 in
    let (units, services) =
      last_two (is_failed (create_system_user os h).0) (is_failed (add_docker_group os h₁).0)
        (is_failed (create_config_dir os h₂).0) (is_failed (migrate_legacy_config os h₃).0)
        (is_failed (install_binaries os h₄).0) (is_failed (install_systemd_units os before).0)
        (is_failed (enable_services os (install_systemd_units os before).1).0) e in
    (before, last-IsEnabled os before units services)
