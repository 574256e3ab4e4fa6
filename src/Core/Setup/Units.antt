-- ===== src/Core/Setup/Units.antt =====
-- The unit files that the setup installs, and the steps that install and enable them.
use Prim.Native.String.{◌++◌}
use nexus_link.Base.{String, [], ◌∷◌}
use nexus_link.Text.{join_texts}
use nexus_link.Shell.{Os, Step, pure, ◌&>◌, ◌>>=◌}
use nexus_link.Core.Setup.{SetupStep, report_step, sudo, write_file_sudo}

abbrev systemd_dir : String
systemd_dir = "/etc/systemd/system"

unfoldable pub agent_unit : String
agent_unit = join_texts "" (
    "[Unit]\n" ∷ "Description=Nexus Link Agent — telemetry push daemon\n"
    ∷ "After=network-online.target docker.service\n" ∷ "Wants=network-online.target\n"
    ∷ "Requires=docker.service\n" ∷ "\n" ∷ "[Service]\n" ∷ "Type=simple\n" ∷ "User=nexus-link\n"
    ∷ "Group=nexus-link\n" ∷ "SupplementaryGroups=docker\n"
    ∷ "ExecStart=/usr/local/bin/nexus-link-agent\n" ∷ "Restart=on-failure\n" ∷ "RestartSec=5\n"
    ∷ "Environment=NEXUS_LINK_CONFIG=/etc/nexus-link/config.toml\n" ∷ "\n" ∷ "# Hardening\n"
    ∷ "ProtectHome=true\n" ∷ "ProtectSystem=strict\n" ∷ "ProtectKernelTunables=true\n"
    ∷ "ProtectKernelModules=true\n" ∷ "ProtectControlGroups=true\n" ∷ "RestrictSUIDSGID=true\n"
    ∷ "NoNewPrivileges=true\n" ∷ "ReadWritePaths=/var/lib/nexus-link\n" ∷ "\n" ∷ "[Install]\n"
    ∷ "WantedBy=multi-user.target\n" ∷ [])

unfoldable pub service_unit : String
service_unit = join_texts "" (
    "[Unit]\n" ∷ "Description=Nexus Link Service — command receiver (HTTPS :8443)\n"
    ∷ "After=network-online.target docker.service\n" ∷ "Wants=network-online.target\n"
    ∷ "Requires=docker.service\n" ∷ "\n" ∷ "[Service]\n" ∷ "Type=simple\n" ∷ "User=nexus-link\n"
    ∷ "Group=nexus-link\n" ∷ "SupplementaryGroups=docker\n"
    ∷ "ExecStart=/usr/local/bin/nexus-link-service\n" ∷ "Restart=on-failure\n" ∷ "RestartSec=5\n"
    ∷ "Environment=NEXUS_LINK_CONFIG=/etc/nexus-link/config.toml\n" ∷ "\n" ∷ "# Hardening\n"
    ∷ "ProtectHome=true\n" ∷ "ProtectSystem=strict\n" ∷ "ProtectKernelTunables=true\n"
    ∷ "ProtectKernelModules=true\n" ∷ "ProtectControlGroups=true\n" ∷ "RestrictSUIDSGID=true\n"
    ∷ "NoNewPrivileges=true\n" ∷ "ReadWritePaths=/var/lib/nexus-link\n" ∷ "\n" ∷ "[Install]\n"
    ∷ "WantedBy=multi-user.target\n" ∷ [])

unfoldable pub install_systemd_units : Os → Step SetupStep
install_systemd_units os =
    write_file_sudo os (systemd_dir ++ "/nexus-link-agent.service") agent_unit
    &> write_file_sudo os (systemd_dir ++ "/nexus-link-service.service") service_unit
    &> sudo os ("systemctl" ∷ "daemon-reload" ∷ [])
    >>= λ r. pure (
        report_step "Systemd units"
          "Installed nexus-link-agent.service + nexus-link-service.service, daemon-reload done"
          "Failed: " r)

unfoldable pub enable_services : Os → Step SetupStep
enable_services os =
    sudo os ("systemctl" ∷ "enable" ∷ "--now" ∷ "nexus-link-agent.service" ∷ [])
    &> sudo os ("systemctl" ∷ "enable" ∷ "--now" ∷ "nexus-link-service.service" ∷ [])
    >>= λ r. pure (
        report_step "Enable services" "Enabled and started nexus-link-agent + nexus-link-service"
          "Failed: " r)
