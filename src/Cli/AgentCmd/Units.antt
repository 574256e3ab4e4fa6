-- ===== src/Cli/AgentCmd/Units.antt =====
-- The unit files that `agent start` writes where there are none.
use Prim.Native.String.{◌++◌}
use nexus_link.Base.{
  Bool, List, Option, Result, String, [], err, false, if◌then◌else◌, none, not, ok, some, true,
  unwrap_or, ◌==◌, ◌∷◌,
}
use nexus_link.Text.{join_texts}
use nexus_link.Fs.{Fs, path_exists}
use nexus_link.Shell.{
  IoError, Os, Piped, Try, exited, io, io_text, made_dir, not_spawned, not_waited, not_written,
  other_error, permission_denied, proceed, pure, teed, wrote, ◌&>◌, ◌>>=◌,
}
use nexus_link.Core.Config.{Config}
use nexus_link.Core.ConfigFile.{
  Toml, effective_config_path, load, service_group, service_user, system_config_dir,
}
use nexus_link.Cli.AgentCmd.{
  SystemdMode, agent_service_name, home_of, service_service_name, system_mode, systemd_unit_path,
  user_mode, which_binary,
}

-- What a unit has besides its program: the lines of the user, of the hardening and of the target.
pub record UnitParts : Type 0 where
  pub user : String
  pub extra : String
  pub target : String

user_line : Os → Fs → Bool → String
user_line os fs true =
    "User="
    ++ (service_user
        ++ ("\nGroup="
            ++ (service_group
                ++ ("\nSupplementaryGroups=docker\nEnvironment=NEXUS_LINK_CONFIG="
                    ++ effective_config_path os.env fs))))
user_line os fs false =
    let current_user = unwrap_or os.user "root" in
    if not (current_user == "root")
    then "User="
      ++ (current_user
          ++ ("\nGroup=" ++ (current_user ++ ("\nEnvironment=HOME=" ++ home_of os.env))))
    else ""

compose_dir_of : Result Config String → String
compose_dir_of (ok c) = c.compose.dir
compose_dir_of (err e) = "/opt/dgx-llm"

hardening : String → String → String
hardening working_dir compose_dir = join_texts "\n" (
    "# Security hardening"
    ∷ "NoNewPrivileges=true"
    ∷ "ProtectSystem=strict"
    ∷ "ProtectHome=yes"
    ∷ ("ReadWritePaths=" ++ (working_dir ++ (" " ++ compose_dir)))
    ∷ "PrivateTmp=true"
    ∷ "ProtectKernelTunables=yes"
    ∷ "ProtectControlGroups=yes"
    ∷ "RestrictSUIDSGID=yes"
    ∷ [])

unfoldable pub unit_parts : Os → Toml → Option String → Fs → String → SystemdMode → UnitParts
unfolding user_line compose_dir_of hardening
unit_parts os t fault fs working_dir system_mode = record {
  user = user_line os fs (path_exists fs system_config_dir);
  extra = hardening working_dir (compose_dir_of (load t fault os.env fs));
  target = "WantedBy=multi-user.target";
}
unit_parts os t fault fs working_dir user_mode = record {
  user = "";
  extra = "";
  target = "WantedBy=default.target";
}

unit_tail : String → String → UnitParts → List String
unit_tail log working_dir parts =
    "Restart=always"
    ∷ "RestartSec=10"
    ∷ ("Environment=RUST_LOG=" ++ (log ++ "=info"))
    ∷ ("WorkingDirectory=" ++ working_dir)
    ∷ parts.user
    ∷ parts.extra
    ∷ ""
    ∷ "[Install]"
    ∷ parts.target
    ∷ ""
    ∷ []

unfoldable pub agent_unit : String → String → UnitParts → String
unfolding unit_tail
agent_unit bin working_dir parts = join_texts "\n" (
    "[Unit]"
    ∷ "Description=Nexus Link Telemetry Agent"
    ∷ "Documentation=https://github.com/gwnexus/nexus-link"
    ∷ "After=network-online.target docker.service"
    ∷ "Wants=network-online.target"
    ∷ ""
    ∷ "[Service]"
    ∷ "Type=simple"
    ∷ ("ExecStart=" ++ bin)
    ∷ unit_tail "nexus_link_agent" working_dir parts)

unfoldable pub service_unit : String → String → UnitParts → String
unfolding unit_tail
service_unit bin working_dir parts = join_texts "\n" (
    "[Unit]"
    ∷ "Description=Nexus Link Command Service"
    ∷ "Documentation=https://github.com/gwnexus/nexus-link"
    ∷ "After=network-online.target"
    ∷ "Wants=network-online.target"
    ∷ ""
    ∷ "[Service]"
    ∷ "Type=simple"
    ∷ ("ExecStart=" ++ bin)
    ∷ unit_tail "nexus_link_service" working_dir parts)

plain : Result (Unit {0}) IoError → Result (Unit {0}) String
plain (ok u) = ok tt
plain (err e) = err (io_text e)

tee_result : String → Piped → Result (Unit {0}) String
tee_result path (not_spawned e) = err e
tee_result path (not_written e) = err e
tee_result path (not_waited e) = err e
tee_result path (exited true status) = ok tt
tee_result path (exited false status) =
    err ("Failed to write " ++ (path ++ " -- sudo required. Run: sudo nexus-link agent start"))

tee_unit : Os → String → String → Try (Unit {0})
tee_unit os path content h = (tee_result path (os.pipe h path content), teed path content ∷ h)

or_tee : Os → String → String → Result (Unit {0}) IoError → Try (Unit {0})
or_tee os path content (ok u) = pure (ok tt)
or_tee os path content (err (permission_denied e)) = tee_unit os path content
or_tee os path content (err (other_error e)) =
    pure (err ("Failed to write " ++ (path ++ (": " ++ e))))

unfoldable pub write_unit_file : Os → String → String → SystemdMode → Try (Unit {0})
unfolding plain or_tee tee_unit tee_result
write_unit_file os path content user_mode = io os (wrote path content) >>= λ r. pure (plain r)
write_unit_file os path content system_mode = io os (wrote path content) >>= or_tee os path content

unfoldable pub make_parent : Os → Option String → Try (Unit {0})
unfolding plain
make_parent os none = pure (ok tt)
make_parent os (some parent) = io os (made_dir parent) >>= λ r. pure (plain r)

unfoldable pub prepare_unit_dir : Os → String → SystemdMode → Try (Unit {0})
prepare_unit_dir os agent_path system_mode = pure (ok tt)
prepare_unit_dir os agent_path user_mode = make_parent os (os.parent agent_path)

unfoldable pub write_units :
    Os → Toml → Option String → SystemdMode → String → String → Try (Unit {0})
write_units os t fault mode agent_bin service_bin h =
    let fs = os.fs h in
    let working_dir = unwrap_or (os.parent (effective_config_path os.env fs)) system_config_dir in
    let parts = unit_parts os t fault fs working_dir mode in
    let agent_path = systemd_unit_path os.env agent_service_name mode in
    let service_path = systemd_unit_path os.env service_service_name mode in
    (prepare_unit_dir os agent_path mode
        &> write_unit_file os agent_path (agent_unit agent_bin working_dir parts) mode
        &> write_unit_file os service_path (service_unit service_bin working_dir parts) mode)
      h

unfoldable pub generate_systemd_units : Os → Toml → Option String → SystemdMode → Try (Unit {0})
generate_systemd_units os t fault mode =
    which_binary os agent_service_name
    >>= proceed λ agent_bin.
      which_binary os service_service_name
      >>= proceed λ service_bin. write_units os t fault mode agent_bin service_bin
