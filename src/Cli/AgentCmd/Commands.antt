-- ===== src/Cli/AgentCmd/Commands.antt =====
-- `agent start`, `restart`, `stop` and `logs`.
use nexus_link.Base.{
  Bool, List, Option, String, [], false, is_ok, ok, true, unwrap_or, ℕ, ◌||◌, ◌∷◌,
}
use nexus_link.Text.Number.{to_string}
use nexus_link.Shell.{Os, Step, Try, files, proceed, pure, run_ignored, ◌&>◌, ◌>>=◌, ◌>>◌}
use nexus_link.Core.ConfigFile.{Toml, load}
use nexus_link.Cli.AgentCmd.{
  SystemdMode, agent_service_name, detect_systemd_mode, reload_systemd, service_service_name,
  system_mode, systemctl, systemd_unit_exists, user_mode,
}
use nexus_link.Cli.AgentCmd.Units.{generate_systemd_units}

unfoldable pub generate_unless : Os → Toml → Option String → SystemdMode → Bool → Try (Unit {0})
generate_unless os t fault mode true = pure (ok tt)
generate_unless os t fault mode false =
    generate_systemd_units os t fault mode &> (reload_systemd os mode >> pure (ok tt))

unfoldable pub ensure_units : Os → Toml → Option String → SystemdMode → Try (Unit {0})
unfolding generate_unless
ensure_units os t fault mode =
    systemd_unit_exists os agent_service_name mode >>= generate_unless os t fault mode

-- The check whether services of the user stay after the logout; its result is only printed.
unfoldable pub check_linger : Os → SystemdMode → Step (Unit {0})
check_linger os system_mode = pure tt
check_linger os user_mode =
    run_ignored os ("loginctl" ∷ "show-user" ∷ unwrap_or os.user "" ∷ "--property=Linger" ∷ [])

unfoldable pub start_both : Os → SystemdMode → Try (Unit {0})
start_both os mode =
    systemctl os "enable" agent_service_name mode
    &> systemctl os "start" agent_service_name mode
    &> systemctl os "enable" service_service_name mode
    &> systemctl os "start" service_service_name mode

unfoldable pub start_in : Os → Toml → Option String → SystemdMode → Try (Unit {0})
start_in os t fault mode =
    ensure_units os t fault mode &> start_both os mode &> (check_linger os mode >> pure (ok tt))

unfoldable pub start : Os → Toml → Option String → Try (Unit {0})
start os t fault =
    files (load t fault os.env) os
    >>= proceed λ config. detect_systemd_mode os >>= start_in os t fault

unfoldable pub start_unless : Os → String → SystemdMode → Bool → Step (Unit {0})
start_unless os service mode true = pure tt
start_unless os service mode false = systemctl os "start" service mode >>= λ r. pure tt

unfoldable pub restart_in : Os → SystemdMode → Step (Unit {0})
unfolding start_unless
restart_in os mode = systemctl os "restart" agent_service_name mode >>= λ a.
    (systemctl os "restart" service_service_name mode >>= λ s.
    (start_unless os agent_service_name mode (is_ok a)
      >> start_unless os service_service_name mode (is_ok s)))

unfoldable pub restart : Os → Toml → Option String → Try (Unit {0})
restart os t fault =
    files (load t fault os.env) os
    >>= proceed λ config. (detect_systemd_mode os >>= restart_in os >> pure (ok tt))

unfoldable pub kill_unless : Os → Bool → Step (Unit {0})
kill_unless os true = pure tt
kill_unless os false =
    run_ignored os ("pkill" ∷ "-f" ∷ "nexus-link-agent" ∷ [])
    >> run_ignored os ("pkill" ∷ "-f" ∷ "nexus-link-service" ∷ [])

unfoldable pub stop_in : Os → SystemdMode → Step (Unit {0})
unfolding kill_unless
stop_in os mode = systemctl os "stop" agent_service_name mode >>= λ a.
    (systemctl os "stop" service_service_name mode >>= λ s. kill_unless os (is_ok a || is_ok s))

unfoldable pub stop : Os → Try (Unit {0})
stop os = detect_systemd_mode os >>= stop_in os >> pure (ok tt)

unfoldable pub user_flag : SystemdMode → List String
user_flag system_mode = []
user_flag user_mode = "--user" ∷ []

unfoldable pub journal_args : ℕ → SystemdMode → List String
unfolding user_flag
journal_args tail mode =
    "journalctl"
    ∷ "-u"
    ∷ agent_service_name
    ∷ "-u"
    ∷ service_service_name
    ∷ "-n"
    ∷ to_string tail
    ∷ "--no-pager"
    ∷ "-o"
    ∷ "short-iso"
    ∷ user_flag mode

unfoldable pub logs : Os → ℕ → Try (Unit {0})
logs os tail =
    detect_systemd_mode os >>= λ mode. run_ignored os (journal_args tail mode) >> pure (ok tt)
