-- ===== src/Core/Setup/Steps.antt =====
-- `run_setup`: the seven steps in their order, and the report.
use nexus_link.Base.{Bool, List, [], all, false, not, true, ◌∷◌}
use nexus_link.Shell.{Os, Step, pure, ◌>>=◌}
use nexus_link.Core.Setup.{
  SetupReport, SetupStep, add_docker_group, create_config_dir, create_system_user, failed,
  migrate_legacy_config,
}
use nexus_link.Core.Setup.Units.{enable_services, install_systemd_units}
use nexus_link.Core.Setup.Binaries.{install_binaries}

unfoldable pub is_failed : SetupStep → Bool
is_failed s = elim s.status [ failed ↦ true | _ ↦ false ]

unfoldable pub setup_steps : Os → List (Step SetupStep)
setup_steps os =
    create_system_user os
    ∷ add_docker_group os
    ∷ create_config_dir os
    ∷ migrate_legacy_config os
    ∷ install_binaries os
    ∷ install_systemd_units os
    ∷ enable_services os
    ∷ []

unfoldable pub run_all : List (Step SetupStep) → Step (List SetupStep)
run_all [] = pure []
run_all (s ∷ ss) = s >>= λ r. run_all ss >>= λ rs. pure (r ∷ rs)

unfoldable pub run_setup : Os → Step SetupReport
unfolding setup_steps run_all is_failed
run_setup os = run_all (setup_steps os) >>= λ rs.
    pure (record { steps = rs; success = all (λ s. not (is_failed s)) rs })
