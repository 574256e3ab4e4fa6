-- ===== src/Cli/Main/Laws.antt =====
-- When the preflight command succeeds, and which configuration the status is about.
use nexus_link.Base.{Bool, List, Option, String, arith, false, ok, refl, some, true, ◌≡◌, ◌≢◌}
use nexus_link.Core.ConfigFile.{Env, Toml, effective_config_path, load, load_from}
use nexus_link.Fs.{Fs}
use nexus_link.Cli.Main.{
  preflight, print_status, setup_exit, status_result, verdict_exit, with_config,
}
use nexus_link.Core.Preflight.{PreflightReport, incompatible}
use nexus_link.Core.Setup.Steps.{run_setup}
use nexus_link.Core.Setup.Success.{IsEnabled, run_setup-IsEnabled}
use nexus_link.Shell.{Event, Os, pure, ◌>>=◌}

setup_exit-ok :
    (success : Bool) (report : PreflightReport)
    → setup_exit success report.verdict ≡ ok tt
    → (success ≡ true) × (report.verdict ≢ incompatible)
unfolding setup_exit verdict_exit
setup_exit-ok false report e = absurd (ground arith)
setup_exit-ok true report e = (refl, λ q. absurd (clash (rw q at e)))
  where
    clash : setup_exit true incompatible ≡ ok tt → ⊥
    clash h = ground arith

-- The preflight command with the setup ends well only on a machine that is not incompatible, and only
-- where the last five commands of the setup succeeded and nothing followed them: both unit files were
-- written, systemd was reloaded, and the agent and then the service were enabled and started.
pub preflight-IsEnabled :
    (os : Os) (report : PreflightReport) (h : List Event)
    → (preflight os report true h).0 ≡ ok tt
    → (report.verdict ≢ incompatible)
      × ((before : List Event) × IsEnabled os before (preflight os report true h).1)
unfolding preflight ◌>>=◌ pure
preflight-IsEnabled os report h e =
    let (done, verdict) = setup_exit-ok (run_setup os h).0.success report e in
    (verdict, run_setup-IsEnabled os h done)

-- With `--config`, the status is that of the configuration at the given path.
print_status-with_config :
    (t : Toml) (fault : Option String) (env : Env) (fs : Fs) (p : String)
    → print_status t fault (with_config (some p) env) fs ≡ status_result (load_from t fault p fs)
unfolding print_status with_config load effective_config_path
print_status-with_config t fault env fs p = refl
