-- ===== src/Cli/Main.antt =====
-- crates/nexus-link-cli/src/main.rs: the option for the configuration's path, and the preflight
-- command with its exit code. crates/nexus-link-cli/src/commands/status.rs: the lines of `status`.
pub mod Laws
use Prim.Native.String.{◌++◌}
use nexus_link.Base.{
  Bool, List, Option, Result, String, [], err, false, if◌then◌else◌, none, not, ok, some, true, ℕ,
  ◌/◌, ◌∷◌,
}
use nexus_link.Fs.{Fs}
use nexus_link.Core.Config.{Config}
use nexus_link.Core.ConfigFile.{Env, Toml, load}
use nexus_link.Core.Preflight.{PreflightReport, PreflightVerdict, incompatible}
use nexus_link.Core.Setup.Steps.{run_setup}
use nexus_link.Shell.{Os, Step, pure, ◌>>=◌}
use nexus_link.Text.{join_texts}
use nexus_link.Text.Number.{to_string}

-- `--config` is written into the environment before a command runs.
unfoldable pub with_config : Option String → Env → Env
with_config none env = env
with_config (some config_path) env = record env { nexus_link_config = some config_path }

-- The end of a process: as it should, or by `exit` with a code.
unfoldable pub verdict_exit : PreflightVerdict → Result (Unit {0}) ℕ
verdict_exit v = elim v [ incompatible ↦ err 1 | _ ↦ ok tt ]

unfoldable pub setup_exit : Bool → PreflightVerdict → Result (Unit {0}) ℕ
unfolding verdict_exit
setup_exit success verdict = if not success then err 1 else verdict_exit verdict

-- The command `preflight`, from its report on.
unfoldable pub preflight : Os → PreflightReport → Bool → Step (Result (Unit {0}) ℕ)
unfolding setup_exit verdict_exit
preflight os report false = pure (verdict_exit report.verdict)
preflight os report true =
    run_setup os >>= λ setup_report. pure (setup_exit setup_report.success report.verdict)

unfoldable pub tags_lines : List String → List String
tags_lines [] = []
tags_lines (t ∷ ts) = ("  Tags:       " ++ join_texts ", " (t ∷ ts)) ∷ []

unfoldable pub status_lines : Config → List String
unfolding tags_lines
status_lines c =
    "Nexus Link Status"
    ∷ "─────────────────────────────"
    ∷ ("  Node ID:    " ++ c.node.node_id)
    ∷ ("  Name:       " ++ c.node.name)
    ∷ ("  API:        " ++ c.api.base_url)
    ∷ ("  Interval:   "
        ++ (to_string c.agent.push_sec
            ++ ("s push / " ++ (to_string c.agent.poll_sec ++ "s poll"))))
    ∷ ("  Service:    " ++ (c.service.listen_addr ++ (":" ++ to_string c.service.port)))
    ∷ tags_lines c.node.tags

unfoldable pub status_result : Result Config String → Result (List String) String
unfolding status_lines
status_result (err e) = err e
status_result (ok config) = ok (status_lines config)

unfoldable pub print_status : Toml → Option String → Env → Fs → Result (List String) String
unfolding status_result
print_status t fault env fs = status_result (load t fault env fs)
