-- ===== src/Tests/LoopTests.antt =====
-- The log snapshot, the poll, the loops and the telemetry at concrete values.
use Prim.Native.Char.{Char, code}
use Prim.Native.String.{◌++◌}
use text.Mathlib.Text.{is_char_boundary}
use nexus_link.Base.{
  Bool, List, Option, Result, String, [], arith, err, false, get_elem?, leb, len, min, none, ok,
  refl, some, suc, true, zero, ℕ, ◌&&◌, ◌<◌, ◌^◌, ◌↔◌, ◌∷◌, ◌≡◌,
}
use nexus_link.Text.{is_whitespace, reverse, trim, trim_end_matches, trim_start_matches}
use nexus_link.Text.Split.{lines, split}
use nexus_link.Text.Number.{parse, to_string}
use nexus_link.Process.{Output, Run, Spawned, done, elapsed}
use nexus_link.Core.Config.{Config}
use nexus_link.Service.Command.Cut.{truncate_output-none_iff}
use nexus_link.Service.Command.{
  Args, ComposeCommandItem, log_lines, max_output_len, put_file, success, truncate_output,
  validate_yaml,
}
use nexus_link.Service.Logs.{execute_logs_snapshot, logs_args}
use nexus_link.Service.Logs.Laws.{execute_logs_snapshot-lines}
use nexus_link.Service.Poller.{PendingResponse, PollEnd, World, hinted, poll_error}
use nexus_link.Service.PollLoop.{poll_loop, run}
use nexus_link.Service.PollLoop.Laws.{last_or, poll_loop-in_force, run-errors}
use nexus_link.Agent.Collector.{
  GpuDevice, MemoryQuery, collect_gpu_metrics, fill_memory, parse_nvidia_smi_output,
}
use nexus_link.Tests.Samples.{config_of}
use nexus_link.Service.Logs.Cut.{IsCut}

abbrev letter : Char → Bool
letter c = leb b'a' (code c) && leb (code c) b'z'

abbrev no_args : Args
no_args = record { text = λ key. none; number = λ key. none }

abbrev two_lines : Output
two_lines = record { success = true; code = some 0; stdout = "one\n"; stderr = "two\n" }

abbrev docker : List String → Run
docker args = done (ok two_lines)

abbrev both : List String
both = "one" ∷ "two" ∷ []

abbrev docker_args : List String
docker_args = "compose" ∷ "logs" ∷ "--no-color" ∷ "--tail" ∷ "100" ∷ "--since" ∷ "5m" ∷ []

is_logs_args : logs_args letter no_args ≡ ok docker_args
unfolding logs_args to_string
is_logs_args = refl

execute_logs_snapshot-lines_example :
    (found : List String) × (truncated : Bool) × (execute_logs_snapshot letter docker no_args
      ≡ success (log_lines none found truncated))
    × IsCut 500 (lines (two_lines.stdout ++ two_lines.stderr)) found truncated
execute_logs_snapshot-lines_example =
    execute_logs_snapshot-lines letter docker no_args docker_args two_lines is_logs_args refl

abbrev valid_yaml : String → Option String
valid_yaml s = none

abbrev world : World
world = record {
  snapshot = record { dir_canonical = none; read_dir = λ p. none };
  read_fault = none;
  put_faults = record { create = none; write = none; rename = none; remove = none };
  activation = λ fs. (elapsed, fs);
  docker = docker;
}

abbrev queue : List ComposeCommandItem
queue =
    record { id = "c1"; command_type = put_file; args = no_args }
    ∷ record { id = "c2"; command_type = validate_yaml; args = no_args }
    ∷ []

abbrev pending : PendingResponse
pending = record { poll_interval = some "7"; status = 200; commands = ok queue }

abbrev node : Config
node = config_of "nxs_node_1" none none (some "nxs_cmd_1")

abbrev cycles : List PollEnd
cycles =
    hinted (some 7) ∷ poll_error "refused" ∷ hinted (some 0) ∷ hinted (some 9) ∷ hinted none ∷ []

poll_loop-in_force_example : last_or 0 (poll_loop node cycles) ≡ 9
poll_loop-in_force_example =
    poll_loop-in_force node "nxs_cmd_1" cycles refl (tt, (tt, (tt, (tt, (tt, tt)))))

abbrev listening : Config
listening = record node { api = record node.api { database_url = some "postgres://db" } }

abbrev three_failures : List (Result (Unit {0}) String)
three_failures = err "a" ∷ err "b" ∷ err "c" ∷ []

run-errors_example : get_elem? (run listening three_failures) 2 ≡ some (min (2 ^ 2) 30)
run-errors_example =
    run-errors listening "postgres://db" 2 three_failures refl (tt, (tt, (tt, tt))) (omega arith)

-- Numbers with a point are read as nothing.
abbrev no_floats : String → Option ℕ
no_floats s = none

abbrev smi_output : Spawned
smi_output = ok (record {
  success = true;
  code = some 0;
  stdout = "0, NVIDIA GB10, 52, 85, 1024, 512, 150.00\nbad line\n";
  stderr = "";
})

abbrev device : GpuDevice ℕ
device = record {
  index = 0;
  name = "NVIDIA GB10";
  temperature_celsius = 0;
  utilization_percent = 0;
  memory_total_bytes = 1073741824;
  memory_used_bytes = 536870912;
  power_draw_watts = 0;
}

abbrev no_query : ℕ → MemoryQuery
no_query i = record { compute_apps = err ""; meminfo = none }

is_collected : collect_gpu_metrics no_floats 0 smi_output no_query ≡ some (device ∷ [])
unfolding collect_gpu_metrics parse_nvidia_smi_output fill_memory lines split trim trim_end_matches
    trim_start_matches reverse is_whitespace parse
is_collected = refl

abbrev doubled : ℕ → String → String
doubled zero s = s
doubled (suc n) s = let t = doubled n s in t ++ t

-- One byte, and 4096 characters of two bytes.
abbrev long_output : String
long_output = "a" ++ doubled 12 "é"

truncate_output-none_iff_example :
    (truncate_output long_output ≡ none)
    ↔ ((max_output_len < len long_output) × (is_char_boundary long_output max_output_len ≡ false))
truncate_output-none_iff_example = truncate_output-none_iff long_output
