-- ===== src/Service/Poller.antt =====
-- crates/nexus-link-service/src/poller.rs: the execution of each queued command, and one cycle of the
-- poll. `serde_yaml` enters as the error of a text, if it has one; processes, file failures and
-- answers of the backend are arguments.
pub mod Laws
use Prim.Native.Char.{Char}
use Prim.Native.String.{◌++◌}
use nexus_link.Service.Command.{
  Args, ComposeCommandItem, ComposeCommandResult, activate, activated, completed, failed, failure,
  file_content, file_written, get_file, get_logs_snapshot, put_file, success, truncate_output,
  validate_yaml, validity,
}
use nexus_link.Service.Logs.{execute_logs_snapshot}
use nexus_link.Base.{
  Bool, List, Option, Result, String, [], and_then, eqb, err, false, if◌then◌else◌, leb, ltb, none,
  not, ok, some, suc, true, ℕ, ◌&&◌, ◌∷◌,
}
use nexus_link.Fs.{
  Action, Fs, create_dir_all, join, map_err, on_error, path_exists, read_to_string, remove_file,
  rename, write, ◌>>=◌, ◌>>◌,
}
use nexus_link.Process.{Run, code_of, code_text, done, elapsed}
use nexus_link.Service.Files.{PutFaults, Snapshot, compose_path, tmp_path}
use nexus_link.Service.PollerFiles.{read_extra_files}
use nexus_link.Core.Config.{ComposeConfig, Config, cmd_token}
use nexus_link.Text.Number.{parse, u64_max}

unfoldable pub find_compose_file : Fs → String → Option String
find_compose_file fs dir =
    if path_exists fs (join dir "docker-compose.yaml")
    then some (join dir "docker-compose.yaml")
    else if path_exists fs (join dir "docker-compose.yml")
    then some (join dir "docker-compose.yml")
    else none

unfoldable pub execute_get_file :
    Fs → Snapshot → Option String → String → List String → ComposeCommandResult
execute_get_file fs snap read_fault dir extensions = elim (find_compose_file fs dir) [
  | none ↦ failure ("No docker-compose.yaml found in " ++ dir)
  | some path ↦ elim (read_to_string read_fault path fs) [
    | err e ↦ failure ("Failed to read compose file: " ++ e)
    | ok content ↦ success (file_content path content (read_extra_files snap dir extensions))
  ]
]

unfoldable pub replace_file : PutFaults → String → String → Action String (Unit {0})
replace_file faults dir content = do
  map_err (λ e. "Cannot create compose directory: " ++ e) (create_dir_all faults.create dir)
  map_err (λ e. "Failed to write tmp file: " ++ e) (write faults.write (tmp_path dir) content)
  map_err (λ e. "Failed to commit file: " ++ e)
      (on_error (remove_file faults.remove (tmp_path dir))
        (rename faults.rename (tmp_path dir) (compose_path dir)))

unfoldable pub put_result : String → Result (Unit {0}) String → ComposeCommandResult
put_result dir (err e) = failure e
put_result dir (ok _) = success (file_written (compose_path dir) false)

unfoldable pub put_content :
    (String → Option String) → PutFaults → String → String → Fs → ComposeCommandResult × Fs
put_content yaml_error faults dir content fs = elim (yaml_error content) [
  | some e ↦ (failure ("Invalid YAML: " ++ e), fs)
  | none ↦ let (r, fs') = replace_file faults dir content fs in (put_result dir r, fs')
]

unfoldable pub execute_put_file :
    (String → Option String) → PutFaults → String → Args → Fs → ComposeCommandResult × Fs
unfolding put_content put_result replace_file
execute_put_file yaml_error faults dir args fs = elim (args.text "content") [
  | none ↦ (failure "Missing 'content' in args", fs)
  | some content ↦ put_content yaml_error faults dir content fs
]

-- A panic of `truncate_output` ends the task: `none`.
unfoldable pub execute_activate : Run → Option ComposeCommandResult
execute_activate elapsed =
    some (failure "Timeout: docker compose up -d did not complete within 120s")
execute_activate (done (err e)) = some (failure ("Failed to spawn docker compose: " ++ e))
execute_activate (done (ok output)) = and_then (truncate_output output.stdout) λ out.
    and_then (truncate_output output.stderr) λ errs. some (record {
      status = if output.success then completed else failed;
      result = some (activated output.success (code_of output) out errs);
      error = if output.success then none else some ("exit code " ++ code_text (code_of output));
    })

unfoldable pub execute_validate_yaml : (String → Option String) → Args → ComposeCommandResult
execute_validate_yaml yaml_error args = elim (args.text "content") [
  | none ↦ success (validity false (some "Missing 'content' in args"))
  | some content ↦ elim (yaml_error content) [
    | none ↦ success (validity true none)
    | some e ↦ success (validity false (some e))
  ]
]

-- What the operating system does during one command.
pub record World : Type 0 where
  pub snapshot : Snapshot
  pub read_fault : Option String
  pub put_faults : PutFaults
  -- `docker compose up -d` with the files that it leaves
  pub activation : Fs → Run × Fs
  pub docker : List String → Run

-- The backend's answer to the request for pending commands: the header X-Poll-Interval, the status,
-- and the body read as commands.
pub record PendingResponse : Type 0 where
  pub poll_interval : Option String
  pub status : ℕ
  pub commands : Result (List ComposeCommandItem) String

-- How a cycle ends: with the hint for the interval, with an error, or in a panic.
pub data PollEnd : Type 0 where
  hinted : Option ℕ → PollEnd
  poll_error : String → PollEnd
  panicked : PollEnd

module _ (yaml_error : String → Option String) (is_alphanumeric : Char → Bool) where
  unfoldable pub execute_command :
      World → ComposeConfig → ComposeCommandItem → Fs → Option ComposeCommandResult × Fs
  execute_command w compose cmd fs = elim cmd.command_type [
    | get_file ↦ (
      some (execute_get_file fs w.snapshot w.read_fault compose.dir compose.extra_extensions),
      fs,
    )
    | put_file ↦
        let (r, fs') = execute_put_file yaml_error w.put_faults compose.dir cmd.args fs in
        (some r, fs')
    | activate ↦ let (run, after) = w.activation fs in (execute_activate run, after)
    | get_logs_snapshot ↦ (some (execute_logs_snapshot is_alphanumeric w.docker cmd.args), fs)
    | validate_yaml ↦ (some (execute_validate_yaml yaml_error cmd.args), fs)
  ]

  -- The loop over the commands: each is executed in the files that the one before it left, and its
  -- result is sent under its id. The answer to that is only logged. `true` where a command panics.
  unfoldable pub execute_all :
      (ℕ → World)
      → ComposeConfig
      → ℕ
      → List ComposeCommandItem
      → Fs
      → List (String × ComposeCommandResult) × Fs × Bool
  execute_all worlds compose i [] fs = ([], fs, false)
  execute_all worlds compose i (cmd ∷ cmds) fs =
      let (r, fs') = execute_command (worlds i) compose cmd fs in
      let rest = execute_all worlds compose (suc i) cmds fs' in
      elim r [ none ↦ ([], fs', true) | some result ↦ ((cmd.id, result) ∷ rest.0, rest.1, rest.2) ]

  abbrev panic_or : Bool → Option ℕ → PollEnd
  panic_or true hint = panicked
  panic_or false hint = hinted hint

  -- From the answer of the backend on.
  handle_pending :
      (ℕ → World)
      → ComposeConfig
      → PendingResponse
      → Fs
      → PollEnd × List (String × ComposeCommandResult) × Fs
  handle_pending worlds compose resp fs =
      let hint = and_then resp.poll_interval (parse u64_max) in
      if eqb resp.status 204
      then (hinted hint, [], fs)
      else if not (leb 200 resp.status && ltb resp.status 300)
      then (hinted hint, [], fs)
      else elim resp.commands [
        | err e ↦ (poll_error e, [], fs)
        | ok cmds ↦
            let (reports, fs', panic) = execute_all worlds compose 0 cmds fs in
            (panic_or panic hint, reports, fs')
      ]

  -- `pending` is the answer to the request for commands, or the error of the client.
  unfoldable pub poll_and_execute :
      (ℕ → World)
      → Result PendingResponse String
      → Config
      → Fs
      → PollEnd × List (String × ComposeCommandResult) × Fs
  unfolding handle_pending
  poll_and_execute worlds pending config fs = elim config.compose.cmd_token [
    | none ↦ (hinted none, [], fs)
    | some cmd_token ↦ elim pending [
      | err e ↦ (poll_error e, [], fs)
      | ok resp ↦ handle_pending worlds config.compose resp fs
    ]
  ]
