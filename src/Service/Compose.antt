-- ===== src/Service/Compose.antt =====
-- crates/nexus-link-service/src/handlers/compose.rs: the compose file over HTTP. A handler's error
-- is a status with a text. `serde_yaml` enters as the error of a text, if it has one; processes,
-- file failures and directory snapshots are arguments.
pub mod Laws
use Prim.Native.String.{◌++◌}
use nexus_link.Base.{
  Bool, List, Option, Result, String, err, false, if◌then◌else◌, none, not, ok, some, true,
  unwrap_or, ℕ,
}
use nexus_link.Text.{filter_chars, is_control, is_empty, take_chars, trim}
use nexus_link.Fs.{
  Action, Fs, create_dir_all, file_name, join, map_err, on_error, path_exists, read_to_string,
  remove_file, rename, write, ◌>>=◌, ◌>>◌,
}
use nexus_link.Process.{Run, Spawned, code_of, done, elapsed, negsuc, ℤ}
use nexus_link.Service.ExtraFiles.{ComposeFileEntry, read_extra_files}
use nexus_link.Service.Files.{PutFaults, Snapshot, compose_path, tmp_path}

abbrev pub HttpError : Type 0
HttpError = ℕ × String

pub record GetComposeFileResponse : Type 0 where
  pub path : String
  pub content : String
  pub files : List ComposeFileEntry

pub record PutComposeFileRequest : Type 0 where
  pub content : String
  pub message : String

pub record PutComposeFileResponse : Type 0 where
  pub path : String
  pub committed : Bool
  pub commit_sha : Option String

pub record ActivateComposeResponse : Type 0 where
  pub success : Bool
  pub exit_code : ℤ
  pub stdout : String
  pub stderr : String

-- `yaml`, then `yml`
unfoldable pub find_compose_file : Fs → String → Option String
find_compose_file fs dir =
    if path_exists fs (join dir "docker-compose.yaml")
    then some (join dir "docker-compose.yaml")
    else if path_exists fs (join dir "docker-compose.yml")
    then some (join dir "docker-compose.yml")
    else none

unfoldable pub is_git_repo : Fs → String → Bool
is_git_repo fs dir = path_exists fs (join dir ".git")

-- The message of the commit: no control characters, at most 200 characters.
unfoldable pub commit_message : String → String
commit_message message =
    let sanitized = take_chars 200 (filter_chars (λ c. not (is_control c)) message) in
    if is_empty sanitized then "nexus-link: compose file update" else sanitized

-- `git add`, `git commit -m` of the message, `git rev-parse --short HEAD`, each with the files that it
-- leaves.
pub record Git : Type 0 where
  pub add : Fs → Spawned × Fs
  pub commit : String → Fs → Spawned × Fs
  pub rev_parse : Fs → Spawned × Fs

short_sha : Spawned → Option String
short_sha (err e) = none
short_sha (ok out) = let sha = trim out.stdout in if is_empty sha then none else some sha

-- After the commit.
pub committed_sha : Git → Spawned × Fs → Option String × Fs
committed_sha git (err e, fs) = (none, fs)
committed_sha git (ok out, fs) =
    let (sha_out, after) = git.rev_parse fs in
    if out.success then (short_sha sha_out, after) else (none, fs)

-- After the addition to the index.
pub added : Git → String → Spawned × Fs → Option String × Fs
added git message (err e, fs) = (none, fs)
added git message (ok out, fs) = committed_sha git (git.commit (commit_message message) fs)

unfoldable pub git_commit : Git → String → Fs → Option String × Fs
unfolding added committed_sha short_sha
git_commit git message fs = added git message (git.add fs)

-- The write of the new content: to the temporary file, then renamed over the old one.
unfoldable pub replace_file : PutFaults → String → String → Action HttpError (Unit {0})
replace_file faults dir content = do
  map_err (λ e. (500, "Cannot create compose directory")) (create_dir_all faults.create dir)
  map_err (λ e. (500, "Failed to write file")) (write faults.write (tmp_path dir) content)
  map_err (λ e. (500, "Failed to commit file write"))
      (on_error (remove_file faults.remove (tmp_path dir))
        (rename faults.rename (tmp_path dir) (compose_path dir)))

put_reply : Bool → Option String → PutComposeFileResponse
put_reply committed commit_sha = record {
  path = "docker-compose.yaml";
  committed = committed;
  commit_sha = commit_sha;
}

pub respond : Git → String → Bool → Action HttpError PutComposeFileResponse
respond git message false fs = (ok (put_reply false none), fs)
respond git message true fs =
    (ok (put_reply true (git_commit git message fs).0), (git_commit git message fs).1)

-- The commit, where the directory is a repository, and the answer.
unfoldable pub put_response : Git → String → String → Action HttpError PutComposeFileResponse
put_response git dir message fs = respond git message (is_git_repo fs dir) fs

unfoldable pub put_compose_file :
    (String → Option String)
    → Git
    → PutFaults
    → String
    → PutComposeFileRequest
    → Action HttpError PutComposeFileResponse
unfolding replace_file put_response respond put_reply
put_compose_file yaml_error git faults dir body fs = elim (yaml_error body.content) [
  | some e ↦ (err (422, "Invalid YAML: " ++ e), fs)
  | none ↦ (replace_file faults dir body.content >> put_response git dir body.message) fs
]

-- `content` is how reading the compose file fails, if it does.
unfoldable pub get_compose_file :
    Fs → Snapshot → Option String → String → List String → Result GetComposeFileResponse HttpError
get_compose_file fs snap read_fault dir extensions = elim (find_compose_file fs dir) [
  | none ↦ err (404, "No docker-compose.yaml found in configured compose directory")
  | some path ↦ elim (read_to_string read_fault path fs) [
    | err e ↦ err (500, "Failed to read compose file")
    | ok content ↦ ok (record {
      path = unwrap_or (file_name path) "docker-compose.yaml";
      content = content;
      files = read_extra_files snap dir extensions;
    })
  ]
]

-- The arms of the `match` on the run of `docker compose up -d`.
unfoldable pub activate_compose : Run → Result ActivateComposeResponse HttpError
activate_compose elapsed = ok (record {
  success = false;
  exit_code = negsuc 0;
  stdout = "";
  stderr = "Timeout: docker compose up -d did not complete within 120 seconds";
})
activate_compose (done (err e)) = err (500, "Failed to spawn docker compose: " ++ e)
activate_compose (done (ok output)) = ok (record {
  success = output.success;
  exit_code = code_of output;
  stdout = output.stdout;
  stderr = output.stderr;
})
