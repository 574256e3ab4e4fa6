-- ===== src/Tests/ServiceTests.antt =====
-- The compose file, the command queue and the loops at concrete values.
use Prim.Native.Char.{Char, code}
use nexus_link.Base.{
  All, Bool, List, Option, Result, String, [], err, false, if◌then◌else◌, inl, is_ok, leb, map,
  none, ok, refl, some, true, ℕ, ◌&&◌, ◌==◌, ◌∷◌, ◌≡◌, ◌⊎◌,
}
use nexus_link.Text.{all_chars, starts_with}
use nexus_link.Text.Number.{to_string}
use nexus_link.Fs.{Fs, set_file}
use nexus_link.Process.{Spawned}
use nexus_link.Service.Files.{Entry, PutFaults, Snapshot}
use nexus_link.Service.Command.{Args}
use nexus_link.Service.ExtraFiles.{read_extra_files}
use nexus_link.Service.ExtraFiles.Laws.{pair, read_extra_files-eq}
use nexus_link.Service.ExtraFiles.Included.{IsIncluded, read_extra_files-IsIncluded}
use nexus_link.Service.PollerFiles
use nexus_link.Service.Logs.{is_valid_service, logs_args}
use nexus_link.Service.Logs.Laws.{IsSafeName, logs_args-ok}
use nexus_link.Service.Compose.{
  Git, PutComposeFileRequest, PutComposeFileResponse, put_compose_file,
}
use nexus_link.Service.Compose.Laws.{IsGit, IsKept}
use nexus_link.Service.Poller.{execute_put_file}
use nexus_link.Service.Poller.Laws.{execute_put_file-put_compose_file, is_completed}
use nexus_link.Tests.Samples.{no_files}

abbrev pub valid_yaml : String → Option String
valid_yaml s = none

abbrev no_spawn : Spawned
no_spawn = err "not found"

abbrev pub git : Git
git = record {
  add = λ fs. (no_spawn, fs);
  commit = λ m fs. (no_spawn, fs);
  rev_parse = λ fs. (no_spawn, fs);
}

abbrev pub no_put_faults : PutFaults
no_put_faults = record { create = none; write = none; rename = none; remove = none }

abbrev rename_fails : PutFaults
rename_fails = record { create = none; write = none; rename = some "read-only"; remove = none }

abbrev compose_before : Fs
compose_before = set_file "/opt/dgx-llm/docker-compose.yaml" (some "a: 1") no_files

abbrev new_content : PutComposeFileRequest
new_content = record { content = "a: 2"; message = "m" }

abbrev failed_put : Result PutComposeFileResponse (ℕ × String) × Fs
failed_put = put_compose_file valid_yaml git rename_fails "/opt/dgx-llm" new_content compose_before

git-IsGit : IsGit "/opt/dgx-llm" git
git-IsGit = record {
  add-IsKept = λ fs q. inl (refl, refl);
  commit-IsKept = λ m fs q. inl (refl, refl);
  rev_parse-IsKept = λ fs q. inl (refl, refl);
}

abbrev put_args : Args
put_args = record {
  text = λ key. if key == "content" then some "a: 2" else none;
  number = λ key. none;
}

execute_put_file-put_compose_file_example :
    IsKept "/opt/dgx-llm"
      (execute_put_file valid_yaml rename_fails "/opt/dgx-llm" put_args compose_before).1
      failed_put.1
    × (is_completed
          (execute_put_file valid_yaml rename_fails "/opt/dgx-llm" put_args compose_before).0.status
        ≡ is_ok failed_put.0)
execute_put_file-put_compose_file_example =
    execute_put_file-put_compose_file valid_yaml git rename_fails "/opt/dgx-llm" put_args
      new_content compose_before git-IsGit refl

abbrev env_file : Entry
env_file = record {
  path = "/d/.env";
  is_dir = false;
  is_file = true;
  canonical = some "/d/.env";
  file_name = some ".env";
  rel_name = some ".env";
  content = some "A=1";
}

abbrev snapshot : Snapshot
snapshot = record {
  dir_canonical = some "/d";
  read_dir = λ p. if p == "/d" then some (env_file ∷ []) else none;
}

read_extra_files-eq_example :
    map pair (read_extra_files snapshot "/d" (".env" ∷ []))
    ≡ PollerFiles.read_extra_files snapshot "/d" (".env" ∷ [])
read_extra_files-eq_example = read_extra_files-eq snapshot "/d" (".env" ∷ [])

read_extra_files-IsIncluded_example :
    All (IsIncluded snapshot "/d" (".env" ∷ []) "/d") (read_extra_files snapshot "/d" (".env" ∷ []))
read_extra_files-IsIncluded_example =
    read_extra_files-IsIncluded snapshot "/d" (".env" ∷ []) "/d" refl

abbrev letter : Char → Bool
letter c = leb b'a' (code c) && leb (code c) b'z'

abbrev log_args : Args
log_args = record {
  text = λ key. if key == "service" then some "web" else none;
  number = λ key. some 5;
}

abbrev docker_logs : List String
docker_logs = "compose" ∷ "logs" ∷ "--no-color" ∷ "--tail" ∷ "5" ∷ "web" ∷ []

is_logs : logs_args letter log_args ≡ ok docker_logs
unfolding logs_args is_valid_service starts_with all_chars to_string
is_logs = refl

logs_args-ok_example :
    (rest : List String) × (docker_logs
      ≡ "compose" ∷ "logs" ∷ "--no-color" ∷ "--tail" ∷ to_string 5 ∷ rest)
    × (((log_args.text "service" ≡ none) × (rest ≡ "--since" ∷ "5m" ∷ []))
        ⊎ ((svc : String) × (log_args.text "service" ≡ some svc)
            × (rest ≡ svc ∷ [])
            × IsSafeName letter svc))
logs_args-ok_example = logs_args-ok letter log_args docker_logs is_logs
