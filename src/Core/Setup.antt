-- ===== src/Core/Setup.antt =====
-- crates/nexus-link-core/src/setup.rs: the report, `sudo`, and the steps for the user, the docker
-- group, the directories, the old configuration and the services.
pub mod Units
pub mod Binaries
pub mod Steps
pub mod Skipped
pub mod Success
pub mod Commands
pub mod Migration
use Prim.Native.String.{◌++◌}
use nexus_link.Base.{
  Bool, List, Option, Result, String, [], any, err, false, if◌then◌else◌, none, not, ok, some, true,
  ◌==◌, ◌∷◌,
}
use nexus_link.Text.{join_texts, trim}
use nexus_link.Text.Split.{split_whitespace}
use nexus_link.Fs.{Fs, join, path_exists, write}
use nexus_link.Process.{Spawned, ran}
use nexus_link.Shell.{
  Os, Piped, Step, Try, exists, exited, files, not_spawned, not_waited, not_written, proceed, pure,
  run, teed, ◌&>◌, ◌>>=◌, ◌>>◌,
}
use nexus_link.Core.ConfigFile.{
  Env, default_config_path, dirs_home, legacy_system_path, service_group, service_user,
  system_config_dir, system_config_path, system_state_dir,
}

pub data StepStatus : Type 0 where
  created : StepStatus
  skipped : StepStatus
  failed : StepStatus

pub record SetupStep : Type 0 where
  pub name : String
  pub status : StepStatus
  pub message : String

pub record SetupReport : Type 0 where
  pub steps : List SetupStep
  pub success : Bool

abbrev pub skip : String → String → Step SetupStep
skip name message = pure (record { name = name; status = skipped; message = message })

-- The last match of a step: the message on success, and the error with what failed before it.
unfoldable pub report_step : String → String → String → Result (Unit {0}) String → SetupStep
report_step name message failure (ok u) = record {
  name = name;
  status = created;
  message = message;
}
report_step name message failure (err e) = record {
  name = name;
  status = failed;
  message = failure ++ e;
}

sudo_result : List String → Spawned → Result (Unit {0}) String
sudo_result args (err e) = err ("Failed to invoke sudo: " ++ e)
sudo_result args (ok o) =
    if o.success
    then ok tt
    else err ("sudo " ++ (join_texts " " args ++ (" failed: " ++ trim o.stderr)))

unfoldable pub sudo : Os → List String → Try (Unit {0})
unfolding sudo_result
sudo os args = run os ("sudo" ∷ args) >>= λ r. pure (sudo_result args r)

unfoldable pub tee_result : String → Piped → Result (Unit {0}) String
tee_result path (not_spawned e) = err ("Failed to spawn sudo tee: " ++ e)
tee_result path (not_written e) = err ("Failed to write to " ++ (path ++ (": " ++ e)))
tee_result path (not_waited e) = err ("Failed to wait for sudo tee: " ++ e)
tee_result path (exited true status) = ok tt
tee_result path (exited false status) = err ("sudo tee " ++ (path ++ (" exited with " ++ status)))

unfoldable pub write_file_sudo : Os → String → String → Try (Unit {0})
unfolding tee_result
write_file_sudo os path content h =
    (tee_result path (os.pipe h path content), teed path content ∷ h)

useradd : List String
useradd =
    "useradd" ∷ "--system" ∷ "--no-create-home" ∷ "--shell" ∷ "/usr/sbin/nologin" ∷ "--home-dir"
    ∷ system_config_dir ∷ service_user ∷ []

unfoldable pub create_user_unless : Os → Bool → Step SetupStep
unfolding useradd
create_user_unless os true = skip "System user" ("User '" ++ (service_user ++ "' already exists"))
create_user_unless os false = sudo os useradd >>= λ r. pure (
    report_step "System user" ("Created system user '" ++ (service_user ++ "'"))
      "Failed to create user: " r)

unfoldable pub create_system_user : Os → Step SetupStep
create_system_user os =
    run os ("id" ∷ service_user ∷ []) >>= λ check. create_user_unless os (ran check)

unfoldable pub is_member : Spawned → Bool
is_member (ok o) = any (λ g. g == "docker") (split_whitespace o.stdout)
is_member (err e) = false

unfoldable pub join_group_unless : Os → Bool → Step SetupStep
join_group_unless os true =
    skip "Docker group" ("User '" ++ (service_user ++ "' already in docker group"))
join_group_unless os false = sudo os ("usermod" ∷ "-aG" ∷ "docker" ∷ service_user ∷ []) >>= λ r.
    pure (
      report_step "Docker group" ("Added '" ++ (service_user ++ "' to docker group"))
        "Failed to add to docker group: " r)

unfoldable pub join_group_if : Os → Bool → Step SetupStep
join_group_if os true =
    run os ("id" ∷ "-nG" ∷ service_user ∷ []) >>= λ groups. join_group_unless os (is_member groups)
join_group_if os false = skip "Docker group" "Docker group does not exist (docker not installed?)"

unfoldable pub add_docker_group : Os → Step SetupStep
add_docker_group os =
    run os ("getent" ∷ "group" ∷ "docker" ∷ []) >>= λ group. join_group_if os (ran group)

unfoldable pub make_dir : Os → String → String → String → Try (Unit {0})
make_dir os dir owner mode =
    sudo os ("mkdir" ∷ "-p" ∷ dir ∷ [])
    &> sudo os ("chown" ∷ owner ∷ dir ∷ [])
    &> sudo os ("chmod" ∷ mode ∷ dir ∷ [])

unfoldable pub push : List String → String → List String
push [] dir = dir ∷ []
push (d ∷ ds) dir = d ∷ push ds dir

unfoldable pub made : List String → String → Result (Unit {0}) String → Result (List String) String
made before dir (ok u) = ok (push before dir)
made before dir (err e) = err ("Failed to create " ++ (dir ++ (": " ++ e)))

-- The directories made before, then whether this one is there already.
unfoldable pub make_dir_unless :
    Os → String → String → String → List String → Bool → Try (List String)
unfolding made push
make_dir_unless os dir owner mode before true = pure (ok before)
make_dir_unless os dir owner mode before false =
    make_dir os dir owner mode >>= λ r. pure (made before dir r)

unfoldable pub dirs_step : Result (List String) String → SetupStep
dirs_step (err e) = record { name = "Config directory"; status = failed; message = e }
dirs_step (ok []) = record {
  name = "Directories";
  status = skipped;
  message = system_config_dir ++ (" and " ++ (system_state_dir ++ " already exist"));
}
dirs_step (ok (d ∷ ds)) = record {
  name = "Directories";
  status = created;
  message = "Created: " ++ join_texts ", " (d ∷ ds);
}

unfoldable pub ensure_dir : Os → String → String → String → List String → Try (List String)
ensure_dir os dir owner mode before = exists os dir >>= make_dir_unless os dir owner mode before

unfoldable pub create_config_dir : Os → Step SetupStep
create_config_dir os =
    ensure_dir os system_config_dir "root:root" "755" []
    >>= proceed (ensure_dir os system_state_dir (service_user ++ (":" ++ service_group)) "700")
    >>= λ r. pure (dirs_step r)

unfoldable pub signing_key_name : String
signing_key_name = "signing_key.pub"

unfoldable pub state_key : String
unfolding signing_key_name
state_key = join system_state_dir signing_key_name

copy_key_from : Os → String → Step (Unit {0}) → Bool → Step (Unit {0})
copy_key_from os place rest true =
    sudo os ("cp" ∷ "-p" ∷ place ∷ state_key ∷ [])
    &> sudo os ("chown" ∷ (service_user ++ (":" ++ service_group)) ∷ state_key ∷ [])
    >>= λ r. pure tt
copy_key_from os place rest false = rest

-- The first of the places that has the key is copied, its result dropped.
unfoldable pub copy_key : Os → List String → Step (Unit {0})
unfolding copy_key_from
copy_key os [] = pure tt
copy_key os (place ∷ places) =
    let rest = copy_key os places in exists os place >>= copy_key_from os place rest

unfoldable pub copy_key_unless : Os → Bool → Step (Unit {0})
unfolding signing_key_name
copy_key_unless os true = pure tt
copy_key_unless os false = copy_key os (join (dirs_home os.env) signing_key_name ∷ state_key ∷ [])

unfoldable pub copy_config : Os → String → Try (Unit {0})
copy_config os source =
    sudo os ("cp" ∷ "-p" ∷ source ∷ system_config_path ∷ [])
    &> sudo os ("chown" ∷ "root:root" ∷ system_config_path ∷ [])
    &> sudo os ("chmod" ∷ "644" ∷ system_config_path ∷ [])

-- The old file to take, in the order of priority.
unfoldable pub migration_source : Env → Fs → Option String
migration_source env fs =
    if path_exists fs legacy_system_path
    then some legacy_system_path
    else if path_exists fs (default_config_path env)
    then some (default_config_path env)
    else none

unfoldable pub migrate_from : Os → Option String → Step SetupStep
migrate_from os none =
    skip "Config migration" "No legacy config found — will be created at registration"
migrate_from os (some source) = copy_config os source >>= λ r.
    (exists os state_key
      >>= copy_key_unless os
      >> pure (
          report_step "Config migration" ("Migrated " ++ (source ++ (" → " ++ system_config_path)))
            "Failed: " r))

unfoldable pub migrate_unless : Os → Bool → Step SetupStep
migrate_unless os true =
    skip "Config migration" "System config already exists — no migration needed"
migrate_unless os false = files (migration_source os.env) os >>= migrate_from os

unfoldable pub migrate_legacy_config : Os → Step SetupStep
migrate_legacy_config os = exists os system_config_path >>= migrate_unless os
