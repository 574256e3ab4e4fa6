-- ===== src/Cli/Upgrade/Execute.antt =====
-- crates/nexus-link-cli/src/commands/upgrade.rs: `execute` and `check_update`, from the answer of
-- GitHub to the installed binaries.
use Prim.Native.String.{◌++◌}
use nexus_link.Base.{Bool, Option, Result, String, err, if◌then◌else◌, none, ok, some, ℕ}
use nexus_link.Cli.Upgrade.{
  GithubRelease, InstallFaults, Upgrade, archive_name, choose_upgrade, detect_target, download,
  install_all, is_v, up_to_date, version_newer,
}
use nexus_link.Fs.{Action, Fs, WriteFault, create_dir_all, fail, join, pure, write, ◌>>=◌, ◌>>◌}
use nexus_link.Process.{Spawned}
use nexus_link.Text.{trim_start_matches}

-- The answer of the releases request: whether the status is a success, the status as it is
-- displayed, and the body read as a release.
pub record ReleaseAnswer : Type 0 where
  pub is_success : Bool
  pub status_text : String
  pub json : Result GithubRelease String

-- What the command finds outside: the version it was built as, the HTTP client, the answers of
-- GitHub, the platform, its own path, the temporary directory with what its removal leaves, `tar`
-- with what it does to the files, and how the file operations fail.
pub record UpgradeSite : Type 0 where
  pub current : String
  pub client : Result (Unit {0}) String
  pub latest : Result ReleaseAnswer String
  pub os : String
  pub arch : String
  pub download : String → Result String String
  pub current_exe : Result String String
  pub parent : String → Option String
  pub tempdir : Result String String
  pub archive_fault : Option WriteFault
  pub tar : String → String → Fs → Spawned × Fs
  pub drop_tempdir : String → Fs → Fs
  pub faults : String → InstallFaults

-- How the command ends: already up to date, or the version with the number of binaries installed.
pub data UpgradeOutcome : Type 0 where
  already_latest : String → UpgradeOutcome
  upgraded : String → ℕ → UpgradeOutcome

-- What `check_update` says of a release.
unfoldable pub newer_release : String → Result GithubRelease String → Result (Option String) String
newer_release current (err e) = err e
newer_release current (ok release) =
    let latest = trim_start_matches is_v release.tag_name in
    if version_newer latest current then ok (some latest) else ok none

unfoldable pub update_of : String → Result ReleaseAnswer String → Result (Option String) String
update_of current (err e) = ok none
update_of current (ok answer) =
    if answer.is_success then newer_release current answer.json else ok none

unfoldable pub check_update :
    String → Result (Unit {0}) String → Result ReleaseAnswer String → Result (Option String) String
unfolding update_of
check_update current (err e) latest = err e
check_update current (ok u) latest = update_of current latest

unfoldable pub tar_result : Spawned → Result (Unit {0}) String
tar_result (err e) = err "Failed to extract archive (is 'tar' available?)"
tar_result (ok output) =
    if output.success then ok tt else err ("tar extraction failed: " ++ output.stderr)

unfoldable pub extract : UpgradeSite → String → String → Action String (Unit {0})
extract site archive tmp fs = (tar_result (site.tar archive tmp fs).0, (site.tar archive tmp fs).1)

-- Inside the temporary directory.
unfoldable pub install_archive : UpgradeSite → String → String → String → String → Action String ℕ
unfolding extract
install_archive site bytes bin_dir target tmp =
    let archive = join tmp (archive_name target) in
    write site.archive_fault archive bytes
    >> extract site archive tmp
    >> install_all site.faults tmp bin_dir target

-- The temporary directory is made, and is removed at the end whatever happened in it.
unfoldable pub in_tempdir :
    UpgradeSite → (String → Action String ℕ) → Result String String → Action String ℕ
in_tempdir site body (err e) fs = (err "Cannot create temp directory", fs)
in_tempdir site body (ok tmp) fs =
    let ended = body tmp (create_dir_all none tmp fs).1 in (ended.0, site.drop_tempdir tmp ended.1)

unfoldable pub with_bin_dir : UpgradeSite → String → String → Option String → Action String ℕ
unfolding install_archive in_tempdir
with_bin_dir site target bytes none = fail "Cannot determine binary directory"
with_bin_dir site target bytes (some bin_dir) =
    in_tempdir site (install_archive site bytes bin_dir target) site.tempdir

unfoldable pub replace_binaries :
    UpgradeSite → String → String → Result String String → Action String ℕ
unfolding with_bin_dir
replace_binaries site target bytes (err e) = fail "Cannot determine current binary path"
replace_binaries site target bytes (ok current_exe) =
    with_bin_dir site target bytes (site.parent current_exe)

unfoldable pub downloaded : UpgradeSite → String → Result String String → Action String ℕ
unfolding replace_binaries
downloaded site target (err e) = fail e
downloaded site target (ok bytes) = replace_binaries site target bytes site.current_exe

unfoldable pub perform : UpgradeSite → String → Result Upgrade String → Action String UpgradeOutcome
unfolding downloaded
perform site latest (err e) = fail e
perform site latest (ok up_to_date) = pure (already_latest site.current)
perform site latest (ok (download target asset)) =
    downloaded site target (site.download asset.browser_download_url) >>= λ n.
    pure (upgraded latest n)

unfoldable pub upgrade_to :
    UpgradeSite → Bool → Result GithubRelease String → Action String UpgradeOutcome
unfolding perform
upgrade_to site force (err e) = fail e
upgrade_to site force (ok release) =
    perform site (trim_start_matches is_v release.tag_name)
      (choose_upgrade force site.current (detect_target site.os site.arch) release)

unfoldable pub release_of : Result ReleaseAnswer String → Result GithubRelease String
release_of (err e) = err "Failed to reach GitHub API"
release_of (ok answer) =
    if answer.is_success
    then answer.json
    else err ("GitHub API returned " ++ (answer.status_text ++ " -- check network connectivity"))

unfoldable pub with_client :
    UpgradeSite → Bool → Result (Unit {0}) String → Action String UpgradeOutcome
unfolding upgrade_to release_of
with_client site force (err e) = fail e
with_client site force (ok u) = upgrade_to site force (release_of site.latest)

unfoldable pub execute : UpgradeSite → Bool → Action String UpgradeOutcome
unfolding with_client
execute site force = with_client site force site.client
