-- ===== src/Tests/UpgradeTests.antt =====
-- An upgrade to a newer release.
use nexus_link.Base.{[], none, ok, some, true, ◌∷◌}
use nexus_link.Cli.Upgrade.Execute.{UpgradeSite}
use nexus_link.Tests.Machines.{says}
use nexus_link.Cli.Upgrade.{GithubRelease, InstallFaults}
use nexus_link.Fs.{set_file}

abbrev github_release : GithubRelease
github_release = record {
  tag_name = "v0.10.3";
  assets =
      record { name = "nexus-link-x86_64-linux.tar.gz"; browser_download_url = "https://x/a" } ∷ [];
}

abbrev no_faults : InstallFaults
no_faults = record { remove = none; rename = none; copy = none; mode = none; clean = none }

-- A site on which every step succeeds, and the archive holds one binary.
abbrev upgrade_site : UpgradeSite
upgrade_site = record {
  current = "0.10.2";
  client = ok tt;
  latest = ok (record { is_success = true; status_text = "200 OK"; json = ok github_release });
  os = "linux";
  arch = "x86_64";
  download = λ url. ok "archive";
  current_exe = ok "/bin/nexus-link";
  parent = λ p. some "/bin";
  tempdir = ok "/tmp/x";
  archive_fault = none;
  tar = λ archive tmp fs. (says true, set_file "/tmp/x/nexus-link" (some "new") fs);
  drop_tempdir = λ tmp fs. set_file "/tmp/x/nexus-link" none fs;
  faults = λ name. no_faults;
}
