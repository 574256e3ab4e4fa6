-- ===== src/Cli/Upgrade/Outcome.antt =====
-- What the upgrade has done where it ends well.
use mathlib.Core.List.{Memᴰ}
use nexus_link.Base.{Bool, String, false, ok, suc, true, ℕ, ◌||◌, ◌≡◌}
use nexus_link.Cli.Upgrade.Replaced.{IsReplaced}
use nexus_link.Cli.Upgrade.Execute.{UpgradeOutcome, UpgradeSite, release_of, upgraded}
use nexus_link.Fs.{Fs}
use nexus_link.Cli.Upgrade.{
  GithubAsset, GithubRelease, Upgrade, archive_name, detect_target, is_v, version_newer,
}
use nexus_link.Text.{trim_start_matches}

-- The release was read from a successful answer.
abbrev pub IsRelease : UpgradeSite → GithubRelease → Type 0
IsRelease site release = release_of site.latest ≡ ok release

-- Nothing was asked for and nothing is newer: no file changed.
pub record IsKept (site : UpgradeSite) (force : Bool) (release : GithubRelease) (fs after : Fs)
    : Type 0 where
  pub not_forced : force ≡ false
  pub not_newer : version_newer (trim_start_matches is_v release.tag_name) site.current ≡ false
  pub unchanged : after ≡ fs

-- The release's asset for the platform replaced the binaries.
pub record IsUpgraded (site : UpgradeSite) (force : Bool) (release : GithubRelease)
    (outcome : UpgradeOutcome) (fs after : Fs) : Type 0 where
  pub wanted :
      (force || version_newer (trim_start_matches is_v release.tag_name) site.current) ≡ true
  pub target : String
  pub is_target : detect_target site.os site.arch ≡ ok target
  pub asset : GithubAsset
  pub is_asset : Memᴰ asset release.assets
  pub is_named : asset.name ≡ archive_name target
  pub count : ℕ
  pub is_outcome : outcome ≡ upgraded (trim_start_matches is_v release.tag_name) (suc count)
  pub replaced : IsReplaced site target asset.browser_download_url count fs after
