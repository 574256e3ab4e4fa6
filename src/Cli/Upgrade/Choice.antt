-- ===== src/Cli/Upgrade/Choice.antt =====
-- What it means that a release was chosen, or was not newer.
use nexus_link.Base.{
  Bool, Bool-cases, List, Option, Result, String, [], ap, arith, eq_iff, err, false, inl, inr, none,
  ok, refl, some, true, ◌==◌, ◌||◌, ◌∷◌, ◌≡◌, ◌≢◌,
}
use mathlib.Core.List.{Memᴰ}
use nexus_link.Cli.Upgrade.{
  GithubAsset, GithubRelease, archive_name, asset_for, choose_upgrade, download, find_asset, is_v,
  up_to_date, version_newer,
}
use nexus_link.Text.{trim_start_matches}

find_asset-Memᴰ :
    (asset_name : String) (assets : List GithubAsset) (a : GithubAsset)
    → find_asset asset_name assets ≡ some a
    → Memᴰ a assets × (a.name ≡ asset_name)
unfolding find_asset
find_asset-Memᴰ asset_name [] a e = absurd (ground arith)
find_asset-Memᴰ asset_name (x ∷ xs) a e = elim (Bool-cases (x.name == asset_name)) [
  | inl s ↦ (Memᴰ.head (ground arith), ground (arith, eq_iff x.name asset_name))
  | inr s ↦ let (m, q) = find_asset-Memᴰ asset_name xs a (ground arith) in (Memᴰ.tail m, q)
]

asset_for-ok :
    (assets : List GithubAsset) (slug target : String) (asset : GithubAsset)
    → asset_for assets slug ≡ ok (download target asset)
    → (slug ≡ target) × (find_asset (archive_name target) assets ≡ some asset)
unfolding asset_for
asset_for-ok assets slug target asset e = at (find_asset (archive_name slug) assets) refl
  where
    at :
        (o : Option GithubAsset)
        → find_asset (archive_name slug) assets ≡ o
        → (slug ≡ target) × (find_asset (archive_name target) assets ≡ some asset)
    at none q = absurd (ground arith)
    at (some a) q = (ground arith, ground arith)

asset_for-not_up_to_date :
    (assets : List GithubAsset) (slug : String) → asset_for assets slug ≢ ok up_to_date
unfolding asset_for
asset_for-not_up_to_date assets slug e = absurd (at (find_asset (archive_name slug) assets) refl)
  where
    at : (o : Option GithubAsset) → find_asset (archive_name slug) assets ≡ o → ⊥
    at none q = ground arith
    at (some a) q = ground arith

module _ (current : String) (force : Bool) (release : GithubRelease) where
  abbrev pub is_newer : Bool
  is_newer = version_newer (trim_start_matches is_v release.tag_name) current

  pub choose_upgrade-up_to_date :
      (t : Result String String)
      → choose_upgrade force current t release ≡ ok up_to_date
      → (force ≡ false) × (is_newer ≡ false)
  unfolding choose_upgrade
  choose_upgrade-up_to_date (err x) e = (ground arith, ground arith)
  choose_upgrade-up_to_date (ok slug) e =
      let no = asset_for-not_up_to_date release.assets slug in (ground arith, ground arith)

  pub choose_upgrade-download :
      (t : Result String String) (target : String) (asset : GithubAsset)
      → choose_upgrade force current t release ≡ ok (download target asset)
      → ((force || is_newer) ≡ true)
        × (t ≡ ok target)
        × Memᴰ asset release.assets
        × (asset.name ≡ archive_name target)
  unfolding choose_upgrade
  choose_upgrade-download (err x) target asset e = absurd (ground arith)
  choose_upgrade-download (ok slug) target asset e =
      let (same, found) = asset_for-ok release.assets slug target asset (ground arith) in
      let (m, named) = find_asset-Memᴰ (archive_name target) release.assets asset found in
      (ground arith, ap ok same, m, named)
