-- ===== src/Cli/Upgrade.antt =====
-- crates/nexus-link-cli/src/commands/upgrade.rs: versions, the platform's slug, the choice of the
-- release's asset, and the installation of the extracted binaries.
pub mod Versions
pub mod Install
pub mod Execute
pub mod Choice
pub mod Installed
pub mod Replaced
pub mod Outcome
use Prim.Native.Char.{Char, code}
use Prim.Native.String.{◌++◌}
use nexus_link.Base.{
  Bool, List, Option, Result, String, [], eqb, err, get_elem?, if◌then◌else◌, ltb, none, not, ok,
  some, suc, unwrap_or, zero, ℕ, ◌&&◌, ◌==◌, ◌||◌, ◌∷◌,
}
use nexus_link.Text.{trim_start_matches}
use nexus_link.Text.Split.{split}
use nexus_link.Text.Number.{parse, u32_max}
use nexus_link.Fs.{
  Action, Fs, WriteFault, fail, join, not_opened, path_exists, pure, remove_file, rename,
  set_permissions, with_mode, write, ◌>>=◌, ◌>>◌,
}

pub is_v : Char → Bool
is_v c = eqb (code c) b'v'

pub is_dot : Char → Bool
is_dot c = eqb (code c) b'.'

-- The parts of a version that are numbers.
pub numbers : List String → List ℕ
numbers [] = []
numbers (p ∷ ps) =
    let rest = numbers ps in elim (parse u32_max p) [ none ↦ rest | some n ↦ n ∷ rest ]

abbrev pub Version : Type 0
Version = ℕ × ℕ × ℕ

pub version_of : List ℕ → Version
version_of parts = (
  unwrap_or (get_elem? parts 0) 0,
  unwrap_or (get_elem? parts 1) 0,
  unwrap_or (get_elem? parts 2) 0,
)

unfoldable pub parse_version : String → Version
unfolding version_of numbers is_v is_dot
parse_version v = version_of (numbers (split is_dot (trim_start_matches is_v v)))

-- `l > c` on triples
pub newer : Version → Version → Bool
newer (a, b, c) (a', b', c') = ltb a' a || eqb a a' && (ltb b' b || eqb b b' && ltb c' c)

unfoldable pub version_newer : String → String → Bool
unfolding newer
version_newer latest current = newer (parse_version latest) (parse_version current)

unfoldable pub detect_target : String → String → Result String String
detect_target os arch =
    if os == "linux" && arch == "aarch64"
    then ok "aarch64-linux"
    else if os == "linux" && arch == "x86_64"
    then ok "x86_64-linux"
    else if os == "macos" && arch == "aarch64"
    then ok "aarch64-darwin"
    else if os == "macos" && arch == "x86_64"
    then ok "x86_64-darwin"
    else err ("Unsupported platform: " ++ (os ++ ("/" ++ arch)))

pub record GithubAsset : Type 0 where
  pub name : String
  pub browser_download_url : String

pub record GithubRelease : Type 0 where
  pub tag_name : String
  pub assets : List GithubAsset

unfoldable pub find_asset : String → List GithubAsset → Option GithubAsset
find_asset asset_name [] = none
find_asset asset_name (a ∷ assets) =
    let rest = find_asset asset_name assets in if a.name == asset_name then some a else rest

-- The decision on a release: already up to date, or the asset to download.
pub data Upgrade : Type 0 where
  up_to_date : Upgrade
  download : String → GithubAsset → Upgrade

abbrev pub archive_name : String → String
archive_name target = "nexus-link-" ++ (target ++ ".tar.gz")

unfoldable pub asset_for : List GithubAsset → String → Result Upgrade String
asset_for assets target =
    let asset_name = archive_name target in
    elim (find_asset asset_name assets) [
      | none ↦ err ("No release asset '" ++ (asset_name ++ "' found for your platform."))
      | some a ↦ ok (download target a)
    ]

unfoldable pub choose_upgrade :
    Bool → String → Result String String → GithubRelease → Result Upgrade String
unfolding asset_for find_asset
choose_upgrade force current target release =
    let latest = trim_start_matches is_v release.tag_name in
    if not force && not (version_newer latest current)
    then ok up_to_date
    else elim target [ err e ↦ err e | ok slug ↦ asset_for release.assets slug ]

abbrev pub binaries : List String
binaries = "nexus-link" ∷ "nexus-link-agent" ∷ "nexus-link-service" ∷ []

-- How the operations of one installation fail, if they do; a failed copy may leave a part.
pub record InstallFaults : Type 0 where
  pub remove : Option String
  pub rename : Option String
  pub copy : Option WriteFault
  pub mode : Option String
  pub clean : Option String

unfoldable pub first_existing : Fs → List String → Option String
first_existing fs [] = none
first_existing fs (p ∷ ps) =
    let rest = first_existing fs ps in if path_exists fs p then some p else rest

-- `dest.with_extension("old")`: the binaries' names have no dot.
unfoldable pub backup_of : String → String
backup_of dest = dest ++ ".old"

unfoldable pub set_aside : InstallFaults → String → Fs → Fs
set_aside faults dest fs =
    if path_exists fs dest
    then (rename faults.rename dest (backup_of dest)
        (remove_file faults.remove (backup_of dest) fs)).1
    else fs

-- `std::fs::copy`: the target gets the source's mode with its content.
unfoldable pub copy_file : Option WriteFault → String → String → Action String (Unit {0})
copy_file fault source dest fs = elim (fs.file source) [
  | none ↦ (err "No such file or directory", fs)
  | some content ↦
      let (r, after) = write fault dest content fs in
      elim fault [
        | some (not_opened e) ↦ (r, after)
        | _ ↦ (r, with_mode dest (fs.mode source) after)
      ]
]

unfoldable pub finish : InstallFaults → String → Action String (Unit {0})
finish faults dest fs = (ok tt, remove_file faults.clean (backup_of dest) fs)

unfoldable pub install_from : InstallFaults → String → String → Action String (Unit {0})
install_from faults source dest fs =
    (do
      copy_file faults.copy source dest
      set_permissions faults.mode dest 0o755
      finish faults dest)
      (set_aside faults dest fs)

unfoldable pub candidates : String → String → String → List String
candidates tmp target bin_name =
    join tmp bin_name
    ∷ join (join tmp ("nexus-link-" ++ target)) bin_name
    ∷ join (join tmp "dist") bin_name
    ∷ []

unfoldable pub count_installed : Option String → ℕ → ℕ
count_installed none n = n
count_installed (some source) n = suc n

unfoldable pub install_found : InstallFaults → Option String → String → Action String (Unit {0})
install_found faults none dest = pure tt
install_found faults (some source) dest = install_from faults source dest

-- The loop over the binaries; its result is the number installed.
unfoldable pub install :
    (String → InstallFaults) → String → String → String → List String → ℕ → Action String ℕ
unfolding install_found count_installed candidates first_existing install_from finish copy_file
    set_aside backup_of
install faults tmp bin_dir target [] installed fs = (ok installed, fs)
install faults tmp bin_dir target (bin_name ∷ names) installed fs =
    let source = first_existing fs (candidates tmp target bin_name) in
    (install_found (faults bin_name) source (join bin_dir bin_name)
        >> install faults tmp bin_dir target names (count_installed source installed))
      fs

unfoldable pub installed_any : ℕ → Action String ℕ
installed_any zero = fail "No binaries found in the release archive"
installed_any (suc n) = pure (suc n)

-- From the extracted archive on.
unfoldable pub install_all : (String → InstallFaults) → String → String → String → Action String ℕ
unfolding installed_any
install_all faults tmp bin_dir target =
    install faults tmp bin_dir target binaries 0 >>= installed_any
