-- ===== src/Cli/Upgrade/Replaced.antt =====
-- The replacement of the binaries where it ends well.
use mathlib.Core.Path.{subst}
use nexus_link.Cli.Upgrade.Installed.{Installs, continue-ok, install-Installs}
use nexus_link.Base.{
  Option, Result, String, ap, arith, err, none, ok, refl, some, suc, sym, zero, ℕ, ◌≡◌,
}
use nexus_link.Cli.Upgrade.Execute.{
  UpgradeSite, downloaded, extract, in_tempdir, install_archive, replace_binaries, with_bin_dir,
}
use nexus_link.Cli.Upgrade.{
  InstallFaults, archive_name, binaries, install, install_all, installed_any,
}
use nexus_link.Fs.{Fs, continue, create_dir_all, join, write, ◌>>◌}

-- The archive was downloaded and written into the temporary directory, `tar` succeeded, each
-- binary was skipped or copied beside the running one, at least one of them copied, and then the
-- directory was removed.
pub record IsReplaced (site : UpgradeSite) (target url : String) (count : ℕ) (fs after : Fs)
    : Type 0 where
  pub bytes : String
  pub is_download : site.download url ≡ ok bytes
  pub exe : String
  pub is_exe : site.current_exe ≡ ok exe
  pub bin_dir : String
  pub is_bin_dir : site.parent exe ≡ some bin_dir
  pub tmp : String
  pub is_tmp : site.tempdir ≡ ok tmp
  pub extracted : Fs
  pub is_extracted :
      (write site.archive_fault (join tmp (archive_name target)) bytes
          >> extract site (join tmp (archive_name target)) tmp)
        (create_dir_all none tmp fs).1
      ≡ (ok tt, extracted)
  pub installed : Fs
  pub are_installed : Installs tmp bin_dir target binaries (suc count) extracted installed
  pub is_after : after ≡ site.drop_tempdir tmp installed

installed_any-ok :
    (r : Result ℕ String) (fs : Fs) (n : ℕ)
    → (continue r installed_any fs).0 ≡ ok n
    → (k : ℕ) × (n ≡ suc k) × (r ≡ ok (suc k)) × ((continue r installed_any fs).1 ≡ fs)
unfolding installed_any
installed_any-ok (ok zero) fs n e = absurd (ground arith)
installed_any-ok (ok (suc k)) fs n e = (k, ground arith, refl, refl)
installed_any-ok (err x) fs n e = absurd (ground arith)

install_all-Installs :
    (faults : String → InstallFaults) (tmp bin_dir target : String) (fs : Fs) (n : ℕ)
    → (install_all faults tmp bin_dir target fs).0 ≡ ok n
    → (k : ℕ) × (n ≡ suc k)
      × Installs tmp bin_dir target binaries (suc k) fs (install_all faults tmp bin_dir target fs).1
unfolding install_all
install_all-Installs faults tmp bin_dir target fs n e =
    let looped = install faults tmp bin_dir target binaries 0 fs in
    let (k, q, r, same) = installed_any-ok looped.0 looped.1 n e in
    let (m, count, installs) = install-Installs faults tmp bin_dir target binaries 0 (suc k) fs r in
    let counted : m ≡ suc k = omega (arith, count) in
    (
      k,
      q,
      subst
          (λ c.
            Installs tmp bin_dir target binaries c fs (continue looped.0 installed_any looped.1).1)
          counted (subst (Installs tmp bin_dir target binaries m fs) (sym same) installs),
    )

module _ (site : UpgradeSite) (target url : String) (fs : Fs) (n : ℕ) where
  abbrev pub Replaced : Fs → Type 0
  Replaced after = (k : ℕ) × (n ≡ suc k) × IsReplaced site target url k fs after

  tempdir-ok :
      (bytes exe bin_dir : String) (r : Result String String)
      → site.download url ≡ ok bytes
      → site.current_exe ≡ ok exe
      → site.parent exe ≡ some bin_dir
      → site.tempdir ≡ r
      → (in_tempdir site (install_archive site bytes bin_dir target) r fs).0 ≡ ok n
      → Replaced (in_tempdir site (install_archive site bytes bin_dir target) r fs).1
  unfolding in_tempdir install_archive
  tempdir-ok bytes exe bin_dir (err x) d c p t e = absurd (ground arith)
  tempdir-ok bytes exe bin_dir (ok tmp) d c p t e =
      let archive = join tmp (archive_name target) in
      let m = write site.archive_fault archive bytes >> extract site archive tmp in
      let (made, fine, same) =
        continue-ok (install_all site.faults tmp bin_dir target)
          (m (create_dir_all none tmp fs).1).0 (m (create_dir_all none tmp fs).1).1 n e in
      let (k, q, installs) =
        install_all-Installs site.faults tmp bin_dir target (m (create_dir_all none tmp fs).1).1 n
          fine in
      (
        k,
        q,
        record {
          bytes = bytes;
          is_download = d;
          exe = exe;
          is_exe = c;
          bin_dir = bin_dir;
          is_bin_dir = p;
          tmp = tmp;
          is_tmp = t;
          extracted = (m (create_dir_all none tmp fs).1).1;
          is_extracted = ap (λ r. (r, (m (create_dir_all none tmp fs).1).1)) made;
          installed =
              (install_all site.faults tmp bin_dir target (m (create_dir_all none tmp fs).1).1).1;
          are_installed = installs;
          is_after = ap (λ r. site.drop_tempdir tmp r.1) same;
        },
      )

  with_bin_dir-ok :
      (bytes exe : String) (o : Option String)
      → site.download url ≡ ok bytes
      → site.current_exe ≡ ok exe
      → site.parent exe ≡ o
      → (with_bin_dir site target bytes o fs).0 ≡ ok n
      → Replaced (with_bin_dir site target bytes o fs).1
  unfolding with_bin_dir
  with_bin_dir-ok bytes exe none d c p e = absurd (ground arith)
  with_bin_dir-ok bytes exe (some bin_dir) d c p e =
      tempdir-ok bytes exe bin_dir site.tempdir d c p refl e

  replace_binaries-ok :
      (bytes : String) (r : Result String String)
      → site.download url ≡ ok bytes
      → site.current_exe ≡ r
      → (replace_binaries site target bytes r fs).0 ≡ ok n
      → Replaced (replace_binaries site target bytes r fs).1
  unfolding replace_binaries
  replace_binaries-ok bytes (err x) d c e = absurd (ground arith)
  replace_binaries-ok bytes (ok exe) d c e = with_bin_dir-ok bytes exe (site.parent exe) d c refl e

  pub downloaded-ok :
      (r : Result String String)
      → site.download url ≡ r
      → (downloaded site target r fs).0 ≡ ok n
      → Replaced (downloaded site target r fs).1
  unfolding downloaded
  downloaded-ok (err x) d e = absurd (ground arith)
  downloaded-ok (ok bytes) d e = replace_binaries-ok bytes site.current_exe d refl e
