-- ===== src/Cli/Upgrade/Install.antt =====
-- What a failed installation leaves.
use nexus_link.Base.{Option, String, arith, eq_iff, eq_refl, false, is_ok, none, some, ◌==◌, ◌≡◌}
use nexus_link.Fs.{Fs, WriteFault, cut_short, not_opened, remove_file, rename, write}
use nexus_link.Cli.Upgrade.{InstallFaults, backup_of, copy_file, install_from, set_aside}

-- What a failed copy leaves under its target.
abbrev pub left_by : WriteFault → Option String
left_by (not_opened e) = none
left_by (cut_short e part) = some part

-- Where the old binary was set aside and the new one is there but cannot be copied, the installation
-- ends with an error, and the binary's path has no file, or the part that was copied where the copy
-- broke off; the old one is left under the backup's name only.
pub install_from-not_copied :
    (faults : InstallFaults) (source dest old new : String) (fault : WriteFault) (fs : Fs)
    → fs.file dest ≡ some old
    → fs.file source ≡ some new
    → (source == dest) ≡ false
    → (source == backup_of dest) ≡ false
    → (backup_of dest == dest) ≡ false
    → faults.rename ≡ none
    → faults.copy ≡ some fault
    → (is_ok (install_from faults source dest fs).0 ≡ false)
      × ((install_from faults source dest fs).1.file dest ≡ left_by fault)
      × ((install_from faults source dest fs).1.file (backup_of dest) ≡ some old)
unfolding install_from set_aside copy_file rename remove_file write
install_from-not_copied faults source dest old new (not_opened e) fs h k s t n r c =
    ground (arith, eq_refl dest, eq_refl (backup_of dest), eq_iff source dest, eq_iff dest source)
install_from-not_copied faults source dest old new (cut_short e part) fs h k s t n r c = ground (
  arith,
  eq_refl dest,
  eq_refl (backup_of dest),
  eq_iff source dest,
  eq_iff dest source,
  eq_iff source (backup_of dest),
  eq_iff (backup_of dest) source,
  eq_iff dest (backup_of dest),
  eq_iff (backup_of dest) dest,
)
