-- ===== src/Cli/Upgrade/Installed.antt =====
-- What the loop over the binaries has done where it ends well.
use mathlib.Core.Path.{subst}
use mathlib.Core.List.{Memᴰ}
use text.Mathlib.TextLemmas.{append-nil, append_cancel_left}
use Prim.Native.String.{◌++◌}
use nexus_link.Base.{
  All, Bool-cases, List, Option, Result, String, [], ap, arith, eq_iff, eq_refl, err, false, inl,
  inr, none, ok, refl, some, suc, sym, true, ℕ, ◌+◌, ◌==◌, ◌∙◌, ◌∷◌, ◌≡◌, ◌≢◌, ◌⊎◌,
}
use nexus_link.Fs.{
  Action, Fs, WriteFault, continue, join, path_exists, remove_file, rename, set_permissions, write,
  ◌>>◌,
}
use nexus_link.Cli.Upgrade.{
  InstallFaults, backup_of, candidates, copy_file, count_installed, finish, first_existing, install,
  install_found, install_from, set_aside,
}

-- A step that succeeded before another one.
pub continue-ok :
    {B : Type 0} (k : Action String B) (r : Result (Unit {0}) String) (fs : Fs) (b : B)
    → (continue r (λ _. k) fs).0 ≡ ok b
    → (r ≡ ok tt) × ((k fs).0 ≡ ok b) × (continue r (λ _. k) fs ≡ k fs)
continue-ok k (ok u) fs b e = (refl, e, refl)
continue-ok k (err x) fs b e = absurd (ground arith)

-- Where the archive may hold a binary.
abbrev pub places : String → String → String → List String
places tmp target name =
    join tmp name
    ∷ join (join tmp ("nexus-link-" ++ target)) name
    ∷ join (join tmp "dist") name
    ∷ []

-- Nothing was done, as the archive has no such binary.
abbrev pub IsSkipped : List String → Fs → Fs → Type 0
IsSkipped sources s after = All (λ p. path_exists s p ≡ false) sources × (after ≡ s)

-- The target has the content of a source and can be executed. The content is what the source had
-- before, unless the source is the target or its backup.
abbrev pub IsCopied : List String → String → Fs → Fs → Type 0
IsCopied sources dest s after =
    (source content : String) × Memᴰ source sources
    × (path_exists s source ≡ true)
    × ((s.file source ≡ some content) ⊎ (source ≡ dest) ⊎ (source ≡ dest ++ ".old"))
    × (after.file dest ≡ some content)
    × (after.mode dest ≡ 0o755)

-- One binary after the other was skipped or copied, and so many were copied.
abbrev pub Installs : String → String → String → List String → ℕ → Fs → Fs → Type 0
Installs tmp bin_dir target [] n s after = (n ≡ 0) × (after ≡ s)
Installs tmp bin_dir target (name ∷ names) n s after =
    (mid : Fs) × (k : ℕ) × Installs tmp bin_dir target names k mid after
    × ((IsSkipped (places tmp target name) s mid × (n ≡ k))
        ⊎ (IsCopied (places tmp target name) (join bin_dir name) s mid × (n ≡ suc k)))

backup_of-ne : (dest : String) → backup_of dest ≢ dest
unfolding backup_of
backup_of-ne dest e = let same = append_cancel_left dest ".old" "" (e ∙ sym (append-nil dest)) in cc

set_aside-file :
    (faults : InstallFaults) (dest source : String) (fs : Fs)
    → (dest == source) ≡ false
    → (backup_of dest == source) ≡ false
    → (set_aside faults dest fs).file source ≡ fs.file source
unfolding set_aside rename remove_file
set_aside-file faults dest source fs h k = ground arith

copy_file-ok :
    (fault : Option WriteFault) (source dest : String) (fs : Fs)
    → (copy_file fault source dest fs).0 ≡ ok tt
    → (content : String) × (fs.file source ≡ some content)
      × ((copy_file fault source dest fs).1.file dest ≡ some content)
unfolding copy_file write
copy_file-ok fault source dest fs e = at (fs.file source) refl
  where
    at :
        (o : Option String)
        → fs.file source ≡ o
        → (content : String) × (fs.file source ≡ some content)
          × ((copy_file fault source dest fs).1.file dest ≡ some content)
    at none q = absurd (ground arith)
    at (some content) q = (content, q, ground (arith, eq_refl dest))

moded :
    (faults : InstallFaults) (dest : String) (fs : Fs)
    → ((set_permissions faults.mode dest 0o755 >> finish faults dest) fs).0 ≡ ok tt
    → (((set_permissions faults.mode dest 0o755 >> finish faults dest) fs).1.file dest
        ≡ fs.file dest)
      × (((set_permissions faults.mode dest 0o755 >> finish faults dest) fs).1.mode dest ≡ 0o755)
unfolding set_permissions finish remove_file
moded faults dest fs e =
    let ne = backup_of-ne dest in
    (
      ground (arith, ne, eq_refl dest, eq_iff (backup_of dest) dest),
      ground (arith, ne, eq_refl dest, eq_iff (backup_of dest) dest),
    )

install_from-IsCopied :
    (faults : InstallFaults) (sources : List String) (source dest : String) (fs : Fs)
    → Memᴰ source sources
    → path_exists fs source ≡ true
    → (install_from faults source dest fs).0 ≡ ok tt
    → IsCopied sources dest fs (install_from faults source dest fs).1
unfolding install_from backup_of
install_from-IsCopied faults sources source dest fs m there e =
    let aside = set_aside faults dest fs in
    let copied = copy_file faults.copy source dest aside in
    let rest = set_permissions faults.mode dest 0o755 >> finish faults dest in
    let (copy_fine, rest_fine, same) = continue-ok rest copied.0 copied.1 tt e in
    let (content, read, written) = copy_file-ok faults.copy source dest aside copy_fine in
    let (kept, mode) = moded faults dest copied.1 rest_fine in
    let from : (fs.file source ≡ some content) ⊎ (source ≡ dest) ⊎ (source ≡ dest ++ ".old") =
      elim (Bool-cases (dest == source)) [
        | inl s ↦ inr (inl (sym ((eq_iff dest source).0 s)))
        | inr s ↦ elim (Bool-cases (backup_of dest == source)) [
          | inl s' ↦ inr (inr (sym ((eq_iff (backup_of dest) source).0 s')))
          | inr s' ↦ inl (sym (set_aside-file faults dest source fs s s') ∙ read)
        ]
      ] in
    (
      source,
      content,
      m,
      there,
      from,
      ap (λ r. r.1.file dest) same ∙ kept ∙ written,
      ap (λ r. r.1.mode dest) same ∙ mode,
    )

first_existing-none :
    (fs : Fs) (ps : List String)
    → first_existing fs ps ≡ none
    → All (λ p. path_exists fs p ≡ false) ps
unfolding first_existing
first_existing-none fs [] e = tt
first_existing-none fs (p ∷ ps) e = (ground arith, first_existing-none fs ps (ground arith))

first_existing-some :
    (fs : Fs) (ps : List String) (source : String)
    → first_existing fs ps ≡ some source
    → Memᴰ source ps × (path_exists fs source ≡ true)
unfolding first_existing
first_existing-some fs [] source e = absurd (ground arith)
first_existing-some fs (p ∷ ps) source e = elim (Bool-cases (path_exists fs p)) [
  | inl s ↦ (Memᴰ.head (ground arith), ground arith)
  | inr s ↦ let (m, t) = first_existing-some fs ps source (ground arith) in (Memᴰ.tail m, t)
]

module _ (faults : String → InstallFaults) (tmp bin_dir target : String) where
  pub install-Installs :
      (names : List String) (installed n : ℕ) (fs : Fs)
      → (install faults tmp bin_dir target names installed fs).0 ≡ ok n
      → (k : ℕ) × (n ≡ k + installed)
        × Installs tmp bin_dir target names k fs
            (install faults tmp bin_dir target names installed fs).1
  unfolding install install_found count_installed candidates
  install-Installs [] installed n fs e = (0, ground arith, (refl, refl))
  install-Installs (name ∷ names) installed n fs e =
      found (install-Installs names) (first_existing fs (candidates tmp target name)) refl e
    where
      found :
          ((i m : ℕ) (s : Fs)
            → (install faults tmp bin_dir target names i s).0 ≡ ok m
            → (k : ℕ) × (m ≡ k + i)
              × Installs tmp bin_dir target names k s
                  (install faults tmp bin_dir target names i s).1)
          → (o : Option String) → first_existing fs (candidates tmp target name) ≡ o
          → let step = install_found (faults name) o (join bin_dir name) in
            let after =
              (step >> install faults tmp bin_dir target names (count_installed o installed)) fs in
            after.0 ≡ ok n
            → (k : ℕ) × (n ≡ k + installed)
              × Installs tmp bin_dir target (name ∷ names) k fs after.1
      found ih none q h =
          let (k, count, rest) = ih installed n fs h in
          let skipped = first_existing-none fs (places tmp target name) q in
          (k, count, (fs, k, rest, inl ((skipped, refl), refl)))
      found ih (some source) q h =
          let step = install_from (faults name) source (join bin_dir name) fs in
          let (fine, rest_fine, same) =
            continue-ok (install faults tmp bin_dir target names (suc installed)) step.0 step.1 n
              h in
          let (k, count, rest) = ih (suc installed) n step.1 rest_fine in
          let (m, there) = first_existing-some fs (places tmp target name) source q in
          let copied =
            install_from-IsCopied (faults name) (places tmp target name) source (join bin_dir name)
              fs m there fine in
          let after =
            subst (Installs tmp bin_dir target names k step.1) (sym (ap (λ r. r.1) same)) rest in
          (suc k, omega (arith, count), (step.1, k, after, inr (copied, refl)))
