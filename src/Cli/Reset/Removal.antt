-- ===== src/Cli/Reset/Removal.antt =====
-- What is left after a reset whose removals succeed.
use nexus_link.Base.{All, List, String, [], false, none, true, ◌∷◌, ◌≡◌}
use nexus_link.Fs.{path_exists}
use nexus_link.Process.{ran}
use nexus_link.Shell.{Event, Os, Step, io, removed_tree, started}
use nexus_link.Core.ConfigFile.{dirs_home}
use nexus_link.Cli.Reset.Allowed.{IsAllowed}

abbrev pub rm : String → String → List String
rm flag p = "sudo" ∷ "rm" ∷ flag ∷ p ∷ []

abbrev pub IsGone : Os → List Event → String → Type 0
IsGone os h p = path_exists (os.fs h) p ≡ false

-- The documented behaviour of `rm` and `remove_dir_all`: where they succeed, the path is gone. No
-- event of a reset makes one of its paths.
pub record IsRemoving (os : Os) : Type 0 where
  pub rm-IsGone :
      (h : List Event) (flag p : String)
      → ran (os.run h (rm flag p)) ≡ true
      → IsGone os (started (rm flag p) ∷ h) p
  pub remove_tree-IsGone :
      (h : List Event) (p : String)
      → os.io h (removed_tree p) ≡ none
      → IsGone os (removed_tree p ∷ h) p
  pub keeps_gone :
      (h : List Event) (e : Event) (p : String)
      → IsAllowed (dirs_home os.env) e
      → IsGone os h p
      → IsGone os (e ∷ h) p

-- Every removal succeeds.
pub record Succeeds (os : Os) : Type 0 where
  pub rm-ran : (h : List Event) (flag p : String) → ran (os.run h (rm flag p)) ≡ true
  pub remove_tree-none : (h : List Event) (p : String) → os.io h (removed_tree p) ≡ none

module _ (os : Os) (removing : IsRemoving os) (succeeds : Succeeds os) where
  -- What a step removes, whatever was before, a further step of the reset adds to.
  Removes : Step (Unit {0}) → List String → Type 0
  Removes m ps = (h : List Event) → All (IsGone os (m h).1) ps
