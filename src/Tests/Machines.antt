-- ===== src/Tests/Machines.antt =====
-- Machines that meet what the theorems ask of the operating system: one on which copies, modes and
-- owners are changed, and one on which paths are removed.
use Prim.Native.String.{◌++◌}
use nexus_link.Text.{starts_with}
use nexus_link.Base.{
  Bool, Bool-cases, List, String, [], arith, eq_refl, false, if◌then◌else◌, inl, inr, is_some, none,
  not, ok, refl, some, true, ◌&&◌, ◌==◌, ◌∷◌, ◌≡◌,
}
use nexus_link.Fs.{Fs, path_exists, set_file, with_mode}
use nexus_link.Process.{Spawned}
use nexus_link.Shell.{Event, Os, exited, removed_tree, run, started}
use nexus_link.Core.ConfigFile.{Env, legacy_system_path}
use nexus_link.Core.Setup.Commands.{IsShell}
use nexus_link.Cli.Reset.Removal.{IsGone, IsRemoving, Succeeds}
use nexus_link.Tests.Samples.{no_files}

abbrev pub nobody : Env
nobody = record { home = some "/home/op"; nexus_link_config = none; sudo_user = none }

abbrev pub says : Bool → Spawned
says b = ok (record { success = b; code = none; stdout = ""; stderr = "" })

-- A machine whose processes, files and answer are given.
abbrev pub machine : (List Event → List String → Spawned) → (List Event → Fs) → Bool → Os
machine run fs is_root = record {
  env = nobody;
  user = some "op";
  is_root = is_root;
  current_exe = ok "/usr/local/bin/nexus-link";
  parent = λ p. some "/usr/local/bin";
  run = run;
  pipe = λ h path content. exited true "exit status: 0";
  fs = fs;
  canonicalize = λ h p. ok p;
  has_metadata = λ h p. false;
  io = λ h e. none;
  read_line = λ h. ok "y";
}

abbrev copy_effect : List String → Fs → Fs
copy_effect (a ∷ b ∷ c ∷ d ∷ e ∷ []) fs = if b == "cp" then set_file e (fs.file d) fs else fs
copy_effect (a ∷ b ∷ c ∷ d ∷ []) fs = if b == "chmod" then with_mode d 0o644 fs else fs
copy_effect _ fs = fs

abbrev copy_succeeds : List String → Fs → Bool
copy_succeeds (a ∷ b ∷ c ∷ d ∷ e ∷ []) fs = if b == "cp" then is_some (fs.file d) else true
copy_succeeds _ fs = true

-- The files after a history, from one configuration left by an older version.
abbrev pub copied_files : List Event → Fs
copied_files [] = set_file legacy_system_path (some "old") no_files
copied_files (started args ∷ h) = copy_effect args (copied_files h)
copied_files (_ ∷ h) = copied_files h

abbrev pub copying : Os
copying = machine (λ h args. says (copy_succeeds args (copied_files h))) copied_files false

pub copying-IsShell : IsShell copying
copying-IsShell = record {
  cp-content = λ h source target e d. (rw (eq_refl target) refl, e);
  cp-beside = λ h source target p b.
      (rw (not_left (target == p) (not (starts_with p (target ++ "/"))) b) refl, refl);
  chown-file = λ h owner target p. refl;
  chown-beside = λ h owner target p b. (refl, refl);
  chmod-file = λ h digits target p. refl;
  chmod-mode = λ h target e. rw (eq_refl target) refl;
}
  where
    not_left : (a b : Bool) → (not a && b) ≡ true → a ≡ false
    not_left a b e = ground arith

abbrev gone : String → Fs → Fs
gone p fs = record {
  file = λ q. if p == q then none else fs.file q;
  dir = λ q. if p == q then false else fs.dir q;
  mode = fs.mode;
  new_mode = fs.new_mode;
}

abbrev remove_effect : List String → Fs → Fs
remove_effect (a ∷ b ∷ c ∷ d ∷ []) fs = if b == "rm" then gone d fs else fs
remove_effect _ fs = fs

-- The files after a history, from a machine on which every path is a file.
abbrev pub left_files : List Event → Fs
left_files [] = record { file = λ p. some "x"; dir = λ p. false; mode = λ p. 0; new_mode = 0o644 }
left_files (started args ∷ h) = remove_effect args (left_files h)
left_files (removed_tree p ∷ h) = gone p (left_files h)
left_files (_ ∷ h) = left_files h

abbrev pub removing : Os
removing = machine (λ h args. says true) left_files false

gone-same : (p : String) (fs : Fs) → path_exists (gone p fs) p ≡ false
gone-same p fs = rw (eq_refl p) refl

gone-keeps : (p q : String) (fs : Fs) → path_exists fs q ≡ false → path_exists (gone p fs) q ≡ false
gone-keeps p q fs e = elim (Bool-cases (p == q)) [ inl s ↦ rw s refl | inr s ↦ rw s e ]

remove_effect-keeps :
    (args : List String) (q : String) (fs : Fs)
    → path_exists fs q ≡ false
    → path_exists (remove_effect args fs) q ≡ false
remove_effect-keeps [] q fs e = e
remove_effect-keeps (a ∷ []) q fs e = e
remove_effect-keeps (a ∷ b ∷ []) q fs e = e
remove_effect-keeps (a ∷ b ∷ c ∷ []) q fs e = e
remove_effect-keeps (a ∷ b ∷ c ∷ d ∷ []) q fs e = elim (Bool-cases (b == "rm")) [
  | inl s ↦ rw s (gone-keeps d q fs e)
  | inr s ↦ rw s e
]
remove_effect-keeps (a ∷ b ∷ c ∷ d ∷ x ∷ xs) q fs e = e

left_files-keeps :
    (h : List Event) (e : Event) (p : String) → IsGone removing h p → IsGone removing (e ∷ h) p
left_files-keeps h (started args) p g = remove_effect-keeps args p (left_files h) g
left_files-keeps h (removed_tree q) p g = gone-keeps q p (left_files h) g
left_files-keeps h _ p g = g

pub removing-IsRemoving : IsRemoving removing
removing-IsRemoving = record {
  rm-IsGone = λ h flag p e. gone-same p (left_files h);
  remove_tree-IsGone = λ h p e. gone-same p (left_files h);
  keeps_gone = λ h e p a g. left_files-keeps h e p g;
}

pub removing-Succeeds : Succeeds removing
removing-Succeeds = record { rm-ran = λ h flag p. refl; remove_tree-none = λ h p. refl }
