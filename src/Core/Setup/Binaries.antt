-- ===== src/Core/Setup/Binaries.antt =====
-- The step of the setup that installs the binaries.
pub mod Nothing
use Prim.Native.String.{◌++◌}
use nexus_link.Base.{
  Bool, List, Option, Result, String, [], err, false, if◌then◌else◌, length, none, not, ok,
  option_map, or_else, some, true, unwrap_or, ◌&&◌, ◌==◌, ◌||◌, ◌∷◌,
}
use nexus_link.Text.{join_texts}
use nexus_link.Text.Number.{to_string}
use nexus_link.Fs.{Fs, join, path_exists}
use nexus_link.Shell.{Event, Os, Step, Try, files, pure, ◌&>◌, ◌>>=◌}
use nexus_link.Core.ConfigFile.{Env}
use nexus_link.Core.Setup.{SetupStep, created, failed, push, skip, skipped, sudo}

abbrev pub install_dir : String
install_dir = "/usr/local/bin"

abbrev pub shipped : List String
shipped = "nexus-link" ∷ "nexus-link-agent" ∷ "nexus-link-service" ∷ []

invoking_home : Env → String
invoking_home env =
    unwrap_or (or_else (option_map (λ u. "/home/" ++ u) env.sudo_user) env.home) "/root"

first_with_binary : Fs → List String → Option String
first_with_binary fs [] = none
first_with_binary fs (dir ∷ dirs) =
    let rest = first_with_binary fs dirs in
    if path_exists fs (join dir "nexus-link") && not (dir == install_dir) then some dir else rest

unfoldable pub find_user_binary_dir : Env → Fs → Option String
unfolding first_with_binary invoking_home
find_user_binary_dir env fs = first_with_binary fs (
    join (invoking_home env) ".local/bin"
    ∷ join (invoking_home env) ".cargo/bin"
    ∷ "/root/.local/bin"
    ∷ [])

unfoldable pub effective_source : Env → String → Fs → String
effective_source env source_dir fs =
    if source_dir == install_dir
    then unwrap_or (find_user_binary_dir env fs) source_dir
    else source_dir

-- The binaries installed, and the errors.
pub record Installed : Type 0 where
  pub names : List String
  pub errors : List String

same_file : Result String String → Result String String → Bool
same_file (ok s) (ok t) = s == t
same_file (ok s) (err e) = false
same_file (err e) t = false

unfoldable pub note_result : String → Installed → Result (Unit {0}) String → Installed
note_result name so_far (ok u) = record so_far { names = push so_far.names name }
note_result name so_far (err e) = record so_far {
  errors = push so_far.errors (name ++ (": " ++ e));
}

unfoldable pub remove_if : Os → String → Bool → Try (Unit {0})
remove_if os target true = sudo os ("rm" ∷ "-f" ∷ target ∷ [])
remove_if os target false = pure (ok tt)

unfoldable pub copy_binary : Os → String → String → Bool → Try (Unit {0})
copy_binary os source target present =
    remove_if os target present
    &> sudo os ("cp" ∷ source ∷ target ∷ [])
    &> sudo os ("chmod" ∷ "755" ∷ target ∷ [])

-- Whether the binary is passed over: not there, or the same file as the target.
unfoldable pub is_passed : Os → String → String → List Event → Bool
unfolding same_file
is_passed os source target h =
    not (path_exists (os.fs h) source)
    || same_file (os.canonicalize h source) (os.canonicalize h target)

is_present : Os → String → List Event → Bool
is_present os target h = path_exists (os.fs h) target || os.has_metadata h target

unfoldable pub install_unless : Os → String → String → String → Installed → Bool → Step Installed
unfolding is_present
install_unless os name source target so_far true h = (so_far, h)
install_unless os name source target so_far false h =
    (copy_binary os source target (is_present os target h) >>= λ r.
    pure (note_result name so_far r))
      h

unfoldable pub install_one : Os → String → String → Installed → Step Installed
unfolding install_unless
install_one os dir name so_far h =
    let source = join dir name in
    let target = join install_dir name in
    install_unless os name source target so_far (is_passed os source target h) h

unfoldable pub install_each : Os → String → List String → Installed → Step Installed
install_each os dir [] so_far = pure so_far
install_each os dir (name ∷ names) so_far =
    install_one os dir name so_far >>= install_each os dir names

unfoldable pub installed_step : Installed → SetupStep
installed_step i = elim i.errors [
  | e ∷ es ↦ record {
    name = "Install binaries";
    status = failed;
    message = "Errors: " ++ join_texts "; " (e ∷ es);
  }
  | [] ↦ elim i.names [
    | [] ↦ record {
      name = "Install binaries";
      status = skipped;
      message = "No binaries found in source directory";
    }
    | n ∷ ns ↦ record {
      name = "Install binaries";
      status = created;
      message =
          "Installed "
          ++ (to_string (length (n ∷ ns))
              ++ (" → " ++ (install_dir ++ (" (" ++ (join_texts ", " (n ∷ ns) ++ ")")))));
    }
  ]
]

unfoldable pub install_unless_same : Os → String → Bool → Step SetupStep
install_unless_same os dir true =
    skip "Install binaries" "Binaries already in /usr/local/bin (up to date)"
install_unless_same os dir false =
    install_each os dir shipped (record { names = []; errors = [] }) >>= λ i.
    pure (installed_step i)

unfoldable pub install_from_dir : Os → String → Step SetupStep
install_from_dir os dir = install_unless_same os dir (dir == install_dir)

unfoldable pub cannot : String → Step SetupStep
cannot message = pure (record { name = "Install binaries"; status = failed; message = message })

unfoldable pub of_parent : Os → Option String → Step SetupStep
of_parent os none = cannot "Cannot determine source binary directory"
of_parent os (some source_dir) =
    files (effective_source os.env source_dir) os >>= install_from_dir os

unfoldable pub of_real : Os → Result String String → Step SetupStep
of_real os (err e) = cannot ("Cannot canonicalize executable path: " ++ e)
of_real os (ok real_exe) = of_parent os (os.parent real_exe)

unfoldable pub of_current : Os → Result String String → Step SetupStep
of_current os (err e) h = cannot ("Cannot resolve current executable: " ++ e) h
of_current os (ok current_exe) h = of_real os (os.canonicalize h current_exe) h

unfoldable pub install_binaries : Os → Step SetupStep
unfolding of_current of_real of_parent cannot
install_binaries os = of_current os os.current_exe
