-- ===== src/Shell.antt =====
-- The machine a command of the program works on: its processes, files and prompt, as answers that
-- may depend on all that was done before. The operating system is a parameter; a step returns its
-- value with the history of events, the newest first.
pub mod Extends
pub mod Chain
use nexus_link.Base.{Bool, List, Option, Result, String, err, none, ok, some, ◌==◌, ◌||◌, ◌∷◌}
use nexus_link.Text.{trim}
use nexus_link.Fs.{Fs, path_exists}
use nexus_link.Process.{Spawned}
use nexus_link.Core.ConfigFile.{Env}

-- What a step does to the machine.
pub data Event : Type 0 where
  -- `Command::new(program).args(arguments).output()`
  started : List String → Event
  -- `sudo tee path` with a content on its standard input
  teed : String → String → Event
  -- `std::fs::write`, `create_dir_all`, `remove_file`, `remove_dir` and `remove_dir_all`
  wrote : String → String → Event
  made_dir : String → Event
  removed_file : String → Event
  removed_dir : String → Event
  removed_tree : String → Event
  -- a line read from the terminal, and a request to the backend
  asked : Event
  posted : String → String → Event

-- How `Command::spawn`, `write_all` and `wait` end for a process that is written to.
pub data Piped : Type 0 where
  not_spawned : String → Piped
  not_written : String → Piped
  not_waited : String → Piped
  exited : Bool → String → Piped

-- The errors of `std::io` that the program tells apart.
pub data IoError : Type 0 where
  permission_denied : String → IoError
  other_error : String → IoError

pub record Os : Type 0 where
  pub env : Env
  -- the variable USER
  pub user : Option String
  -- `geteuid() == 0`
  pub is_root : Bool
  -- `std::env::current_exe`
  pub current_exe : Result String String
  -- `Path::parent`
  pub parent : String → Option String
  pub run : List Event → List String → Spawned
  pub pipe : List Event → String → String → Piped
  pub fs : List Event → Fs
  -- `Path::canonicalize`
  pub canonicalize : List Event → String → Result String String
  -- `symlink_metadata().is_ok()`
  pub has_metadata : List Event → String → Bool
  -- the failure of an operation on files
  pub io : List Event → Event → Option IoError
  -- the flushed prompt, and `read_line` on the standard input
  pub read_line : List Event → Result String String

abbrev pub Step {ℓ} : Type ℓ → Type ℓ
Step A = List Event → A × List Event

infixl 5 ◌>>=◌ ◌>>◌ ◌&>◌
unfoldable pub ◌>>=◌ : {A B : Type 0} → Step A → (A → Step B) → Step B
◌>>=◌ m f h = f (m h).0 (m h).1

unfoldable pub ◌>>◌ : {A B : Type 0} → Step A → Step B → Step B
◌>>◌ m k h = k (m h).1

unfoldable pub pure : {A : Type 0} → A → Step A
pure a h = (a, h)

-- A step whose failure ends the command with an error's text.
abbrev pub Try : Type 0 → Type 0
Try A = Step (Result A String)

unfoldable pub proceed : {A B : Type 0} → (A → Try B) → Result A String → Try B
proceed f (ok a) h = f a h
proceed f (err e) h = (err e, h)

-- `m.and_then(|()| k)`, also what `?` does with the result of `m`
unfoldable pub ◌&>◌ : {A B : Type 0} → Try A → Try B → Try B
unfolding ◌>>=◌ proceed
m &> k = m >>= proceed λ _. k

-- The files as they are.
unfoldable pub files : {A : Type 0} → (Fs → A) → Os → Step A
files f os h = (f (os.fs h), h)

unfoldable pub exists : Os → String → Step Bool
exists os p h = (path_exists (os.fs h) p, h)

-- `Command::output`
unfoldable pub run : Os → List String → Step Spawned
run os args h = (os.run h args, started args ∷ h)

-- A process whose result is dropped.
unfoldable pub run_ignored : Os → List String → Step (Unit {0})
run_ignored os args h = (tt, started args ∷ h)

unfoldable pub io_result : Option IoError → Result (Unit {0}) IoError
io_result none = ok tt
io_result (some e) = err e

-- An operation on files.
unfoldable pub io : Os → Event → Step (Result (Unit {0}) IoError)
unfolding io_result
io os e h = (io_result (os.io h e), e ∷ h)

unfoldable pub io_text : IoError → String
io_text (permission_denied e) = e
io_text (other_error e) = e

-- `print!`, `flush` and `read_line`
unfoldable pub ask : Os → Try String
ask os h = (os.read_line h, asked ∷ h)

unfoldable pub to_ascii_lowercase_y : String → Bool
to_ascii_lowercase_y s = s == "y" || s == "Y"

-- `input.trim().eq_ignore_ascii_case("y")`
unfoldable pub is_yes : String → Bool
unfolding to_ascii_lowercase_y trim
is_yes input = to_ascii_lowercase_y (trim input)
