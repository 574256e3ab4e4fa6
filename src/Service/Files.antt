-- ===== src/Service/Files.antt =====
-- What the two command channels of crates/nexus-link-service share in the model: the names of the
-- compose file, the failures of a write, and a snapshot of the directory.
pub mod Inside
use nexus_link.Base.{Bool, List, Option, String, none, some, true, ◌==◌, ◌||◌}
use nexus_link.Fs.{WriteFault, file_name, join, rename, write}
use nexus_link.Text.{starts_with}

abbrev pub compose_path : String → String
compose_path dir = join dir "docker-compose.yaml"

abbrev pub tmp_path : String → String
tmp_path dir = join dir "docker-compose.yaml.tmp"

-- How each file operation of a write fails, if it does.
pub record PutFaults : Type 0 where
  pub create : Option (String × List String)
  pub write : Option WriteFault
  pub rename : Option String
  pub remove : Option String

-- An entry of `read_dir`, as the calls on its path answer. A text is `none` where Rust has an `Err`
-- or no UTF-8.
pub record Entry : Type 0 where
  pub path : String
  pub is_dir : Bool
  pub is_file : Bool
  pub canonical : Option String
  pub file_name : Option String
  pub rel_name : Option String
  pub content : Option String

-- `dir.canonicalize()` of the compose directory, and `read_dir` of a directory.
pub record Snapshot : Type 0 where
  pub dir_canonical : Option String
  pub read_dir : String → Option (List Entry)

-- `canonical.starts_with(base)`, by whole components: a canonical path ends in no slash, but for the
-- root. `join base ""` is the base with one slash at its end.
unfoldable pub path_starts_with : String → String → Bool
path_starts_with canonical base = canonical == base || starts_with canonical (join base "")

-- A path that cannot be made canonical passes.
abbrev pub is_inside : Option String → String → Bool
is_inside none dir_canonical = true
is_inside (some canonical) dir_canonical = path_starts_with canonical dir_canonical
