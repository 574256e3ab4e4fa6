-- ===== src/Service/ExtraFiles.antt =====
-- crates/nexus-link-service/src/handlers/compose.rs: the files beside the compose file, from its
-- directory and one level below.
pub mod Laws
pub mod Included
use text.Mathlib.Text.{is_lt}
use Prim.Native.String.{compare as compare_text}
use nexus_link.Base.{
  List, Option, String, [], any, if◌then◌else◌, none, not, option_map, some, unwrap_or, ◌++◌, ◌==◌,
  ◌||◌, ◌∷◌,
}
use nexus_link.Text.{contains_char, ends_with}
use nexus_link.Service.Files.{Entry, Snapshot, is_inside}

pub record ComposeFileEntry : Type 0 where
  pub name : String
  pub content : String

abbrev pub extensionless_allowlist : List String
extensionless_allowlist = "Caddyfile" ∷ "Dockerfile" ∷ "Makefile" ∷ []

-- The tests on one file of the directory, in the order of the source; the result is its name and
-- content, if it is included.
unfoldable pub extra_file : List String → String → Entry → Option ComposeFileEntry
extra_file extensions dir_canonical e =
    let name = unwrap_or e.file_name "" in
    let rel = unwrap_or e.rel_name name in
    let matches =
      if contains_char b'.' name
      then any (λ ext. ends_with name ext) extensions
      else any (λ allowed. allowed == name) extensionless_allowlist in
    if not e.is_file
    then none
    else if not (is_inside e.canonical dir_canonical)
    then none
    else if name == "docker-compose.yaml" || name == "docker-compose.yml"
    then none
    else if not matches
    then none
    else option_map (λ text. record { name = rel; content = text }) e.content

abbrev pub push_found : Option ComposeFileEntry → List ComposeFileEntry → List ComposeFileEntry
push_found none files = files
push_found (some f) files = files ++ f ∷ []

-- The loop over the entries of a directory below the root: directories are not entered.
unfoldable pub collect_below :
    List String → String → List Entry → List ComposeFileEntry → List ComposeFileEntry
collect_below extensions dir_canonical [] files = files
collect_below extensions dir_canonical (e ∷ es) files =
    collect_below extensions dir_canonical es
      (push_found (extra_file extensions dir_canonical e) files)

-- The loop over the entries of the root.
unfoldable pub collect_root :
    Snapshot → List String → String → List Entry → List ComposeFileEntry → List ComposeFileEntry
collect_root snap extensions dir_canonical [] files = files
collect_root snap extensions dir_canonical (e ∷ es) files =
    collect_root snap extensions dir_canonical es (
      if e.is_dir
      then collect_below extensions dir_canonical (unwrap_or (snap.read_dir e.path) []) files
      else push_found (extra_file extensions dir_canonical e) files)

unfoldable pub collect_extra_files :
    Snapshot → String → List String → String → List ComposeFileEntry → List ComposeFileEntry
unfolding collect_root collect_below
collect_extra_files snap root extensions dir_canonical files =
    collect_root snap extensions dir_canonical (unwrap_or (snap.read_dir root) []) files

unfoldable pub insert_by_name : ComposeFileEntry → List ComposeFileEntry → List ComposeFileEntry
insert_by_name f [] = f ∷ []
insert_by_name f (g ∷ gs) =
    let rest = insert_by_name f gs in
    if is_lt (compare_text g.name f.name) || g.name == f.name then g ∷ rest else f ∷ (g ∷ gs)

unfoldable pub sort_onto : List ComposeFileEntry → List ComposeFileEntry → List ComposeFileEntry
sort_onto sorted [] = sorted
sort_onto sorted (f ∷ fs) = sort_onto (insert_by_name f sorted) fs

-- `files.sort_by(|a, b| a.name.cmp(&b.name))`, which keeps the order of equal names.
unfoldable pub sort_by_name : List ComposeFileEntry → List ComposeFileEntry
unfolding sort_onto insert_by_name
sort_by_name files = sort_onto [] files

unfoldable pub read_at : Snapshot → String → List String → Option String → List ComposeFileEntry
read_at snap dir extensions none = []
read_at snap dir extensions (some dir_canonical) =
    sort_by_name (collect_extra_files snap dir extensions dir_canonical [])

unfoldable pub read_extra_files : Snapshot → String → List String → List ComposeFileEntry
unfolding read_at
read_extra_files snap dir extensions = read_at snap dir extensions snap.dir_canonical
