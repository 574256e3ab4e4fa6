-- ===== src/Service/PollerFiles.antt =====
-- crates/nexus-link-service/src/poller.rs: the files beside the compose file, as the command queue
-- collects them: pairs of a name and a content.
use text.Mathlib.Text.{is_lt}
use Prim.Native.String.{compare as compare_text}
use nexus_link.Base.{
  List, Option, String, [], any, if◌then◌else◌, none, not, option_map, some, unwrap_or, ◌++◌, ◌==◌,
  ◌||◌, ◌∷◌,
}
use nexus_link.Text.{contains_char, ends_with}
use nexus_link.Service.Files.{Entry, Snapshot, is_inside}

abbrev pub extensionless_allowlist : List String
extensionless_allowlist = "Caddyfile" ∷ "Dockerfile" ∷ "Makefile" ∷ []

unfoldable pub poller_file : List String → String → Entry → Option (String × String)
poller_file extensions dir_canonical e =
    let name = unwrap_or e.file_name "" in
    let rel = unwrap_or e.rel_name name in
    let matches =
      if contains_char b'.' name
      then any (λ ext. ends_with name ext) extensions
      else any (λ allowed. allowed == name) extensionless_allowlist in
    if not e.is_file
    then none
    else if not (is_inside e.canonical dir_canonical)
    then none
    else if name == "docker-compose.yaml" || name == "docker-compose.yml"
    then none
    else if not matches
    then none
    else option_map (λ text. (rel, text)) e.content

abbrev pub push_pair : Option (String × String) → List (String × String) → List (String × String)
push_pair none files = files
push_pair (some f) files = files ++ f ∷ []

unfoldable pub collect_below :
    List String → String → List Entry → List (String × String) → List (String × String)
collect_below extensions dir_canonical [] files = files
collect_below extensions dir_canonical (e ∷ es) files =
    collect_below extensions dir_canonical es
      (push_pair (poller_file extensions dir_canonical e) files)

unfoldable pub collect_root :
    Snapshot → List String → String → List Entry → List (String × String) → List (String × String)
collect_root snap extensions dir_canonical [] files = files
collect_root snap extensions dir_canonical (e ∷ es) files =
    collect_root snap extensions dir_canonical es (
      if e.is_dir
      then collect_below extensions dir_canonical (unwrap_or (snap.read_dir e.path) []) files
      else push_pair (poller_file extensions dir_canonical e) files)

unfoldable pub collect_poller_files :
    Snapshot → String → List String → String → List (String × String) → List (String × String)
collect_poller_files snap root extensions dir_canonical files =
    collect_root snap extensions dir_canonical (unwrap_or (snap.read_dir root) []) files

unfoldable pub insert_by_name : String × String → List (String × String) → List (String × String)
insert_by_name f [] = f ∷ []
insert_by_name f (g ∷ gs) =
    let rest = insert_by_name f gs in
    if is_lt (compare_text g.0 f.0) || g.0 == f.0 then g ∷ rest else f ∷ (g ∷ gs)

unfoldable pub sort_onto : List (String × String) → List (String × String) → List (String × String)
sort_onto sorted [] = sorted
sort_onto sorted (f ∷ fs) = sort_onto (insert_by_name f sorted) fs

-- `files.sort_by(|a, b| a.0.cmp(&b.0))`
unfoldable pub sort_by_name : List (String × String) → List (String × String)
sort_by_name files = sort_onto [] files

unfoldable pub read_at : Snapshot → String → List String → Option String → List (String × String)
read_at snap dir extensions none = []
read_at snap dir extensions (some dir_canonical) =
    sort_by_name (collect_poller_files snap dir extensions dir_canonical [])

unfoldable pub read_extra_files : Snapshot → String → List String → List (String × String)
unfolding read_at
read_extra_files snap dir extensions = read_at snap dir extensions snap.dir_canonical
