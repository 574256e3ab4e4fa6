-- ===== src/Service/ExtraFiles/Laws.antt =====
-- Which files are included, and that both channels include the same ones.
use mathlib.Core.List.{map-append}
use nexus_link.Base.{
  Bool, List, Option, String, [], ap, arith, false, if◌then◌else◌, map, none, option_map, refl,
  some, true, unwrap_or, ◌∙◌, ◌∷◌, ◌≡◌,
}
use nexus_link.Service.Files.{Entry, Snapshot}
use nexus_link.Service.ExtraFiles.{
  ComposeFileEntry, collect_below, collect_extra_files, collect_root, extra_file, insert_by_name,
  push_found, read_at, read_extra_files, sort_by_name, sort_onto,
}
use nexus_link.Service.PollerFiles

abbrev pub pair : ComposeFileEntry → String × String
pair f = (f.name, f.content)

poller_file-extra_file :
    (extensions : List String) (dir_canonical : String) (e : Entry)
    → option_map pair (extra_file extensions dir_canonical e)
      ≡ PollerFiles.poller_file extensions dir_canonical e
unfolding extra_file PollerFiles.poller_file
poller_file-extra_file extensions dir_canonical e = ground arith

map-push_found :
    (o : Option ComposeFileEntry) (files : List ComposeFileEntry)
    → map pair (push_found o files) ≡ PollerFiles.push_pair (option_map pair o) (map pair files)
map-push_found none files = refl
map-push_found (some f) files = map-append pair files (f ∷ [])

map-if :
    (b : Bool) (xs ys : List ComposeFileEntry) {us vs : List (String × String)}
    → map pair xs ≡ us
    → map pair ys ≡ vs
    → map pair (if b then xs else ys) ≡ (if b then us else vs)
map-if true xs ys p q = p
map-if false xs ys p q = q

module _ (extensions : List String) (dir_canonical : String) where
  map-push_extra :
      (e : Entry) (files : List ComposeFileEntry)
      → map pair (push_found (extra_file extensions dir_canonical e) files)
        ≡ PollerFiles.push_pair
            (PollerFiles.poller_file extensions dir_canonical e)
            (map pair files)
  map-push_extra e files =
      map-push_found (extra_file extensions dir_canonical e) files
      ∙ ap (λ o. PollerFiles.push_pair o (map pair files))
          (poller_file-extra_file extensions dir_canonical e)

  map-collect_below :
      (es : List Entry) (files : List ComposeFileEntry)
      → map pair (collect_below extensions dir_canonical es files)
        ≡ PollerFiles.collect_below extensions dir_canonical es (map pair files)
  unfolding collect_below PollerFiles.collect_below
  map-collect_below [] files = refl
  map-collect_below (e ∷ es) files =
      map-collect_below es (push_found (extra_file extensions dir_canonical e) files)
      ∙ ap (λ fs. PollerFiles.collect_below extensions dir_canonical es fs) (map-push_extra e files)

  map-collect_root :
      (snap : Snapshot) (es : List Entry) (files : List ComposeFileEntry)
      → map pair (collect_root snap extensions dir_canonical es files)
        ≡ PollerFiles.collect_root snap extensions dir_canonical es (map pair files)
  unfolding collect_root PollerFiles.collect_root
  map-collect_root snap [] files = refl
  map-collect_root snap (e ∷ es) files =
      let below = unwrap_or (snap.read_dir e.path) [] in
      map-collect_root snap es (
        if e.is_dir
        then collect_below extensions dir_canonical below files
        else push_found (extra_file extensions dir_canonical e) files)
      ∙ ap (λ fs. PollerFiles.collect_root snap extensions dir_canonical es fs)
          (map-if e.is_dir _ _ (map-collect_below below files) (map-push_extra e files))

map-insert_by_name :
    (f : ComposeFileEntry) (gs : List ComposeFileEntry)
    → map pair (insert_by_name f gs) ≡ PollerFiles.insert_by_name (pair f) (map pair gs)
unfolding insert_by_name PollerFiles.insert_by_name
map-insert_by_name f [] = refl
map-insert_by_name f (g ∷ gs) = ground (arith, map-insert_by_name f gs)

map-sort_onto :
    (sorted fs : List ComposeFileEntry)
    → map pair (sort_onto sorted fs) ≡ PollerFiles.sort_onto (map pair sorted) (map pair fs)
unfolding sort_onto PollerFiles.sort_onto
map-sort_onto sorted [] = refl
map-sort_onto sorted (f ∷ fs) =
    map-sort_onto (insert_by_name f sorted) fs
    ∙ ap (λ s. PollerFiles.sort_onto s (map pair fs)) (map-insert_by_name f sorted)

map-read_at :
    (snap : Snapshot) (dir : String) (extensions : List String) (o : Option String)
    → map pair (read_at snap dir extensions o) ≡ PollerFiles.read_at snap dir extensions o
unfolding read_at PollerFiles.read_at collect_extra_files PollerFiles.collect_poller_files
    sort_by_name PollerFiles.sort_by_name
map-read_at snap dir extensions none = refl
map-read_at snap dir extensions (some dc) =
    let listed = unwrap_or (snap.read_dir dir) [] in
    map-sort_onto [] (collect_root snap extensions dc listed [])
    ∙ ap (λ fs. PollerFiles.sort_onto [] fs) (map-collect_root extensions dc snap listed [])

-- Both channels report the same files of a directory, in the same order.
pub read_extra_files-eq :
    (snap : Snapshot) (dir : String) (extensions : List String)
    → map pair (read_extra_files snap dir extensions)
      ≡ PollerFiles.read_extra_files snap dir extensions
unfolding read_extra_files PollerFiles.read_extra_files
read_extra_files-eq snap dir extensions = map-read_at snap dir extensions snap.dir_canonical
