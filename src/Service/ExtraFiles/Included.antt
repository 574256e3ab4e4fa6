-- ===== src/Service/ExtraFiles/Included.antt =====
-- Where the reported files come from.
use mathlib.Core.List.{Memᴰ}
use mathlib.Core.Path.{subst}
use nexus_link.Base.{
  All, All-append, Bool, List, Option, String, [], any, arith, eq_iff, false, if◌then◌else◌, inl,
  inr, none, refl, some, sym, true, unwrap_or, ◌==◌, ◌∷◌, ◌≡◌, ◌≢◌, ◌⊎◌,
}
use nexus_link.Text.{contains_char, ends_with}
use nexus_link.Service.Files.Inside.{IsInside, is_inside-IsInside}
use nexus_link.Service.Files.{Entry, Snapshot}
use nexus_link.Service.ExtraFiles.{
  ComposeFileEntry, collect_below, collect_extra_files, collect_root, extensionless_allowlist,
  extra_file, insert_by_name, push_found, read_at, read_extra_files, sort_by_name, sort_onto,
}

-- An entry of the root that is no directory, or an entry of a directory of the root.
abbrev pub Listed : Snapshot → String → Entry → Type 0
Listed snap root e =
    (Memᴰ e (unwrap_or (snap.read_dir root) []) × (e.is_dir ≡ false))
    ⊎ ((d : Entry) × Memᴰ d (unwrap_or (snap.read_dir root) [])
        × (d.is_dir ≡ true)
        × Memᴰ e (unwrap_or (snap.read_dir d.path) []))

-- Where a reported file comes from: an entry one level deep at most, that is a file, does not lie
-- outside the directory when its links are followed, is no compose file, and has a listed extension
-- or a listed name without one.
pub record IsIncluded (snap : Snapshot) (root : String) (extensions : List String)
    (dir_canonical : String) (f : ComposeFileEntry) : Type 0 where
  pub entry : Entry
  pub listed : Listed snap root entry
  pub is_file : entry.is_file ≡ true
  pub inside : IsInside dir_canonical entry.canonical
  pub content : entry.content ≡ some f.content
  pub name : f.name ≡ unwrap_or entry.rel_name (unwrap_or entry.file_name "")
  pub no_compose_file :
      (unwrap_or entry.file_name "" ≢ "docker-compose.yaml")
      × (unwrap_or entry.file_name "" ≢ "docker-compose.yml")
  pub matched :
      (if contains_char b'.' (unwrap_or entry.file_name "")
        then any (λ ext. ends_with (unwrap_or entry.file_name "") ext) extensions
        else any (λ allowed. allowed == unwrap_or entry.file_name "") extensionless_allowlist)
      ≡ true

module _ (snap : Snapshot) (root : String) (extensions : List String) (dc : String) where
  extra_file-IsIncluded :
      (e : Entry) (f : ComposeFileEntry)
      → Listed snap root e
      → extra_file extensions dc e ≡ some f
      → IsIncluded snap root extensions dc f
  unfolding extra_file
  extra_file-IsIncluded e f l h = record {
    entry = e;
    listed = l;
    is_file = ground arith;
    inside = is_inside-IsInside dc e.canonical (ground arith);
    content = ground arith;
    name = ground arith;
    no_compose_file = ground (
      arith,
      eq_iff (unwrap_or e.file_name "") "docker-compose.yaml",
      eq_iff (unwrap_or e.file_name "") "docker-compose.yml",
    );
    matched = ground arith;
  }

  push_found-IsIncluded :
      (e : Entry) (files : List ComposeFileEntry)
      → Listed snap root e
      → All (IsIncluded snap root extensions dc) files
      → All (IsIncluded snap root extensions dc) (push_found (extra_file extensions dc e) files)
  push_found-IsIncluded e files l h = go (extra_file extensions dc e) refl
    where
      go :
          (o : Option ComposeFileEntry)
          → extra_file extensions dc e ≡ o
          → All (IsIncluded snap root extensions dc) (push_found o files)
      go none q = h
      go (some f) q =
          All-append (IsIncluded snap root extensions dc) files (f ∷ []) h
            (extra_file-IsIncluded e f l q, tt)

  collect_below-IsIncluded :
      (es : List Entry) (files : List ComposeFileEntry)
      → ((e : Entry) → Memᴰ e es → Listed snap root e)
      → All (IsIncluded snap root extensions dc) files
      → All (IsIncluded snap root extensions dc) (collect_below extensions dc es files)
  unfolding collect_below
  collect_below-IsIncluded [] files l h = h
  collect_below-IsIncluded (e ∷ es) files l h =
      collect_below-IsIncluded es _ (λ x m. l x (Memᴰ.tail m))
        (push_found-IsIncluded e files (l e (Memᴰ.head refl)) h)

  -- An entry of the root, which is a directory or not.
  collect_one-IsIncluded :
      (e : Entry) (files : List ComposeFileEntry) (b : Bool)
      → e.is_dir ≡ b
      → Memᴰ e (unwrap_or (snap.read_dir root) [])
      → All (IsIncluded snap root extensions dc) files
      → All (IsIncluded snap root extensions dc) (
          if b
          then collect_below extensions dc (unwrap_or (snap.read_dir e.path) []) files
          else push_found (extra_file extensions dc e) files)
  collect_one-IsIncluded e files true q m h =
      collect_below-IsIncluded _ files (λ x below. inr (e, m, q, below)) h
  collect_one-IsIncluded e files false q m h = push_found-IsIncluded e files (inl (m, q)) h

  collect_root-IsIncluded :
      (es : List Entry) (files : List ComposeFileEntry)
      → ((e : Entry) → Memᴰ e es → Memᴰ e (unwrap_or (snap.read_dir root) []))
      → All (IsIncluded snap root extensions dc) files
      → All (IsIncluded snap root extensions dc) (collect_root snap extensions dc es files)
  unfolding collect_root
  collect_root-IsIncluded [] files l h = h
  collect_root-IsIncluded (e ∷ es) files l h =
      collect_root-IsIncluded es _ (λ x m. l x (Memᴰ.tail m))
        (collect_one-IsIncluded e files e.is_dir refl (l e (Memᴰ.head refl)) h)

insert_by_name-All {κ} :
    (P : ComposeFileEntry → Type κ) (f : ComposeFileEntry) (gs : List ComposeFileEntry)
    → P f
    → All P gs
    → All P (insert_by_name f gs)
unfolding insert_by_name
insert_by_name-All P f [] p h = (p, tt)
insert_by_name-All P f (g ∷ gs) p (q, h) = go _ (insert_by_name-All P f gs p h)
  where
    go :
        (b : Bool)
        → All P (insert_by_name f gs)
        → All P (if b then g ∷ insert_by_name f gs else f ∷ (g ∷ gs))
    go true ih = (q, ih)
    go false ih = (p, (q, h))

sort_onto-All {κ} :
    (P : ComposeFileEntry → Type κ) (sorted fs : List ComposeFileEntry)
    → All P sorted
    → All P fs
    → All P (sort_onto sorted fs)
unfolding sort_onto
sort_onto-All P sorted [] h k = h
sort_onto-All P sorted (f ∷ fs) h (p, k) =
    sort_onto-All P (insert_by_name f sorted) fs (insert_by_name-All P f sorted p h) k

-- Where the compose directory can be made canonical: every reported extra file is a file in it or
-- one level below; its own canonical path, where it has one, is that of the directory, or goes on
-- after it with a slash; it is no compose file, and has a listed extension or, without a dot in its
-- name, a listed name.
pub read_extra_files-IsIncluded :
    (snap : Snapshot) (dir : String) (extensions : List String) (dc : String)
    → snap.dir_canonical ≡ some dc
    → All (IsIncluded snap dir extensions dc) (read_extra_files snap dir extensions)
unfolding read_extra_files collect_extra_files sort_by_name
read_extra_files-IsIncluded snap dir extensions dc e =
    subst (λ o. All (IsIncluded snap dir extensions dc) (read_at snap dir extensions o)) (sym e)
      (sort_onto-All (IsIncluded snap dir extensions dc) [] _ tt
        (collect_root-IsIncluded snap dir extensions dc _ [] (λ x m. m) tt))
