-- ===== src/Service/Files/Inside.antt =====
-- The test that a path lies inside the compose directory, against what a prefix of a path is.
use Prim.Native.String.{◌++◌}
use nexus_link.Base.{
  Bool-cases, Option, String, arith, eq_iff, inl, inr, none, some, sym, true, ◌==◌, ◌≡◌, ◌⊎◌,
}
use nexus_link.Text.{starts_with-strip, strip}
use nexus_link.Fs.{join}
use nexus_link.Service.Files.{is_inside, path_starts_with}

-- A canonical path is the directory's, or that of something below it: it goes on after the directory
-- with one slash. A path that cannot be made canonical is not checked.
abbrev pub IsInside : String → Option String → Type 0
IsInside dir_canonical none = Unit
IsInside dir_canonical (some canonical) =
    (canonical ≡ dir_canonical) ⊎ ((rest : String) × (canonical ≡ join dir_canonical "" ++ rest))

pub is_inside-IsInside :
    (dir_canonical : String) (canonical : Option String)
    → is_inside canonical dir_canonical ≡ true
    → IsInside dir_canonical canonical
unfolding path_starts_with
is_inside-IsInside dir_canonical none h = tt
is_inside-IsInside dir_canonical (some canonical) h =
    elim (Bool-cases (canonical == dir_canonical)) [
      | inl s ↦ inl ((eq_iff canonical dir_canonical).0 s)
      | inr s ↦ inr (
        strip canonical (join dir_canonical ""),
        sym (starts_with-strip canonical (join dir_canonical "") (ground arith)),
      )
    ]
