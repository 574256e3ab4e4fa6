-- ===== src/Fs.antt =====
-- The file system, as `std::fs` and `std::path` show it: files with their content, directories and
-- permission modes by path. An operation that may fail takes its failure as an argument.
use Prim.Native.Char.{Char, code}
use Prim.Native.String.{[], ◌∷◌, ◌++◌}
use text.Mathlib.TextLemmas.{append_cancel_left}
use nexus_link.Base.{
  Bool, Bool-cases, List, Option, Result, String, [], and_then, any, eqb, err, false, if◌then◌else◌,
  inl, inr, is_some, none, ok, some, ℕ, ◌==◌, ◌||◌, ◌∷◌, ◌≡◌,
}
use nexus_link.Text.Split.{split}
use nexus_link.Text.{is_empty, starts_with}

pub record Fs : Type 0 where
  pub file : String → Option String
  pub dir : String → Bool
  pub mode : String → ℕ
  -- the mode of a file that is created: 0666 without the bits of the umask
  pub new_mode : ℕ

ends_in_slash : String → Bool
ends_in_slash [] = false
ends_in_slash (c ∷ []) = eqb (code c) b'/'
ends_in_slash (c ∷ (d ∷ s)) = ends_in_slash (d ∷ s)

-- `base.join(p)`
unfoldable pub join : String → String → String
unfolding ends_in_slash starts_with
join base p =
    if starts_with p "/"
    then p
    else if is_empty base || ends_in_slash base
    then base ++ p
    else base ++ ("/" ++ p)

abbrev is_slash : Char → Bool
is_slash c = eqb (code c) b'/'

-- The last part that is neither empty nor ".".
last_part : Option String → List String → Option String
last_part found [] = found
last_part found (w ∷ ws) = last_part (if is_empty w || w == "." then found else some w) ws

-- `p.file_name()` as a text: the last part of the path, unless that is "..".
unfoldable pub file_name : String → Option String
unfolding last_part split
file_name p = and_then (last_part none (split is_slash p)) λ w. if w == ".." then none else some w

-- `p.exists()`
abbrev pub path_exists : Fs → String → Bool
path_exists fs p = is_some (fs.file p) || fs.dir p

abbrev pub set_file : String → Option String → Fs → Fs
set_file p content fs = record fs { file = λ q. if p == q then content else fs.file q }

-- A write fails before the file is opened, or with a part of the content written.
pub data WriteFault : Type 0 where
  not_opened : String → WriteFault
  cut_short : String → String → WriteFault

-- An open for writing gives a file that is not there the mode of a new one.
abbrev pub opened : String → Fs → Fs
opened p fs = record fs {
  mode =
      λ q. if p == q then (if is_some (fs.file p) then fs.mode p else fs.new_mode) else fs.mode q;
}

-- `std::fs::write`
unfoldable pub write : Option WriteFault → String → String → Fs → Result (Unit {0}) String × Fs
write none p content fs = (ok tt, set_file p (some content) (opened p fs))
write (some (not_opened e)) p content fs = (err e, fs)
write (some (cut_short e part)) p content fs = (err e, set_file p (some part) (opened p fs))

abbrev pub with_mode : String → ℕ → Fs → Fs
with_mode p m fs = record fs { mode = λ q. if p == q then m else fs.mode q }

-- The target gets the content and the mode of the source.
rename_found : Option String → String → String → Fs → Result (Unit {0}) String × Fs
rename_found none source target fs = (err "No such file or directory", fs)
rename_found (some content) source target fs = (
  ok tt,
  with_mode target (fs.mode source) (set_file target (some content) (set_file source none fs)),
)

-- `std::fs::rename` of a file
unfoldable pub rename : Option String → String → String → Fs → Result (Unit {0}) String × Fs
unfolding rename_found
rename (some e) source target fs = (err e, fs)
rename none source target fs = rename_found (fs.file source) source target fs

-- `std::fs::remove_file`, its result ignored
unfoldable pub remove_file : Option String → String → Fs → Fs
remove_file (some e) p fs = fs
remove_file none p fs = set_file p none fs

abbrev add_dirs : List String → Fs → Fs
add_dirs ps fs = record fs { dir = λ q. any (λ p. p == q) ps || fs.dir q }

-- `std::fs::create_dir_all`; a failure may leave some of the directories above created.
unfoldable pub create_dir_all :
    Option (String × List String) → String → Fs → Result (Unit {0}) String × Fs
create_dir_all none p fs = (ok tt, add_dirs (p ∷ []) fs)
create_dir_all (some (e, created)) p fs = (err e, add_dirs created fs)

-- `std::fs::read_to_string`
unfoldable pub read_to_string : Option String → String → Fs → Result String String
read_to_string (some e) p fs = err e
read_to_string none p fs = elim (fs.file p) [
  | none ↦ err "No such file or directory"
  | some content ↦ ok content
]

-- `std::fs::set_permissions`
unfoldable pub set_permissions : Option String → String → ℕ → Fs → Result (Unit {0}) String × Fs
set_permissions (some e) p m fs = (err e, fs)
set_permissions none p m fs = (ok tt, with_mode p m fs)

-- A step that may fail and may change files, whether it fails or not.
abbrev pub Action : Type 0 → Type 0 → Type 0
Action E A = Fs → Result A E × Fs

abbrev pub continue : {A B E : Type 0} → Result A E → (A → Action E B) → Action E B
continue (ok a) f fs = f a fs
continue (err e) f fs = (err e, fs)

infixl 5 ◌>>=◌ ◌>>◌
abbrev pub ◌>>=◌ : {A B E : Type 0} → Action E A → (A → Action E B) → Action E B
◌>>=◌ m f fs = continue (m fs).0 f (m fs).1

abbrev pub ◌>>◌ : {B E : Type 0} → Action E (Unit {0}) → Action E B → Action E B
m >> k = m >>= λ _. k

abbrev pub pure : {A E : Type 0} → A → Action E A
pure a fs = (ok a, fs)

abbrev pub fail : {A E : Type 0} → E → Action E A
fail e fs = (err e, fs)

abbrev map_result : {A E F : Type 0} → (E → F) → Result A E → Result A F
map_result f (ok a) = ok a
map_result f (err e) = err (f e)

-- `.map_err(f)`
abbrev pub map_err : {A E F : Type 0} → (E → F) → Action E A → Action F A
map_err f m fs = (map_result f (m fs).0, (m fs).1)

abbrev cleaned : {A E : Type 0} → (Fs → Fs) → Result A E → Fs → Result A E × Fs
cleaned clean (ok a) fs = (ok a, fs)
cleaned clean (err e) fs = (err e, clean fs)

-- What is done to the files where the step failed.
abbrev pub on_error : {A E : Type 0} → (Fs → Fs) → Action E A → Action E A
on_error clean m fs = cleaned clean (m fs).0 (m fs).1

-- Relative paths below one directory are told apart.
pub join_cancel :
    (dir p q : String)
    → starts_with p "/" ≡ false
    → starts_with q "/" ≡ false
    → join dir p ≡ join dir q
    → p ≡ q
unfolding join
join_cancel dir p q h k e = elim (Bool-cases (is_empty dir || ends_in_slash dir)) [
  | inl bare ↦ append_cancel_left dir p q (rw (h, k, bare) at e)
  | inr slash ↦
      append_cancel_left "/" p q
        (append_cancel_left dir ("/" ++ p) ("/" ++ q) (rw (h, k, slash) at e))
]
