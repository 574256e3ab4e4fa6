-- ===== src/Cli/Upgrade/Versions.antt =====
-- The order of the versions, and the texts of releases.
use Prim.Native.Char.{Char}
use Prim.Native.String.{[], ◌∷◌, ◌++◌}
use text.Mathlib.TextLemmas.{cons-append, nil-append}
use nexus_link.Base.{
  List, String, [], ap, arith, false, not, refl, some, true, ℕ, ◌∙◌, ◌∷◌, ◌≡◌, ◌≤◌,
}
use nexus_link.Text.{all_chars, is_empty, trim_start_matches}
use nexus_link.Text.Split.{split, split-append, split_single}
use nexus_link.Text.Number.{
  all_chars-to_string, is_digit, parse, parse-to_string, to_string, u32_max,
}
use nexus_link.Cli.Upgrade.{
  Version, is_dot, is_v, newer, numbers, parse_version, version_newer, version_of,
}

newer_trans : (u v w : Version) → newer u v ≡ true → newer v w ≡ true → newer u w ≡ true
unfolding newer
newer_trans (a, b, c) (a', b', c') (a'', b'', c'') h k = ground arith

-- What is newer than a newer version is newer.
pub version_newer_trans :
    (u v w : String)
    → version_newer u v ≡ true
    → version_newer v w ≡ true
    → version_newer u w ≡ true
unfolding version_newer
version_newer_trans u v w h k =
    newer_trans (parse_version u) (parse_version v) (parse_version w) h k

-- The text of a version.
pub version_text : ℕ → ℕ → ℕ → String
version_text a b c = to_string a ++ ("." ++ (to_string b ++ ("." ++ to_string c)))

no_dot_char : (c : Char) → is_digit c ≡ true → not (is_dot c) ≡ true
unfolding is_dot
no_dot_char c h = ground arith

no_dots : (s : String) → all_chars is_digit s ≡ true → all_chars (λ c. not (is_dot c)) s ≡ true
unfolding all_chars is_dot
no_dots [] h = refl
no_dots (c ∷ s) h = ground (arith, no_dots s)

abbrev dot : Char
dot = "."

dot-append : (s : String) → "." ++ s ≡ dot ∷ s
dot-append s = cons-append dot [] s ∙ ap (λ t. dot ∷ t) (nil-append s)

split-number :
    (n : ℕ) (s : String) → split is_dot (to_string n ++ ("." ++ s)) ≡ to_string n ∷ split is_dot s
unfolding is_dot
split-number n s =
    ap (λ t. split is_dot (to_string n ++ t)) (dot-append s)
    ∙ split-append is_dot (to_string n) dot s (no_dots (to_string n) (all_chars-to_string n)) refl

split-version_text :
    (a b c : ℕ)
    → split is_dot (version_text a b c) ≡ to_string a ∷ (to_string b ∷ (to_string c ∷ []))
unfolding version_text
split-version_text a b c =
    split-number a (to_string b ++ ("." ++ to_string c))
    ∙ ap (λ ws. to_string a ∷ ws) (split-number b (to_string c))
    ∙ ap (λ ws. to_string a ∷ (to_string b ∷ ws))
        (split_single is_dot (to_string c) (no_dots (to_string c) (all_chars-to_string c)))

-- A text that begins with a digit keeps its start.
trim_start-digit :
    (w s : String)
    → is_empty w ≡ false
    → all_chars is_digit w ≡ true
    → trim_start_matches is_v (w ++ s) ≡ w ++ s
unfolding trim_start_matches all_chars is_v
trim_start-digit [] s h k = absurd (ground arith)
trim_start-digit (d ∷ w) s h k = rw cons-append (ground arith)

trim_start-v : (s : String) → trim_start_matches is_v ("v" ++ s) ≡ trim_start_matches is_v s
unfolding trim_start_matches is_v
trim_start-v s = rw (cons-append, nil-append) refl

numbers-cons :
    (n : ℕ) (ps : List String) → n ≤ u32_max → numbers (to_string n ∷ ps) ≡ n ∷ numbers ps
unfolding numbers
numbers-cons n ps h = ground (arith, parse-to_string u32_max n h)

is_empty-parsed : (most n : ℕ) (s : String) → parse most s ≡ some n → is_empty s ≡ false
unfolding parse
is_empty-parsed most n [] h = absurd (ground arith)
is_empty-parsed most n (c ∷ s) h = refl

version_of-numbers :
    (a b c : ℕ)
    → a ≤ u32_max
    → b ≤ u32_max
    → c ≤ u32_max
    → version_of (numbers (to_string a ∷ (to_string b ∷ (to_string c ∷ [])))) ≡ (a, b, c)
version_of-numbers a b c h k l =
    ap version_of (
      numbers-cons a (to_string b ∷ (to_string c ∷ [])) h
      ∙ ap (λ ns. a ∷ ns) (numbers-cons b (to_string c ∷ []) k)
      ∙ ap (λ ns. a ∷ (b ∷ ns)) (numbers-cons c [] l))
    ∙ (unfold version_of in refl)

trim_start-version_text :
    (a b c : ℕ) → a ≤ u32_max → trim_start_matches is_v (version_text a b c) ≡ version_text a b c
unfolding version_text
trim_start-version_text a b c h =
    trim_start-digit (to_string a) ("." ++ (to_string b ++ ("." ++ to_string c)))
      (is_empty-parsed u32_max a (to_string a) (parse-to_string u32_max a h))
      (all_chars-to_string a)

parsed_from :
    (s : String) (a b c : ℕ)
    → a ≤ u32_max
    → b ≤ u32_max
    → c ≤ u32_max
    → trim_start_matches is_v s ≡ version_text a b c
    → parse_version s ≡ (a, b, c)
unfolding parse_version
parsed_from s a b c h k l e =
    ap (λ t. version_of (numbers (split is_dot t))) e
    ∙ ap (λ ws. version_of (numbers ws)) (split-version_text a b c)
    ∙ version_of-numbers a b c h k l

-- A version of three numbers that fit 32 bits is read back from its text, with or without a v
-- before it.
pub parse_version-version_text :
    (a b c : ℕ)
    → a ≤ u32_max
    → b ≤ u32_max
    → c ≤ u32_max
    → (parse_version (version_text a b c) ≡ (a, b, c))
      × (parse_version ("v" ++ version_text a b c) ≡ (a, b, c))
parse_version-version_text a b c h k l = (
  parsed_from (version_text a b c) a b c h k l (trim_start-version_text a b c h),
  parsed_from ("v" ++ version_text a b c) a b c h k l
      (trim_start-v (version_text a b c) ∙ trim_start-version_text a b c h),
)
