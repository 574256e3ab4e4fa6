-- ===== src/Text.antt =====
-- The operations of Rust's `str` and `char` that the source uses, over the native texts. A text is
-- walked by characters; `len` counts its bytes in UTF-8.
pub mod Split
pub mod Number
use Prim.Native.Char.{Char, code}
use Prim.Native.String.{[], ◌∷◌, ◌++◌}
use text.Mathlib.TextEquality.{Char-path}
use text.Mathlib.TextLemmas.{cons-append, nil-append}
use text.Mathlib.Text.{get?}
use nexus_link.Base.{
  Bool, List, String, [], arith, eqb, eqb_iff, eqb_refl, false, if◌then◌else◌, is_some, leb, len,
  ltb, min, refl, suc, true, zero, ℕ, ◌&&◌, ◌||◌, ◌∙◌, ◌∷◌, ◌≡◌, ◌⊎◌,
}

-- `s.starts_with(p)`
unfoldable pub starts_with : String → String → Bool
starts_with s [] = true
starts_with [] (c ∷ p) = false
starts_with (d ∷ s) (c ∷ p) = eqb (code d) (code c) && starts_with s p

-- What follows the first character's worth of each character of `p`: `&s[p.len()..]` where `s`
-- starts with `p`.
unfoldable pub strip : String → String → String
strip s [] = s
strip [] (c ∷ p) = []
strip (d ∷ s) (c ∷ p) = strip s p

-- `s.chars().all(f)`
unfoldable pub all_chars : (Char → Bool) → String → Bool
all_chars f [] = true
all_chars f (c ∷ s) = f c && all_chars f s

-- `s.is_empty()`
abbrev pub is_empty : String → Bool
is_empty [] = true
is_empty (c ∷ s) = false

pub starts_with-append : (p s : String) → starts_with (p ++ s) p ≡ true
unfolding starts_with
starts_with-append [] s = refl
starts_with-append (c ∷ p) s =
    let ih = starts_with-append p s in rw cons-append (ground (arith, eqb_refl (code c)))

-- A text goes on after its prefix.
pub starts_with-strip : (s p : String) → starts_with s p ≡ true → p ++ strip s p ≡ s
unfolding starts_with strip
starts_with-strip s [] h = nil-append s
starts_with-strip [] (c ∷ p) h = absurd (ground arith)
starts_with-strip (d ∷ s) (c ∷ p) h =
    let same = Char-path d c ((eqb_iff (code d) (code c)).0 (ground arith)) in
    cons-append c p (strip s p) ∙ cc (starts_with-strip s p (ground arith), same)

-- Of two prefixes of one text, the one begins the other.
pub starts_with_comparable :
    (s p q : String)
    → starts_with s p ≡ true
    → starts_with s q ≡ true
    → (starts_with p q ≡ true) ⊎ (starts_with q p ≡ true)
unfolding starts_with
starts_with_comparable s [] q h k = ground arith
starts_with_comparable s (c ∷ p) [] h k = ground arith
starts_with_comparable [] (c ∷ p) (d ∷ q) h k = ground arith
starts_with_comparable (e ∷ s) (c ∷ p) (d ∷ q) h k = ground (arith, starts_with_comparable s p q)

-- `char::is_whitespace`: the property White_Space of Unicode.
unfoldable pub is_whitespace : Char → Bool
is_whitespace c =
    let n = code c in
    leb 9 n && leb n 13
    || eqb n 32
    || eqb n 0x85
    || eqb n 0xa0
    || eqb n 0x1680
    || leb 0x2000 n && leb n 0x200a
    || eqb n 0x2028
    || eqb n 0x2029
    || eqb n 0x202f
    || eqb n 0x205f
    || eqb n 0x3000

-- `char::is_control`: the category Cc.
unfoldable pub is_control : Char → Bool
is_control c = ltb (code c) 32 || leb 0x7f (code c) && leb (code c) 0x9f

pub reverse_onto : String → String → String
reverse_onto [] acc = acc
reverse_onto (c ∷ s) acc = reverse_onto s (c ∷ acc)

unfoldable pub reverse : String → String
unfolding reverse_onto
reverse s = reverse_onto s []

-- `s.ends_with(p)`
unfoldable pub ends_with : String → String → Bool
unfolding reverse starts_with
ends_with s p = starts_with (reverse s) (reverse p)

-- `s.trim_start_matches(f)`
unfoldable pub trim_start_matches : (Char → Bool) → String → String
trim_start_matches f [] = []
trim_start_matches f (c ∷ s) = let rest = trim_start_matches f s in if f c then rest else c ∷ s

-- `s.trim_end_matches(f)`
unfoldable pub trim_end_matches : (Char → Bool) → String → String
unfolding reverse trim_start_matches
trim_end_matches f s = reverse (trim_start_matches f (reverse s))

-- `s.trim()`
unfoldable pub trim : String → String
unfolding trim_end_matches trim_start_matches is_whitespace
trim s = trim_end_matches is_whitespace (trim_start_matches is_whitespace s)

-- `s.contains(c)` for a character
unfoldable pub contains_char : ℕ → String → Bool
contains_char n [] = false
contains_char n (c ∷ s) = eqb (code c) n || contains_char n s

-- `s.contains(t)` for a text
unfoldable pub contains : String → String → Bool
unfolding starts_with
contains [] t = starts_with [] t
contains (c ∷ s) t = starts_with (c ∷ s) t || contains s t

-- `s.chars().filter(f)`
unfoldable pub filter_chars : (Char → Bool) → String → String
filter_chars f [] = []
filter_chars f (c ∷ s) = let rest = filter_chars f s in if f c then c ∷ rest else rest

-- `s.chars().take(n)`
unfoldable pub take_chars : ℕ → String → String
take_chars zero s = []
take_chars (suc n) [] = []
take_chars (suc n) (c ∷ s) = c ∷ take_chars n s

-- `parts.join(separator)`
unfoldable pub join_texts : String → List String → String
join_texts sep [] = []
join_texts sep (s ∷ []) = s
join_texts sep (s ∷ (t ∷ rest)) = s ++ (sep ++ join_texts sep (t ∷ rest))

-- Whether `&s[..n.min(s.len())]` is a text: it panics inside a character.
unfoldable pub can_cut : ℕ → String → Bool
can_cut n s = is_some (get? s 0 (min n (len s)))
