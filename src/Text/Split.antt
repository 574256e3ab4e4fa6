-- ===== src/Text/Split.antt =====
-- Splitting texts: `split`, `split_whitespace`, `lines`.
use Prim.Native.Char.{Char, code}
use Prim.Native.String.{[], ◌∷◌, ◌++◌}
use text.Mathlib.TextLemmas.{cons-append, nil-append}
use nexus_link.Base.{
  All, Bool, Bool-cases, List, String, [], arith, eqb, false, if◌then◌else◌, inl, inr, not, refl,
  true, ◌∷◌, ◌≡◌,
}
use nexus_link.Text.{all_chars, is_empty, is_whitespace}

push_head : Char → List String → List String
push_head c [] = (c ∷ []) ∷ []
push_head c (w ∷ ws) = (c ∷ w) ∷ ws

-- `s.split(f)`
unfoldable pub split : (Char → Bool) → String → List String
unfolding push_head
split f [] = [] ∷ []
split f (c ∷ s) = let rest = split f s in if f c then [] ∷ rest else push_head c rest

non_empty : List String → List String
non_empty [] = []
non_empty (w ∷ ws) = let rest = non_empty ws in if is_empty w then rest else w ∷ rest

-- `s.split_whitespace()`
unfoldable pub split_whitespace : String → List String
unfolding non_empty split is_whitespace
split_whitespace s = non_empty (split is_whitespace s)

abbrev is_newline : Char → Bool
is_newline c = eqb (code c) 10

-- One carriage return is dropped from the end of a line that a newline ends.
strip_cr : String → String
strip_cr [] = []
strip_cr (c ∷ []) = if eqb (code c) 13 then [] else c ∷ []
strip_cr (c ∷ (d ∷ s)) = c ∷ strip_cr (d ∷ s)

lines_of : List String → List String
lines_of [] = []
lines_of (w ∷ []) = if is_empty w then [] else w ∷ []
lines_of (w ∷ (v ∷ ws)) = strip_cr w ∷ lines_of (v ∷ ws)

-- `s.lines()`
unfoldable pub lines : String → List String
unfolding lines_of strip_cr split
lines s = lines_of (split is_newline s)

push_head-all_chars :
    (g : Char → Bool) (c : Char) (ws : List String)
    → g c ≡ true
    → All (λ w. all_chars g w ≡ true) ws
    → All (λ w. all_chars g w ≡ true) (push_head c ws)
unfolding push_head all_chars
push_head-all_chars g c [] h k = ground arith
push_head-all_chars g c (w ∷ ws) h (k, ks) = (ground arith, ks)

-- No part has a character that splits.
pub split-all_chars :
    (f : Char → Bool) (s : String) → All (λ w. all_chars (λ c. not (f c)) w ≡ true) (split f s)
unfolding split all_chars
split-all_chars f [] = (refl, tt)
split-all_chars f (c ∷ s) =
    let ih = split-all_chars f s in
    elim (Bool-cases (f c)) [
      | inl cut ↦ rw cut (refl, ih)
      | inr keep ↦ rw keep (push_head-all_chars (λ d. not (f d)) c (split f s) (rw keep) ih)
    ]

-- Each word of a text has characters, and none is white space.
abbrev pub IsWord : String → Type 0
IsWord w = (is_empty w ≡ false) × (all_chars (λ c. not (is_whitespace c)) w ≡ true)

non_empty-IsWord :
    (ws : List String)
    → All (λ w. all_chars (λ c. not (is_whitespace c)) w ≡ true) ws
    → All IsWord (non_empty ws)
unfolding non_empty
non_empty-IsWord [] h = tt
non_empty-IsWord (w ∷ ws) (h, hs) = ground (arith, non_empty-IsWord ws hs)

pub split_whitespace-IsWord : (s : String) → All IsWord (split_whitespace s)
unfolding split_whitespace
split_whitespace-IsWord s = non_empty-IsWord _ (split-all_chars is_whitespace s)

-- A part that nothing splits, before a character that does, is split off as it is.
pub split-append :
    (f : Char → Bool) (w : String) (c : Char) (s : String)
    → all_chars (λ d. not (f d)) w ≡ true
    → f c ≡ true
    → split f (w ++ (c ∷ s)) ≡ w ∷ split f s
unfolding split all_chars push_head
split-append f [] c s h k = rw nil-append (rw k refl)
split-append f (d ∷ w) c s h k =
    let ih = split-append f w c s (ground arith) k in rw cons-append ground arith

-- A text that nothing splits is its own only part.
pub split_single :
    (f : Char → Bool) (w : String) → all_chars (λ d. not (f d)) w ≡ true → split f w ≡ w ∷ []
unfolding split all_chars push_head
split_single f [] h = refl
split_single f (d ∷ w) h = let ih = split_single f w (ground arith) in ground arith
