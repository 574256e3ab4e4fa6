-- ===== src/Service/CmdAuth/Canonical.antt =====
-- The signed text determines what it was made from.
use Prim.Native.Char.{Char, code}
use Prim.Native.String.{[], ◌∷◌, ◌++◌}
use text.Mathlib.TextLemmas.{nil-append, cons-append, cons-eq-cons}
use nexus_link.Base.{String, [], ap, arith, false, refl, ◌∙◌, ◌∷◌, ◌≡◌}
use nexus_link.Text.{contains_char}
use nexus_link.Service.CmdAuth.{canonical}

-- No line break, as in a method, a path or a header's value.
abbrev pub IsLine : String → Type 0
IsLine s = contains_char 10 s ≡ false

abbrev line_feed : Char
line_feed = "\n"

line_feed-append : (u : String) → "\n" ++ u ≡ line_feed ∷ u
line_feed-append u = cons-append line_feed [] u ∙ ap (λ t. line_feed ∷ t) (nil-append u)

line_break :
    (s t u v : String)
    → IsLine s
    → IsLine t
    → s ++ ("\n" ++ u) ≡ t ++ ("\n" ++ v)
    → (s ≡ t) × (u ≡ v)
unfolding contains_char
line_break [] [] u v h k e = (refl, (cons-eq-cons.0 (simp (nil-append, line_feed-append) at e)).1)
line_break [] (d ∷ t) u v h k e =
    let same = (cons-eq-cons.0 (simp (nil-append, cons-append, line_feed-append) at e)).0 in
    ground (arith, ap code same)
line_break (c ∷ s) [] u v h k e =
    let same = (cons-eq-cons.0 (simp (nil-append, cons-append, line_feed-append) at e)).0 in
    ground (arith, ap code same)
line_break (c ∷ s) (d ∷ t) u v h k e =
    let (same, rest) = cons-eq-cons.0 (simp cons-append at e) in
    let (es, eu) = line_break s t u v (ground arith) (ground arith) rest in (cc (same, es), eu)

-- Two requests with one canonical text have the same method, path, timestamp, nonce and body digest.
pub canonical_injective :
    (m p t n b m' p' t' n' b' : String)
    → IsLine m × IsLine p × IsLine t × IsLine n
    → IsLine m' × IsLine p' × IsLine t' × IsLine n'
    → canonical m p t n b ≡ canonical m' p' t' n' b'
    → (m ≡ m') × (p ≡ p') × (t ≡ t') × (n ≡ n') × (b ≡ b')
unfolding canonical
canonical_injective m p t n b m' p' t' n' b' h k e =
    let (em, e₁) = line_break m m' _ _ h.0 k.0 e in
    let (ep, e₂) = line_break p p' _ _ h.1 k.1 e₁ in
    let (et, e₃) = line_break t t' _ _ h.2 k.2 e₂ in
    let (en, eb) = line_break n n' _ _ h.3 k.3 e₃ in (em, ep, et, en, eb)
