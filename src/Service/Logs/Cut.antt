-- ===== src/Service/Logs/Cut.antt =====
-- The cut of a list of lines, against what it keeps and leaves.
use nexus_link.Base.{
  Bool, List, String, [], ap, arith, false, inl, inr, length, ltb, refl, suc, take, true, zero, ℕ,
  ◌++◌, ◌∷◌, ◌≡◌, ◌≤◌, ◌⊎◌,
}

-- The lines found are the first of all, and the rest is nothing unless the cut is full and noted.
abbrev pub IsCut : ℕ → List String → List String → Bool → Type 0
IsCut n all_lines found truncated =
    (rest : List String) × (all_lines ≡ found ++ rest)
    × (((truncated ≡ false) × (rest ≡ []) × (length found ≤ n))
        ⊎ ((truncated ≡ true)
            × (length found ≡ n)
            × ((line : String) × (more : List String) × (rest ≡ line ∷ more))))

pub take-IsCut : (n : ℕ) (xs : List String) → IsCut n xs (take n xs) (ltb n (length xs))
take-IsCut zero [] = ([], refl, inl (refl, refl, omega arith))
take-IsCut zero (x ∷ xs) = (x ∷ xs, refl, inr (ground arith, refl, (x, xs, refl)))
take-IsCut (suc n) [] = ([], refl, inl (ground arith, refl, omega arith))
take-IsCut (suc n) (x ∷ xs) =
    let (rest, e, cut) = take-IsCut n xs in
    (
      rest,
      ap (λ ys. x ∷ ys) e,
      elim cut [
        | inl (t, r, l) ↦ inl (ground arith, r, omega (arith, l))
        | inr (t, l, r) ↦ inr (ground arith, omega (arith, l), r)
      ],
    )
