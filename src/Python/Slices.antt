-- ===== src/Python/Slices.antt =====
-- The slices xs[:n] and xs[n:], and the bytes of a file that read(n) takes and leaves.
use commandment.Base.{
  ℕ, zero, suc, ◌≤◌, ◌≡◌, refl, ap, ◌⊎◌, inl, inr, List, [], ◌∷◌, ◌++◌, length, arith,
}

unfoldable pub split_at {ℓ} : {A : Type ℓ} → ℕ → List A → List A × List A
split_at zero xs = ([], xs)
split_at (suc n) [] = ([], [])
split_at (suc n) (x ∷ xs) = let (before, behind) = split_at n xs in (x ∷ before, behind)

pub split_at-joined {ℓ} :
    {A : Type ℓ} (n : ℕ) (xs : List A) → (split_at n xs).0 ++ (split_at n xs).1 ≡ xs
unfolding split_at
split_at-joined zero xs = refl
split_at-joined (suc n) [] = refl
split_at-joined (suc n) (x ∷ xs) = ap (λ ys. x ∷ ys) (split_at-joined n xs)

-- The first part is full, or it is all there is.
pub split_at-full {ℓ} :
    {A : Type ℓ} (n : ℕ) (xs : List A)
    → (length (split_at n xs).0 ≡ n) ⊎ ((length (split_at n xs).0 ≤ n) × ((split_at n xs).1 ≡ []))
unfolding split_at
split_at-full zero xs = inl refl
split_at-full (suc n) [] = inr (omega arith, refl)
split_at-full (suc n) (x ∷ xs) = elim (split_at-full n xs) [
  | inl full ↦ inl (ap suc full)
  | inr (short, over) ↦ inr (omega (arith, short), over)
]
