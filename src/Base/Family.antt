-- ===== src/Base/Family.antt =====
-- Items of a list weighed, one by one and together.
use itex_demo.Base.{
  ◌++◌, ℕ, zero, suc, ◌+◌, ◌≤◌, ◌≡◌, ◌≢◌, ap, some, List, [], ◌∷◌, get_elem?, set, arith,
}

module _ {A : Type 0} (weight : A → ℕ) where
  abbrev pub total : List A → ℕ
  total [] = 0
  total (x ∷ xs) = weight x + total xs

  pub total-append : (xs ys : List A) → total (xs ++ ys) ≡ total xs + total ys
  total-append [] ys = omega arith
  total-append (x ∷ xs) ys = omega (arith, total-append xs ys)

  pub total-set :
      (xs : List A) (i : ℕ) (old new : A)
      → get_elem? xs i ≡ some old
      → total (set xs i new) + weight old ≡ total xs + weight new
  total-set [] i old new e = ground arith
  total-set (x ∷ xs) zero old new e = ground arith
  total-set (x ∷ xs) (suc i) old new e = omega (arith, total-set xs i old new e)

  pub weight-le : (xs : List A) (i : ℕ) (x : A) → get_elem? xs i ≡ some x → weight x ≤ total xs
  weight-le [] i x e = ground arith
  weight-le (y ∷ ys) zero x e = ground arith
  weight-le (y ∷ ys) (suc i) x e = omega (arith, weight-le ys i x e)

  -- Two places of the list count twice.
  pub weights-le :
      (xs : List A) (i j : ℕ) (x y : A)
      → i ≢ j
      → get_elem? xs i ≡ some x
      → get_elem? xs j ≡ some y
      → weight x + weight y ≤ total xs
  weights-le [] i j x y h e f = ground arith
  weights-le (z ∷ zs) zero zero x y h e f = absurd (h (omega arith))
  weights-le (z ∷ zs) zero (suc j) x y h e f = ground (arith, weight-le zs j y f)
  weights-le (z ∷ zs) (suc i) zero x y h e f = ground (arith, weight-le zs i x e)
  weights-le (z ∷ zs) (suc i) (suc j) x y h e f =
      omega (arith, weights-le zs i j x y (λ k. h (ap suc k)) e f)
