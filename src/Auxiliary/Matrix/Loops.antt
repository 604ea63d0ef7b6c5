-- ===== src/Auxiliary/Matrix/Loops.antt =====
-- The passes of platform/aux/include/aux/matrix.hpp over an array, where every value is there.
use native.Mathlib.Nat.{suc-mul, mul-le-mul_right}
use itex_demo.Base.{
  inr, inl, Option-cases, ap₂, subst, ◌∙◌, sym, refl, dec_lt, length-append, ◌+◌, arith, ap, zero,
  ◌++◌, ◌*◌, none, ◌<◌, ◌≡◌, ◌≤◌, get_or, length,
}
use itex_demo.Auxiliary.Matrix.Ring.{IsRing, sum}
use itex_demo.Auxiliary.Matrix.{
  ◌∷◌, suc, some, get_elem?, [], Option, ℕ, List, Number, Matrix, at, each, each_entry, add_up,
}

pub entry-lt : (a c i j : ℕ) → i < a → j < c → i * c + j < a * c
entry-lt a c i j p q =
    let whole : suc i * c ≤ a * c = mul-le-mul_right c (omega arith) in
    omega (arith, whole, suc-mul i c)

module _ {A : Type 0} where
  unfoldable pub tabulate : (ℕ → A) → ℕ → List A
  tabulate t zero = []
  tabulate t (suc n) = tabulate t n ++ (t n ∷ [])

  unfoldable pub tabulate_entries : (ℕ → ℕ → A) → ℕ → ℕ → List A
  tabulate_entries t zero c = []
  tabulate_entries t (suc a) c = tabulate_entries t a c ++ tabulate (t a) c

  pub length-tabulate : (t : ℕ → A) (n : ℕ) → length (tabulate t n) ≡ n
  unfolding tabulate
  length-tabulate t zero = refl
  length-tabulate t (suc n) =
      length-append (tabulate t n) (t n ∷ []) ∙ omega (arith, length-tabulate t n)

  pub length-tabulate_entries : (t : ℕ → ℕ → A) (a c : ℕ) → length (tabulate_entries t a c) ≡ a * c
  unfolding tabulate_entries
  length-tabulate_entries t zero c = omega arith
  length-tabulate_entries t (suc a) c =
      length-append (tabulate_entries t a c) (tabulate (t a) c)
      ∙ ap₂ (λ k l. k + l) (length-tabulate_entries t a c) (length-tabulate (t a) c)
      ∙ omega (arith, suc-mul a c)

  pub get_elem?-append_left :
      (xs ys : List A) (k : ℕ) → k < length xs → get_elem? (xs ++ ys) k ≡ get_elem? xs k
  get_elem?-append_left [] ys k h = absurd (omega arith)
  get_elem?-append_left (x ∷ xs) ys zero h = refl
  get_elem?-append_left (x ∷ xs) ys (suc k) h = get_elem?-append_left xs ys k (omega arith)

  pub get_elem?-append_right :
      (xs ys : List A) (k : ℕ) → get_elem? (xs ++ ys) (length xs + k) ≡ get_elem? ys k
  get_elem?-append_right [] ys k = ap (get_elem? ys) (omega arith)
  get_elem?-append_right (x ∷ xs) ys k =
      let next : suc (length xs) + k ≡ suc (length xs + k) = omega arith in
      ap (get_elem? ((x ∷ xs) ++ ys)) next ∙ get_elem?-append_right xs ys k

  pub get_elem?-beyond : (xs : List A) (k : ℕ) → length xs ≤ k → get_elem? xs k ≡ none
  get_elem?-beyond [] k h = refl
  get_elem?-beyond (x ∷ xs) zero h = absurd (omega arith)
  get_elem?-beyond (x ∷ xs) (suc k) h = get_elem?-beyond xs k (omega arith)

  pub get_elem?-get_or :
      (xs : List A) (k : ℕ) (d : A) → k < length xs → get_elem? xs k ≡ some (get_or xs k d)
  get_elem?-get_or [] k d h = absurd (omega arith)
  get_elem?-get_or (x ∷ xs) zero d h = refl
  get_elem?-get_or (x ∷ xs) (suc k) d h = get_elem?-get_or xs k d (omega arith)

  pub get_elem?-tabulate : (t : ℕ → A) (n k : ℕ) → k < n → get_elem? (tabulate t n) k ≡ some (t k)
  unfolding tabulate
  get_elem?-tabulate t zero k h = absurd (omega arith)
  get_elem?-tabulate t (suc n) k h = elim (dec_lt k n) [
    | yes p ↦
        get_elem?-append_left (tabulate t n) (t n ∷ []) k (omega (arith, p, length-tabulate t n))
        ∙ get_elem?-tabulate t n k p
    | no p ↦
        let last : k ≡ n = omega arith in
        let same : k ≡ length (tabulate t n) + 0 = omega (arith, length-tabulate t n) in
        ap (get_elem? (tabulate t n ++ (t n ∷ []))) same
        ∙ get_elem?-append_right (tabulate t n) (t n ∷ []) 0
        ∙ ap (λ m. some (t m)) (sym last)
  ]

  pub get_elem?-tabulate_entries :
      (t : ℕ → ℕ → A) (a c i j : ℕ)
      → i < a
      → j < c
      → get_elem? (tabulate_entries t a c) (i * c + j) ≡ some (t i j)
  unfolding tabulate_entries
  get_elem?-tabulate_entries t zero c i j p q = absurd (omega arith)
  get_elem?-tabulate_entries t (suc a) c i j p q = elim (dec_lt i a) [
    | yes r ↦
        get_elem?-append_left (tabulate_entries t a c) (tabulate (t a) c) (i * c + j)
          (omega (arith, entry-lt a c i j r q, length-tabulate_entries t a c))
        ∙ get_elem?-tabulate_entries t a c i j r q
    | no r ↦
        let last : i ≡ a = omega arith in
        let same : i * c + j ≡ length (tabulate_entries t a c) + j =
          ap (λ m. m * c + j) last ∙ ap (λ m. m + j) (sym (length-tabulate_entries t a c)) in
        ap (get_elem? (tabulate_entries t a c ++ tabulate (t a) c)) same
        ∙ get_elem?-append_right (tabulate_entries t a c) (tabulate (t a) c) j
        ∙ get_elem?-tabulate (t a) c j q
        ∙ ap (λ m. some (t m j)) (sym last)
  ]

  pub each-tabulate :
      (f : ℕ → Option A) (t : ℕ → A) (n : ℕ)
      → ((k : ℕ) → k < n → f k ≡ some (t k))
      → each f n ≡ some (tabulate t n)
  unfolding each tabulate
  each-tabulate f t zero h = refl
  each-tabulate f t (suc n) h =
      rw (each-tabulate f t n (λ k p. h k (omega arith)), h n (omega arith)) refl

  pub each_entry-tabulate :
      (f : ℕ → ℕ → Option A) (t : ℕ → ℕ → A) (a c : ℕ)
      → ((i j : ℕ) → i < a → j < c → f i j ≡ some (t i j))
      → each_entry f a c ≡ some (tabulate_entries t a c)
  unfolding each_entry tabulate_entries
  each_entry-tabulate f t zero c h = refl
  each_entry-tabulate f t (suc a) c h =
      rw
        (
          each_entry-tabulate f t a c (λ i j p q. h i j (omega arith) q),
          each-tabulate (f a) (t a) c (λ j q. h a j (omega arith) q),
        )
        refl

  -- A pass ends where a value is not there.
  pub each-none : (f : ℕ → Option A) (n k : ℕ) → k < n → f k ≡ none → each f n ≡ none
  unfolding each
  each-none f zero k p e = absurd (omega arith)
  each-none f (suc n) k p e = elim (dec_lt k n) [
    | yes q ↦ rw (each-none f n k q e) refl
    | no q ↦
        let last : k ≡ n = omega arith in
        let there = ap f (sym last) ∙ e in
        elim (Option-cases (each f n)) [
          | inl none_yet ↦ rw none_yet refl
          | inr (xs, so_far) ↦ rw (so_far, there) refl
        ]
  ]

module _ {T : Type 0} (num : Number T) where
  abbrev pub get : Matrix T → ℕ → ℕ → T
  get m i j = get_or m.v (i * m.d_col + j) num.nought

  abbrev pub IsMatrix : Matrix T → Type 0
  IsMatrix m = length m.v ≡ m.d_row * m.d_col

  pub at-get :
      (m : Matrix T) (i j : ℕ)
      → IsMatrix m
      → i < m.d_row
      → j < m.d_col
      → at m i j ≡ some (get m i j)
  unfolding at
  at-get m i j w p q =
      get_elem?-get_or m.v (i * m.d_col + j) num.nought
        (subst (λ l. i * m.d_col + j < l) (sym w) (entry-lt m.d_row m.d_col i j p q))

  module _ (ring : IsRing num) where
    pub add_up-sum :
        (acc : T) (f : ℕ → Option T) (t : ℕ → T) (n : ℕ)
        → ((k : ℕ) → k < n → f k ≡ some (t k))
        → add_up num acc f n ≡ some (num.add acc (sum num t n))
    unfolding add_up sum
    add_up-sum acc f t zero h = ap some (sym (ring.add_comm acc num.nought ∙ ring.nought-add acc))
    add_up-sum acc f t (suc n) h =
        rw (add_up-sum acc f t n (λ k p. h k (omega arith)), h n (omega arith))
          (ap some (ring.add_assoc acc (sum num t n) (t n)))
