-- ===== src/Auxiliary/Matrix/Product.antt =====
-- The product of platform/aux/include/aux/matrix.hpp against the product of matrices.
use itex_demo.Base.{zero, sym, ◌-◌, ap₂, fun_ext, ◌∙◌, ◌≤◌, arith, refl, ap, ◌+◌, ◌<◌, ◌*◌, ◌≡◌}
use itex_demo.Auxiliary.Matrix.Ring.{
  IsRing, sum, sum-add, sum-first, sum-pairs, fast-product, cancel,
}
use itex_demo.Auxiliary.Matrix.Loops.{
  tabulate, tabulate_entries, get, IsMatrix, at-get, add_up-sum, get_elem?-tabulate,
}
use itex_demo.Auxiliary.Matrix.{
  suc, some, ℕ, Option, Number, Matrix, at, times, plus, row_factor, column_factor, fast_term,
  fast_entry,
}

module _ {T : Type 0} (num : Number T) where
  open num use {nought, add, mul, sub, neg}

  -- The first `n` terms of an entry of the product.
  abbrev pub entry : Matrix T → Matrix T → ℕ → ℕ → ℕ → T
  entry g h n i j = sum num (λ k. mul (get num g i k) (get num h k j)) n

  abbrev pub partial_product : Matrix T → Matrix T → ℕ → Matrix T
  partial_product g h n = record {
    v = tabulate_entries (entry g h n) g.d_row h.d_col;
    d_row = g.d_row;
    d_col = h.d_col;
  }

  -- The product of two matrices, each entry the sum over the common dimension.
  abbrev pub product : Matrix T → Matrix T → Matrix T
  product g h = partial_product g h g.d_col

  pub times-some :
      (p q : Option T) (x y : T) → p ≡ some x → q ≡ some y → times num p q ≡ some (mul x y)
  unfolding times
  times-some p q x y e f = rw (e, f) refl

  pub plus-some :
      (p q : Option T) (x y : T) → p ≡ some x → q ≡ some y → plus num p q ≡ some (add x y)
  unfolding plus
  plus-some p q x y e f = rw (e, f) refl

  module _ (ring : IsRing num) (g h : Matrix T) (fits : g.d_col ≡ h.d_row) (wg : IsMatrix num g)
      (wh : IsMatrix num h) where
    abbrev pub rows : ℕ → ℕ → T
    rows d i = sum num (λ k. mul (get num g i (2 * k)) (get num g i (2 * k + 1))) d

    abbrev pub columns : ℕ → ℕ → T
    columns d j = sum num (λ k. mul (get num h (2 * k) j) (get num h (2 * k + 1) j)) d

    pub at_g : (i k : ℕ) → i < g.d_row → k < g.d_col → at g i k ≡ some (get num g i k)
    at_g i k p q = at-get num g i k wg p q

    pub at_h : (k j : ℕ) → k < g.d_col → j < h.d_col → at h k j ≡ some (get num h k j)
    at_h k j p q = at-get num h k j wh (omega (arith, fits)) q

    pub row_factor-sum :
        (d i : ℕ) → 0 < d → 2 * d ≤ g.d_col → i < g.d_row → row_factor num g d i ≡ some (rows d i)
    unfolding row_factor
    row_factor-sum zero i p q r = absurd (omega arith)
    row_factor-sum (suc d) i p q r =
        let one : suc d - 1 ≡ d = omega arith in
        rw (times-some _ _ _ _ (at_g i 0 r (omega arith)) (at_g i 1 r (omega arith)), one)
          (add_up-sum num ring _ _
              (λ k. mul (get num g i (2 * suc k)) (get num g i (2 * suc k + 1))) d
              (λ k s.
                times-some _ _ _ _ (at_g i (2 * suc k) r (omega arith))
                  (at_g i (2 * suc k + 1) r (omega arith)))
            ∙ ap some (
                sym (
                  sum-first num ring (λ k. mul (get num g i (2 * k)) (get num g i (2 * k + 1))) d)))

    pub column_factor-sum :
        (d j : ℕ)
        → 0 < d
        → 2 * d ≤ g.d_col
        → j < h.d_col
        → column_factor num h d j ≡ some (columns d j)
    unfolding column_factor
    column_factor-sum zero j p q r = absurd (omega arith)
    column_factor-sum (suc d) j p q r =
        let one : suc d - 1 ≡ d = omega arith in
        rw (times-some _ _ _ _ (at_h 0 j (omega arith) r) (at_h 1 j (omega arith) r), one)
          (add_up-sum num ring _ _
              (λ k. mul (get num h (2 * suc k) j) (get num h (2 * suc k + 1) j)) d
              (λ k s.
                times-some _ _ _ _ (at_h (2 * suc k) j (omega arith) r)
                  (at_h (2 * suc k + 1) j (omega arith) r))
            ∙ ap some (
                sym (
                  sum-first num ring (λ k. mul (get num h (2 * k) j) (get num h (2 * k + 1) j)) d)))

    abbrev term : ℕ → ℕ → ℕ → T
    term i j k =
        mul (add (get num g i (2 * k)) (get num h (2 * k + 1) j))
          (add (get num g i (2 * k + 1)) (get num h (2 * k) j))

    -- What the terms add up to.
    term-sum :
        (d i j : ℕ)
        → sum num (term i j) d ≡ add (add (rows d i) (columns d j)) (entry g h (2 * d) i j)
    term-sum d i j =
        ap (λ f. sum num f d)
          (fun_ext (λ k.
            fast-product num ring (get num g i (2 * k)) (get num g i (2 * k + 1))
              (get num h (2 * k) j) (get num h (2 * k + 1) j)))
        ∙ sum-add num ring _ _ d
        ∙ ap₂ add (sum-add num ring _ _ d)
            (sum-pairs num ring (λ k. mul (get num g i k) (get num h k j)) d)

    pub fast_entry-sum :
        (d i j : ℕ)
        → 2 * d ≤ g.d_col
        → i < g.d_row
        → j < h.d_col
        → fast_entry num (tabulate (rows d) g.d_row) (tabulate (columns d) h.d_col) g h d i j
          ≡ some (entry g h (2 * d) i j)
    unfolding fast_entry fast_term
    fast_entry-sum d i j q r s =
        rw (get_elem?-tabulate (rows d) g.d_row i r, get_elem?-tabulate (columns d) h.d_col j s)
          (add_up-sum num ring _ _ (term i j) d (λ k t.
              times-some _ _ _ _
                (plus-some _ _ _ _ (at_g i (2 * k) r (omega arith))
                  (at_h (2 * k + 1) j (omega arith) s))
                (plus-some _ _ _ _ (at_g i (2 * k + 1) r (omega arith))
                  (at_h (2 * k) j (omega arith) s)))
            ∙ ap (λ x. some (add (sub (neg (rows d i)) (columns d j)) x)) (term-sum d i j)
            ∙ ap some (cancel num ring (rows d i) (columns d j) (entry g h (2 * d) i j)))
