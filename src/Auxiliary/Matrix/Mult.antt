-- ===== src/Auxiliary/Matrix/Mult.antt =====
-- `mult` of platform/aux/include/aux/matrix.hpp: what its passes come to.
use native.Mathlib.Nat.{suc-mul}
use itex_demo.Base.{
  false, inr, sym, ◌==◌, refl, inl, Option-cases, ◌+◌, ℕ_discrete, ap, arith, ◌∙◌, length, ==_iff,
  ◌-◌, ◌/◌, ◌*◌, ◌≤◌, none, ◌<◌, ◌≡◌,
}
use itex_demo.Auxiliary.Matrix.Product.{
  entry, partial_product, product, times-some, plus-some, rows, columns, at_g, at_h, row_factor-sum,
  column_factor-sum, fast_entry-sum,
}
use itex_demo.Auxiliary.Matrix.Loops.{
  get, IsMatrix, add_up-sum, each-tabulate, each_entry-tabulate, each-none,
  get_elem?-tabulate_entries, get_elem?-beyond,
}
use itex_demo.Auxiliary.Matrix.Ring.{IsRing, sum}
use itex_demo.Auxiliary.Matrix.{
  get_elem?, suc, some, ℕ, Number, Matrix, MultMethod, mult_regular, mult_fast, at, regular_entry,
  odd_entry, regular_pass, fast_pass, odd_pass, mult, row_factor, times,
}

module _ {T : Type 0} (num : Number T) where
  open num use {nought, add, mul}

  module _ (ring : IsRing num) (g h : Matrix T) (fits : g.d_col ≡ h.d_row) (wg : IsMatrix num g)
      (wh : IsMatrix num h) where
    regular_pass-product : regular_pass num g h ≡ some (product num g h)
    unfolding regular_pass regular_entry
    regular_pass-product =
        let entries =
          each_entry-tabulate (regular_entry num g h) (entry num g h g.d_col) g.d_row h.d_col
            (λ i j p q.
              add_up-sum num ring nought _ (λ k. mul (get num g i k) (get num h k j)) g.d_col
                (λ k r.
                  times-some num _ _ _ _ (at_g num ring g h fits wg wh i k p r)
                    (at_h num ring g h fits wg wh k j r q))
              ∙ ap some (ring.nought-add _)) in
        rw entries refl

    halves : 2 * (g.d_col / 2) ≤ g.d_col
    halves = omega arith

    fast_pass-product :
        2 ≤ g.d_col → fast_pass num g h ≡ some (partial_product num g h (2 * (g.d_col / 2)))
    unfolding fast_pass
    fast_pass-product two =
        let d = g.d_col / 2 in
        rw
          (
            each-tabulate (row_factor num g d) (rows num ring g h fits wg wh d) g.d_row
                (λ i p. row_factor-sum num ring g h fits wg wh d i (omega arith) halves p),
            each-tabulate _ (columns num ring g h fits wg wh d) h.d_col
                (λ j p. column_factor-sum num ring g h fits wg wh d j (omega arith) halves p),
            each_entry-tabulate _ (entry num g h (2 * d)) g.d_row h.d_col
                (λ i j p q. fast_entry-sum num ring g h fits wg wh d i j halves p q),
          )
          refl

    odd_entry-sum :
        (n i j : ℕ)
        → g.d_col ≡ suc n
        → i < g.d_row
        → j < h.d_col
        → odd_entry num (partial_product num g h n) g h i j ≡ some (entry num g h g.d_col i j)
    unfolding odd_entry at sum
    odd_entry-sum n i j e p q =
        let before : g.d_col - 1 ≡ n = omega arith in
        plus-some num _ _ _ _ (get_elem?-tabulate_entries (entry num g h n) g.d_row h.d_col i j p q)
          (times-some num _ _ _ _ (at_g num ring g h fits wg wh i (g.d_col - 1) p (omega arith))
            (at_h num ring g h fits wg wh (g.d_col - 1) j (omega arith) q))
        ∙ ap (λ k. some (add (entry num g h n i j) (mul (get num g i k) (get num h k j)))) before
        ∙ ap (λ k. some (entry num g h k i j)) (sym e)

    odd_pass-product :
        odd_pass num g h (partial_product num g h (2 * (g.d_col / 2))) ≡ some (product num g h)
    unfolding odd_pass
    odd_pass-product = elim (ℕ_discrete (2 * (g.d_col / 2)) g.d_col) [
      | yes even ↦
          rw ((==_iff (2 * (g.d_col / 2)) g.d_col).1 even, odd_pass)
            (ap (λ n. some (partial_product num g h n)) even)
      | no odd ↦
          let test : (2 * (g.d_col / 2) == g.d_col) ≡ false = ground arith in
          rw (test, odd_pass)
            (let entries =
                each_entry-tabulate
                  (odd_entry num (partial_product num g h (2 * (g.d_col / 2))) g h)
                  (entry num g h g.d_col) g.d_row h.d_col
                  (λ i j p q. odd_entry-sum (2 * (g.d_col / 2)) i j (omega arith) p q) in
              rw entries refl)
    ]

    -- `mult` gives the product: over a commutative ring, by either method and whatever the matrix held
    -- before, where the dimensions fit and the common one is at least two, each read is inside its
    -- array, and each entry is the sum of the products along the common dimension.
    pub mult-product :
        (r : Matrix T) (method : MultMethod)
        → 2 ≤ g.d_col
        → mult num r g h method ≡ some (product num g h)
    unfolding mult
    mult-product r mult_regular two =
        rw ((==_iff g.d_col h.d_row).1 fits, mult)
          (rw (regular_pass-product, fast_pass-product two) odd_pass-product)
    mult-product r mult_fast two =
        rw ((==_iff g.d_col h.d_row).1 fits, mult) (rw (fast_pass-product two) odd_pass-product)

  thin-none :
      (g : Matrix T) (n : ℕ)
      → IsMatrix num g
      → g.d_col < 2
      → g.d_row ≡ suc n
      → times num (at g n 0) (at g n 1) ≡ none
  unfolding times at
  thin-none g n w thin e =
      let beyond : length g.v ≤ n * g.d_col + 1 =
        (rw w (rw e (omega (arith, suc-mul n g.d_col)))) in
      elim (Option-cases (get_elem? g.v (n * g.d_col + 0))) [
        | inl none_first ↦ rw none_first refl
        | inr (x, first) ↦ rw (first, get_elem?-beyond g.v (n * g.d_col + 1) beyond) refl
      ]

  fast_pass-thin :
      (g h : Matrix T) → IsMatrix num g → g.d_col < 2 → 0 < g.d_row → fast_pass num g h ≡ none
  unfolding fast_pass row_factor
  fast_pass-thin g h w thin some_row =
      let last : g.d_row ≡ suc (g.d_row - 1) = omega arith in
      let first = thin-none g (g.d_row - 1) w thin last in
      let failed =
        each-none (row_factor num g (g.d_col / 2)) g.d_row (g.d_row - 1) (omega arith)
          (rw (first, row_factor) refl) in
      rw failed refl

  -- A matrix of fewer than two columns, a column vector for one, cannot be multiplied: its factors read
  -- a second column, past the end of the array in the last row, and the regular method runs into them.
  pub mult-thin :
      (r g h : Matrix T) (method : MultMethod)
      → IsMatrix num g
      → g.d_col ≡ h.d_row
      → g.d_col < 2
      → 0 < g.d_row
      → mult num r g h method ≡ none
  unfolding mult
  mult-thin r g h mult_fast w fits thin some_row =
      rw ((==_iff g.d_col h.d_row).1 fits, mult) (rw (fast_pass-thin g h w thin some_row) refl)
  mult-thin r g h mult_regular w fits thin some_row = elim (Option-cases (regular_pass num g h)) [
    | inl nothing ↦ rw ((==_iff g.d_col h.d_row).1 fits, mult) (rw nothing refl)
    | inr (first, done) ↦
        rw ((==_iff g.d_col h.d_row).1 fits, mult)
          (rw (done, fast_pass-thin g h w thin some_row) refl)
  ]
