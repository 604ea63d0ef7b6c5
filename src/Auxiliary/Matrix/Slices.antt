-- ===== src/Auxiliary/Matrix/Slices.antt =====
-- The slices of platform/aux/include/aux/matrix.hpp.
use itex_demo.Base.{arith, fun_ext, ap, ◌≡◌}
use itex_demo.Auxiliary.Matrix.{
  get_elem?, Option, List, ℕ, Matrix, Slice, at, each, slice_ref, get_row, get_column, bracket,
}

-- The elements of a slice, in order.
abbrev pub slice_items : {T : Type 0} → List T → Slice → Option (List T)
slice_items v s = each (slice_ref v s) s.size

-- `get_row` gives a column and `get_column` a row: the elements of `get_row(i)` are those at (k, i)
-- for each row k, the elements of `get_column(i)` those at (i, k) for each column k, and so the
-- brackets `m[i][k]` give the element at (k, i).
pub slices-transposed :
    {T : Type 0} (m : Matrix T) (i k : ℕ)
    → (slice_items m.v (get_row m i) ≡ each (λ k. at m k i) m.d_row)
      × (slice_items m.v (get_column m i) ≡ each (at m i) m.d_col)
      × (bracket m i k ≡ at m k i)
unfolding get_row get_column bracket at slice_ref
slices-transposed m i k = (
  ap (λ f. each f m.d_row) (fun_ext (λ k. ap (get_elem? m.v) (omega arith))),
  ap (λ f. each f m.d_col) (fun_ext (λ k. ap (get_elem? m.v) (omega arith))),
  ap (get_elem? m.v) (omega arith),
)
