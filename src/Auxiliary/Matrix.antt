-- ===== src/Auxiliary/Matrix.antt =====
-- platform/aux/include/aux/matrix.hpp: a matrix over the rows of one array, its product and its
-- slices (slice-iter.hpp). The three matrices of a product are different objects, and its loops
-- assign every entry in the order of the array; a read outside the array is `none`.
pub mod Ring
pub mod Loops
pub mod Product
pub mod Mult
pub mod Slices
mod Tests
use itex_demo.Base.{
  ◌∷◌, ◌++◌, zero, ◌==◌, ◌+◌, ◌/◌, suc, [], get_elem?, if◌then◌else◌, some, ◌>>=◌, ◌*◌, ◌-◌, List,
  ℕ, Option,
}

-- The arithmetic of the entries.
pub record Number (T : Type 0) : Type 0 where
  pub nought : T
  pub add : T → T → T
  pub mul : T → T → T
  pub sub : T → T → T
  pub neg : T → T

pub record Matrix (T : Type 0) : Type 0 where
  pub v : List T
  pub d_row : ℕ
  pub d_col : ℕ

pub data MultMethod : Type 0 where
  mult_regular mult_fast : MultMethod

-- A pass over an array, which assigns what `f` gives for each index.
unfoldable pub each : {A : Type 0} → (ℕ → Option A) → ℕ → Option (List A)
each f zero = some []
each f (suc n) = do xs ← each f n; x ← f n; some (xs ++ (x ∷ []))

-- A pass over a matrix of `a` rows and `c` columns.
unfoldable pub each_entry : {A : Type 0} → (ℕ → ℕ → Option A) → ℕ → ℕ → Option (List A)
each_entry f zero c = some []
each_entry f (suc a) c = do xs ← each_entry f a c; ys ← each (f a) c; some (xs ++ ys)

-- `operator()`
unfoldable pub at : {T : Type 0} → Matrix T → ℕ → ℕ → Option T
at m row col = get_elem? m.v (row * m.d_col + col)

-- `std::slice`, and `slice_iter::ref`.
pub record Slice : Type 0 where
  pub start : ℕ
  pub size : ℕ
  pub stride : ℕ

unfoldable pub slice_ref : {T : Type 0} → List T → Slice → ℕ → Option T
slice_ref v s i = get_elem? v (s.start + i * s.stride)

unfoldable pub get_row : {T : Type 0} → Matrix T → ℕ → Slice
get_row m i = record { start = i; size = m.d_row; stride = m.d_col }

unfoldable pub get_column : {T : Type 0} → Matrix T → ℕ → Slice
get_column m i = record { start = i * m.d_col; size = m.d_col; stride = 1 }

-- `operator[]` of a matrix and then of what it gives.
unfoldable pub bracket : {T : Type 0} → Matrix T → ℕ → ℕ → Option T
bracket m i k = slice_ref m.v (get_row m i) k

module _ {T : Type 0} (num : Number T) where
  open num use {nought, add, mul, sub, neg}

  unfoldable pub times : Option T → Option T → Option T
  times p q = do x ← p; y ← q; some (mul x y)

  unfoldable pub plus : Option T → Option T → Option T
  plus p q = do x ← p; y ← q; some (add x y)

  -- `acc += f(k)` for each `k` below `n`.
  unfoldable pub add_up : T → (ℕ → Option T) → ℕ → Option T
  add_up acc f zero = some acc
  add_up acc f (suc n) = do s ← add_up acc f n; x ← f n; some (add s x)

  -- An entry by the regular method.
  unfoldable pub regular_entry : Matrix T → Matrix T → ℕ → ℕ → Option T
  regular_entry g h i j = add_up nought (λ k. times (at g i k) (at h k j)) g.d_col

  unfoldable pub row_factor : Matrix T → ℕ → ℕ → Option T
  row_factor g d i = do
    first ← times (at g i 0) (at g i 1)
    add_up first (λ k. times (at g i (2 * suc k)) (at g i (2 * suc k + 1))) (d - 1)

  unfoldable pub column_factor : Matrix T → ℕ → ℕ → Option T
  column_factor h d i = do
    first ← times (at h 0 i) (at h 1 i)
    add_up first (λ k. times (at h (2 * suc k) i) (at h (2 * suc k + 1) i)) (d - 1)

  unfoldable pub fast_term : Matrix T → Matrix T → ℕ → ℕ → ℕ → Option T
  fast_term g h i j k =
      times (plus (at g i (2 * k)) (at h (2 * k + 1) j))
        (plus (at g i (2 * k + 1)) (at h (2 * k) j))

  unfoldable pub fast_entry : List T → List T → Matrix T → Matrix T → ℕ → ℕ → ℕ → Option T
  fast_entry rows columns g h d i j = do
    r ← get_elem? rows i
    c ← get_elem? columns j
    add_up (sub (neg r) c) (fast_term g h i j) d

  unfoldable pub odd_entry : Matrix T → Matrix T → Matrix T → ℕ → ℕ → Option T
  odd_entry r g h i j = plus (at r i j) (times (at g i (g.d_col - 1)) (at h (g.d_col - 1) j))

  -- The regular method.
  unfoldable pub regular_pass : Matrix T → Matrix T → Option (Matrix T)
  regular_pass g h = do
    v ← each_entry (regular_entry g h) g.d_row h.d_col
    some (record { v = v; d_row = g.d_row; d_col = h.d_col })

  -- Vinograd's method.
  unfoldable pub fast_pass : Matrix T → Matrix T → Option (Matrix T)
  fast_pass g h = do
    rows ← each (row_factor g (g.d_col / 2)) g.d_row
    columns ← each (column_factor h (g.d_col / 2)) h.d_col
    v ← each_entry (fast_entry rows columns g h (g.d_col / 2)) g.d_row h.d_col
    some (record { v = v; d_row = g.d_row; d_col = h.d_col })

  -- The last term, where the common dimension is odd.
  unfoldable pub odd_pass : Matrix T → Matrix T → Matrix T → Option (Matrix T)
  odd_pass g h r = if 2 * (g.d_col / 2) == g.d_col then some r else do
    v ← each_entry (odd_entry r g h) g.d_row h.d_col
    some (record { v = v; d_row = g.d_row; d_col = h.d_col })

  -- `mult`: the case of the regular method has no `break`.
  unfoldable pub mult : Matrix T → Matrix T → Matrix T → MultMethod → Option (Matrix T)
  mult r g h method =
      if g.d_col == h.d_row
      then elim method [
        | mult_regular ↦ do first ← regular_pass g h; fast ← fast_pass g h; odd_pass g h fast
        | mult_fast ↦ do fast ← fast_pass g h; odd_pass g h fast
      ]
      else some r
