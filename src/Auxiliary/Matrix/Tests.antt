-- ===== src/Auxiliary/Matrix/Tests.antt =====
-- Products and slices of matrices over the field of two elements, for
-- platform/aux/include/aux/matrix.hpp.
use itex_demo.Base.{◌∷◌, true, refl, none, arith, ◌&&◌, not, false, Bool, ◌≡◌}
use itex_demo.Auxiliary.Matrix.Mult.{mult-product, mult-thin}
use itex_demo.Auxiliary.Matrix.Product.{product}
use itex_demo.Auxiliary.Matrix.Ring.{IsRing}
use itex_demo.Auxiliary.Matrix.{[], some, Number, Matrix, mult_regular, mult}

abbrev xor : Bool → Bool → Bool
xor true b = not b
xor false b = b

abbrev parity : Number Bool
parity = record { nought = false; add = xor; mul = λ a b. a && b; sub = xor; neg = λ a. a }

xor_assoc : (a b c : Bool) → xor (xor a b) c ≡ xor a (xor b c)
xor_assoc a b c = ground arith

xor_comm : (a b : Bool) → xor a b ≡ xor b a
xor_comm a b = ground arith

and_comm : (a b : Bool) → (a && b) ≡ (b && a)
and_comm a b = ground arith

and-xor : (a b c : Bool) → (a && xor b c) ≡ xor (a && b) (a && c)
and-xor a b c = ground arith

xor_self : (a : Bool) → xor a a ≡ false
xor_self a = ground arith

parity-IsRing : IsRing parity
parity-IsRing = record {
  add_assoc = xor_assoc;
  add_comm = xor_comm;
  nought-add = λ a. refl;
  neg-add = xor_self;
  sub-add = λ a b. refl;
  mul_comm = and_comm;
  mul-add = and-xor;
}

abbrev wide : Matrix Bool
wide = record { v = true ∷ false ∷ true ∷ true ∷ true ∷ false ∷ []; d_row = 2; d_col = 3 }

abbrev tall : Matrix Bool
tall = record { v = true ∷ true ∷ false ∷ true ∷ true ∷ true ∷ []; d_row = 3; d_col = 2 }

abbrev column : Matrix Bool
column = record { v = true ∷ true ∷ []; d_row = 2; d_col = 1 }

abbrev line : Matrix Bool
line = record { v = true ∷ false ∷ []; d_row = 1; d_col = 2 }

mult-product_example : mult parity column wide tall mult_regular ≡ some (product parity wide tall)
mult-product_example =
    mult-product parity parity-IsRing wide tall refl refl refl column mult_regular (omega arith)

mult-thin_example : mult parity wide column line mult_regular ≡ none
mult-thin_example =
    mult-thin parity wide column line mult_regular refl refl (omega arith) (omega arith)
