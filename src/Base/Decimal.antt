-- ===== src/Base/Decimal.antt =====
-- Decimal texts: `std::to_string`, as the HTTP server and the SQL library use it.
use Prim.Native.Nat.{ℕ, zero, suc, ◌+◌, ◌/◌, ◌%◌}
use mathlib.Core.Bool.{true, false}
use mathlib.Core.List.{[], ◌∷◌}
use itex_demo.Base.Tests.{ltb}
use itex_demo.Base.Text.{Text}

-- `std::to_string`: at most `fuel` digits of `n` before `rest`.
unfoldable pub digits_before : ℕ → ℕ → Text → Text
digits_before zero n rest = rest
digits_before (suc fuel) n rest = elim (ltb n 10) [
  | true ↦ (48 + n) ∷ rest
  | false ↦ digits_before fuel (n / 10) ((48 + n % 10) ∷ rest)
]

-- A number has fewer digits than one more than itself.
unfoldable pub to_string : ℕ → Text
to_string n = digits_before (suc n) n []
