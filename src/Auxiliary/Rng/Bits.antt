-- ===== src/Auxiliary/Rng/Bits.antt =====
-- The bit operations of platform/aux/src/rng.cpp on words of any width.
use itex_demo.Base.{◌%◌, zero, ◌/◌, ap, suc, max, ◌∙◌, arith, subst, ◌^◌, sym, ◌≤◌, ◌≡◌, ◌<◌, ℕ}
use Prim.Native.Nat.{
  min, differ, digits, bit_and, bit_or, bit_xor, bit_and-bitwise, bit_or-bitwise, bit_xor-bitwise,
}
use native.Mathlib.Nat.{pow-suc}

-- An operation on digits that gives digits, and no more where the first number has run out.
module _ (z : ℕ → ℕ) (f : ℕ → ℕ → ℕ) (rest : (b : ℕ) → z b ≤ b)
    (digit : (x y : ℕ) → x < 2 → y < 2 → f x y < 2) where
  digits-lt : (n k a b : ℕ) → a < 2 ^ k → b < 2 ^ k → digits z f n a b < 2 ^ k
  digits-lt zero k a b p q = omega (arith, rest b)
  digits-lt (suc n) k zero b p q = omega (arith, rest b)
  digits-lt (suc n) zero (suc a) b p q = absurd (omega arith)
  digits-lt (suc n) (suc k) (suc a) b p q =
      let twice = pow-suc 2 k in
      let higher = digits-lt n k (suc a / 2) (b / 2) (omega arith) (omega arith) in
      let lowest = digit (suc a % 2) (b % 2) (omega arith) (omega arith) in omega arith

differ-lt : (x y : ℕ) → x < 2 → y < 2 → differ x y < 2
differ-lt zero y p q = q
differ-lt (suc zero) zero p q = p
differ-lt (suc zero) (suc zero) p q = omega arith
differ-lt (suc zero) (suc (suc y)) p q = absurd (omega arith)
differ-lt (suc (suc x)) y p q = absurd (omega arith)

pub bit_xor-lt : (k a b : ℕ) → a < 2 ^ k → b < 2 ^ k → bit_xor a b < 2 ^ k
bit_xor-lt k a b p q =
    subst (λ x. x < 2 ^ k) (sym (bit_xor-bitwise a b))
      (digits-lt (λ b. b) differ (λ b. omega arith) differ-lt a k a b p q)

pub bit_or-lt : (k a b : ℕ) → a < 2 ^ k → b < 2 ^ k → bit_or a b < 2 ^ k
bit_or-lt k a b p q =
    subst (λ x. x < 2 ^ k) (sym (bit_or-bitwise a b))
      (digits-lt (λ b. b) max (λ b. omega arith) (λ x y h l. omega arith) a k a b p q)

digits_and-le : (n a b : ℕ) → digits (λ b. 0) min n a b ≤ b
digits_and-le zero a b = omega arith
digits_and-le (suc n) zero b = omega arith
digits_and-le (suc n) (suc a) b = omega (arith, digits_and-le n (suc a / 2) (b / 2))

pub bit_and-le : (a b : ℕ) → bit_and a b ≤ b
bit_and-le a b = subst (λ x. x ≤ b) (sym (bit_and-bitwise a b)) (digits_and-le a a b)

differ-zero : (x y : ℕ) → differ x y ≡ 0 → x ≡ y
differ-zero zero y e = sym e
differ-zero (suc x) zero e = e
differ-zero (suc x) (suc y) e = ap suc (differ-zero x y e)

digits_xor-zero : (n a b : ℕ) → a ≤ n → digits (λ b. b) differ n a b ≡ 0 → a ≡ b
digits_xor-zero zero zero b p e = sym e
digits_xor-zero zero (suc a) b p e = absurd (omega arith)
digits_xor-zero (suc n) zero b p e = sym e
digits_xor-zero (suc n) (suc a) b p e =
    let higher = digits_xor-zero n (suc a / 2) (b / 2) (omega arith) (omega arith) in
    let lowest = differ-zero (suc a % 2) (b % 2) (omega arith) in omega arith

-- Only equal numbers cancel.
pub bit_xor-zero : (a b : ℕ) → bit_xor a b ≡ 0 → a ≡ b
bit_xor-zero a b e = digits_xor-zero a a b (omega arith) (sym (bit_xor-bitwise a b) ∙ e)
