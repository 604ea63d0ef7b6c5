-- ===== src/Auxiliary/Random.antt =====
-- platform/aux/include/aux/random.hpp: the generators xorshift64* and xorshift1024*. A `uint64_t` wraps
-- at 2 ^ 64, and the array of sixteen words is a function of its index.
pub mod Live
mod Tests
use itex_demo.Base.{◌^◌, zero, ◌%◌, ◌/◌, suc, ◌*◌, ◌+◌, ℕ}
use itex_demo.Auxiliary.Rng.{store}
use Prim.Native.Nat.{bit_and, bit_xor}

-- `Xorshift64star::generate` on `x`: the number, and the new `x`.
unfoldable pub xorshift64 : ℕ → ℕ
xorshift64 x =
    let a = bit_xor x (x / 2 ^ 12) in
    let b = bit_xor a (a * 2 ^ 25 % 2 ^ 64) in bit_xor b (b / 2 ^ 27)

unfoldable pub generate64 : ℕ → ℕ × ℕ
generate64 x = let x' = xorshift64 x in (x' * 2685821657736338717 % 2 ^ 64, x')

pub record Xorshift1024 : Type 0 where
  pub s : ℕ → ℕ
  pub p : ℕ

-- The loop of the constructor from `i`, which fills `n` words by `generate` of a seeded xorshift64*.
unfoldable pub fill : ℕ → ℕ → (ℕ → ℕ) → ℕ → ℕ → ℕ
fill zero i s x = s
fill (suc n) i s x = let (y, x') = generate64 x in fill n (suc i) (store s i y) x'

-- The constructor, over what the memory holds, with the seed that the clock gives.
unfoldable pub new_xorshift1024 : (ℕ → ℕ) → ℕ → Xorshift1024
new_xorshift1024 memory x = record { s = fill 16 0 memory x; p = 0 }

-- The word that `Xorshift1024star::generate` stores, from the words at `p` and behind it.
unfoldable pub mix1024 : ℕ → ℕ → ℕ
mix1024 s0 s1 =
    let a = bit_xor s1 (s1 * 2 ^ 31 % 2 ^ 64) in
    let b = bit_xor a (a / 2 ^ 11) in bit_xor (bit_xor s0 (s0 / 2 ^ 30)) b

-- `Xorshift1024star::generate`
unfoldable pub generate1024 : Xorshift1024 → ℕ × Xorshift1024
generate1024 r =
    let q = bit_and (r.p + 1) 15 in
    let v = mix1024 (r.s r.p) (r.s q) in
    (v * 1181783497276652981 % 2 ^ 64, record { s = store r.s q v; p = q })
