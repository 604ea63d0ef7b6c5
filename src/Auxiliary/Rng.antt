-- ===== src/Auxiliary/Rng.antt =====
-- platform/aux/src/rng.cpp and include/aux/rng.hpp: the Mersenne twister and the generator ran2. An
-- array is a function of its index; an `unsigned long` wraps at 2 ^ 64.
pub mod Bits
pub mod Register
pub mod Draws
pub mod Bounds
pub mod Ran2
mod Tests
use itex_demo.Base.{
  true, ◌^◌, ◌+◌, zero, ◌==◌, ◌*◌, Bool, ◌/◌, ◌%◌, false, suc, ◌-◌, ℕ, if◌then◌else◌,
}
use Prim.Native.Nat.{bit_and, bit_or, bit_xor}

unfoldable pub store : (ℕ → ℕ) → ℕ → ℕ → ℕ → ℕ
store a i v k = if k == i then v else a k

-- The state of the twister. `mt_left` is at least one between calls.
pub record Twister : Type 0 where
  pub mt_state : ℕ → ℕ
  pub mt_left : ℕ
  pub mt_initf : Bool
  pub mt_next : ℕ

-- The constructor, over what the memory holds.
unfoldable pub new_twister : (ℕ → ℕ) → ℕ → Twister
new_twister memory next = record {
  mt_state = memory;
  mt_left = 1;
  mt_initf = false;
  mt_next = next;
}

unfoldable pub init_word : ℕ → ℕ → ℕ
init_word before j = ((1812433253 * bit_xor before (before / 2 ^ 30)) + j) % 2 ^ 64 % 2 ^ 32

-- `n` rounds of the loop of `uni_rand_init`, from `j`.
unfoldable pub init_loop : ℕ → (ℕ → ℕ) → ℕ → ℕ → ℕ
init_loop zero a j = a
init_loop (suc n) a j = init_loop n (store a j (init_word (a (j - 1)) j)) (suc j)

unfoldable pub uni_rand_init : ℕ → Twister → Twister
uni_rand_init seed t = record {
  mt_state = init_loop 623 (store t.mt_state 0 (seed % 2 ^ 32)) 1;
  mt_left = 1;
  mt_initf = true;
  mt_next = t.mt_next;
}

unfoldable pub twist : ℕ → ℕ → ℕ
twist u v =
    bit_xor (bit_or (bit_and u 0x80000000) (bit_and v 0x7fffffff) / 2)
      (if bit_and v 1 == 0 then 0 else 0x9908b0df)

-- `n` rounds of the first loop of `mt_next_state`, from `p`, and of the second.
unfoldable pub twist_ahead : ℕ → (ℕ → ℕ) → ℕ → ℕ → ℕ
twist_ahead zero a p = a
twist_ahead (suc n) a p =
    twist_ahead n (store a p (bit_xor (a (p + 397)) (twist (a p) (a (suc p))))) (suc p)

unfoldable pub twist_behind : ℕ → (ℕ → ℕ) → ℕ → ℕ → ℕ
twist_behind zero a p = a
twist_behind (suc n) a p =
    twist_behind n (store a p (bit_xor (a (p - 227)) (twist (a p) (a (suc p))))) (suc p)

unfoldable pub twist_all : (ℕ → ℕ) → ℕ → ℕ
twist_all a =
    let b = twist_behind 396 (twist_ahead 227 a 0) 227 in
    store b 623 (bit_xor (b 396) (twist (b 623) (b 0)))

unfoldable pub mt_next_state : Twister → Twister
mt_next_state t =
    let begun = if t.mt_initf then t else uni_rand_init 5489 t in
    record begun { mt_state = twist_all begun.mt_state; mt_left = 624; mt_next = 0 }

unfoldable pub temper : ℕ → ℕ
temper y =
    let a = bit_xor y (y / 2 ^ 11) in
    let b = bit_xor a (bit_and (a * 2 ^ 7 % 2 ^ 64) 0x9d2c5680) in
    let c = bit_xor b (bit_and (b * 2 ^ 15 % 2 ^ 64) 0xefc60000) in bit_xor c (c / 2 ^ 18)

-- `--_mt_left == 0`, and the batch that is due then.
unfoldable pub count_down : Twister → Twister
count_down t =
    let t' = record t { mt_left = t.mt_left - 1 } in
    if t'.mt_left == 0 then mt_next_state t' else t'

unfoldable pub uni_rand_int32 : Twister → ℕ × Twister
uni_rand_int32 t =
    let t' = count_down t in
    (temper (t'.mt_state t'.mt_next), record t' { mt_next = suc t'.mt_next })
