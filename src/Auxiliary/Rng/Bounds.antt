-- ===== src/Auxiliary/Rng/Bounds.antt =====
-- The numbers of platform/aux/src/rng.cpp's twister stay in 32 bits, in words of 64.
use itex_demo.Base.{
  ==_iff, ◌≡◌, sym, ◌==◌, subst, ◌*◌, zero, ℕ_discrete, [], ◌-◌, ◌∷◌, ◌+◌, ◌%◌, ◌/◌, arith, suc,
  ◌^◌, ◌<◌, List, ℕ,
}
use itex_demo.Auxiliary.Rng.Bits.{bit_xor-lt, bit_or-lt, bit_and-le}
use itex_demo.Auxiliary.Rng.Register.{word, slide, shifted, store-same, store-other}
use itex_demo.Auxiliary.Rng.Draws.{draw, tempered, draw-register}
use itex_demo.Auxiliary.Rng.{
  false, true, Twister, store, twist, temper, uni_rand_init, init_loop, init_word,
}
use Prim.Native.Nat.{bit_and, bit_or, bit_xor}

abbrev pub AllLt : ℕ → List ℕ → Type 0
AllLt m [] = Unit
AllLt m (x ∷ xs) = (x < m) × AllLt m xs

init_word-lt : (x j : ℕ) → init_word x j < 2 ^ 32
unfolding init_word
init_word-lt x j = omega arith

init_loop-lt :
    (n j : ℕ) (a : ℕ → ℕ)
    → ((i : ℕ) → i < j → a i < 2 ^ 32)
    → (i : ℕ) → i < j + n
    → init_loop n a j i < 2 ^ 32
unfolding init_loop
init_loop-lt zero j a h i l = h i (omega arith)
init_loop-lt (suc n) j a h i l =
    let new = init_word (a (j - 1)) j in
    init_loop-lt n (suc j) (store a j new)
      (λ k q. elim (ℕ_discrete k j) [
        | yes same ↦
            subst (λ x. store a j new x < 2 ^ 32) (sym same)
              (subst (λ x. x < 2 ^ 32) (sym (store-same a j new)) (init_word-lt (a (j - 1)) j))
        | no other ↦ subst (λ x. x < 2 ^ 32) (sym (store-other a j new k other)) (h k (omega arith))
      ])
      i (omega arith)

twist-lt : (u v : ℕ) → twist u v < 2 ^ 32
unfolding twist
twist-lt u v =
    let high : bit_and u 0x80000000 < 2 ^ 32 = omega (arith, bit_and-le u 0x80000000) in
    let low : bit_and v 0x7fffffff < 2 ^ 32 = omega (arith, bit_and-le v 0x7fffffff) in
    let both : bit_or (bit_and u 0x80000000) (bit_and v 0x7fffffff) < 2 ^ 32 =
      bit_or-lt 32 (bit_and u 0x80000000) (bit_and v 0x7fffffff) high low in
    bit_xor-lt 32 _ _ (omega arith) (ground arith)

slide-lt : (w : ℕ → ℕ) → ((i : ℕ) → i < 624 → w i < 2 ^ 32) → (i : ℕ) → i < 624 → slide w i < 2 ^ 32
slide-lt w h i l =
    let new : bit_xor (w 397) (twist (w 0) (w 1)) < 2 ^ 32 =
      bit_xor-lt 32 (w 397) (twist (w 0) (w 1)) (h 397 (omega arith)) (twist-lt (w 0) (w 1)) in
    elim (ℕ_discrete i 623) [
      | yes last ↦ let test : (i == 623) ≡ true = (==_iff i 623).1 last in rw test new
      | no inner ↦ let test : (i == 623) ≡ false = ground arith in rw test (h (suc i) (omega arith))
    ]

shifted-lt :
    (k : ℕ) (w : ℕ → ℕ)
    → ((i : ℕ) → i < 624 → w i < 2 ^ 32)
    → (i : ℕ) → i < 624
    → shifted k w i < 2 ^ 32
unfolding shifted
shifted-lt zero w h i l = h i l
shifted-lt (suc k) w h i l = slide-lt (shifted k w) (shifted-lt k w h) i l

temper-lt : (y : ℕ) → y < 2 ^ 32 → temper y < 2 ^ 32
unfolding temper
temper-lt y h =
    let a = bit_xor y (y / 2 ^ 11) in
    let fa : a < 2 ^ 32 = bit_xor-lt 32 y (y / 2 ^ 11) h (omega arith) in
    let m = bit_and (a * 2 ^ 7 % 2 ^ 64) 0x9d2c5680 in
    let fm : m < 2 ^ 32 = omega (arith, bit_and-le (a * 2 ^ 7 % 2 ^ 64) 0x9d2c5680) in
    let b = bit_xor a m in
    let fb : b < 2 ^ 32 = bit_xor-lt 32 a m fa fm in
    let n = bit_and (b * 2 ^ 15 % 2 ^ 64) 0xefc60000 in
    let fn : n < 2 ^ 32 = omega (arith, bit_and-le (b * 2 ^ 15 % 2 ^ 64) 0xefc60000) in
    let c = bit_xor b n in
    let fc : c < 2 ^ 32 = bit_xor-lt 32 b n fb fn in bit_xor-lt 32 c (c / 2 ^ 18) fc (omega arith)

tempered-lt : (s : ℕ → ℕ) (k n : ℕ) → ((i : ℕ) → s i < 2 ^ 32) → AllLt (2 ^ 32) (tempered s k n)
unfolding tempered
tempered-lt s k zero h = tt
tempered-lt s k (suc n) h = (temper-lt (s (k + 624)) (h (k + 624)), tempered-lt s (suc k) n h)

-- Each number that a seeded generator draws has 32 bits, though its words have 64 and a shift may leave
-- bits above.
pub draw-lt : (seed n : ℕ) (t : Twister) → AllLt (2 ^ 32) (draw n (uni_rand_init seed t))
draw-lt seed n t =
    let first : (i : ℕ) → i < 1 → store t.mt_state 0 (seed % 2 ^ 32) i < 2 ^ 32 = λ i l.
      subst (λ k. store t.mt_state 0 (seed % 2 ^ 32) k < 2 ^ 32) {x = 0} (omega arith)
        (subst (λ x. x < 2 ^ 32) (sym (store-same t.mt_state 0 (seed % 2 ^ 32))) (omega arith)) in
    let words : (i : ℕ) → i < 624 → (uni_rand_init seed t).mt_state i < 2 ^ 32 =
      (unfold uni_rand_init in init_loop-lt 623 1 (store t.mt_state 0 (seed % 2 ^ 32)) first) in
    subst (AllLt (2 ^ 32)) (sym (draw-register seed n t)) (
      tempered-lt (word (uni_rand_init seed t).mt_state) 0 n
        (λ k. shifted-lt k (uni_rand_init seed t).mt_state words 0 (omega arith)))
