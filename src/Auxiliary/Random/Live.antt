-- ===== src/Auxiliary/Random/Live.antt =====
-- The states of the generators of platform/aux/include/aux/random.hpp never become all zero.
use itex_demo.Base.{
  sym, ◌&&◌, subst, refl, ℕ_discrete, ==_iff, zero, ◌≢◌, suc, ◌%◌, true, ◌^◌, ◌/◌, Bool, ◌==◌, ◌*◌,
  arith, ◌≡◌, ◌<◌, ◌+◌, ℕ,
}
use itex_demo.Auxiliary.Rng.Bits.{bit_xor-lt, bit_xor-zero}
use itex_demo.Auxiliary.Rng.Register.{store-same, store-other}
use itex_demo.Auxiliary.Rng.{store}
use itex_demo.Auxiliary.Random.{
  xorshift64, generate64, Xorshift1024, fill, new_xorshift1024, mix1024, generate1024,
}
use Prim.Native.Nat.{bit_and, bit_xor, bit_xor-bitwise}

-- A word that is not zero.
abbrev pub IsSeed : ℕ → Type 0
IsSeed x = (0 < x) × (x < 2 ^ 64)

xor-IsSeed : (x y : ℕ) → IsSeed x → y < 2 ^ 64 → x ≢ y → IsSeed (bit_xor x y)
xor-IsSeed x y (above, below) h ne =
    let differs : bit_xor x y ≢ 0 = λ e. ne (bit_xor-zero x y e) in
    (omega arith, bit_xor-lt 64 x y below h)

xorshift64-IsSeed : (x : ℕ) → IsSeed x → IsSeed (xorshift64 x)
unfolding xorshift64
xorshift64-IsSeed x h =
    let a = bit_xor x (x / 2 ^ 12) in
    let ha : IsSeed a = xor-IsSeed x (x / 2 ^ 12) h (omega arith) (λ e. omega arith) in
    let b = bit_xor a (a * 2 ^ 25 % 2 ^ 64) in
    let hb : IsSeed b = xor-IsSeed a (a * 2 ^ 25 % 2 ^ 64) ha (omega arith) (λ e. omega arith) in
    xor-IsSeed b (b / 2 ^ 27) hb (omega arith) (λ e. omega arith)

generate64-IsSeed : (x : ℕ) → IsSeed x → IsSeed (generate64 x).0 × IsSeed (generate64 x).1
unfolding generate64
generate64-IsSeed x h =
    let next : IsSeed (xorshift64 x) = xorshift64-IsSeed x h in ((omega arith, omega arith), next)

-- The words are words, the place is one of the sixteen, and some word is not zero.
pub record Live (r : Xorshift1024) : Type 0 where
  pub place : r.p < 16
  pub words : (i : ℕ) → i < 16 → r.s i < 2 ^ 64
  pub some_word : (i : ℕ) × (i < 16) × (0 < r.s i)

fill-IsSeed :
    (n i : ℕ) (s : ℕ → ℕ) (x : ℕ)
    → IsSeed x
    → ((k : ℕ) → k < i → IsSeed (s k))
    → (k : ℕ) → k < i + n
    → IsSeed (fill n i s x k)
unfolding fill
fill-IsSeed zero i s x h l k q = l k (omega arith)
fill-IsSeed (suc n) i s x h l k q =
    let (number, next) = generate64-IsSeed x h in
    fill-IsSeed n (suc i) (store s i (generate64 x).0) (generate64 x).1 next
      (λ j b. elim (ℕ_discrete j i) [
        | yes same ↦
            subst (λ m. IsSeed (store s i (generate64 x).0 m)) (sym same)
              (subst IsSeed (sym (store-same s i (generate64 x).0)) number)
        | no other ↦
            subst IsSeed (sym (store-other s i (generate64 x).0 j other)) (l j (omega arith))
      ])
      k (omega arith)

new_xorshift1024-Live : (memory : ℕ → ℕ) (x : ℕ) → IsSeed x → Live (new_xorshift1024 memory x)
unfolding new_xorshift1024
new_xorshift1024-Live memory x h =
    let filled = fill-IsSeed 16 0 memory x h (λ k l. absurd (omega arith)) in
    record {
      place = omega arith;
      words = λ i l. (filled i (omega arith)).1;
      some_word = (0, omega arith, (filled 0 (omega arith)).0);
    }

all_below : ℕ → (ℕ → Bool) → Bool
all_below zero f = true
all_below (suc n) f = f n && all_below n f

all_below-lt : (n : ℕ) (f : ℕ → Bool) (x : ℕ) → all_below n f ≡ true → x < n → f x ≡ true
unfolding all_below
all_below-lt zero f x h l = absurd (omega arith)
all_below-lt (suc n) f x h l = ground (arith, all_below-lt n f x)

places : all_below 16 (λ p. bit_and (p + 1) 15 == (p + 1) % 16) ≡ true
unfolding all_below
places = refl

next_place : (p : ℕ) → p < 16 → bit_and (p + 1) 15 ≡ (p + 1) % 16
next_place p h =
    (==_iff _ _).0 (all_below-lt 16 (λ p. bit_and (p + 1) 15 == (p + 1) % 16) p places h)

mix1024-lt : (s0 s1 : ℕ) → s0 < 2 ^ 64 → s1 < 2 ^ 64 → mix1024 s0 s1 < 2 ^ 64
unfolding mix1024
mix1024-lt s0 s1 h l =
    let a = bit_xor s1 (s1 * 2 ^ 31 % 2 ^ 64) in
    let ha : a < 2 ^ 64 = bit_xor-lt 64 s1 (s1 * 2 ^ 31 % 2 ^ 64) l (omega arith) in
    let hb : bit_xor a (a / 2 ^ 11) < 2 ^ 64 = bit_xor-lt 64 a (a / 2 ^ 11) ha (omega arith) in
    let hc : bit_xor s0 (s0 / 2 ^ 30) < 2 ^ 64 = bit_xor-lt 64 s0 (s0 / 2 ^ 30) h (omega arith) in
    bit_xor-lt 64 (bit_xor s0 (s0 / 2 ^ 30)) (bit_xor a (a / 2 ^ 11)) hc hb

-- Beside a zero, a word that is not zero gives one that is not.
mix1024-zero : (s1 : ℕ) → IsSeed s1 → IsSeed (mix1024 0 s1)
unfolding mix1024
mix1024-zero s1 h =
    let a = bit_xor s1 (s1 * 2 ^ 31 % 2 ^ 64) in
    let ha : IsSeed a = xor-IsSeed s1 (s1 * 2 ^ 31 % 2 ^ 64) h (omega arith) (λ e. omega arith) in
    let hb : IsSeed (bit_xor a (a / 2 ^ 11)) =
      xor-IsSeed a (a / 2 ^ 11) ha (omega arith) (λ e. omega arith) in
    subst IsSeed (sym (bit_xor-bitwise 0 (bit_xor a (a / 2 ^ 11)))) hb

store-word :
    (r : Xorshift1024) (q v : ℕ)
    → Live r
    → q < 16
    → q ≢ r.p
    → v < 2 ^ 64
    → (r.s r.p ≡ 0 → 0 < r.s q → 0 < v)
    → Live (record { s = store r.s q v; p = q })
store-word r q v h l ne fits alive = record {
  place = l;
  words = λ i b. elim (ℕ_discrete i q) [
    | yes same ↦
        subst (λ k. store r.s q v k < 2 ^ 64) (sym same)
          (subst (λ x. x < 2 ^ 64) (sym (store-same r.s q v)) fits)
    | no other ↦ subst (λ x. x < 2 ^ 64) (sym (store-other r.s q v i other)) (h.words i b)
  ];
  some_word = elim (ℕ_discrete (r.s r.p) 0) [
    | no before ↦ (
      r.p,
      h.place,
      subst (λ x. 0 < x) (sym (store-other r.s q v r.p (λ e. ne (sym e)))) (omega arith),
    )
    | yes nothing ↦
        let (i, b, above) = h.some_word in
        elim (ℕ_discrete i q) [
          | yes same ↦ (
            q,
            l,
            subst (λ x. 0 < x) (sym (store-same r.s q v))
                (alive nothing (subst (λ k. 0 < r.s k) same above)),
          )
          | no other ↦ (i, b, subst (λ x. 0 < x) (sym (store-other r.s q v i other)) above)
        ]
  ];
}

generate1024-Live : (r : Xorshift1024) → Live r → Live (generate1024 r).1
unfolding generate1024
generate1024-Live r h =
    let q = bit_and (r.p + 1) 15 in
    let next : q ≡ (r.p + 1) % 16 = next_place r.p h.place in
    let inside : q < 16 = omega arith in
    store-word r q (mix1024 (r.s r.p) (r.s q)) h inside (λ e. let place = h.place in omega arith)
      (mix1024-lt (r.s r.p) (r.s q) (h.words r.p h.place) (h.words q inside))
      (λ e l.
        subst (λ x. 0 < mix1024 x (r.s q)) (sym e) (mix1024-zero (r.s q) (l, h.words q inside)).0)

-- The state behind `n` calls of `generate`.
unfoldable pub generated : ℕ → Xorshift1024 → Xorshift1024
generated zero r = r
generated (suc n) r = generated n (generate1024 r).1

generated-Live : (n : ℕ) (r : Xorshift1024) → Live r → Live (generated n r)
unfolding generated
generated-Live zero r h = h
generated-Live (suc n) r h = generated-Live n (generate1024 r).1 (generate1024-Live r h)

-- The generator never gets stuck: made with a seed that is not zero, and whatever the memory held,
-- xorshift1024* has after any number of calls a place within its array and sixteen words of 64 bits
-- that are not all zero, which is the state that it could not leave.
pub generated-new :
    (memory : ℕ → ℕ) (seed n : ℕ)
    → 0 < seed
    → seed < 2 ^ 64
    → Live (generated n (new_xorshift1024 memory seed))
generated-new memory seed n h l =
    generated-Live n (new_xorshift1024 memory seed) (new_xorshift1024-Live memory seed (h, l))
