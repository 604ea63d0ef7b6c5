-- ===== src/Auxiliary/Rng/Ran2/Reference.antt =====
-- ran2 with its products taken modulo, and its ranges; for platform/aux/src/rng.cpp.
use itex_demo.Auxiliary.Rng.Register.{store-other, store-same}
use itex_demo.Base.{
  inr, inl, Bool-cases, lt→ltb, ◌≡◌, ◌+◌, sym, subst, ◌-◌, ◌%◌, ◌==◌, arith, ◌≤◌, zero, ◌*◌,
  ℕ_discrete, ◌/◌, ◌<◌, if◌then◌else◌, ◌∷◌, [], List,
}
use itex_demo.Auxiliary.Rng.Ran2.{ltb, Ran2}
use itex_demo.Auxiliary.Rng.{true, suc, ℕ, store}

-- Two multiplicative generators modulo primes, the first shuffled by a table that the last number
-- indexes, and their difference.
abbrev pub modular_warm : ℕ → ℕ → (ℕ → ℕ) → ℕ × (ℕ → ℕ)
modular_warm zero x iv = (x, iv)
modular_warm (suc j) x iv =
    let y = 40014 * x % 2147483563 in modular_warm j y (if ltb j 32 then store iv j y else iv)

unfoldable pub modular_init : ℕ → (ℕ → ℕ) → Ran2
modular_init seed memory =
    let (x, iv) = modular_warm 40 (if seed == 0 then 1 else seed) memory in
    record {
      ran2_idum = x;
      ran2_idum2 = if seed == 0 then 1 else seed;
      ran2_iy = iv 0;
      ran2_iv = iv;
    }

unfoldable pub difference : ℕ → ℕ → ℕ
difference v y = if ltb y v then v - y else v + 2147483562 - y

unfoldable pub modular_next : Ran2 → Ran2
modular_next r =
    let j = r.ran2_iy / 67108862 in
    let x = 40014 * r.ran2_idum % 2147483563 in
    let y = 40692 * r.ran2_idum2 % 2147483399 in
    record {
      ran2_idum = x;
      ran2_idum2 = y;
      ran2_iy = difference (r.ran2_iv j) y;
      ran2_iv = store r.ran2_iv j x;
    }

unfoldable pub modular_draws : ℕ → Ran2 → List ℕ
modular_draws zero r = []
modular_draws (suc n) r = (modular_next r).ran2_iy ∷ modular_draws n (modular_next r)

-- A seeded generator.
pub record InRange (r : Ran2) : Type 0 where
  pub idum_lt : r.ran2_idum < 2147483563
  pub idum2_lt : r.ran2_idum2 < 2147483563
  pub iy_lt : r.ran2_iy < 2147483563
  pub iv_lt : (j : ℕ) → j < 32 → r.ran2_iv j < 2147483563

pub difference-lt :
    (v y : ℕ)
    → v < 2147483563
    → y < 2147483399
    → (0 < difference v y) × (difference v y < 2147483563)
unfolding difference
difference-lt v y h l = ground arith

store-lt :
    (iv : ℕ → ℕ) (i x : ℕ)
    → ((j : ℕ) → j < 32 → iv j < 2147483563)
    → x < 2147483563
    → (j : ℕ) → j < 32
    → store iv i x j < 2147483563
store-lt iv i x h l j q = elim (ℕ_discrete j i) [
  | yes same ↦
      subst (λ k. store iv i x k < 2147483563) (sym same)
        (subst (λ y. y < 2147483563) (sym (store-same iv i x)) l)
  | no other ↦ subst (λ y. y < 2147483563) (sym (store-other iv i x j other)) (h j q)
]

pub modular_next-InRange : (r : Ran2) → InRange r → InRange (modular_next r)
unfolding modular_next
modular_next-InRange r h =
    let j = r.ran2_iy / 67108862 in
    let v = h.iv_lt j (omega (arith, h.iy_lt)) in
    record {
      idum_lt = omega arith;
      idum2_lt = omega arith;
      iy_lt = (difference-lt (r.ran2_iv j) (40692 * r.ran2_idum2 % 2147483399) v (omega arith)).1;
      iv_lt = store-lt r.ran2_iv j (40014 * r.ran2_idum % 2147483563) h.iv_lt (omega arith);
    }

modular_warm-lt :
    (j x : ℕ) (iv : ℕ → ℕ)
    → x < 2147483563
    → ((k : ℕ) → j ≤ k → k < 32 → iv k < 2147483563)
    → ((modular_warm j x iv).0 < 2147483563)
      × ((k : ℕ) → k < 32 → (modular_warm j x iv).1 k < 2147483563)
modular_warm-lt zero x iv h l = (h, λ k q. l k (omega arith) q)
modular_warm-lt (suc j) x iv h l =
    modular_warm-lt j (40014 * x % 2147483563) _ (omega arith) (λ k p q. elim (ℕ_discrete k j) [
      | yes same ↦
          let test : ltb j 32 ≡ true = lt→ltb j 32 (omega arith) in
          rw (same, test)
            (subst (λ y. y < 2147483563) (sym (store-same iv j (40014 * x % 2147483563)))
              (omega arith))
      | no other ↦ elim (Bool-cases (ltb j 32)) [
        | inl test ↦ rw test (
            subst (λ y. y < 2147483563) (sym (store-other iv j (40014 * x % 2147483563) k other))
              (l k (omega arith) q))
        | inr test ↦ rw test (l k (omega arith) q)
      ]
    ])

pub modular_init-InRange :
    (seed : ℕ) (memory : ℕ → ℕ) → seed < 2147483563 → InRange (modular_init seed memory)
unfolding modular_init
modular_init-InRange seed memory h =
    let start : (if seed == 0 then 1 else seed) < 2147483563 = ground arith in
    let (x_lt, iv_lt) =
      modular_warm-lt 40 (if seed == 0 then 1 else seed) memory start
        (λ k p q. absurd (omega arith)) in
    record { idum_lt = x_lt; idum2_lt = start; iy_lt = iv_lt 0 (omega arith); iv_lt = iv_lt }

abbrev pub AllPositive : List ℕ → Type 0
AllPositive [] = Unit
AllPositive (y ∷ ys) = (0 < y) × (y < 2147483563) × AllPositive ys

pub modular_draws-lt : (n : ℕ) (r : Ran2) → InRange r → AllPositive (modular_draws n r)
unfolding modular_draws modular_next
modular_draws-lt zero r h = tt
modular_draws-lt (suc n) r h =
    let j = r.ran2_iy / 67108862 in
    let v = h.iv_lt j (omega (arith, h.iy_lt)) in
    let (above, below) =
      difference-lt (r.ran2_iv j) (40692 * r.ran2_idum2 % 2147483399) v (omega arith) in
    (above, below, modular_draws-lt n (modular_next r) (modular_next-InRange r h))
