-- ===== src/Auxiliary/Rng/Ran2/Range.antt =====
-- The numbers that ran2 draws, against the generator by modular products.
use itex_demo.Auxiliary.Rng.Ran2.Reference.{
  modular_draws-lt, modular_init-InRange, modular_next-InRange, AllPositive, InRange, difference,
  modular_draws, modular_warm, modular_next, modular_init,
}
use itex_demo.Base.{
  ◌^◌, lt→ltb, ◌>>=◌, ◌∷◌, refl, ◌%◌, ◌==◌, zero, [], arith, ◌*◌, if◌then◌else◌, List, ◌<◌, ◌/◌,
  ◌≡◌,
}
use itex_demo.Auxiliary.Rng.{true, suc, ℕ, store}
use itex_demo.Auxiliary.Rng.Ran2.Modular.{step_idum-mod, step_idum2-mod}
use itex_demo.Auxiliary.Rng.Ran2.{
  ltb, some, Option, Ran2, warm_up, seed_idum, ran2_rand_init, combine, table_read, ran2_rand_real,
}

unfoldable pub ran2_draws : ℕ → Ran2 → Option (List ℕ)
ran2_draws zero r = some []
ran2_draws (suc n) r = do
  drawn ← ran2_rand_real r
  rest ← ran2_draws n drawn.1
  some (drawn.0 ∷ rest)

combine-difference :
    (v y : ℕ) → v < 2147483563 → y < 2147483399 → combine v y ≡ some (difference v y)
unfolding combine difference
combine-difference v y h l = ground arith

ran2_rand_real-modular :
    (r : Ran2) → InRange r → ran2_rand_real r ≡ some ((modular_next r).ran2_iy, modular_next r)
unfolding ran2_rand_real modular_next table_read
ran2_rand_real-modular r h =
    let j = r.ran2_iy / 67108862 in
    let inside : ltb j 32 ≡ true = lt→ltb j 32 (omega (arith, h.iy_lt)) in
    let v = h.iv_lt j (omega (arith, h.iy_lt)) in
    rw
      (
        step_idum-mod r.ran2_idum h.idum_lt,
        step_idum2-mod r.ran2_idum2 h.idum2_lt,
        inside,
        combine-difference (r.ran2_iv j) (40692 * r.ran2_idum2 % 2147483399) v (omega arith),
      )
      refl

ran2_draws-modular : (n : ℕ) (r : Ran2) → InRange r → ran2_draws n r ≡ some (modular_draws n r)
unfolding ran2_draws modular_draws
ran2_draws-modular zero r h = refl
ran2_draws-modular (suc n) r h =
    rw
      (ran2_rand_real-modular r h, ran2_draws-modular n (modular_next r) (modular_next-InRange r h))
      refl

warm_up-modular :
    (j x : ℕ) (iv : ℕ → ℕ) → x < 2147483563 → warm_up j x iv ≡ some (modular_warm j x iv)
unfolding warm_up
warm_up-modular zero x iv h = refl
warm_up-modular (suc j) x iv h = rw (step_idum-mod x h) (
    warm_up-modular j (40014 * x % 2147483563)
      (if ltb j 32 then store iv j (40014 * x % 2147483563) else iv) (omega arith))

ran2_rand_init-modular :
    (seed : ℕ) (memory : ℕ → ℕ)
    → seed < 2147483563
    → ran2_rand_init seed memory ≡ some (modular_init seed memory)
unfolding ran2_rand_init modular_init seed_idum
ran2_rand_init-modular seed memory h =
    let start : (if seed == 0 then 1 else seed) < 2147483563 = ground arith in
    let small : ltb (if seed == 0 then 1 else seed) (2 ^ 63) ≡ true = lt→ltb _ _ (omega arith) in
    rw (small, warm_up-modular 40 (if seed == 0 then 1 else seed) memory start) refl

-- ran2 draws what its two modular generators and their table give: from a seed below IM1 no step stays
-- negative and no index leaves the table, the numbers drawn are those of the products modulo IM1 and IM2, and each is from 1 to IM1 - 1, whatever the memory held.
pub ran2_draws-seeded :
    (seed n : ℕ) (memory : ℕ → ℕ)
    → seed < 2147483563
    → ((ran2_rand_init seed memory >>= ran2_draws n)
        ≡ some (modular_draws n (modular_init seed memory)))
      × AllPositive (modular_draws n (modular_init seed memory))
ran2_draws-seeded seed n memory h =
    let valid = modular_init-InRange seed memory h in
    (
      rw (ran2_rand_init-modular seed memory h)
          (ran2_draws-modular n (modular_init seed memory) valid),
      modular_draws-lt n (modular_init seed memory) valid,
    )
