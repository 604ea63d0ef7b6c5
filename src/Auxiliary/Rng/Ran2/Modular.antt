-- ===== src/Auxiliary/Rng/Ran2/Modular.antt =====
-- The products of ran2, which stay in a word of 32 bits.
use itex_demo.Base.{refl, ◌+◌, ◌/◌, ◌-◌, ◌%◌, arith, ◌*◌, ◌≡◌, ◌^◌, ◌≤◌, ◌<◌}
use itex_demo.Auxiliary.Rng.Ran2.{
  suc, none, some, ℕ, schrage, step_idum, step_idum2, ran2_rand_init, warm_up, seed_idum,
}

pub step_idum-mod : (x : ℕ) → x < 2147483563 → step_idum x ≡ some (40014 * x % 2147483563)
unfolding step_idum schrage
step_idum-mod x h = ground arith

pub step_idum2-mod : (x : ℕ) → x < 2147483563 → step_idum2 x ≡ some (40692 * x % 2147483399)
unfolding step_idum2 schrage
step_idum2-mod x h = ground arith

step_idum-large : (x : ℕ) → 20000000000 ≤ x → step_idum x ≡ none
unfolding step_idum schrage
step_idum-large x h =
    let up : 40014 * (x - x / 53668 * 53668) ≤ 40014 * 53667 = omega arith in
    let down : 40014 * 53667 + 2147483563 < x / 53668 * 12211 = omega arith in ground arith

seed_idum-same : (seed : ℕ) → 0 < seed → seed < 2 ^ 63 → seed_idum seed ≡ seed
unfolding seed_idum
seed_idum-same seed h l = ground arith

warm_up-large : (j x : ℕ) (iv : ℕ → ℕ) → 20000000000 ≤ x → warm_up (suc j) x iv ≡ none
unfolding warm_up
warm_up-large j x iv h = rw (step_idum-large x h) refl

-- A seed of 2 * 10 ^ 10 or more is not reduced first: its first step is negative even after
-- `_ran2_idum += IM1`, for which the model stops.
pub ran2_rand_init-large :
    (seed : ℕ) (memory : ℕ → ℕ)
    → 20000000000 ≤ seed
    → seed < 2 ^ 63
    → ran2_rand_init seed memory ≡ none
unfolding ran2_rand_init
ran2_rand_init-large seed memory h l =
    let same = seed_idum-same seed (omega arith) l in
    let stops = warm_up-large 39 (seed_idum seed) memory (omega (arith, same)) in rw stops refl
