-- ===== src/Auxiliary/Rng/Ran2.antt =====
-- `ran2_rand_init` and `ran2_rand_real` of platform/aux/src/rng.cpp, up to the number that the latter
-- scales to a real. A `long` is a natural number here: a value that stays negative is `none`, as is a
-- read outside the table.
pub mod Modular
pub mod Reference
pub mod Range
use itex_demo.Base.{
  ◌+◌, none, leb, zero, ◌^◌, ◌==◌, ◌/◌, ◌-◌, ltb, ◌>>=◌, some, ◌*◌, if◌then◌else◌, Option,
}
use itex_demo.Auxiliary.Rng.{suc, ℕ, store}

pub record Ran2 : Type 0 where
  pub ran2_idum : ℕ
  pub ran2_idum2 : ℕ
  pub ran2_iy : ℕ
  pub ran2_iv : ℕ → ℕ

-- `ia * (x - k * iq) - k * ir` for k = x / iq, and `im` more where that is negative.
unfoldable pub schrage : ℕ → ℕ → ℕ → ℕ → ℕ → Option ℕ
schrage ia iq ir im x =
    let up = ia * (x - x / iq * iq) in
    let down = x / iq * ir in
    if leb down up
    then some (up - down)
    else if leb down (up + im)
    then some (up + im - down)
    else none

unfoldable pub step_idum : ℕ → Option ℕ
step_idum x = schrage 40014 53668 12211 2147483563 x

unfoldable pub step_idum2 : ℕ → Option ℕ
step_idum2 x = schrage 40692 52774 3791 2147483399 x

-- The loop of `ran2_rand_init` from `j - 1` down.
unfoldable pub warm_up : ℕ → ℕ → (ℕ → ℕ) → Option (ℕ × (ℕ → ℕ))
warm_up zero x iv = some (x, iv)
warm_up (suc j) x iv = do y ← step_idum x; warm_up j y (if ltb j 32 then store iv j y else iv)

-- The seed as a `long`, without its sign, and one for zero.
unfoldable pub seed_idum : ℕ → ℕ
seed_idum seed =
    let idum = if seed == 0 then 1 else seed in if ltb idum (2 ^ 63) then idum else 2 ^ 64 - idum

unfoldable pub ran2_rand_init : ℕ → (ℕ → ℕ) → Option Ran2
ran2_rand_init seed memory = do
  warm ← warm_up 40 (seed_idum seed) memory
  some (record {
    ran2_idum = warm.0;
    ran2_idum2 = seed_idum seed;
    ran2_iy = warm.1 0;
    ran2_iv = warm.1;
  })

-- `_ran2_iy`: a difference, and 2147483562 more where that is below one.
unfoldable pub combine : ℕ → ℕ → Option ℕ
combine v y =
    if ltb y v
    then some (v - y)
    else if leb y (v + 2147483562)
    then some (v + 2147483562 - y)
    else none

unfoldable pub table_read : (ℕ → ℕ) → ℕ → Option ℕ
table_read iv j = if ltb j 32 then some (iv j) else none

unfoldable pub ran2_rand_real : Ran2 → Option (ℕ × Ran2)
ran2_rand_real r = do
  x ← step_idum r.ran2_idum
  y ← step_idum2 r.ran2_idum2
  let j = r.ran2_iy / 67108862
  v ← table_read r.ran2_iv j
  iy ← combine v y
  some (iy, record { ran2_idum = x; ran2_idum2 = y; ran2_iy = iy; ran2_iv = store r.ran2_iv j x })
