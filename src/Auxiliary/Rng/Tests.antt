-- ===== src/Auxiliary/Rng/Tests.antt =====
-- The generators of platform/aux/src/rng.cpp on seeds.
use itex_demo.Base.{some, arith, ◌>>=◌, refl, ◌≡◌}
use itex_demo.Auxiliary.Rng.Ran2.Range.{ran2_draws, ran2_draws-seeded}
use itex_demo.Auxiliary.Rng.Ran2.Reference.{modular_draws, modular_init, AllPositive}
use itex_demo.Auxiliary.Rng.Ran2.{ran2_rand_init}
use itex_demo.Auxiliary.Rng.Bounds.{AllLt, draw-lt}
use itex_demo.Auxiliary.Rng.Draws.{draw, tempered, draw-register, draw-unseeded}
use itex_demo.Auxiliary.Rng.Register.{word}
use itex_demo.Auxiliary.Rng.{ℕ, ◌^◌, uni_rand_init, new_twister, Twister, temper, init_word}

abbrev memory : ℕ → ℕ
memory i = 204

abbrev unseeded : Twister
unseeded = new_twister memory 99

-- The second word of the seed 5489.
second_word : init_word 5489 1 ≡ 1301868182
unfolding init_word
second_word = refl

tempered_one : temper 1 ≡ 4194449
unfolding temper
tempered_one = refl

draw-register_example :
    draw 3 (uni_rand_init 5489 unseeded)
    ≡ tempered (word (uni_rand_init 5489 unseeded).mt_state) 0 3
draw-register_example = draw-register 5489 3 unseeded

draw-unseeded_example : draw 2 unseeded ≡ draw 2 (uni_rand_init 5489 unseeded)
draw-unseeded_example = draw-unseeded 2 99 memory

draw-lt_example : AllLt (2 ^ 32) (draw 2 (uni_rand_init 5489 unseeded))
draw-lt_example = draw-lt 5489 2 unseeded

ran2_draws-seeded_example :
    ((ran2_rand_init 42 memory >>= ran2_draws 3) ≡ some (modular_draws 3 (modular_init 42 memory)))
    × AllPositive (modular_draws 3 (modular_init 42 memory))
ran2_draws-seeded_example = ran2_draws-seeded 42 3 memory (omega arith)
