-- ===== src/Auxiliary/Random/Tests.antt =====
-- xorshift1024* of platform/aux/include/aux/random.hpp from a seed.
use itex_demo.Base.{refl, ◌≡◌, arith}
use itex_demo.Auxiliary.Random.Live.{generated, generated-new, Live}
use itex_demo.Auxiliary.Random.{new_xorshift1024, xorshift64}

small_step : xorshift64 1 ≡ 33554433
unfolding xorshift64
small_step = refl

generated-new_example : Live (generated 20 (new_xorshift1024 (λ i. 7) 1400000000000000000))
generated-new_example = generated-new (λ i. 7) 1400000000000000000 20 (omega arith) (omega arith)
