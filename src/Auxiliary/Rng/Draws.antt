-- ===== src/Auxiliary/Rng/Draws.antt =====
-- The numbers that `uni_rand_int32` of platform/aux/src/rng.cpp draws.
use itex_demo.Base.{
  refl, zero, ℕ_discrete, ◌≤◌, ap₂, ◌∷◌, ap, ◌==◌, arith, ◌∙◌, ◌+◌, ◌-◌, [], suc, ◌<◌, List, ◌≡◌, ℕ,
}
use itex_demo.Auxiliary.Rng.Register.{word, word-begin, word-Recurs, Recurs, twist_all-recurs}
use itex_demo.Auxiliary.Rng.{
  false, true, Twister, twist, temper, uni_rand_init, uni_rand_int32, count_down, mt_next_state,
  new_twister, twist_all,
}
use Prim.Native.Nat.{bit_xor}

-- Numbers drawn one behind the other.
unfoldable pub draw : ℕ → Twister → List ℕ
draw zero t = []
draw (suc n) t = let (y, t') = uni_rand_int32 t in y ∷ draw n t'

-- The words from the `k`th on that a sequence has behind its first 624, tempered.
unfoldable pub tempered : (ℕ → ℕ) → ℕ → ℕ → List ℕ
tempered s k zero = []
tempered s k (suc n) = temper (s (k + 624)) ∷ tempered s (suc k) n

-- The state behind `k` numbers: the array holds 624 words in a row, of which `mt_left - 1` are not drawn
-- yet.
record After (s : ℕ → ℕ) (k : ℕ) (t : Twister) : Type 0 where
  pub seeded : t.mt_initf ≡ true
  pub base : ℕ
  pub holds : (i : ℕ) → i < 624 → t.mt_state i ≡ s (base + i)
  pub left_over : 0 < t.mt_left
  pub left_most : t.mt_left ≤ 624
  pub place : base + 1 ≡ k + t.mt_left
  pub next_place : 1 < t.mt_left → t.mt_next + t.mt_left ≡ 625

module _ (s : ℕ → ℕ) (recurs : Recurs s) where
  uni_rand_int32-last :
      (t : Twister)
      → t.mt_initf ≡ true
      → t.mt_left ≡ 1
      → uni_rand_int32 t ≡ (
        temper (twist_all t.mt_state 0),
        record { mt_state = twist_all t.mt_state; mt_left = 624; mt_initf = true; mt_next = 1 },
      )
  unfolding uni_rand_int32 count_down mt_next_state
  uni_rand_int32-last t e f = ground arith

  uni_rand_int32-next :
      (t : Twister)
      → 1 < t.mt_left
      → uni_rand_int32 t ≡ (
        temper (t.mt_state t.mt_next),
        record t { mt_left = t.mt_left - 1; mt_next = suc t.mt_next },
      )
  unfolding uni_rand_int32 count_down
  uni_rand_int32-next t h =
      let test : (t.mt_left - 1 == 0) ≡ false = ground arith in rw (test, uni_rand_int32) refl

  uni_rand_int32-After :
      (k : ℕ) (t : Twister)
      → After s k t
      → ((uni_rand_int32 t).0 ≡ temper (s (k + 624))) × After s (suc k) (uni_rand_int32 t).1
  uni_rand_int32-After k t h = elim (ℕ_discrete t.mt_left 1) [
    | yes one ↦
        let batch =
          twist_all-recurs (λ i. s (h.base + i))
            (λ i.
              ap s {x = h.base + (i + 624)} {y = h.base + i + 624} (omega arith)
              ∙ recurs (h.base + i)
              ∙ ap₂ bit_xor (ap s {x = h.base + i + 397} {y = h.base + (i + 397)} (omega arith)) (
                  ap (λ j. twist (s (h.base + i)) (s j)) {x = suc (h.base + i)} {y = h.base + suc i}
                    (omega arith)))
            t.mt_state h.holds in
        rw (uni_rand_int32-last t h.seeded one) (
          ap temper (
              batch 0 (omega arith)
              ∙ ap s {x = h.base + (0 + 624)} {y = k + 624} (omega (arith, h.place, one))),
          record {
            seeded = refl;
            base = h.base + 624;
            holds = λ i l.
                batch i l ∙ ap s {x = h.base + (i + 624)} {y = h.base + 624 + i} (omega arith);
            left_over = omega arith;
            left_most = omega arith;
            place = omega (arith, h.place, one);
            next_place = λ l. omega arith;
          },
        )
    | no more ↦
        let many : 1 < t.mt_left = omega (arith, h.left_over) in
        rw (uni_rand_int32-next t many) (
          ap temper (
              h.holds t.mt_next (omega (arith, h.next_place many))
              ∙ ap s {x = h.base + t.mt_next} {y = k + 624}
                  (omega (arith, h.place, h.next_place many))),
          record {
            seeded = h.seeded;
            base = h.base;
            holds = h.holds;
            left_over = omega arith;
            left_most = omega (arith, h.left_most);
            place = omega (arith, h.place);
            next_place = λ l. omega (arith, h.next_place many);
          },
        )
  ]

  draw-After : (n k : ℕ) (t : Twister) → After s k t → draw n t ≡ tempered s k n
  unfolding draw tempered
  draw-After zero k t h = refl
  draw-After (suc n) k t h =
      let (first, next) = uni_rand_int32-After k t h in
      ap₂ (λ (y : ℕ) ys. y ∷ ys) first (draw-After n (suc k) (uni_rand_int32 t).1 next)

-- The generator draws the Mersenne twister's sequence: from any seed, and whatever the memory held
-- before, the numbers that `uni_rand_int32` gives are, in order and across its batches of 624, which it
-- makes in place, the tempered words of the shift register that begins with the seeded words.
pub draw-register :
    (seed n : ℕ) (t : Twister)
    → draw n (uni_rand_init seed t) ≡ tempered (word (uni_rand_init seed t).mt_state) 0 n
draw-register seed n t =
    let w = (uni_rand_init seed t).mt_state in
    draw-After (word w) (word-Recurs w) n 0 (uni_rand_init seed t) (
      unfold uni_rand_init in
      record {
        seeded = refl;
        base = 0;
        holds = λ i l. word-begin w i l ∙ ap (word w) {x = i} {y = 0 + i} (omega arith);
        left_over = omega arith;
        left_most = omega arith;
        place = omega arith;
        next_place = λ l. absurd (omega arith);
      })

-- A generator that was never seeded draws what the seed 5489 gives.
pub draw-unseeded :
    (n next : ℕ) (memory : ℕ → ℕ)
    → draw n (new_twister memory next) ≡ draw n (uni_rand_init 5489 (new_twister memory next))
unfolding draw uni_rand_int32 count_down mt_next_state new_twister uni_rand_init
draw-unseeded zero next memory = refl
draw-unseeded (suc n) next memory = refl
