-- ===== src/Auxiliary/Matrix/Ring.antt =====
-- Sums over commutative rings, for the products of platform/aux/include/aux/matrix.hpp.
use itex_demo.Base.{refl, arith, ap₂, ap, ◌+◌, zero, ◌*◌, sym, ◌∙◌, ◌≡◌}
use itex_demo.Auxiliary.Matrix.{suc, ℕ, Number}

pub record IsRing {T : Type 0} (num : Number T) : Type 0 where
  pub add_assoc : (a b c : T) → num.add (num.add a b) c ≡ num.add a (num.add b c)
  pub add_comm : (a b : T) → num.add a b ≡ num.add b a
  pub nought-add : (a : T) → num.add num.nought a ≡ a
  pub neg-add : (a : T) → num.add (num.neg a) a ≡ num.nought
  pub sub-add : (a b : T) → num.sub a b ≡ num.add a (num.neg b)
  pub mul_comm : (a b : T) → num.mul a b ≡ num.mul b a
  pub mul-add : (a b c : T) → num.mul a (num.add b c) ≡ num.add (num.mul a b) (num.mul a c)

module _ {T : Type 0} (num : Number T) where
  open num use {nought, add, mul, sub, neg}

  unfoldable pub sum : (ℕ → T) → ℕ → T
  sum f zero = nought
  sum f (suc n) = add (sum f n) (f n)

  module _ (ring : IsRing num) where
    open ring use {add_assoc, add_comm, nought-add, neg-add, sub-add, mul_comm, mul-add}

    add_left_comm : (a b c : T) → add a (add b c) ≡ add b (add a c)
    add_left_comm a b c = sym (add_assoc a b c) ∙ ap (λ x. add x c) (add_comm a b) ∙ add_assoc b a c

    add_interchange : (a b c d : T) → add (add a b) (add c d) ≡ add (add a c) (add b d)
    add_interchange a b c d = simp (add_assoc, add_left_comm)

    add-nought : (a : T) → add a nought ≡ a
    add-nought a = add_comm a nought ∙ nought-add a

    pub sum-add : (f g : ℕ → T) (n : ℕ) → sum (λ k. add (f k) (g k)) n ≡ add (sum f n) (sum g n)
    unfolding sum
    sum-add f g zero = sym (nought-add nought)
    sum-add f g (suc n) =
        ap (λ x. add x (add (f n) (g n))) (sum-add f g n)
        ∙ add_interchange (sum f n) (sum g n) (f n) (g n)

    -- The first term apart.
    pub sum-first : (f : ℕ → T) (n : ℕ) → sum f (suc n) ≡ add (f 0) (sum (λ k. f (suc k)) n)
    unfolding sum
    sum-first f zero = nought-add (f 0) ∙ sym (add-nought (f 0))
    sum-first f (suc n) =
        ap (λ x. add x (f (suc n))) (sum-first f n)
        ∙ add_assoc (f 0) (sum (λ k. f (suc k)) n) (f (suc n))

    -- Terms by twos.
    pub sum-pairs :
        (f : ℕ → T) (n : ℕ) → sum (λ k. add (f (2 * k)) (f (2 * k + 1))) n ≡ sum f (2 * n)
    unfolding sum
    sum-pairs f zero = refl
    sum-pairs f (suc n) =
        let twice : 2 * suc n ≡ suc (suc (2 * n)) = omega arith in
        let next : 2 * n + 1 ≡ suc (2 * n) = omega arith in
        ap (λ k. add (sum (λ k. add (f (2 * k)) (f (2 * k + 1))) n) (add (f (2 * n)) (f k))) next
        ∙ ap (λ x. add x (add (f (2 * n)) (f (suc (2 * n))))) (sum-pairs f n)
        ∙ sym (add_assoc (sum f (2 * n)) (f (2 * n)) (f (suc (2 * n))))
        ∙ ap (sum f) (sym twice)

    add-mul : (a b c : T) → mul (add a b) c ≡ add (mul a c) (mul b c)
    add-mul a b c = mul_comm (add a b) c ∙ mul-add c a b ∙ ap₂ add (mul_comm c a) (mul_comm c b)

    -- One term of the fast product: two products of each factor alone, and two of both.
    pub fast-product :
        (g g' h h' : T)
        → mul (add g h') (add g' h) ≡ add (add (mul g g') (mul h h')) (add (mul g h) (mul g' h'))
    fast-product g g' h h' =
        add-mul g h' (add g' h)
        ∙ ap₂ add (mul-add g g' h) (mul-add h' g' h)
        ∙ rw (mul_comm h' g', mul_comm h' h) (simp (add_assoc, add_comm, add_left_comm))

    -- What is subtracted first.
    pub cancel : (r c s : T) → add (sub (neg r) c) (add (add r c) s) ≡ s
    cancel r c s = rw (sub-add (neg r) c) (
        sym (add_assoc (add (neg r) (neg c)) (add r c) s)
        ∙ ap (λ x. add x s)
            (add_interchange (neg r) (neg c) r c
              ∙ ap₂ add (neg-add r) (neg-add c)
              ∙ nought-add nought)
        ∙ nought-add s)
