-- ===== src/Auxiliary/Rng/Register.antt =====
-- `mt_next_state` of platform/aux/src/rng.cpp against a shift register of 624 words.
use itex_demo.Base.{
  refl, ℕ_discrete, sym, ◌-◌, subst, zero, ◌∙◌, ◌==◌, ap₂, arith, ◌≢◌, if◌then◌else◌, ap, ◌+◌, ◌≤◌,
  ◌≡◌, suc, ◌<◌, ℕ,
}
use itex_demo.Auxiliary.Rng.{false, store, twist, twist_ahead, twist_behind, twist_all}
use Prim.Native.Nat.{bit_xor}

abbrev pub slide : (ℕ → ℕ) → ℕ → ℕ
slide w i = if i == 623 then bit_xor (w 397) (twist (w 0) (w 1)) else w (suc i)

unfoldable pub shifted : ℕ → (ℕ → ℕ) → ℕ → ℕ
shifted zero w = w
shifted (suc k) w = slide (shifted k w)

-- The words that leave the register, the first 624 of them those that it begins with.
abbrev pub word : (ℕ → ℕ) → ℕ → ℕ
word w k = shifted k w 0

word_congr : (w : ℕ → ℕ) (i j : ℕ) → i ≡ j → word w i ≡ word w j
word_congr w i j e = ap (word w) e

word-shifted : (w : ℕ → ℕ) (i k : ℕ) → i < 624 → shifted k w i ≡ word w (k + i)
unfolding shifted
word-shifted w zero k h = word_congr w k (k + 0) (omega arith)
word-shifted w (suc i) k h =
    let inside : (i == 623) ≡ false = ground arith in
    let step : shifted (suc k) w i ≡ shifted k w (suc i) = rw (inside, shifted) refl in
    sym step
    ∙ word-shifted w i (suc k) (omega arith)
    ∙ word_congr w (suc k + i) (k + suc i) (omega arith)

pub word-begin : (w : ℕ → ℕ) (i : ℕ) → i < 624 → w i ≡ word w i
unfolding shifted
word-begin w i h = word-shifted w i 0 h ∙ word_congr w (0 + i) i (omega arith)

-- The recurrence of the Mersenne twister.
abbrev pub Recurs : (ℕ → ℕ) → Type 0
Recurs s = (k : ℕ) → s (k + 624) ≡ bit_xor (s (k + 397)) (twist (s k) (s (suc k)))

pub word-Recurs : (w : ℕ → ℕ) → Recurs (word w)
word-Recurs w k =
    word_congr w (k + 624) (suc k + 623) (omega arith)
    ∙ sym (word-shifted w 623 (suc k) (omega arith))
    ∙ (unfold shifted in
        ap₂ bit_xor (word-shifted w 397 k (omega arith)) (
          ap₂ twist (word-shifted w 0 k (omega arith) ∙ word_congr w (k + 0) k (omega arith))
            (word-shifted w 1 k (omega arith) ∙ word_congr w (k + 1) (suc k) (omega arith))))

pub store-same : (a : ℕ → ℕ) (i v : ℕ) → store a i v i ≡ v
unfolding store
store-same a i v = ground arith

pub store-other : (a : ℕ → ℕ) (i v k : ℕ) → k ≢ i → store a i v k ≡ a k
unfolding store
store-other a i v k h = ground arith

module _ (s : ℕ → ℕ) (recurs : Recurs s) where
  -- A batch that has passed the words below `p`.
  record Passed (p : ℕ) (a : ℕ → ℕ) : Type 0 where
    pub behind : (i : ℕ) → i < p → a i ≡ s (i + 624)
    pub ahead : (i : ℕ) → p ≤ i → i < 624 → a i ≡ s i

  -- One word of a batch.
  pass_word :
      (p : ℕ) (a : ℕ → ℕ) (x y : ℕ)
      → Passed p a
      → p < 624
      → x ≡ s (p + 397)
      → y ≡ s (suc p)
      → Passed (suc p) (store a p (bit_xor x (twist (a p) y)))
  pass_word p a x y h l e f =
      let new : bit_xor x (twist (a p) y) ≡ s (p + 624) =
        ap₂ bit_xor e (ap₂ twist (h.ahead p (omega arith) l) f) ∙ sym (recurs p) in
      record {
        behind = λ i q. elim (ℕ_discrete i p) [
          | yes same ↦
              ap (store a p (bit_xor x (twist (a p) y))) same
              ∙ store-same a p _
              ∙ new
              ∙ ap (λ j. s (j + 624)) (sym same)
          | no other ↦ store-other a p _ i other ∙ h.behind i (omega arith)
        ];
        ahead = λ i q r. store-other a p _ i (omega arith) ∙ h.ahead i (omega arith) r;
      }

  twist_ahead-Passed :
      (n p : ℕ) (a : ℕ → ℕ) → Passed p a → p + n ≤ 227 → Passed (p + n) (twist_ahead n a p)
  unfolding twist_ahead
  twist_ahead-Passed zero p a h l = subst (λ q. Passed q a) (omega arith) h
  twist_ahead-Passed (suc n) p a h l =
      subst (λ q. Passed q (twist_ahead (suc n) a p)) (omega arith)
        (twist_ahead-Passed n (suc p) _
          (pass_word p a _ _ h (omega arith) (h.ahead (p + 397) (omega arith) (omega arith))
            (h.ahead (suc p) (omega arith) (omega arith)))
          (omega arith))

  twist_behind-Passed :
      (n p : ℕ) (a : ℕ → ℕ)
      → Passed p a
      → 227 ≤ p
      → p + n ≤ 623
      → Passed (p + n) (twist_behind n a p)
  unfolding twist_behind
  twist_behind-Passed zero p a h g l = subst (λ q. Passed q a) (omega arith) h
  twist_behind-Passed (suc n) p a h g l =
      subst (λ q. Passed q (twist_behind (suc n) a p)) (omega arith)
        (twist_behind-Passed n (suc p) _
          (pass_word p a _ _ h (omega arith) (h.behind (p - 227) (omega arith) ∙ ap s (omega arith))
            (h.ahead (suc p) (omega arith) (omega arith)))
          (omega arith) (omega arith))

  -- A batch, made in place, moves the array on by 624 words of the recurrence.
  pub twist_all-recurs :
      (a : ℕ → ℕ)
      → ((i : ℕ) → i < 624 → a i ≡ s i)
      → (i : ℕ) → i < 624
      → twist_all a i ≡ s (i + 624)
  unfolding twist_all
  twist_all-recurs a h i l =
      let start : Passed 0 a = record {
        behind = λ i q. absurd (omega arith);
        ahead = λ i q r. h i r;
      } in
      let first = twist_ahead-Passed 227 0 a start (omega arith) in
      let most : Passed 623 (twist_behind 396 (twist_ahead 227 a 0) 227) =
        twist_behind-Passed 396 227 _ first (omega arith) (omega arith) in
      let all =
        pass_word 623 _ _ _ most (omega arith) (most.behind 396 (omega arith))
          (most.behind 0 (omega arith)) in
      all.behind i l
