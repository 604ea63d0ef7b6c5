-- ===== src/Quant/OrderbookEntry/Memory.antt =====
-- The C heap as far as `allocate_buffer` and `free` use it: blocks of doubles under addresses that
-- are never given out twice. Allocation succeeds.
use itex_demo.Base.{
  ℕ, zero, suc, ◌<◌, ◌≡◌, ◌≢◌, refl, ap, Option, none, some, List, [], ◌∷◌, ◌++◌, length, set,
  arith, ltb, if◌then◌else◌,
}

-- A freed block is `none`.
abbrev pub Heap : Type 0 → Type 0
Heap A = List (Option (List A))

module _ {A : Type 0} where
  -- The live block at an address.
  abbrev pub block : Heap A → ℕ → Option (List A)
  block [] a = none
  block (b ∷ h) zero = b
  block (b ∷ h) (suc a) = block h a

  abbrev pub num_live : Heap A → ℕ
  num_live [] = 0
  num_live (none ∷ h) = num_live h
  num_live (some b ∷ h) = suc (num_live h)

  -- `aux::allocate_buffer`
  unfoldable pub allocate : Heap A → List A → Heap A × ℕ
  allocate h b = (h ++ (some b ∷ []), length h)

  -- `free` of a live block; any other address is a fault.
  unfoldable pub release : Heap A → ℕ → Option (Heap A)
  release h a = elim (block h a) [ none ↦ none | some b ↦ some (set h a none) ]

  -- `data[i] = v`; out of bounds is a fault.
  unfoldable pub store : Heap A → ℕ → ℕ → A → Option (Heap A)
  store h a i v = elim (block h a) [
    | none ↦ none
    | some b ↦ if ltb i (length b) then some (set h a (some (set b i v))) else none
  ]

  pub block-allocate_new :
      (h : Heap A) (b : List A) → block (h ++ (some b ∷ [])) (length h) ≡ some b
  block-allocate_new [] b = refl
  block-allocate_new (x ∷ h) b = block-allocate_new h b

  pub block-allocate_old :
      (h : Heap A) (b : List A) (a : ℕ) (xs : List A)
      → block h a ≡ some xs
      → block (h ++ (some b ∷ [])) a ≡ some xs
  block-allocate_old [] b a xs e = ground arith
  block-allocate_old (x ∷ h) b zero xs e = e
  block-allocate_old (x ∷ h) b (suc a) xs e = block-allocate_old h b a xs e

  pub block_below : (h : Heap A) (a : ℕ) (xs : List A) → block h a ≡ some xs → a < length h
  block_below [] a xs e = ground arith
  block_below (x ∷ h) zero xs e = omega arith
  block_below (x ∷ h) (suc a) xs e = omega (arith, block_below h a xs e)

  pub block-set_self :
      (h : Heap A) (a : ℕ) (b : Option (List A)) → a < length h → block (set h a b) a ≡ b
  block-set_self [] a b l = absurd (omega arith)
  block-set_self (x ∷ h) zero b l = refl
  block-set_self (x ∷ h) (suc a) b l = block-set_self h a b (omega arith)

  pub block-set_ne :
      (h : Heap A) (a c : ℕ) (b : Option (List A)) → a ≢ c → block (set h a b) c ≡ block h c
  block-set_ne [] a c b n = refl
  block-set_ne (x ∷ h) zero zero b n = absurd (n refl)
  block-set_ne (x ∷ h) zero (suc c) b n = refl
  block-set_ne (x ∷ h) (suc a) zero b n = refl
  block-set_ne (x ∷ h) (suc a) (suc c) b n = block-set_ne h a c b (λ e. n (ap suc e))

  pub num_live-allocate :
      (h : Heap A) (b : List A) → num_live (h ++ (some b ∷ [])) ≡ suc (num_live h)
  num_live-allocate [] b = refl
  num_live-allocate (none ∷ h) b = num_live-allocate h b
  num_live-allocate (some x ∷ h) b = ap suc (num_live-allocate h b)

  pub num_live-release :
      (h : Heap A) (a : ℕ) (xs : List A)
      → block h a ≡ some xs
      → suc (num_live (set h a none)) ≡ num_live h
  num_live-release [] a xs e = ground arith
  num_live-release (none ∷ h) zero xs e = ground arith
  num_live-release (some x ∷ h) zero xs e = refl
  num_live-release (none ∷ h) (suc a) xs e = num_live-release h a xs e
  num_live-release (some x ∷ h) (suc a) xs e = ap suc (num_live-release h a xs e)

  -- What a release and a store give where the block is live.
  pub release_lem :
      (h : Heap A) (a : ℕ) (xs : List A) → block h a ≡ some xs → release h a ≡ some (set h a none)
  unfolding release
  release_lem h a xs e = rw (e, release)

  pub store_lem :
      (h : Heap A) (a i : ℕ) (v : A) (xs : List A)
      → block h a ≡ some xs
      → store h a i v ≡ (if ltb i (length xs) then some (set h a (some (set xs i v))) else none)
  unfolding store
  store_lem h a i v xs e = rw (e, store)
