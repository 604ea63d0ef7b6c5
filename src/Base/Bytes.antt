-- ===== src/Base/Bytes.antt =====
-- Numbers as bytes, the most significant first, and bytes in a buffer.
use native.Mathlib.Nat.{pow-suc, suc-add, zero-add}
use itex_demo.Base.{
  le→leb, zero, length-append, none, ◌%◌, ◌+◌, ap, arith, ◌/◌, leb, refl, some, ◌*◌, suc,
  if◌then◌else◌, ◌^◌, ◌≡◌, [], ◌<◌, drop, take, Option, ◌++◌, ◌∷◌, length, List, ℕ,
}

unfoldable pub be_bytes : ℕ → ℕ → List ℕ
be_bytes zero n = []
be_bytes (suc k) n = be_bytes k (n / 256) ++ ((n % 256) ∷ [])

unfoldable pub read_be : ℕ → List ℕ → ℕ
read_be acc [] = acc
read_be acc (b ∷ bs) = read_be (acc * 256 + b) bs

pub length-be_bytes : (k n : ℕ) → length (be_bytes k n) ≡ k
unfolding be_bytes
length-be_bytes zero n = refl
length-be_bytes (suc k) n =
    omega
      (arith, length-append (be_bytes k (n / 256)) ((n % 256) ∷ []), length-be_bytes k (n / 256))

read_be-append :
    (acc : ℕ) (xs : List ℕ) (b : ℕ) → read_be acc (xs ++ (b ∷ [])) ≡ read_be acc xs * 256 + b
unfolding read_be
read_be-append acc [] b = refl
read_be-append acc (x ∷ xs) b = read_be-append (acc * 256 + x) xs b

pub read_be-be_bytes : (k n : ℕ) → n < 256 ^ k → read_be 0 (be_bytes k n) ≡ n
unfolding be_bytes
read_be-be_bytes zero n h = unfold read_be in omega arith
read_be-be_bytes (suc k) n h =
    let below : n / 256 < 256 ^ k = omega (arith, pow-suc 256 k) in
    rw read_be-append (omega (arith, read_be-be_bytes k (n / 256) below))

module _ {ℓ} {A : Type ℓ} where
  -- A write of `ys` at `i`, which stays within the buffer; `none` where it does not.
  unfoldable pub write_at : ℕ → List A → List A → Option (List A)
  write_at i ys xs =
      if leb (i + length ys) (length xs)
      then some (take i xs ++ (ys ++ drop (i + length ys) xs))
      else none

  -- A read of `n` items at `i`.
  unfoldable pub read_at : ℕ → ℕ → List A → Option (List A)
  read_at i n xs = if leb (i + n) (length xs) then some (take n (drop i xs)) else none

  pub take-append : (xs ys : List A) → take (length xs) (xs ++ ys) ≡ xs
  take-append [] ys = refl
  take-append (x ∷ xs) ys = ap (λ t. x ∷ t) (take-append xs ys)

  pub drop-length_append : (xs ys : List A) → drop (length xs) (xs ++ ys) ≡ ys
  drop-length_append [] ys = refl
  drop-length_append (x ∷ xs) ys = drop-length_append xs ys

  pub drop-length_add :
      (xs : List A) (n : ℕ) (ys : List A) → drop (length xs + n) (xs ++ ys) ≡ drop n ys
  drop-length_add [] n ys = ap (λ k. drop k ys) (zero-add n)
  drop-length_add (x ∷ xs) n ys = rw suc-add (drop-length_add xs n ys)

  length-append_append :
      (xs ys zs : List A) → length (xs ++ (ys ++ zs)) ≡ length xs + (length ys + length zs)
  length-append_append xs ys zs = omega (arith, length-append xs (ys ++ zs), length-append ys zs)

  pub write_at-append :
      (xs old ys zs : List A)
      → length old ≡ length ys
      → write_at (length xs) ys (xs ++ (old ++ zs)) ≡ some (xs ++ (ys ++ zs))
  unfolding write_at
  write_at-append xs old ys zs h =
      rw
        (le→leb (length xs + length ys) (length (xs ++ (old ++ zs)))
          (omega (arith, length-append_append xs old zs)))
        (rw (take-append xs (old ++ zs), drop-length_add xs (length ys) (old ++ zs))
          (rw (← h) (rw (drop-length_append old zs) refl)))

  pub read_at-append :
      (xs ys zs : List A) → read_at (length xs) (length ys) (xs ++ (ys ++ zs)) ≡ some ys
  unfolding read_at
  read_at-append xs ys zs =
      rw
        (le→leb (length xs + length ys) (length (xs ++ (ys ++ zs)))
          (omega (arith, length-append_append xs ys zs)))
        (rw (drop-length_append xs (ys ++ zs)) (rw (take-append ys zs) refl))

  pub read_at-at :
      (p k : ℕ) (xs ys zs : List A)
      → p ≡ length xs
      → k ≡ length ys
      → read_at p k (xs ++ (ys ++ zs)) ≡ some ys
  read_at-at p k xs ys zs e h = rw (e, h) (read_at-append xs ys zs)
