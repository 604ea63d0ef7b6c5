-- ===== src/Quant/OrderbookEntry/Ownership.antt =====
-- Each entry owns its buffer: what copying, moving and resizing do to the contents of the entries
-- and to the heap.
use itex_demo.Base.{
  false, ◌≤◌, ◌/◌, ℕ, zero, suc, ◌+◌, ◌*◌, ◌%◌, ◌^◌, ◌<◌, ◌≡◌, ◌≢◌, refl, ap, ◌∙◌, sym, subst,
  Option, none, some, List, [], ◌∷◌, ◌++◌, length, take, drop, replicate, set, true, ltb, leb,
  arith, length-replicate, append-nil,
}
use itex_demo.Quant.OrderbookEntry.Memory.{
  Heap, block, num_live, allocate, block-allocate_new, block-allocate_old, block_below,
  block-set_ne, num_live-allocate, num_live-release, release_lem,
}
use itex_demo.Quant.OrderbookEntry.{
  allocate_buffer, OrderbookEntry, destroy, fill_n, clear, create, read_all, copy, move_assign,
  assign_local, copy_assign, resize,
}

leb_refl : (n : ℕ) → leb n n ≡ true
leb_refl n = ground arith

-- The number of doubles for a depth.
abbrev pub doubles : ℕ → ℕ
doubles depth = depth * 2 * 2 + 2

doubles_small : (depth : ℕ) → depth < 2 ^ 61 → (depth * 2 * 2 + 2) % 2 ^ 64 ≡ doubles depth
doubles_small depth small = omega arith

bytes_small : (depth : ℕ) → depth < 2 ^ 59 → doubles depth * 8 % 2 ^ 64 / 8 ≡ doubles depth
bytes_small depth small = omega arith

bytes_large :
    (depth : ℕ) → 2 ^ 59 ≤ depth → depth < 2 ^ 61 → doubles depth * 8 % 2 ^ 64 / 8 < doubles depth
bytes_large depth large small = omega arith

doubles_pos : (depth : ℕ) → ltb 0 (doubles depth) ≡ true
doubles_pos depth = ground arith

module _ {A : Type 0} where
  take-length : (xs : List A) → take (length xs) xs ≡ xs
  take-length [] = refl
  take-length (x ∷ xs) = ap (λ ys. x ∷ ys) (take-length xs)

  leb-length : (xs : List A) → leb (length xs) (length xs) ≡ true
  leb-length xs = ground arith

  -- A buffer with its doubles: none at a null pointer.
  abbrev pub Points : Heap A → Option ℕ → List A → Type 0
  Points h none xs = xs ≡ []
  Points h (some a) xs = block h a ≡ some xs

  -- An entry with its doubles.
  abbrev pub Holds : Heap A → OrderbookEntry → List A → Type 0
  Holds h e xs = Points h e.buffer xs × (e.size ≡ length xs)

  -- What remains of the heap when `this` was given a new buffer: all other blocks, and one more
  -- live block if `this` had none.
  abbrev pub Kept : Heap A → Option ℕ → Heap A → Type 0
  Kept h old h' =
      ((a : ℕ) (xs : List A) → old ≢ some a → block h a ≡ some xs → block h' a ≡ some xs)
      × (num_live h' ≡ elim old [ none ↦ suc (num_live h) | some a ↦ num_live h ])

  -- The outcome of an assignment: `this` holds `xs` at the depth `depth`.
  abbrev pub Assigned :
      Heap A → OrderbookEntry → ℕ → List A → Option (Heap A × OrderbookEntry) → Type 0
  Assigned h this depth xs outcome =
      (h' : Heap A) × (this' : OrderbookEntry) × (outcome ≡ some (h', this'))
      × (this'.orderbook_depth ≡ depth)
      × Holds h' this' xs
      × Kept h this.buffer h'

  assign_local_lem :
      (h : Heap A) (depth size : ℕ) (buffer : Option ℕ) (old : List A) (depth' : ℕ) (xs : List A)
      → Points h buffer old
      → let this : OrderbookEntry = record {
        orderbook_depth = depth;
        size = size;
        buffer = buffer;
      } in
        let made : OrderbookEntry = record {
          orderbook_depth = depth';
          size = length xs;
          buffer = some (length h);
        } in
        Assigned h this depth' xs (assign_local this (some (h ++ (some xs ∷ []), made)))
  unfolding assign_local move_assign destroy
  assign_local_lem h depth size none old depth' xs p = (
    h ++ (some xs ∷ []),
    _,
    refl,
    refl,
    (block-allocate_new h xs, refl),
    ((λ a ys n e. block-allocate_old h xs a ys e), num_live-allocate h xs),
  )
  assign_local_lem h depth size (some a) old depth' xs p =
      let grown = h ++ (some xs ∷ []) in
      let there = block-allocate_old h xs a old p in
      let below = block_below h a old p in
      let made : OrderbookEntry = record {
        orderbook_depth = depth';
        size = length xs;
        buffer = some (length h);
      } in
      (
        set grown a none,
        made,
        rw (release_lem grown a old there, assign_local, move_assign, destroy),
        refl,
        (
          block-set_ne grown a (length h) none (λ e. absurd (omega arith))
              ∙ block-allocate_new h xs,
          refl,
        ),
        (
          (λ c ys n e.
              block-set_ne grown a c none (λ q. n (ap some q)) ∙ block-allocate_old h xs c ys e),
          omega (arith, num_live-release grown a old there, num_live-allocate h xs),
        ),
      )

  read_all_lem :
      (h : Heap A) (depth size : ℕ) (buffer : Option ℕ) (xs : List A)
      → Points h buffer xs
      → size ≡ length xs
      → let e : OrderbookEntry = record { orderbook_depth = depth; size = size; buffer = buffer } in
        read_all e h ≡ some xs
  unfolding read_all
  read_all_lem h depth size none xs p n = rw (n, p)
  read_all_lem h depth size (some a) xs p n = rw (p, read_all, n, leb-length xs, take-length xs)

  copy_lem :
      (h : Heap A) (e : OrderbookEntry) (xs : List A)
      → Holds h e xs
      → let made : OrderbookEntry = record {
        orderbook_depth = e.orderbook_depth;
        size = length xs;
        buffer = some (length h);
      } in
        copy e h ≡ some (h ++ (some xs ∷ []), made)
  unfolding copy allocate
  copy_lem h e xs (p, n) = rw (read_all_lem h e.orderbook_depth e.size e.buffer xs p n, copy, n)

  -- `operator=(const OrderbookEntry&)`, of another entry or of this one: this entry gets the depth
  -- and the doubles of `e`; its old buffer, if any, is freed once; every other buffer keeps its
  -- doubles, and nothing leaks.
  pub copy_assign-Assigned :
      (h : Heap A) (this e : OrderbookEntry) (old xs : List A)
      → Holds h this old
      → Holds h e xs
      → Assigned h this e.orderbook_depth xs (copy_assign this e h)
  unfolding copy_assign
  copy_assign-Assigned h this e old xs p q =
      subst (Assigned h this e.orderbook_depth xs)
        (sym (ap (assign_local this) (copy_lem h e xs q)))
        (assign_local_lem h this.orderbook_depth this.size this.buffer old e.orderbook_depth xs p.0)

  pub set-last :
      (h : Heap A) (b c : Option (List A)) → set (h ++ (b ∷ [])) (length h) c ≡ h ++ (c ∷ [])
  set-last [] b c = refl
  set-last (x ∷ h) b c = ap (λ t. x ∷ t) (set-last h b c)

  drop-replicate : (n : ℕ) (x : A) → drop n (replicate n x) ≡ []
  drop-replicate zero x = refl
  drop-replicate (suc n) x = drop-replicate n x

  fill_n_lem :
      (h : Heap A) (n : ℕ) (v junk : A)
      → fill_n (length h) n v (h ++ (some (replicate n junk) ∷ []))
        ≡ some (h ++ (some (replicate n v) ∷ []))
  unfolding fill_n
  fill_n_lem h n v junk = rw (
    block-allocate_new h (replicate n junk),
    fill_n,
    length-replicate n junk,
    set-last h,
    drop-replicate n junk,
    append-nil (replicate n v),
    leb_refl n,
  )

  pub create_lem :
      (h : Heap A) (depth : ℕ) (blank junk : A)
      → depth < 2 ^ 59
      → let xs = replicate (doubles depth) blank in
        let made : OrderbookEntry = record {
          orderbook_depth = depth;
          size = length xs;
          buffer = some (length h);
        } in
        create blank junk depth h ≡ some (h ++ (some xs ∷ []), made)
  unfolding create clear allocate allocate_buffer
  create_lem h depth blank junk small = rw (
    doubles_small depth (omega arith),
    create,
    allocate_buffer,
    bytes_small depth small,
    doubles_pos depth,
    fill_n_lem h (doubles depth) blank junk,
    length-replicate (doubles depth) blank,
    allocate,
    doubles_small depth (omega arith),
  )

  fill_n_beyond :
      (h : Heap A) (count room : ℕ) (v junk : A)
      → room < count
      → fill_n (length h) count v (h ++ (some (replicate room junk) ∷ [])) ≡ none
  unfolding fill_n
  fill_n_beyond h count room v junk less =
      let short : leb count room ≡ false = ground arith in
      rw (block-allocate_new h (replicate room junk), fill_n, length-replicate room junk, short)

  -- From a depth of 2 ^ 59 on the number of bytes wraps, and the new buffer is filled beyond its end.
  pub create_large :
      (h : Heap A) (depth : ℕ) (blank junk : A)
      → 2 ^ 59 ≤ depth
      → depth < 2 ^ 61
      → create blank junk depth h ≡ none
  unfolding create clear allocate allocate_buffer
  create_large h depth blank junk large small = rw (
    doubles_small depth small,
    create,
    allocate_buffer,
    doubles_pos depth,
    fill_n_beyond h (doubles depth) (doubles depth * 8 % 2 ^ 64 / 8) blank junk
        (bytes_large depth large small),
  )

  -- `resize`: this entry holds zeros, as many as the depth asks for; its old buffer, if any, is
  -- freed once; every other buffer keeps its doubles, and nothing leaks. The size is a `size_t`, so
  -- the depth is taken below 2 ^ 59.
  pub resize-Assigned :
      (h : Heap A) (this : OrderbookEntry) (old : List A) (depth : ℕ) (blank junk : A)
      → depth < 2 ^ 59
      → Holds h this old
      → Assigned h this depth (replicate (doubles depth) blank) (resize blank junk depth this h)
  unfolding resize
  resize-Assigned h this old depth blank junk small p =
      subst (Assigned h this depth (replicate (doubles depth) blank))
        (sym (ap (assign_local this) (create_lem h depth blank junk small)))
        (assign_local_lem h this.orderbook_depth this.size this.buffer old depth _ p.0)
