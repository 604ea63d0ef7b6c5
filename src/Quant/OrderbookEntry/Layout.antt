-- ===== src/Quant/OrderbookEntry/Layout.antt =====
-- Where `add_orderbook` puts the rows, and when it writes beyond the buffer.
use itex_demo.Base.{
  ℕ, zero, suc, ◌+◌, ◌*◌, ◌/◌, ◌-◌, ◌^◌, ◌≤◌, ◌<◌, ◌≡◌, refl, ap, ◌∙◌, some, List, [], ◌∷◌, ◌++◌,
  length, replicate, set, ltb, true, arith, length-replicate, length-append, lt→ltb, append_assoc,
}
use native.Mathlib.Nat.{suc-add}
use itex_demo.Quant.OrderbookEntry.Memory.{Heap, block-allocate_new, store_lem}
use itex_demo.Quant.OrderbookEntry.Ownership.{doubles, create_lem, set-last}
use itex_demo.Quant.OrderbookEntry.Writer.{put, put_rows, write_entry}
use itex_demo.Quant.OrderbookEntry.{OrderbookEntry}

module _ {A : Type 0} where
  -- Prices and volumes in turn.
  abbrev pub flat : List (A × A) → List A
  flat [] = []
  flat ((price, volume) ∷ rows) = price ∷ volume ∷ flat rows

  set-mid : (pre t : List A) (x v : A) → set (pre ++ (x ∷ t)) (length pre) v ≡ pre ++ (v ∷ t)
  set-mid [] t x v = refl
  set-mid (y ∷ pre) t x v = ap (λ l. y ∷ l) (set-mid pre t x v)

  inside : (pre t : List A) (x : A) → ltb (length pre) (length (pre ++ (x ∷ t))) ≡ true
  inside pre t x = lt→ltb _ _ (omega (arith, length-append pre (x ∷ t)))

  -- A write into the heap's last block.
  pub put_last :
      (h : Heap A) (pre t : List A) (x v : A) (i : ℕ)
      → i ≡ length pre
      → put (some (length h)) i v (h ++ (some (pre ++ (x ∷ t)) ∷ []))
        ≡ some (h ++ (some (pre ++ (v ∷ t)) ∷ []))
  unfolding put
  put_last h pre t x v i e =
      store_lem _ (length h) i v _ (block-allocate_new h (pre ++ (x ∷ t)))
      ∙ rw (e, inside pre t x, set-mid pre t x v, set-last h)

  put_next :
      (h : Heap A) (pre t : List A) (u x v : A) (i : ℕ)
      → i ≡ suc (length pre)
      → put (some (length h)) i v (h ++ (some (pre ++ (u ∷ x ∷ t)) ∷ []))
        ≡ some (h ++ (some (pre ++ (u ∷ v ∷ t)) ∷ []))
  put_next h pre t u x v i e =
      rw (append_assoc pre (u ∷ []) (x ∷ t), append_assoc pre (u ∷ []) (v ∷ t)) at
        (put_last h (pre ++ (u ∷ [])) t x v i (omega (arith, length-append pre (u ∷ []))))

  pub put_rows_last :
      (rows : List (A × A)) (h : Heap A) (base i : ℕ) (pre mid post : List A)
      → length mid ≡ length rows * 2
      → base + i * 2 ≡ length pre
      → put_rows (some (length h)) base i rows (h ++ (some (pre ++ (mid ++ post)) ∷ []))
        ≡ some (h ++ (some (pre ++ (flat rows ++ post)) ∷ []))
  unfolding put_rows
  put_rows_last [] h base i pre [] post m p = refl
  put_rows_last [] h base i pre (x ∷ mid) post m p = absurd (omega arith)
  put_rows_last ((price, volume) ∷ rows) h base i pre [] post m p = absurd (omega arith)
  put_rows_last ((price, volume) ∷ rows) h base i pre (x ∷ []) post m p = absurd (omega arith)
  put_rows_last ((price, volume) ∷ rows) h base i pre (x ∷ y ∷ mid) post m p =
      let t = mid ++ post in
      let pre' = pre ++ (price ∷ volume ∷ []) in
      let longer : base + (i + 1) * 2 ≡ length pre' =
        omega (arith, length-append pre (price ∷ volume ∷ [])) in
      let rest : put_rows (some (length h)) base (i + 1) rows
            (h ++ (some (pre ++ (price ∷ volume ∷ t)) ∷ []))
          ≡ some (h ++ (some (pre ++ (price ∷ volume ∷ (flat rows ++ post))) ∷ [])) =
        rw
          (
            append_assoc pre (price ∷ volume ∷ []) t,
            append_assoc pre (price ∷ volume ∷ []) (flat rows ++ post),
          )
          at (put_rows_last rows h base (i + 1) pre' mid post (omega arith) longer) in
      rw
        (
          put_last h pre (y ∷ t) x price (base + i * 2) p,
          put_next h pre t price y volume (base + (i * 2 + 1)) (omega arith),
        )
        rest

  replicate-add : (m n : ℕ) (x : A) → replicate (m + n) x ≡ replicate m x ++ replicate n x
  replicate-add zero n x = ap (λ k. replicate k x) {y = n} (omega arith)
  replicate-add (suc m) n x = rw (suc-add, replicate-add m n x)

  pub length-flat : (rows : List (A × A)) → length (flat rows) ≡ length rows * 2
  length-flat [] = refl
  length-flat (r ∷ rows) = omega (arith, length-flat rows)

  -- A new buffer, cut where the rows will go.
  pub zeros :
      (depth b a : ℕ) (x : A)
      → b ≤ depth
      → a ≤ depth
      → replicate (doubles depth) x
        ≡ x
          ∷ x
          ∷ (replicate (b * 2) x
              ++ (replicate ((depth - b) * 2) x
                  ++ (replicate (a * 2) x ++ replicate ((depth - a) * 2) x)))
  zeros depth b a x h k =
      ap (λ n. replicate n x)
        {y = suc (suc (b * 2 + ((depth - b) * 2 + (a * 2 + (depth - a) * 2))))} (omega arith)
      ∙ rw (replicate-add (b * 2), replicate-add ((depth - b) * 2), replicate-add (a * 2))

  -- The doubles of an entry whose rows fit: the id, the time, the bids and the asks, each of them
  -- filled up to `depth` rows with `blank`.
  abbrev pub layout : A → A → A → ℕ → List (A × A) → List (A × A) → List A
  layout blank security_id timestamp depth bids asks =
      security_id
      ∷ timestamp
      ∷ (flat bids
          ++ (replicate ((depth - length bids) * 2) blank
              ++ (flat asks ++ replicate ((depth - length asks) * 2) blank)))

  -- A book with at most as many bids and as many asks as the entry's depth, half the rows of the
  -- request, is written whole, each side in its place, into a new buffer; the depth is taken below
  -- 2 ^ 59, where the number of bytes is a `size_t`.
  pub write_entry-layout :
      (h : Heap A) (blank junk security_id timestamp : A) (orderbook_size : ℕ)
      (bids asks : List (A × A))
      → let depth = orderbook_size / 2 in
        let e : OrderbookEntry = record {
          orderbook_depth = depth;
          size = doubles depth;
          buffer = some (length h);
        } in
        depth < 2 ^ 59
        → length bids ≤ depth
        → length asks ≤ depth
        → write_entry blank junk security_id timestamp orderbook_size bids asks h
          ≡ some (h ++ (some (layout blank security_id timestamp depth bids asks) ∷ []), e)
  unfolding write_entry
  write_entry-layout h blank junk security_id timestamp orderbook_size bids asks small hb ha =
      let depth = orderbook_size / 2 in
      let b = length bids in
      let a = length asks in
      let last_part = replicate ((depth - a) * 2) blank in
      let gap = replicate ((depth - b) * 2) blank in
      let room = replicate (a * 2) blank in
      let pre = security_id ∷ timestamp ∷ (flat bids ++ gap) in
      let placed : put_rows (some (length h)) (2 + depth * 2) 0 asks (
            h
            ++ (some (security_id ∷ timestamp ∷ (flat bids ++ (gap ++ (room ++ last_part)))) ∷ []))
          ≡ some (h ++ (some (layout blank security_id timestamp depth bids asks) ∷ [])) =
        rw
          (
            append_assoc (flat bids) gap (room ++ last_part),
            append_assoc (flat bids) gap (flat asks ++ last_part),
          )
          at
          (put_rows_last asks h (2 + depth * 2) 0 pre room last_part
            (length-replicate (a * 2) blank)
            (omega (
              arith,
              length-append (flat bids) gap,
              length-flat bids,
              length-replicate ((depth - b) * 2) blank,
            ))) in
      rw (
        create_lem h depth blank junk small,
        length-replicate (doubles depth) blank,
        zeros depth b a blank hb ha,
        put_last h [] _ blank security_id 0 refl,
        put_last h (security_id ∷ []) _ blank timestamp 1 refl,
        put_rows_last bids h 2 0 (security_id ∷ timestamp ∷ []) _ _ (length-replicate (b * 2) blank)
            refl,
        placed,
      )
