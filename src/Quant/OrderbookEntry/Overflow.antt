-- ===== src/Quant/OrderbookEntry/Overflow.antt =====
-- When `add_orderbook` writes beyond the entry's buffer.
use itex_demo.Base.{
  ℕ, ◌+◌, ◌*◌, ◌/◌, ◌-◌, ◌^◌, ◌≤◌, ◌<◌, ◌≡◌, refl, ◌∙◌, none, some, List, [], ◌∷◌, ◌++◌, length,
  length-set, replicate, set, ltb, if◌then◌else◌, arith, length-replicate, length-append, inl, inr,
  Bool-cases, ltb→lt,
}
use itex_demo.Quant.OrderbookEntry.Memory.{Heap, block-allocate_new, store_lem}
use itex_demo.Quant.OrderbookEntry.Ownership.{doubles, create_lem, create_large, set-last}
use itex_demo.Quant.OrderbookEntry.Writer.{put, put_rows, write_entry}
use itex_demo.Quant.OrderbookEntry.Layout.{flat, length-flat, zeros, put_last, put_rows_last}

module _ {A : Type 0} where
  put_end :
      (h : Heap A) (xs : List A) (i : ℕ) (v : A)
      → put (some (length h)) i v (h ++ (some xs ∷ []))
        ≡ (if ltb i (length xs) then some (h ++ (some (set xs i v) ∷ [])) else none)
  unfolding put
  put_end h xs i v = store_lem _ (length h) i v xs (block-allocate_new h xs) ∙ rw (set-last h)

  put_rows_beyond :
      (rows : List (A × A)) (h : Heap A) (base i : ℕ) (xs : List A)
      → length xs < base + (i + length rows) * 2
      → base + i * 2 ≤ length xs
      → put_rows (some (length h)) base i rows (h ++ (some xs ∷ [])) ≡ none
  unfolding put_rows
  put_rows_beyond [] h base i xs l r = absurd (omega arith)
  put_rows_beyond ((price, volume) ∷ rows) h base i xs l r =
      let at_price = base + i * 2 in
      let at_volume = base + (i * 2 + 1) in
      elim (Bool-cases (ltb at_price (length xs))) [
        | inr e ↦ rw (put_end h xs at_price price, e)
        | inl e ↦
            let priced = set xs at_price price in
            elim (Bool-cases (ltb at_volume (length priced))) [
              | inr f ↦ rw (put_end h xs at_price price, e, put_end h priced at_volume volume, f)
              | inl f ↦
                  rw (put_end h xs at_price price, e, put_end h priced at_volume volume, f)
                    (put_rows_beyond rows h base (i + 1) (set priced at_volume volume)
                      (omega
                        (arith, length-set xs at_price price, length-set priced at_volume volume))
                      (omega (
                        arith,
                        ltb→lt at_volume (length priced) f,
                        length-set xs at_price price,
                        length-set priced at_volume volume,
                      )))
            ]
      ]

  beyond_small :
      (h : Heap A) (blank junk security_id timestamp : A) (orderbook_size : ℕ)
      (bids asks : List (A × A))
      → let depth = orderbook_size / 2 in
        depth < 2 ^ 59
        → length bids ≤ depth
        → depth < length asks
        → write_entry blank junk security_id timestamp orderbook_size bids asks h ≡ none
  unfolding write_entry
  beyond_small h blank junk security_id timestamp orderbook_size bids asks small hb ha =
      let depth = orderbook_size / 2 in
      let b = length bids in
      let rest =
        replicate ((depth - b) * 2) blank
        ++ (replicate (0 * 2) blank ++ replicate ((depth - 0) * 2) blank) in
      let filled = security_id ∷ timestamp ∷ (flat bids ++ rest) in
      let count : length filled ≡ doubles depth = omega (
        arith,
        length-append (flat bids) rest,
        length-flat bids,
        length-append (replicate ((depth - b) * 2) blank)
            (replicate (0 * 2) blank ++ replicate ((depth - 0) * 2) blank),
        length-append (replicate (0 * 2) blank) (replicate ((depth - 0) * 2) blank),
        length-replicate ((depth - b) * 2) blank,
        length-replicate (0 * 2) blank,
        length-replicate ((depth - 0) * 2) blank,
      ) in
      rw (
        create_lem h depth blank junk small,
        zeros depth b 0 blank hb (omega arith),
        put_last h [] _ blank security_id 0 refl,
        put_last h (security_id ∷ []) _ blank timestamp 1 refl,
        put_rows_last bids h 2 0 (security_id ∷ timestamp ∷ []) _ rest
            (length-replicate (b * 2) blank) refl,
        put_rows_beyond asks h (2 + depth * 2) 0 filled (omega arith) (omega arith),
      )

  -- The defect of `add_orderbook`: the buffer has room for half the rows of the request on each
  -- side, so a book whose asks are more than that half, a book of asks alone for one, is written
  -- beyond the buffer's end. The bids are taken to fit, and the depth to be below 2 ^ 61. From 2 ^ 59 on
  -- the number of bytes wraps as well, and the new buffer is already filled beyond its end.
  pub write_entry-overflow :
      (h : Heap A) (blank junk security_id timestamp : A) (orderbook_size : ℕ)
      (bids asks : List (A × A))
      → let depth = orderbook_size / 2 in
        depth < 2 ^ 61
        → length bids ≤ depth
        → depth < length asks
        → write_entry blank junk security_id timestamp orderbook_size bids asks h ≡ none
  unfolding write_entry
  write_entry-overflow h blank junk security_id timestamp orderbook_size bids asks small hb ha =
      elim (Bool-cases (ltb (orderbook_size / 2) (2 ^ 59))) [
        | inl fits ↦
            beyond_small h blank junk security_id timestamp orderbook_size bids asks
              (ltb→lt _ _ fits) hb ha
        | inr wraps ↦ rw (create_large h (orderbook_size / 2) blank junk (ground arith) small)
      ]
