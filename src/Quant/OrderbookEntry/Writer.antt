-- ===== src/Quant/OrderbookEntry/Writer.antt =====
-- services/demo-manager/http-server-handler.cpp, `add_orderbook`: the rows of a request's order
-- book become an `OrderbookEntry`, the bids first, best price first, and then the asks.
-- The parsing of the request and the database queue are left out: the rows are given as pairs of a
-- price and a volume. The order of doubles is a parameter, as is `std::sort`.
use itex_demo.Base.{
  ℕ, ◌+◌, ◌*◌, ◌/◌, Bool, not, ◌&&◌, ◌>>=◌, Option, none, some, List, [], ◌∷◌, length,
  if◌then◌else◌,
}
use itex_demo.Quant.OrderbookEntry.Memory.{Heap, store}
use itex_demo.Quant.OrderbookEntry.{OrderbookEntry, create}

-- `asks()` less `data_`
abbrev pub asks_offset : OrderbookEntry → ℕ
asks_offset e = 2 + e.orderbook_depth * 2

module _ {A : Type 0} where
  -- The rows with a volume that `test` accepts.
  unfoldable pub select : (A → Bool) → List (A × A) → List (A × A)
  select test [] = []
  select test ((price, volume) ∷ rows) =
      if test volume then (price, volume) ∷ select test rows else select test rows

  -- `data[at] = v` of a buffer that may be null.
  unfoldable pub put : Option ℕ → ℕ → A → Heap A → Option (Heap A)
  unfolding store
  put none at v h = none
  put (some a) at v h = store h a at v

  -- The loop that writes `rows` from index `i` on into the buffer at the offset `base`.
  unfoldable pub put_rows : Option ℕ → ℕ → ℕ → List (A × A) → Heap A → Option (Heap A)
  unfolding put
  put_rows buffer base i [] h = some h
  put_rows buffer base i ((price, volume) ∷ rows) h = do
    priced ← put buffer (base + i * 2) price h
    written ← put buffer (base + (i * 2 + 1)) volume priced
    put_rows buffer base (i + 1) rows written

  -- What `add_orderbook` does with an order book of `orderbook_size` rows, split into `bids` and
  -- `asks`.
  unfoldable pub write_entry :
      A → A → A → A → ℕ → List (A × A) → List (A × A) → Heap A → Option (Heap A × OrderbookEntry)
  unfolding create put put_rows
  write_entry blank junk security_id timestamp orderbook_size bids asks h = do
    (made, e) ← create blank junk (orderbook_size / 2) h
    named ← put e.buffer 0 security_id made
    timed ← put e.buffer 1 timestamp named
    with_bids ← put_rows e.buffer 2 0 bids timed
    with_asks ← put_rows e.buffer (asks_offset e) 0 asks with_bids
    some (with_asks, e)

  -- `add_orderbook` from the rows on.
  unfoldable pub add_orderbook :
      (A → Bool)
      → (A → Bool)
      → (List (A × A) → List (A × A))
      → (List (A × A) → List (A × A))
      → A
      → A
      → A
      → A
      → List (A × A)
      → Heap A
      → Option (Heap A × OrderbookEntry)
  unfolding select write_entry
  add_orderbook is_positive is_negative sort_down sort_up blank junk security_id timestamp rows h =
      write_entry blank junk security_id timestamp (length rows)
        (sort_down (select is_positive rows))
        (sort_up (select (λ v. not (is_positive v) && is_negative v) rows)) h
