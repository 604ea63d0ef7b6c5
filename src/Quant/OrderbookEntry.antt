-- ===== src/Quant/OrderbookEntry.antt =====
-- common/quant/src/orderbook-entry.cpp: one order book in a flat buffer of doubles, which holds the
-- security's id, the time, `orderbook_depth` pairs for the bids and as many for the asks.
-- Each operation acts on the heap and is `none` on a fault: a write or read beyond a block, or a
-- second `free`. A double is a value of any type with a zero; a new buffer holds `junk`.
pub mod Memory
pub mod Ownership
pub mod Writer
pub mod Layout
pub mod Overflow
mod Tests
use itex_demo.Base.{
  ℕ, ◌+◌, ◌*◌, ◌/◌, ◌%◌, ◌^◌, Option, none, some, List, [], ◌++◌, length, take, drop, replicate,
  set, ltb, leb, ◌==◌, if◌then◌else◌,
}
use Memory.{Heap, block, allocate, release, store}

-- `class OrderbookEntry`; a null `data_` is `none`.
pub record OrderbookEntry : Type 0 where
  pub orderbook_depth : ℕ
  pub size : ℕ
  pub buffer : Option ℕ

-- `OrderbookEntry()`, and what is left of an entry that was moved from.
abbrev pub empty_entry : OrderbookEntry
empty_entry = record { orderbook_depth = 0; size = 0; buffer = none }

-- `OrderbookEntry(OrderbookEntry&& e)`: the new entry, and `e` afterwards.
unfoldable pub move : OrderbookEntry → OrderbookEntry × OrderbookEntry
move e = (e, empty_entry)

module _ {A : Type 0} where
  -- `~OrderbookEntry`
  unfoldable pub destroy : OrderbookEntry → Heap A → Option (Heap A)
  destroy e h = elim e.buffer [ none ↦ some h | some a ↦ release h a ]

  -- `std::fill_n(data, count, v)`
  unfoldable pub fill_n : ℕ → ℕ → A → Heap A → Option (Heap A)
  fill_n a count v h = elim (block h a) [
    | none ↦ none
    | some b ↦
        if leb count (length b)
        then some (set h a (some (replicate count v ++ drop count b)))
        else none
  ]

  unfoldable pub clear : A → OrderbookEntry → Heap A → Option (Heap A)
  unfolding fill_n
  clear blank e h = elim e.buffer [
    | none ↦ some h
    | some a ↦ if ltb 0 e.size then fill_n a e.size blank h else some h
  ]

  -- `aux::allocate_buffer`, whose number of bytes is a `size_t`, for doubles of eight bytes.
  unfoldable pub allocate_buffer : A → ℕ → Heap A → Heap A × ℕ
  unfolding allocate
  allocate_buffer junk size h = allocate h (replicate (size * 8 % 2 ^ 64 / 8) junk)

  -- `OrderbookEntry(size_t orderbook_depth)`
  unfoldable pub create : A → A → ℕ → Heap A → Option (Heap A × OrderbookEntry)
  unfolding allocate_buffer clear
  create blank junk depth h =
      let count = (depth * 2 * 2 + 2) % 2 ^ 64 in
      let (h', a) = allocate_buffer junk count h in
      let e : OrderbookEntry = record { orderbook_depth = depth; size = count; buffer = some a } in
      elim (clear blank e h') [ none ↦ none | some cleared ↦ some (cleared, e) ]

  -- The doubles that `std::copy(e.data_, e.data_ + e.size_, ...)` reads.
  unfoldable pub read_all : OrderbookEntry → Heap A → Option (List A)
  read_all e h = elim e.buffer [
    | none ↦ if e.size == 0 then some [] else none
    | some a ↦ elim (block h a) [
      | none ↦ none
      | some b ↦ if leb e.size (length b) then some (take e.size b) else none
    ]
  ]

  -- `OrderbookEntry(const OrderbookEntry& e)`; a size that was read fits `allocate_buffer`.
  unfoldable pub copy : OrderbookEntry → Heap A → Option (Heap A × OrderbookEntry)
  unfolding allocate read_all
  copy e h = elim (read_all e h) [
    | none ↦ none
    | some b ↦
        let (h', a) = allocate h b in
        some (h', record { orderbook_depth = e.orderbook_depth; size = e.size; buffer = some a })
  ]

  -- `operator=(OrderbookEntry&& e)` of two objects: the heap, this object, and `e`.
  unfoldable pub move_assign :
      OrderbookEntry → OrderbookEntry → Heap A → Option (Heap A × OrderbookEntry × OrderbookEntry)
  unfolding destroy
  move_assign this e h = elim (destroy this h) [ none ↦ none | some h' ↦ some (h', e, empty_entry) ]

  -- Moves a local entry to `this` and destroys what is left of the local.
  unfoldable pub assign_local :
      OrderbookEntry → Option (Heap A × OrderbookEntry) → Option (Heap A × OrderbookEntry)
  unfolding move_assign destroy
  assign_local this none = none
  assign_local this (some (h, made)) = elim (move_assign this made h) [
    | none ↦ none
    | some (h', this', rest) ↦ elim (destroy rest h') [ none ↦ none | some h'' ↦ some (h'', this') ]
  ]

  -- `operator=(const OrderbookEntry& e)`
  unfoldable pub copy_assign :
      OrderbookEntry → OrderbookEntry → Heap A → Option (Heap A × OrderbookEntry)
  unfolding assign_local copy
  copy_assign this e h = assign_local this (copy e h)

  unfoldable pub resize : A → A → ℕ → OrderbookEntry → Heap A → Option (Heap A × OrderbookEntry)
  unfolding assign_local create
  resize blank junk depth this h = assign_local this (create blank junk depth h)
