-- ===== src/Quant/OrderbookEntry/Tests.antt =====
-- Doubles read as numbers: two entries on a heap, and books that fit or not.
use itex_demo.Base.{ℕ, ◌≡◌, refl, none, some, [], ◌∷◌, arith}
use itex_demo.Quant.OrderbookEntry.Memory.{Heap}
use itex_demo.Quant.OrderbookEntry.Ownership.{Assigned, copy_assign-Assigned}
use itex_demo.Quant.OrderbookEntry.Writer.{write_entry}
use itex_demo.Quant.OrderbookEntry.Layout.{write_entry-layout}
use itex_demo.Quant.OrderbookEntry.Overflow.{write_entry-overflow}
use itex_demo.Quant.OrderbookEntry.{OrderbookEntry, copy_assign}

abbrev heap : Heap ℕ
heap = some (1 ∷ 2 ∷ []) ∷ some (3 ∷ 4 ∷ 5 ∷ 6 ∷ 7 ∷ 8 ∷ []) ∷ []

abbrev small : OrderbookEntry
small = record { orderbook_depth = 0; size = 2; buffer = some 0 }

abbrev large : OrderbookEntry
large = record { orderbook_depth = 1; size = 6; buffer = some 1 }

copy_assign-Assigned_example :
    Assigned heap small 1 (3 ∷ 4 ∷ 5 ∷ 6 ∷ 7 ∷ 8 ∷ []) (copy_assign small large heap)
copy_assign-Assigned_example =
    copy_assign-Assigned heap small large (1 ∷ 2 ∷ []) (3 ∷ 4 ∷ 5 ∷ 6 ∷ 7 ∷ 8 ∷ []) (refl, refl)
      (refl, refl)

abbrev written : OrderbookEntry
written = record { orderbook_depth = 1; size = 6; buffer = some 2 }

write_entry-layout_example :
    write_entry 0 9 42 100 2 ((10, 5) ∷ []) ((11, 6) ∷ []) heap
    ≡ some (
      some (1 ∷ 2 ∷ [])
          ∷ some (3 ∷ 4 ∷ 5 ∷ 6 ∷ 7 ∷ 8 ∷ [])
          ∷ some (42 ∷ 100 ∷ 10 ∷ 5 ∷ 11 ∷ 6 ∷ [])
          ∷ [],
      written,
    )
write_entry-layout_example =
    write_entry-layout heap 0 9 42 100 2 ((10, 5) ∷ []) ((11, 6) ∷ []) (omega arith) (omega arith)
      (omega arith)

write_entry-overflow_example : write_entry 0 9 42 100 2 [] ((11, 6) ∷ (12, 7) ∷ []) heap ≡ none
write_entry-overflow_example =
    write_entry-overflow heap 0 9 42 100 2 [] ((11, 6) ∷ (12, 7) ∷ []) (omega arith) (omega arith)
      (omega arith)
