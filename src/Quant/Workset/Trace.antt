-- ===== src/Quant/Workset/Trace.antt =====
-- Calls on a workset in sequence, and the mailboxes that a workset stands for.
use itex_demo.Base.{ℕ, ◌≡◌, Option, none, some, List, [], ◌∷◌}
use itex_demo.Quant.Workset.Buffer.{CircularBuffer}
use itex_demo.Quant.Workset.Invariant.{IsValid}
use itex_demo.Quant.Workset.Mailbox.{
  Call, publish, subscribe, receive, available, duplicate, leave, Reply, done, created, received,
  count, fault, Mailboxes, answer,
}
use itex_demo.Quant.Workset.View.{boxes_of}
use itex_demo.Quant.Workset.{
  Workset, get_subscriber, push, try_pop, num_available, clone, release_subscriber,
}

module _ {A : Type 0} (cb : CircularBuffer A) where
  open cb use {items, items-push_back, at_lem, size_lem, empty_lem, full_lem}

  abbrev pub or_fault : Workset cb → Option (Workset cb × Reply A) → Workset cb × Reply A
  or_fault ws none = (ws, fault)
  or_fault ws (some r) = r

  abbrev pub popped : Option (Workset cb × Option A) → Option (Workset cb × Reply A)
  popped none = none
  popped (some (ws, entry)) = some (ws, received entry)

  abbrev pub cloned : Option (Workset cb × ℕ) → Option (Workset cb × Reply A)
  cloned none = none
  cloned (some (ws, address)) = some (ws, created address)

  abbrev pub counted : Workset cb → Option ℕ → Option (Workset cb × Reply A)
  counted ws none = none
  counted ws (some n) = some (ws, count n)

  -- One call on a workset.
  unfoldable pub step : Workset cb → Call A → Workset cb × Reply A
  step ws (publish entry) = (push cb ws entry, done)
  step ws subscribe = let (ws', address) = get_subscriber cb ws in (ws', created address)
  step ws (receive locked address) = or_fault ws (popped (try_pop cb locked ws address))
  step ws (available address) = or_fault ws (counted ws (num_available cb ws address))
  step ws (duplicate address between) = or_fault ws (cloned (clone cb ws address between))
  step ws (leave address) = (release_subscriber cb ws address, done)

  unfoldable pub run : Workset cb → List (Call A) → List (Reply A)
  run ws [] = []
  run ws (c ∷ cs) = let (ws', r) = step ws c in r ∷ run ws' cs

  abbrev pub view : Workset cb → Mailboxes A
  view ws = record {
    capacity = ws.capacity;
    window = items ws.workset;
    boxes = boxes_of (items ws.workset) ws.subscribers;
    next = ws.next_address;
  }

  -- What one call does, beside what the mailboxes do, and that it keeps the invariant.
  abbrev pub Agrees : Workset cb → Call A → Type 0
  Agrees ws c =
      let (ws', reply) = step ws c in
      let (m, expected) = answer (view ws) c in
      IsValid cb ws' × (reply ≡ expected) × (view ws' ≡ m) × (ws'.capacity ≡ ws.capacity)
