-- ===== src/Quant/Workset/Overtaken.antt =====
-- `Subscriber::clone` of common/quant/include/quant/workset.hpp, overtaken by a push.
use itex_demo.Base.{◌∙◌, ℕ, suc, ◌<◌, ◌≡◌, ◌≢◌, refl, true, some, List, [], ◌∷◌, ◌++◌, arith}
use itex_demo.Quant.Workset.Buffer.{CircularBuffer}
use itex_demo.Quant.Workset.Invariant.{IsValid, Within, find-Within, length-push_back}
use itex_demo.Quant.Workset.{
  Subscriber, Workset, find, assign, step_back, push, push_all, write_index, get_subscriber, clone,
}

find-step_back :
    (address i : ℕ) (ss : List Subscriber)
    → find address ss ≡ some (suc i)
    → find address (step_back ss) ≡ some i
unfolding find step_back
find-step_back address i [] e = ground arith
find-step_back address i (s ∷ ss) e = ground (arith, find-step_back address i ss)

find-append :
    (address i : ℕ) (ss ts : List Subscriber)
    → find address ss ≡ some i
    → find address (ss ++ ts) ≡ some i
unfolding find
find-append address i [] ts e = ground arith
find-append address i (s ∷ ss) ts e = ground (arith, find-append address i ss ts)

find-assign_other :
    (address other index : ℕ) (ss : List Subscriber)
    → address ≢ other
    → find address (assign other index ss) ≡ find address ss
unfolding find assign
find-assign_other address other index [] n = refl
find-assign_other address other index (s ∷ ss) n =
    ground (arith, find-assign_other address other index ss n)

-- An index written into the new object, after a step back.
find-assign_fresh :
    (size next index : ℕ) (ss : List Subscriber)
    → Within size next ss
    → find next
        (assign next index (step_back (ss ++ (record { address = next; current_index = 0 } ∷ []))))
      ≡ some index
unfolding find assign step_back
find-assign_fresh size next index [] w = ground arith
find-assign_fresh size next index (s ∷ ss) w =
    ground (arith, find-assign_fresh size next index ss w.2)

find-below :
    (size next address i : ℕ) (ss : List Subscriber)
    → Within size next ss
    → find address ss ≡ some i
    → address < next
unfolding find
find-below size next address i [] w e = ground arith
find-below size next address i (s ∷ ss) w e = ground (arith, find-below size next address i ss w.2)

module _ {A : Type 0} (cb : CircularBuffer A) where
  open cb use {items, size_lem}

  -- The defect of `clone`: it holds no lock between the read of the index and the write. Where an
  -- entry is pushed into a full window in between, the original is stepped back and the clone is
  -- not: the clone stands behind the entry that the original reads next, and misses it.
  pub clone-overtaken :
      (ws : Workset cb) (address i : ℕ) (entry : A)
      → IsValid cb ws
      → find address ws.subscribers ≡ some (suc i)
      → cb.full ws.workset ≡ true
      → (ws' : Workset cb) × (clone cb ws address (entry ∷ []) ≡ some (ws', ws.next_address))
        × (find address ws'.subscribers ≡ some i)
        × (find ws.next_address ws'.subscribers ≡ some (suc i))
        × (i < cb.size ws'.workset)
  unfolding clone get_subscriber push_all push write_index
  clone-overtaken ws address i entry v e f =
      let fresh : Subscriber = record { address = ws.next_address; current_index = 0 } in
      let all = ws.subscribers ++ (fresh ∷ []) in
      let other : address ≢ ws.next_address =
        let below = find-below _ _ address (suc i) ws.subscribers v.within e in
        λ same. absurd (omega (arith, same, below)) in
      let inside = find-Within _ _ address ws.subscribers (suc i) v.within e in
      (
        write_index cb ws.next_address (suc i) (push cb (get_subscriber cb ws).0 entry),
        rw (e, clone) refl,
        rw (f) (
            find-assign_other address ws.next_address (suc i) (step_back all) other
            ∙ find-step_back address i all (find-append address (suc i) ws.subscribers _ e)),
        rw (f) (find-assign_fresh _ ws.next_address (suc i) ws.subscribers v.within),
        omega (
          arith,
          size_lem (push cb ws entry).workset,
          length-push_back cb ws entry v,
          inside,
          v.bounded,
        ),
      )
