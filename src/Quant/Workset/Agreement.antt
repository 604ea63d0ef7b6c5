-- ===== src/Quant/Workset/Agreement.antt =====
-- Each call on a workset does what it does on the mailboxes.
use itex_demo.Base.{
  ℕ, ◌+◌, ◌-◌, ◌%◌, ◌^◌, ◌≤◌, ◌<◌, ◌≡◌, refl, ap, ◌∙◌, Bool, true, false, none, some, inl, inr,
  List, [], ◌∷◌, length, length-drop, drop, arith, Bool-cases, Option-cases, ltb, not, ◌&&◌, lt→ltb,
  drop-cons,
}
use mathlib.Core.Option
use itex_demo.Quant.Workset.Buffer.{CircularBuffer}
use itex_demo.Quant.Workset.Invariant.{
  length-push_back, find-Within, IsValid, push-IsValid, get_subscriber-IsValid, assign-IsValid,
  release_subscriber-IsValid,
}
use itex_demo.Quant.Workset.Mailbox.{
  publish, subscribe, receive, available, duplicate, leave, received, count, lookup, deliver,
  answer, collect, deposit,
}
use itex_demo.Quant.Workset.View.{
  boxes_of, lookup-boxes_of, boxes_of-assign, boxes_of-remove, boxes_of-append, boxes_of-room,
  boxes_of-full,
}
use itex_demo.Quant.Workset.Mailbox.{arrive, arrive_all, open_box, take_over}
use itex_demo.Quant.Workset.{
  push_all, write_index, find, Workset, get_subscriber, push, pop_at, try_pop, num_available, clone,
  release_subscriber,
}
use itex_demo.Quant.Workset.Trace.{step, view, Agrees}

module _ {A : Type 0} (cb : CircularBuffer A) where
  open cb use {items, items-push_back, at_lem, size_lem, empty_lem, full_lem}

  items-push :
      (ws : Workset cb) (e : A)
      → IsValid cb ws
      → items (push cb ws e).workset ≡ deposit ws.capacity e (items ws.workset)
  unfolding push
  items-push ws e v = rw (items-push_back ws.workset e, v.sized)

  boxes-push :
      (ws : Workset cb) (e : A)
      → IsValid cb ws
      → boxes_of (deposit ws.capacity e (items ws.workset)) (push cb ws e).subscribers
        ≡ deliver ws.capacity e (boxes_of (items ws.workset) ws.subscribers)
  unfolding push
  boxes-push ws e v = elim (Bool-cases (cb.full ws.workset)) [
    | inl h ↦ rw h (
        boxes_of-full ws.capacity ws.next_address (items ws.workset) e ws.subscribers
          (ground (arith, full_lem ws.workset, v.sized)) v.within)
    | inr h ↦ rw h (
        boxes_of-room ws.capacity ws.next_address (items ws.workset) e ws.subscribers
          (ground (arith, full_lem ws.workset, v.sized, v.bounded)) v.within)
  ]

  fields-push :
      (ws : Workset cb) (e : A)
      → ((push cb ws e).capacity ≡ ws.capacity) × ((push cb ws e).next_address ≡ ws.next_address)
  unfolding push
  fields-push ws e = (refl, refl)

  pushed :
      (ws : Workset cb) (e : A) → IsValid cb ws → view cb (push cb ws e) ≡ arrive (view cb ws) e
  pushed ws e v =
      rw (items-push ws e v, boxes-push ws e v, (fields-push ws e).0, (fields-push ws e).1)

  pub publish-Agrees : (ws : Workset cb) (e : A) → IsValid cb ws → Agrees cb ws (publish e)
  unfolding step answer
  publish-Agrees ws e v = (push-IsValid cb ws e v, refl, pushed ws e v, (fields-push ws e).0)

  pub subscribe-Agrees : (ws : Workset cb) → IsValid cb ws → Agrees cb ws subscribe
  unfolding step answer get_subscriber
  subscribe-Agrees ws v = (
    get_subscriber-IsValid cb ws v,
    refl,
    rw (boxes_of-append (items ws.workset) ws.subscribers) refl,
    refl,
  )

  pub leave-Agrees : (ws : Workset cb) (a : ℕ) → IsValid cb ws → Agrees cb ws (leave a)
  unfolding step answer release_subscriber
  leave-Agrees ws a v = (
    release_subscriber-IsValid cb ws a v,
    refl,
    rw (boxes_of-remove (items ws.workset) a ws.subscribers),
    refl,
  )

  -- The test of `try_pop`, read off the mailbox.
  test-lem :
      (ws : Workset cb) (i : ℕ)
      → (not (cb.empty ws.workset) && ltb i (cb.size ws.workset))
        ≡ ltb i (length (items ws.workset))
  test-lem ws i = ground (arith, empty_lem ws.workset, size_lem ws.workset)

  pop_at-collect :
      (ws : Workset cb) (address i : ℕ) (box : List A)
      → drop i (items ws.workset) ≡ box
      → (received (pop_at cb ws address i).1 ≡ (collect true (view cb ws) address box).1)
        × (view cb (pop_at cb ws address i).0 ≡ (collect true (view cb ws) address box).0)
        × (IsValid cb ws → IsValid cb (pop_at cb ws address i).0)
        × ((pop_at cb ws address i).0.capacity ≡ ws.capacity)
  unfolding pop_at
  pop_at-collect ws address i [] e =
      let beyond : ltb i (length (items ws.workset)) ≡ false =
        ground (arith, ap length e, length-drop i (items ws.workset)) in
      rw (test-lem ws i, beyond) (refl, refl, (λ v. v), refl)
  pop_at-collect ws address i (x ∷ q) e =
      let inside : i < length (items ws.workset) =
        omega (arith, ap length e, length-drop i (items ws.workset)) in
      let (read, left) = drop-cons i (items ws.workset) x q e in
      let index : i + 1 ≤ length (items ws.workset) = omega arith in
      rw
        (
          test-lem ws i,
          lt→ltb _ _ inside,
          at_lem ws.workset i,
          read,
          boxes_of-assign (items ws.workset) address (i + 1) ws.subscribers,
          left,
        )
        (refl, refl, assign-IsValid cb ws address (i + 1) index, refl)

  -- The mailbox of a subscriber, found by its address.
  lookup_of_find :
      (ws : Workset cb) (address i : ℕ)
      → find address ws.subscribers ≡ some i
      → lookup address (view cb ws).boxes ≡ some (drop i (items ws.workset))
  lookup_of_find ws address i e =
      lookup-boxes_of (items ws.workset) address ws.subscribers
      ∙ ap (Option.map (λ index. drop index (items ws.workset))) e

  lookup_of_missing :
      (ws : Workset cb) (address : ℕ)
      → find address ws.subscribers ≡ none
      → lookup address (view cb ws).boxes ≡ none
  lookup_of_missing ws address e =
      lookup-boxes_of (items ws.workset) address ws.subscribers
      ∙ ap (Option.map (λ index. drop index (items ws.workset))) e

  pub receive-Agrees :
      (ws : Workset cb) (locked : Bool) (address : ℕ)
      → IsValid cb ws
      → Agrees cb ws (receive locked address)
  unfolding step answer try_pop
  receive-Agrees ws false address v = elim (Option-cases (find address ws.subscribers)) [
    | inl e ↦ rw (e, try_pop, lookup_of_missing ws address e, answer) (v, refl, refl, refl)
    | inr (i, e) ↦ rw (e, try_pop, lookup_of_find ws address i e, answer) (v, refl, refl, refl)
  ]
  receive-Agrees ws true address v = elim (Option-cases (find address ws.subscribers)) [
    | inl e ↦ rw (e, try_pop, lookup_of_missing ws address e, answer) (v, refl, refl, refl)
    | inr (i, e) ↦
        let (reply, seen, valid, kept) =
          pop_at-collect ws address i (drop i (items ws.workset)) refl in
        rw (e, try_pop, lookup_of_find ws address i e, answer) (valid v, reply, seen, kept)
  ]

  pub available-Agrees :
      (ws : Workset cb) (address : ℕ)
      → ws.capacity < 2 ^ 64
      → IsValid cb ws
      → Agrees cb ws (available address)
  unfolding step answer num_available
  available-Agrees ws address small v = elim (Option-cases (find address ws.subscribers)) [
    | inl e ↦ rw (e, num_available, lookup_of_missing ws address e, answer) (v, refl, refl, refl)
    | inr (i, e) ↦
        rw (e, num_available, lookup_of_find ws address i e, answer)
          (v, ap count (counts i e), refl, refl)
  ]
    where
      counts :
          (i : ℕ)
          → find address ws.subscribers ≡ some i
          → (2 ^ 64 + cb.size ws.workset - i) % 2 ^ 64 ≡ length (drop i (items ws.workset))
      counts i e = omega (
        arith,
        length-drop i (items ws.workset),
        size_lem ws.workset,
        find-Within _ _ address ws.subscribers i v.within e,
        v.bounded,
      )

  -- Pushes one after another keep the invariant, leave no fewer entries, and do what arrivals do.
  push_all-arrive_all :
      (ws : Workset cb) (between : List A)
      → IsValid cb ws
      → let ws' = push_all cb ws between in
        IsValid cb ws'
        × (view cb ws' ≡ arrive_all (view cb ws) between)
        × (length (items ws.workset) ≤ length (items ws'.workset))
        × (ws'.capacity ≡ ws.capacity)
  unfolding push_all arrive_all
  push_all-arrive_all ws [] v = (v, refl, omega arith, refl)
  push_all-arrive_all ws (e ∷ between) v =
      let (valid', seen', longer, kept') =
        push_all-arrive_all (push cb ws e) between (push-IsValid cb ws e v) in
      (
        valid',
        seen' ∙ ap (λ m. arrive_all m between) (pushed ws e v),
        omega (arith, longer, length-push_back cb ws e v, v.bounded),
        kept' ∙ (fields-push ws e).0,
      )

  -- The write at the end of `clone`, on the mailboxes.
  write_index-take_over :
      (ws : Workset cb) (address index : ℕ)
      → view cb (write_index cb address index ws) ≡ take_over address index (view cb ws)
  unfolding write_index
  write_index-take_over ws address index =
      rw (boxes_of-assign (items ws.workset) address index ws.subscribers) refl

  get_subscriber-open_box :
      (ws : Workset cb)
      → view cb (get_subscriber cb ws).0 ≡ open_box (view cb ws) (items ws.workset)
  unfolding get_subscriber
  get_subscriber-open_box ws = rw (boxes_of-append (items ws.workset) ws.subscribers) refl

  cloned_at :
      (ws : Workset cb) (i : ℕ) (between : List A)
      → IsValid cb ws
      → i ≤ length (items ws.workset)
      → let ws' = write_index cb ws.next_address i (push_all cb (get_subscriber cb ws).0 between) in
        let m = view cb ws in
        let read = length m.window - length (drop i (items ws.workset)) in
        IsValid cb ws'
        × (view cb ws' ≡ take_over m.next read (arrive_all (open_box m m.window) between))
        × (ws'.capacity ≡ ws.capacity)
  unfolding get_subscriber write_index
  cloned_at ws i between v index =
      let opened = (get_subscriber cb ws).0 in
      let (valid, seen, longer, kept) =
        push_all-arrive_all opened between (get_subscriber-IsValid cb ws v) in
      let passed : i ≡ length (items ws.workset) - length (drop i (items ws.workset)) =
        omega (arith, length-drop i (items ws.workset), index) in
      (
        assign-IsValid cb (push_all cb opened between) ws.next_address i
            (omega (arith, longer, index)) valid,
        write_index-take_over (push_all cb opened between) ws.next_address i
            ∙ ap (take_over ws.next_address i)
                (seen ∙ ap (λ m. arrive_all m between) (get_subscriber-open_box ws))
            ∙ ap
                (λ n.
                  take_over ws.next_address n
                    (arrive_all (open_box (view cb ws) (items ws.workset)) between))
                passed,
        kept,
      )

  pub duplicate-Agrees :
      (ws : Workset cb) (address : ℕ) (between : List A)
      → IsValid cb ws
      → Agrees cb ws (duplicate address between)
  unfolding step answer clone get_subscriber
  duplicate-Agrees ws address between v = elim (Option-cases (find address ws.subscribers)) [
    | inl e ↦ rw (e, clone, lookup_of_missing ws address e, answer) (v, refl, refl, refl)
    | inr (i, e) ↦
        let (valid, seen, kept) =
          cloned_at ws i between v (find-Within _ _ address ws.subscribers i v.within e) in
        rw (e, clone, lookup_of_find ws address i e, answer) (valid, refl, seen, kept)
  ]
