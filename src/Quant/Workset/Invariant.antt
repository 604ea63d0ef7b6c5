-- ===== src/Quant/Workset/Invariant.antt =====
-- The representation invariant of a workset, kept by every operation.
use itex_demo.Base.{
  ℕ, ◌+◌, ◌-◌, ◌≤◌, ◌<◌, min, ◌≡◌, ap, ◌∙◌, inl, inr, some, List, [], ◌∷◌, ◌++◌, length,
  length-append, length-drop, arith, Bool-cases,
}
use itex_demo.Quant.Workset.Buffer.{CircularBuffer, keep_last}
use itex_demo.Quant.Workset.{
  Subscriber, find, assign, remove, step_back, Workset, make, get_publisher, get_subscriber, push,
  release_subscriber,
}

-- Every subscriber's index lies in the window, and every address is below `next`.
abbrev pub Within : ℕ → ℕ → List Subscriber → Type 0
Within size next [] = Unit {0}
Within size next (s ∷ rest) = (s.current_index ≤ size) × (s.address < next) × Within size next rest

Within-mono :
    (size size' next next' : ℕ) (ss : List Subscriber)
    → size ≤ size'
    → next ≤ next'
    → Within size next ss
    → Within size' next' ss
Within-mono size size' next next' [] p q w = tt
Within-mono size size' next next' (s ∷ ss) p q w =
    (omega arith, omega arith, Within-mono size size' next next' ss p q w.2)

Within-append :
    (size next : ℕ) (ss : List Subscriber) (s : Subscriber)
    → Within size next ss
    → s.current_index ≤ size
    → s.address < next
    → Within size next (ss ++ (s ∷ []))
Within-append size next [] s w p q = (p, q, tt)
Within-append size next (x ∷ ss) s w p q = (w.0, w.1, Within-append size next ss s w.2 p q)

Within-assign :
    (size next address index : ℕ) (ss : List Subscriber)
    → index ≤ size
    → Within size next ss
    → Within size next (assign address index ss)
unfolding assign
Within-assign size next address index [] h w = tt
Within-assign size next address index (s ∷ ss) h w =
    ground (arith, Within-assign size next address index ss h w.2)

Within-remove :
    (size next address : ℕ) (ss : List Subscriber)
    → Within size next ss
    → Within size next (remove address ss)
unfolding remove
Within-remove size next address [] w = tt
Within-remove size next address (s ∷ ss) w = ground (arith, Within-remove size next address ss w.2)

Within-step_back :
    (size next : ℕ) (ss : List Subscriber) → Within size next ss → Within size next (step_back ss)
unfolding step_back
Within-step_back size next [] w = tt
Within-step_back size next (s ∷ ss) w = ground (arith, Within-step_back size next ss w.2)

pub find-Within :
    (size next address : ℕ) (ss : List Subscriber) (index : ℕ)
    → Within size next ss
    → find address ss ≡ some index
    → index ≤ size
unfolding find
find-Within size next address [] index w e = ground arith
find-Within size next address (s ∷ ss) index w e =
    ground (arith, find-Within size next address ss index w.2)

pub length-keep_last :
    {A : Type 0} (n : ℕ) (xs : List A) → length (keep_last n xs) ≡ min n (length xs)
length-keep_last n xs = omega (arith, length-drop (length xs - n) xs)

module _ {A : Type 0} (cb : CircularBuffer A) where
  open cb use {
    Buffer, items, size, full, items-create, capacity-create, items-push_back, capacity-push_back,
    size_lem, full_lem,
  }

  pub record IsValid (ws : Workset cb) : Type 0 where
    pub sized : cb.capacity ws.workset ≡ ws.capacity
    pub bounded : length (items ws.workset) ≤ ws.capacity
    pub within : Within (length (items ws.workset)) ws.next_address ws.subscribers

  pub make-IsValid : (capacity : ℕ) → IsValid (make cb capacity)
  unfolding make
  make-IsValid capacity = record {
    sized = capacity-create capacity;
    bounded = omega (arith, ap length (items-create capacity));
    within = tt;
  }

  pub length-push_back :
      (ws : Workset cb) (a : A)
      → IsValid ws
      → length (items (push cb ws a).workset) ≡ min ws.capacity (length (items ws.workset) + 1)
  unfolding push
  length-push_back ws a v = omega (
    arith,
    ap length (items-push_back ws.workset a),
    length-keep_last (cb.capacity ws.workset) (items ws.workset ++ (a ∷ [])),
    length-append (items ws.workset) (a ∷ []),
    v.sized,
  )

  push-Within :
      (ws : Workset cb) (a : A)
      → IsValid ws
      → Within (length (items (push cb ws a).workset)) ws.next_address (push cb ws a).subscribers
  unfolding push
  push-Within ws a v = elim (Bool-cases (full ws.workset)) [
    | inl e ↦ rw e (
        Within-mono (length (items ws.workset)) _ ws.next_address _ _
          (omega (arith, length-push_back ws a v, v.bounded)) (omega arith)
          (Within-step_back _ _ ws.subscribers v.within))
    | inr e ↦ rw e (
        Within-mono (length (items ws.workset)) _ ws.next_address _ _
          (omega (arith, length-push_back ws a v, v.bounded)) (omega arith) v.within)
  ]

  -- A push keeps the invariant, whether or not the window is full.
  pub push-IsValid : (ws : Workset cb) (a : A) → IsValid ws → IsValid (push cb ws a)
  unfolding push
  push-IsValid ws a v = record {
    sized = capacity-push_back ws.workset a ∙ v.sized;
    bounded = omega (arith, length-push_back ws a v);
    within = push-Within ws a v;
  }

  pub get_publisher-IsValid : (ws : Workset cb) → IsValid ws → IsValid (get_publisher cb ws).0
  unfolding get_publisher
  get_publisher-IsValid ws v = record {
    sized = v.sized;
    bounded = v.bounded;
    within = Within-mono _ _ ws.next_address _ _ (omega arith) (omega arith) v.within;
  }

  pub get_subscriber-IsValid : (ws : Workset cb) → IsValid ws → IsValid (get_subscriber cb ws).0
  unfolding get_subscriber
  get_subscriber-IsValid ws v = record {
    sized = v.sized;
    bounded = v.bounded;
    within =
        Within-append _ _ ws.subscribers _
          (Within-mono _ _ ws.next_address _ _ (omega arith) (omega arith) v.within) (omega arith)
          (omega arith);
  }

  pub assign-IsValid :
      (ws : Workset cb) (address index : ℕ)
      → index ≤ length (items ws.workset)
      → IsValid ws
      → IsValid (record ws { subscribers = assign address index ws.subscribers })
  assign-IsValid ws address index h v = record {
    sized = v.sized;
    bounded = v.bounded;
    within = Within-assign _ _ address index ws.subscribers h v.within;
  }

  pub release_subscriber-IsValid :
      (ws : Workset cb) (address : ℕ) → IsValid ws → IsValid (release_subscriber cb ws address)
  unfolding release_subscriber
  release_subscriber-IsValid ws address v = record {
    sized = v.sized;
    bounded = v.bounded;
    within = Within-remove _ _ address ws.subscribers v.within;
  }
