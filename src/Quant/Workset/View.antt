-- ===== src/Quant/Workset/View.antt =====
-- A workset seen as mailboxes: what lies at and after a subscriber's index is its mailbox.
use itex_demo.Base.{
  ℕ, zero, suc, ◌-◌, ◌≤◌, ◌<◌, ◌≡◌, refl, ap, ap₂, ◌∙◌, List, [], ◌∷◌, ◌++◌, length, length-append,
  length-drop, drop, drop-append, drop-drop_one, arith, ltb, if◌then◌else◌,
}
use mathlib.Core.Option
use itex_demo.Quant.Workset.Invariant.{Within}
use itex_demo.Quant.Workset.Mailbox.{lookup, replace, delete, deposit, deliver}
use itex_demo.Quant.Workset.{Subscriber, find, assign, remove, step_back}

module _ {A : Type 0} where
  abbrev pub boxes_of : List A → List Subscriber → List (ℕ × List A)
  boxes_of window [] = []
  boxes_of window (s ∷ ss) = (s.address, drop s.current_index window) ∷ boxes_of window ss

  pub lookup-boxes_of :
      (window : List A) (address : ℕ) (ss : List Subscriber)
      → lookup address (boxes_of window ss)
        ≡ Option.map (λ index. drop index window) (find address ss)
  unfolding lookup find
  lookup-boxes_of window address [] = refl
  lookup-boxes_of window address (s ∷ ss) = ground (arith, lookup-boxes_of window address ss)

  pub boxes_of-assign :
      (window : List A) (address index : ℕ) (ss : List Subscriber)
      → boxes_of window (assign address index ss)
        ≡ replace address (drop index window) (boxes_of window ss)
  unfolding assign replace
  boxes_of-assign window address index [] = refl
  boxes_of-assign window address index (s ∷ ss) =
      ground (arith, boxes_of-assign window address index ss)

  pub boxes_of-remove :
      (window : List A) (address : ℕ) (ss : List Subscriber)
      → boxes_of window (remove address ss) ≡ delete address (boxes_of window ss)
  unfolding remove delete
  boxes_of-remove window address [] = refl
  boxes_of-remove window address (s ∷ ss) = ground (arith, boxes_of-remove window address ss)

  pub boxes_of-append :
      (window : List A) (ss ts : List Subscriber)
      → boxes_of window (ss ++ ts) ≡ boxes_of window ss ++ boxes_of window ts
  boxes_of-append window [] ts = refl
  boxes_of-append window (s ∷ ss) ts =
      ap (◌∷◌ (s.address, drop s.current_index window)) (boxes_of-append window ss ts)

  deposit_room : (c : ℕ) (w : List A) (e : A) → length w < c → deposit c e w ≡ w ++ (e ∷ [])
  deposit_room c w e h =
      ap (λ k. drop k (w ++ (e ∷ []))) {y = 0} (omega (arith, length-append w (e ∷ [])))

  deposit_full :
      (c : ℕ) (w : List A) (e : A) → length w ≡ c → deposit c e w ≡ drop 1 (w ++ (e ∷ []))
  deposit_full c w e h =
      ap (λ k. drop k (w ++ (e ∷ []))) {y = 1} (omega (arith, length-append w (e ∷ [])))

  -- What is read of a window that gets one more entry while it has room.
  drop-deposit_room :
      (c i : ℕ) (w : List A) (e : A)
      → i ≤ length w
      → length w < c
      → drop i (deposit c e w) ≡ deposit c e (drop i w)
  drop-deposit_room c i w e p q =
      rw (deposit_room c w e q, deposit_room c (drop i w) e (omega (arith, length-drop i w)))
        (drop-append i w (e ∷ []) p)

  -- What is read of a full window that gets one more entry, at the index stepped back.
  drop-deposit_full :
      (c i : ℕ) (w : List A) (e : A)
      → i ≤ length w
      → length w ≡ c
      → drop (if ltb 0 i then i - 1 else 0) (deposit c e w) ≡ deposit c e (drop i w)
  drop-deposit_full c zero w e p q = refl
  drop-deposit_full c (suc i) w e p q =
      ap (λ k. drop k (deposit c e w)) {y = i} (ground arith)
      ∙ rw
          (
            deposit_full c w e q,
            deposit_room c (drop (suc i) w) e (omega (arith, length-drop (suc i) w)),
            drop-drop_one i (w ++ (e ∷ [])),
          )
          (drop-append (suc i) w (e ∷ []) p)

  -- A push into a window with room adds the entry to every mailbox.
  pub boxes_of-room :
      (c next : ℕ) (w : List A) (e : A) (ss : List Subscriber)
      → length w < c
      → Within (length w) next ss
      → boxes_of (deposit c e w) ss ≡ deliver c e (boxes_of w ss)
  unfolding deliver
  boxes_of-room c next w e [] q h = refl
  boxes_of-room c next w e (s ∷ ss) q h =
      ap₂ (λ box rest. (s.address, box) ∷ rest) (drop-deposit_room c s.current_index w e h.0 q)
        (boxes_of-room c next w e ss q h.2)

  -- A push into a full window does too, once every index is stepped back.
  pub boxes_of-full :
      (c next : ℕ) (w : List A) (e : A) (ss : List Subscriber)
      → length w ≡ c
      → Within (length w) next ss
      → boxes_of (deposit c e w) (step_back ss) ≡ deliver c e (boxes_of w ss)
  unfolding deliver step_back
  boxes_of-full c next w e [] q h = refl
  boxes_of-full c next w e (s ∷ ss) q h =
      ap₂ (λ box rest. (s.address, box) ∷ rest) (drop-deposit_full c s.current_index w e h.0 q)
        (boxes_of-full c next w e ss q h.2)
