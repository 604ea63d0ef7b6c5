-- ===== src/Quant/Workset/Mailbox.antt =====
-- What a workset promises its subscribers, with no indices: each has a mailbox of its own, which
-- holds at most `capacity` entries and drops its oldest when one too many arrives. `window` is the
-- mailbox that a new subscriber starts with.
use itex_demo.Base.{
  ℕ, suc, Bool, true, false, Option, none, some, List, [], ◌∷◌, ◌++◌, length, drop, ◌-◌, ◌==◌,
  if◌then◌else◌,
}
use itex_demo.Quant.Workset.Buffer.{keep_last}

-- The calls that a client can make, and what it sees of each. A `duplicate` is not locked: it comes
-- with the entries that others publish while it runs.
pub data Call (A : Type 0) : Type 0 where
  publish : A → Call A
  subscribe : Call A
  receive : Bool → ℕ → Call A
  available : ℕ → Call A
  duplicate : ℕ → List A → Call A
  leave : ℕ → Call A

pub data Reply (A : Type 0) : Type 0 where
  done : Reply A
  created : ℕ → Reply A
  received : Option A → Reply A
  count : ℕ → Reply A
  fault : Reply A

pub record Mailboxes (A : Type 0) : Type 0 where
  pub capacity : ℕ
  pub window : List A
  pub boxes : List (ℕ × List A)
  pub next : ℕ

module _ {A : Type 0} where
  unfoldable pub lookup : ℕ → List (ℕ × List A) → Option (List A)
  lookup address [] = none
  lookup address ((a, box) ∷ rest) = if a == address then some box else lookup address rest

  unfoldable pub replace : ℕ → List A → List (ℕ × List A) → List (ℕ × List A)
  replace address box [] = []
  replace address box ((a, old) ∷ rest) =
      if a == address then (a, box) ∷ rest else (a, old) ∷ replace address box rest

  unfoldable pub delete : ℕ → List (ℕ × List A) → List (ℕ × List A)
  delete address [] = []
  delete address ((a, box) ∷ rest) = if a == address then rest else (a, box) ∷ delete address rest

  -- One more entry in a mailbox of at most `capacity`.
  abbrev pub deposit : ℕ → A → List A → List A
  deposit capacity entry box = keep_last capacity (box ++ (entry ∷ []))

  unfoldable pub deliver : ℕ → A → List (ℕ × List A) → List (ℕ × List A)
  deliver capacity entry [] = []
  deliver capacity entry ((a, box) ∷ rest) =
      (a, deposit capacity entry box) ∷ deliver capacity entry rest

  -- A mailbox for a new subscriber.
  abbrev pub open_box : Mailboxes A → List A → Mailboxes A
  open_box m box = record m { boxes = m.boxes ++ ((m.next, box) ∷ []); next = suc m.next }

  -- Takes the oldest entry out, if the lock was free.
  abbrev pub collect : Bool → Mailboxes A → ℕ → List A → Mailboxes A × Reply A
  collect false m address box = (m, received none)
  collect true m address [] = (m, received none)
  collect true m address (entry ∷ box) =
      (record m { boxes = replace address box m.boxes }, received (some entry))

  -- An entry for the window and all mailboxes, and several.
  abbrev pub arrive : Mailboxes A → A → Mailboxes A
  arrive m entry = record m {
    window = deposit m.capacity entry m.window;
    boxes = deliver m.capacity entry m.boxes;
  }

  unfoldable pub arrive_all : Mailboxes A → List A → Mailboxes A
  arrive_all m [] = m
  arrive_all m (entry ∷ between) = arrive_all (arrive m entry) between

  -- The clone's mailbox behind what arrived in between: the window without as many of its oldest
  -- entries as the window had beyond the original's mailbox before.
  abbrev pub take_over : ℕ → ℕ → Mailboxes A → Mailboxes A
  take_over address read m = record m { boxes = replace address (drop read m.window) m.boxes }

  unfoldable pub answer : Mailboxes A → Call A → Mailboxes A × Reply A
  answer m (publish entry) = (arrive m entry, done)
  answer m subscribe = (open_box m m.window, created m.next)
  answer m (receive locked address) = elim (lookup address m.boxes) [
    | none ↦ (m, fault)
    | some box ↦ collect locked m address box
  ]
  answer m (available address) = elim (lookup address m.boxes) [
    | none ↦ (m, fault)
    | some box ↦ (m, count (length box))
  ]
  answer m (duplicate address between) = elim (lookup address m.boxes) [
    | none ↦ (m, fault)
    | some box ↦ (
      take_over m.next (length m.window - length box) (arrive_all (open_box m m.window) between),
      created m.next,
    )
  ]
  answer m (leave address) = (record m { boxes = delete address m.boxes }, done)

  -- The replies to a sequence of calls.
  unfoldable pub answers : Mailboxes A → List (Call A) → List (Reply A)
  answers m [] = []
  answers m (c ∷ cs) = let (m', r) = answer m c in r ∷ answers m' cs
