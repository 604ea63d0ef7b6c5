-- ===== src/Quant/Workset.antt =====
-- common/quant/include/quant/workset.hpp: a bounded window of entries that publishers fill and
-- each subscriber reads at its own index. Every operation but `clone` runs under the workset's lock,
-- so it is one step here; whether `reader_try_lock` succeeds is an argument of `try_pop`. `clone`
-- reads one index and writes another with no lock held: what is pushed in between is an argument.
-- `boost::circular_buffer` is not part of the repository: it is the parameter `CircularBuffer`,
-- with its documented behaviour as laws over the list of its items, oldest first.
pub mod Buffer
pub mod View
pub mod Invariant
pub mod Mailbox
pub mod Trace
pub mod Agreement
pub mod Refines
pub mod Overtaken
mod Tests
use itex_demo.Base.{
  ℕ, suc, ◌+◌, ◌-◌, ◌%◌, ◌^◌, Bool, true, false, not, ◌&&◌, Option, none, some, List, [], ◌∷◌, ◌++◌,
  ltb, ◌==◌, if◌then◌else◌,
}
use Buffer.{CircularBuffer}

-- A subscriber object on the heap: its address and its `current_index_`.
pub record Subscriber : Type 0 where
  pub address : ℕ
  pub current_index : ℕ

-- `subscriber->current_index_` of the object at `address`.
unfoldable pub find : ℕ → List Subscriber → Option ℕ
find address [] = none
find address (s ∷ rest) = if s.address == address then some s.current_index else find address rest

-- Writes the `current_index_` of the object at `address`.
unfoldable pub assign : ℕ → ℕ → List Subscriber → List Subscriber
assign address index [] = []
assign address index (s ∷ rest) =
    if s.address == address
    then record s { current_index = index } ∷ rest
    else s ∷ assign address index rest

-- `std::list::remove` of a pointer, of which the list holds one.
unfoldable pub remove : ℕ → List Subscriber → List Subscriber
remove address [] = []
remove address (s ∷ rest) = if s.address == address then rest else s ∷ remove address rest

unfoldable pub remove_address : ℕ → List ℕ → List ℕ
remove_address address [] = []
remove_address address (a ∷ rest) = if a == address then rest else a ∷ remove_address address rest

-- The loop of `Publisher::push` over the subscribers of a full workset.
unfoldable pub step_back : List Subscriber → List Subscriber
step_back [] = []
step_back (s ∷ rest) =
    record s { current_index = if ltb 0 s.current_index then s.current_index - 1 else 0 }
    ∷ step_back rest

module _ {A : Type 0} (cb : CircularBuffer A) where
  open cb use {Buffer, create, push_back, at, size, empty, full}

  -- `class Workset`. `next_address` is where `new` puts the next object.
  pub record Workset : Type 0 where
    pub capacity : ℕ
    pub workset : Buffer
    pub publishers : List ℕ
    pub subscribers : List Subscriber
    pub next_address : ℕ

  -- `Workset(size_t capacity)`
  unfoldable pub make : ℕ → Workset
  make capacity = record {
    capacity = capacity;
    workset = create capacity;
    publishers = [];
    subscribers = [];
    next_address = 0;
  }

  -- `~Workset`
  unfoldable pub destroy : Workset → Workset
  destroy ws = record ws { publishers = []; subscribers = [] }

  unfoldable pub get_publisher : Workset → Workset × ℕ
  get_publisher ws = (
    record ws {
      publishers = ws.publishers ++ (ws.next_address ∷ []);
      next_address = suc ws.next_address;
    },
    ws.next_address,
  )

  unfoldable pub get_subscriber : Workset → Workset × ℕ
  get_subscriber ws = (
    record ws {
      subscribers =
          ws.subscribers ++ (record { address = ws.next_address; current_index = 0 } ∷ []);
      next_address = suc ws.next_address;
    },
    ws.next_address,
  )

  -- `Publisher::push(Entry&&)`
  unfoldable pub push : Workset → A → Workset
  push ws entry = record ws {
    subscribers = if full ws.workset then step_back ws.subscribers else ws.subscribers;
    workset = push_back ws.workset entry;
  }

  -- `Subscriber::try_pop` of the object at `address` with index `index`, the lock taken: the new
  -- workset, and the entry if the call returns true.
  unfoldable pub pop_at : Workset → ℕ → ℕ → Workset × Option A
  pop_at ws address index =
      if not (empty ws.workset) && ltb index (size ws.workset)
      then (
        record ws { subscribers = assign address (index + 1) ws.subscribers },
        at ws.workset index,
      )
      else (ws, none)

  -- `Subscriber::try_pop`. No object at `address` is a fault, `none`; `locked` tells whether
  -- `reader_try_lock` succeeded.
  unfoldable pub try_pop : Bool → Workset → ℕ → Option (Workset × Option A)
  unfolding pop_at
  try_pop locked ws address = elim (find address ws.subscribers) [
    | none ↦ none
    | some index ↦ some (if locked then pop_at ws address index else (ws, none))
  ]

  -- `Subscriber::num_available`: a `size_t` difference, which wraps.
  unfoldable pub num_available : Workset → ℕ → Option ℕ
  num_available ws address = elim (find address ws.subscribers) [
    | none ↦ none
    | some index ↦ some ((2 ^ 64 + size ws.workset - index) % 2 ^ 64)
  ]

  -- What other threads push while a subscriber is cloned.
  unfoldable pub push_all : Workset → List A → Workset
  push_all ws [] = ws
  push_all ws (entry ∷ between) = push_all (push ws entry) between

  -- The write of the index that `clone` ends with.
  unfoldable pub write_index : ℕ → ℕ → Workset → Workset
  write_index address index ws = record ws { subscribers = assign address index ws.subscribers }

  -- `Subscriber::clone`: `get_subscriber`, which locks, the read of this object's index, and the write
  -- into the new one; `between` is pushed behind the read. What is pushed before it is as well pushed
  -- before the call, since the new index is 0 then.
  unfoldable pub clone : Workset → ℕ → List A → Option (Workset × ℕ)
  unfolding get_subscriber push_all write_index
  clone ws address between = elim (find address ws.subscribers) [
    | none ↦ none
    | some index ↦
        let (ws', created) = get_subscriber ws in
        some (write_index created index (push_all ws' between), created)
  ]

  -- `Publisher::release`, `Workset::remove_publisher`
  unfoldable pub release_publisher : Workset → ℕ → Workset
  release_publisher ws address = record ws { publishers = remove_address address ws.publishers }

  -- `Subscriber::release`, `Workset::remove_subscriber`
  unfoldable pub release_subscriber : Workset → ℕ → Workset
  release_subscriber ws address = record ws { subscribers = remove address ws.subscribers }
