-- ===== src/Sqldb/Database/Pool.antt =====
-- The pool as its callers see it: which connection a call gives, and what the timer takes away.
use itex_demo.Base.{
  take, ◌*◌, Bool-cases, ltb→lt, ℕ, zero, suc, ◌+◌, ◌≤◌, ◌<◌, Bool, true, false, Option, none, some,
  List, [], ◌∷◌, ◌++◌, length, drop, ltb, ◌≡◌, refl, arith, inl, inr,
}
use itex_demo.Base.{◌≢◌, ◌==◌}
use native.Mathlib.Nat.{div-add-mod, mod-lt}
use itex_demo.Sqldb.Database.{
  PoolStats, Status, bad, connected, in_progress, outside, Connection, Database, take_connected,
  async_get_connection, average_size, num_to_shrink, shrink, pool_shrink_timer_handler, pop_front,
  delete_connection,
}

-- The queue behind its first connection whose status is good.
unfoldable pub first_connected :
    (ℕ → Status) → List (Option Connection) → Option (Connection × List (Option Connection))
first_connected status [] = none
first_connected status (none ∷ queue) = first_connected status queue
first_connected status (some c ∷ queue) = elim (status c.address) [
  | connected ↦ some (c, queue)
  | _ ↦ first_connected status queue
]

take_connected-first :
    (status : ℕ → Status) (last : Option Connection) (queue : List (Option Connection))
    (db : Database) (c : Connection) (rest : List (Option Connection))
    → first_connected status queue ≡ some (c, rest)
    → ((take_connected status last queue db).1 ≡ some c)
      × ((take_connected status last queue db).0.pool_queue ≡ rest)
unfolding take_connected first_connected
take_connected-first status last [] db c rest h = ground arith
take_connected-first status last (none ∷ queue) db c rest h =
    take_connected-first status none queue (pop_front queue db) c rest h
take_connected-first status last (some d ∷ queue) db c rest h = ground (
  arith,
  take_connected-first status none queue (delete_connection (some d) (pop_front queue db)) c rest,
  take_connected-first status (some d) queue (pop_front queue db) c rest,
)

-- The pool answers in the order of return: the first connection whose status is good is given out,
-- whatever stands in front of it, and what stands behind it is the pool's new content.
pub async_get_connection-first :
    (status : ℕ → Status) (connects : Bool) (db : Database) (c : Connection)
    (rest : List (Option Connection))
    → first_connected status db.pool_queue ≡ some (c, rest)
    → ((async_get_connection status connects db).1 ≡ some c)
      × ((async_get_connection status connects db).0.pool_queue ≡ rest)
unfolding async_get_connection
async_get_connection-first status connects db c rest h =
    ground (arith, take_connected-first status none db.pool_queue db c rest)

-- Of every connection of the queue the status is bad.
abbrev pub AllBad : (ℕ → Status) → List (Option Connection) → Type 0
AllBad status [] = Unit
AllBad status (none ∷ queue) = AllBad status queue
AllBad status (some c ∷ queue) = (status c.address ≡ bad) × AllBad status queue

-- The addresses in a queue, the last first, in front of others.
pub addresses : List (Option Connection) → List ℕ → List ℕ
addresses [] freed = freed
addresses (none ∷ queue) freed = addresses queue freed
addresses (some c ∷ queue) freed = addresses queue (c.address ∷ freed)

take_connected-AllBad :
    (status : ℕ → Status) (last : Option Connection) (queue : List (Option Connection))
    (db : Database)
    → AllBad status queue
    → last ≡ none
    → ((take_connected status last queue db).1 ≡ none)
      × ((take_connected status last queue db).0.freed ≡ addresses queue db.freed)
      × ((take_connected status last queue db).0.next_address ≡ db.next_address)
      × (db.pool_queue ≡ queue → (take_connected status last queue db).0.pool_queue ≡ [])
unfolding take_connected addresses
take_connected-AllBad status last [] db h e = ground arith
take_connected-AllBad status last (none ∷ queue) db h e =
    let (a, b, c, d) = take_connected-AllBad status none queue (pop_front queue db) h refl in
    (a, b, c, λ _. d refl)
take_connected-AllBad status last (some c ∷ queue) db h e =
    let (a, b, n, d) =
      take_connected-AllBad status none queue (delete_connection (some c) (pop_front queue db)) h.1
        refl in
    rw (h.0, take_connected) (a, b, n, λ _. d refl)

-- A pool of which no connection is alive is emptied, each of its connections deleted, and a new one
-- is made, with no transaction at the server; `async_connect` is taken to succeed.
pub async_get_connection-new :
    (status : ℕ → Status) (db : Database)
    → AllBad status db.pool_queue
    → ((async_get_connection status true db).1
        ≡ some (record { address = db.next_address; session = outside }))
      × ((async_get_connection status true db).0.pool_queue ≡ [])
      × ((async_get_connection status true db).0.next_address ≡ suc db.next_address)
      × ((async_get_connection status true db).0.freed ≡ addresses db.pool_queue db.freed)
unfolding async_get_connection
async_get_connection-new status db h =
    ground (arith, take_connected-AllBad status none db.pool_queue db h refl)

abbrev pub NoneConnected : (ℕ → Status) → List (Option Connection) → Type 0
NoneConnected status [] = Unit
NoneConnected status (none ∷ queue) = NoneConnected status queue
NoneConnected status (some c ∷ queue) = (status c.address ≢ connected) × NoneConnected status queue

take_connected-in_progress :
    (status : ℕ → Status) (last : Option Connection) (queue : List (Option Connection))
    (c : Connection) (db : Database)
    → NoneConnected status queue
    → status c.address ≡ in_progress
    → (take_connected status last (queue ++ (some c ∷ [])) db).1 ≡ some c
unfolding take_connected
take_connected-in_progress status last [] c db h e = rw (e, take_connected)
take_connected-in_progress status last (none ∷ queue) c db h e =
    take_connected-in_progress status none queue c _ h e
take_connected-in_progress status last (some d ∷ queue) c db h e = ground (
  arith,
  h.0,
  take_connected-in_progress status none queue c
      (delete_connection (some d) (pop_front (queue ++ (some c ∷ [])) db)) h.1 e,
  take_connected-in_progress status (some d) queue c (pop_front (queue ++ (some c ∷ [])) db) h.1 e,
)

-- The defect of `async_get_connection`: where the pool has no connected connection and its last one
-- is still connecting, that one is given out as it is. The loop that would connect it is not run.
pub async_get_connection-in_progress :
    (status : ℕ → Status) (connects : Bool) (queue : List (Option Connection)) (c : Connection)
    (db : Database)
    → NoneConnected status queue
    → status c.address ≡ in_progress
    → db.pool_queue ≡ queue ++ (some c ∷ [])
    → (async_get_connection status connects db).1 ≡ some c
unfolding async_get_connection
async_get_connection-in_progress status connects queue c db h e p =
    rw p (ground (arith, take_connected-in_progress status none queue c db h e))

shrink_lem :
    (n : ℕ) (queue : List (Option Connection)) (db : Database)
    → n ≤ length queue
    → shrink n queue db
      ≡ some (record db { pool_queue = drop n queue; freed = addresses (take n queue) db.freed })
unfolding shrink addresses
shrink_lem zero queue db h = refl
shrink_lem (suc n) [] db h = absurd (omega arith)
shrink_lem (suc n) (none ∷ queue) db h = shrink_lem n queue db (omega arith)
shrink_lem (suc n) (some c ∷ queue) db h =
    shrink_lem n queue (delete_connection (some c) db) (omega arith)

num_to_shrink_bounds :
    (current average : ℕ)
    → (num_to_shrink current average ≤ current)
      × (current ≤ average → num_to_shrink current average ≡ 0)
      × (average < current
          → (average + 2 * num_to_shrink current average ≤ current)
            × (current ≤ average + 2 * num_to_shrink current average + 1))
unfolding num_to_shrink
num_to_shrink_bounds current average = elim (Bool-cases (ltb average current)) [
  | inl more ↦
      rw more (
        let lt = ltb→lt _ _ more in
        (omega arith, λ h. omega arith, λ h. (omega arith, omega arith)))
  | inr few ↦ rw few (omega arith, λ _. refl, λ h. absurd (ground arith))
]

average_size_bounds :
    (s : PoolStats)
    → (s.counter ≡ 0 → average_size s ≡ 0)
      × (0 < s.counter
          → (s.counter * average_size s ≤ s.cumulative_size)
            × (s.cumulative_size < s.counter * average_size s + s.counter))
unfolding average_size
average_size_bounds s = elim (Bool-cases (s.counter == 0)) [
  | inl e ↦ rw e (λ _. refl, λ h. absurd (ground arith))
  | inr e ↦
      let whole = div-add-mod s.cumulative_size s.counter in
      rw e (
        λ h. absurd (ground arith),
        λ h.
            let rest = mod-lt s.cumulative_size h in
            (omega (arith, whole), omega (arith, whole, rest)),
      )
]

-- The timer takes the longest waiting connections out of the pool and deletes them. With the average
-- of the sizes counted since the last time, rounded down, or 0 where none was counted: a pool no
-- longer than the average stays whole, and of a longer one half of what it has above the average is
-- taken, rounded down. The average starts anew.
pub pool_shrink_timer_handler-drop :
    (db : Database)
    → (n average : ℕ) × (pool_shrink_timer_handler false db
        ≡ some (record db {
          pool_queue = drop n db.pool_queue;
          freed = addresses (take n db.pool_queue) db.freed;
          pool_stats_per_period = record { cumulative_size = 0; counter = 0 };
        }))
      × (db.pool_stats_per_period.counter ≡ 0 → average ≡ 0)
      × (0 < db.pool_stats_per_period.counter
          → (db.pool_stats_per_period.counter * average ≤ db.pool_stats_per_period.cumulative_size)
            × (db.pool_stats_per_period.cumulative_size
                < db.pool_stats_per_period.counter * average + db.pool_stats_per_period.counter))
      × (length db.pool_queue ≤ average → n ≡ 0)
      × (average < length db.pool_queue
          → (average + 2 * n ≤ length db.pool_queue) × (length db.pool_queue ≤ average + 2 * n + 1))
unfolding pool_shrink_timer_handler
pool_shrink_timer_handler-drop db =
    let n = num_to_shrink (length db.pool_queue) (average_size db.pool_stats_per_period) in
    let (within, none_to_do, half) =
      num_to_shrink_bounds (length db.pool_queue) (average_size db.pool_stats_per_period) in
    let (uncounted, counted) = average_size_bounds db.pool_stats_per_period in
    (
      n,
      average_size db.pool_stats_per_period,
      rw (shrink_lem n db.pool_queue db within) refl,
      uncounted,
      counted,
      none_to_do,
      half,
    )
