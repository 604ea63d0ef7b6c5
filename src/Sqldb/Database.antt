-- ===== src/Sqldb/Database.antt =====
-- platform/sqldb/src/database.cpp: the pool of connections. Every operation on the pool runs under
-- its spinlock. What libpq answers, a connection's status and whether connecting succeeds, is an
-- argument of the operations. The counters of `PoolStats` are taken not to wrap.
pub mod Pool
mod Tests
use itex_demo.Base.{
  ℕ, zero, suc, ◌+◌, ◌-◌, ◌/◌, Bool, true, false, Option, none, some, List, [], ◌∷◌, ◌++◌, length,
  ltb, ◌==◌, if◌then◌else◌,
}

-- `enum class Connection::Status`
pub data Status : Type 0 where
  bad connected in_progress : Status

-- What the server holds for a connection: no transaction, one, or, after a statement that failed,
-- the one or the other.
pub data Session : Type 0 where
  outside inside unclear : Session

-- A connection object on the heap, by its address, with its session at the server.
pub record Connection : Type 0 where
  pub address : ℕ
  pub session : Session

-- `struct PoolStats`
pub record PoolStats : Type 0 where
  pub cumulative_size : ℕ
  pub counter : ℕ

-- `class Database`; of the heap, where `new` puts the next connection, and what was deleted.
pub record Database : Type 0 where
  pub pool_queue : List (Option Connection)
  pub pool_stats_per_period : PoolStats
  pub next_address : ℕ
  pub freed : List ℕ

-- `Database::Database`
unfoldable pub new_database : Database
new_database = record {
  pool_queue = [];
  pool_stats_per_period = record { cumulative_size = 0; counter = 0 };
  next_address = 0;
  freed = [];
}

-- `PoolStats::update`
unfoldable pub update_stats : ℕ → PoolStats → PoolStats
update_stats value s = record {
  cumulative_size = s.cumulative_size + value;
  counter = suc s.counter;
}

-- `delete connection`; to delete a null pointer does nothing.
unfoldable pub delete_connection : Option Connection → Database → Database
delete_connection none db = db
delete_connection (some c) db = record db { freed = c.address ∷ db.freed }

-- The loop of `~Database`.
unfoldable pub delete_all : List (Option Connection) → Database → Database
unfolding delete_connection
delete_all [] db = record db { pool_queue = [] }
delete_all (c ∷ queue) db = delete_all queue (delete_connection c db)

-- `~Database`
unfoldable pub destroy : Database → Database
unfolding delete_all
destroy db = delete_all db.pool_queue db

-- `front` and `pop_front` in `async_get_connection`, which leave `queue`.
unfoldable pub pop_front : List (Option Connection) → Database → Database
unfolding update_stats
pop_front queue db = record db {
  pool_queue = queue;
  pool_stats_per_period = update_stats (length queue) db.pool_stats_per_period;
}

-- The loop of `async_get_connection` over the pool: `last` is the variable `connection`.
unfoldable pub take_connected :
    (ℕ → Status)
    → Option Connection
    → List (Option Connection)
    → Database
    → Database × Option Connection
unfolding pop_front delete_connection
take_connected status last [] db = (db, last)
take_connected status last (none ∷ queue) db = take_connected status none queue (pop_front queue db)
take_connected status last (some c ∷ queue) db = elim (status c.address) [
  | bad ↦ take_connected status none queue (delete_connection (some c) (pop_front queue db))
  | connected ↦ (pop_front queue db, some c)
  | in_progress ↦ take_connected status (some c) queue (pop_front queue db)
]

-- The rest of `async_get_connection`: a new connection if the pool gave none. Its loop catches
-- `ConnectionException` alone: where `connects` is false another exception leaves the function, and
-- the new connection is neither given nor deleted.
unfoldable pub or_new : Bool → Option Connection → Database → Database × Option Connection
or_new connects (some c) db = (db, some c)
or_new connects none db = (
  record db { next_address = suc db.next_address },
  if connects then some (record { address = db.next_address; session = outside }) else none,
)

unfoldable pub async_get_connection : (ℕ → Status) → Bool → Database → Database × Option Connection
unfolding take_connected or_new
async_get_connection status connects db =
    let (db', found) = take_connected status none db.pool_queue db in or_new connects found db'

unfoldable pub return_connection : Connection → Database → Database
unfolding update_stats
return_connection c db =
    let queue = db.pool_queue ++ (some c ∷ []) in
    record db {
      pool_queue = queue;
      pool_stats_per_period = update_stats (length queue) db.pool_stats_per_period;
    }

-- `average_size` and `num_to_shrink` of `pool_shrink_timer_handler`.
unfoldable pub average_size : PoolStats → ℕ
average_size s = if s.counter == 0 then 0 else s.cumulative_size / s.counter

unfoldable pub num_to_shrink : ℕ → ℕ → ℕ
num_to_shrink current average = if ltb average current then (current - average) / 2 else 0

-- Its loop; `front` of an empty deque is a fault, `none`.
unfoldable pub shrink : ℕ → List (Option Connection) → Database → Option Database
unfolding delete_connection
shrink zero queue db = some (record db { pool_queue = queue })
shrink (suc n) [] db = none
shrink (suc n) (c ∷ queue) db = shrink n queue (delete_connection c db)

unfoldable pub clear_stats : Option Database → Option Database
clear_stats none = none
clear_stats (some db) =
    some (record db { pool_stats_per_period = record { cumulative_size = 0; counter = 0 } })

-- `pool_shrink_timer_handler`; `aborted` tells whether the timer was cancelled.
unfoldable pub pool_shrink_timer_handler : Bool → Database → Option Database
unfolding average_size num_to_shrink shrink clear_stats
pool_shrink_timer_handler aborted db =
    let count = num_to_shrink (length db.pool_queue) (average_size db.pool_stats_per_period) in
    if aborted then some db else clear_stats (shrink count db.pool_queue db)
