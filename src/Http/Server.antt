-- ===== src/Http/Server.antt =====
-- platform/http/src/server.cpp and connection.cpp: the connection objects of the server, which it
-- keeps in a pool under their ids, moves to a queue when they end, takes from there for new clients,
-- and deletes from time to time. A connection is its address; its id is the hash of the client's
-- endpoint, which is given here. Each function is what its source does under the locks; `stop` is one
-- step, and a connection starts in the step that puts it into the pool.
pub mod Conserve
pub mod Places
pub mod Collision
pub mod Keys
pub mod Stopping
mod Tests
use itex_demo.Base.{
  zero, suc, ◌++◌, length, ◌==◌, none, ◌>>=◌, false, true, ◌∷◌, [], some, ◌+◌, if◌then◌else◌, List,
  Option, Bool, ℕ,
}

-- `class http::Connection`: the members that the server's pool depends on.
pub record Connection : Type 0 where
  pub id : ℕ
  pub running : Bool
  pub deletion_sheduled : Bool

-- `class http::Server`: its pool and its queue, and the objects on the heap: how many were made, and
-- which of them were deleted.
pub record Server : Type 0 where
  pub connection_pool : List (ℕ × ℕ)
  pub connections_to_delete : List ℕ
  pub objects : ℕ → Connection
  pub made : ℕ
  pub deleted : List ℕ

unfoldable pub new_server : Server
new_server = record {
  connection_pool = [];
  connections_to_delete = [];
  objects = λ _. record { id = 0; running = false; deletion_sheduled = false };
  made = 0;
  deleted = [];
}

unfoldable pub update_object : ℕ → Connection → Server → Server
update_object a c s = record s { objects = λ b. if b == a then c else s.objects b }

-- The pool as a map: `find`, `operator[]` for a store, `erase`.
unfoldable pub find_connection : ℕ → List (ℕ × ℕ) → Option ℕ
find_connection id [] = none
find_connection id ((key, a) ∷ rest) = if key == id then some a else find_connection id rest

unfoldable pub put_connection : ℕ → ℕ → List (ℕ × ℕ) → List (ℕ × ℕ)
put_connection id a [] = (id, a) ∷ []
put_connection id a ((key, b) ∷ rest) =
    if key == id then (key, a) ∷ rest else (key, b) ∷ put_connection id a rest

unfoldable pub erase_connection : ℕ → List (ℕ × ℕ) → List (ℕ × ℕ)
erase_connection id [] = []
erase_connection id ((key, b) ∷ rest) =
    if key == id then rest else (key, b) ∷ erase_connection id rest

-- `Connection::reinit` for a client whose endpoint has the hash `id`.
unfoldable pub reinit : ℕ → ℕ → Server → Server
reinit id a s = update_object a (record { id = id; running = false; deletion_sheduled = false }) s

-- An acceptor's connection for a new client: one from the queue, or a new one.
unfoldable pub take_from_queue : List ℕ → Server → Server × ℕ
take_from_queue [] s = (record s { made = s.made + 1 }, s.made)
take_from_queue (a ∷ queue) s = (record s { connections_to_delete = queue }, a)

unfoldable pub take_connection : ℕ → Server → Server × ℕ
take_connection id s =
    let (s', a) = take_from_queue s.connections_to_delete s in (reinit id a s', a)

-- `Connection::start` and `Connection::stop`, without the socket.
unfoldable pub set_running : Bool → ℕ → Server → Server
set_running running a s = update_object a (record (s.objects a) { running = running }) s

-- The acceptor's connection goes into the pool and starts.
unfoldable pub insert_connection : ℕ → Server → Server
insert_connection a s =
    set_running true a
      (record s { connection_pool = put_connection (s.objects a).id a s.connection_pool })

unfoldable pub move_found : ℕ → Option ℕ → Server → Server
move_found id none s = s
move_found id (some a) s = record s {
  connections_to_delete = s.connections_to_delete ++ (a ∷ []);
  connection_pool = erase_connection id s.connection_pool;
}

unfoldable pub move_connection_to_delete_queue_nolock : ℕ → Server → Server
move_connection_to_delete_queue_nolock id s = move_found id (find_connection id s.connection_pool) s

unfoldable pub schedule_connection_delete : ℕ → Server → Server
schedule_connection_delete id s = move_connection_to_delete_queue_nolock id s

-- `Connection::kill`, which ends a connection's coroutine, up to its last line, and that line, which
-- no lock protects.
unfoldable pub kill_begin : ℕ → Server → Server
kill_begin a s =
    if (s.objects a).deletion_sheduled
    then s
    else schedule_connection_delete (s.objects a).id (set_running false a s)

unfoldable pub kill_end : ℕ → Server → Server
kill_end a s = update_object a (record (s.objects a) { deletion_sheduled = true }) s

unfoldable pub process_sheduled_connection_delete : Server → Server
process_sheduled_connection_delete s = record s {
  connections_to_delete = [];
  deleted = s.deleted ++ s.connections_to_delete;
}

-- One round of the loop of `Server::stop`, for the first connection of the pool.
unfoldable pub stop_one : ℕ → Server → Server
stop_one a s =
    let stopped = set_running false a s in
    move_connection_to_delete_queue_nolock (stopped.objects a).id stopped

-- The loop, on fuel: `none` is a loop that has not ended.
unfoldable pub stop_all : ℕ → Server → Option Server
stop_all zero s = if length s.connection_pool == 0 then some s else none
stop_all (suc fuel) s = elim s.connection_pool [
  | [] ↦ some s
  | (key, a) ∷ rest ↦ stop_all fuel (stop_one a s)
]

-- `Server::stop` without its wait.
unfoldable pub stop : ℕ → Server → Option Server
stop fuel s = do s' ← stop_all fuel s; some (process_sheduled_connection_delete s')

-- The objects in a pool, by address.
abbrev pub addresses_of : List (ℕ × ℕ) → List ℕ
addresses_of [] = []
addresses_of ((key, a) ∷ rest) = a ∷ addresses_of rest

-- `Server::~Server`
unfoldable pub destroy : Server → Server
destroy s =
    process_sheduled_connection_delete
      (record s { connection_pool = []; deleted = s.deleted ++ addresses_of s.connection_pool })
