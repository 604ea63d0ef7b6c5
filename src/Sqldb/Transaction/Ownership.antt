-- ===== src/Sqldb/Transaction/Ownership.antt =====
-- Any number of transactions over one pool, whose operations interleave: between the sections that
-- touch the pool a coroutine may wait for the server, and others run. `async_exec` is therefore two
-- steps here.
use itex_demo.Sqldb.Transaction.Conserve.{
  ensure_connection-exact, pool_shrink_timer_handler-kept, finish-kept, async_end-kept,
  run_query-kept, Keeps, ensure_connection-kept, held, kept, given,
}
use itex_demo.Sqldb.Transaction.{
  move_transaction, returned, finish, async_end, run_query, ensure_connection, Outcome,
  new_transaction, Transaction, Autocommit, World,
}
use itex_demo.Sqldb.Database.{
  Session, in_progress, pool_shrink_timer_handler, Status, new_database, Database,
}
use itex_demo.Base.{
  ℕ, ◌+◌, ◌≤◌, ◌≡◌, ◌≢◌, refl, Bool, true, some, List, [], ◌∷◌, ◌++◌, arith, get_elem?, set,
}
use itex_demo.Base.Family.{total-append, total, total-set}

-- The program's pool and its transactions.
pub record System : Type 0 where
  pub db : Database
  pub transactions : List Transaction

-- Transaction `i` after an operation on it.
unfoldable pub put : ℕ → System → World → System
put i s w = record { db = w.0; transactions = set s.transactions i w.1 }

-- The steps that one of several transactions, and the shrink timer, take on the pool they share.
pub data Step (s : System) : System → Type 0 where
  creates :
      (mode : Autocommit) (t : System)
      → t ≡ record s { transactions = s.transactions ++ (new_transaction mode ∷ []) }
      → Step s t
  connects :
      (i : ℕ) (tr : Transaction) (status : ℕ → Status) (succeeds : Bool) (begun : Outcome)
      (t : System)
      → get_elem? s.transactions i ≡ some tr
      → t ≡ put i s (ensure_connection status succeeds begun s.db tr)
      → Step s t
  queries :
      (i : ℕ) (tr : Transaction) (text : Session → Session) (query rolled : Outcome) (t : System)
      → get_elem? s.transactions i ≡ some tr
      → t ≡ put i s (run_query text query rolled s.db tr)
      → Step s t
  ends :
      (i : ℕ) (tr : Transaction) (outcome : Outcome) (t : System)
      → get_elem? s.transactions i ≡ some tr
      → t ≡ put i s (async_end outcome s.db tr)
      → Step s t
  finishes :
      (i : ℕ) (tr : Transaction) (t : System)
      → get_elem? s.transactions i ≡ some tr
      → t ≡ put i s ((finish s.db tr).0, (finish s.db tr).1, returned)
      → Step s t
  moves :
      (i : ℕ) (tr : Transaction) (t : System)
      → get_elem? s.transactions i ≡ some tr
      → t ≡ record s {
        transactions =
            set s.transactions i (move_transaction tr).1 ++ ((move_transaction tr).0 ∷ []);
      }
      → Step s t
  shrinks :
      (aborted : Bool) (db : Database) (t : System)
      → pool_shrink_timer_handler aborted s.db ≡ some db
      → t ≡ record s { db = db }
      → Step s t

pub data Reach : System → Type 0 where
  start : Reach (record { db = new_database; transactions = [] })
  next : {s t : System} → Reach s → Step s t → Reach t

abbrev pub held_by : ℕ → Transaction → ℕ
held_by a tr = held a tr.connection

-- How many places hold the address: the pool, the transactions, and the list of deleted ones.
pub places : ℕ → System → ℕ
places a s = kept a s.db + total (held_by a) s.transactions

put-places :
    (a i : ℕ) (s t : System) (tr : Transaction) (w : World)
    → get_elem? s.transactions i ≡ some tr
    → t ≡ put i s w
    → (places a t + (kept a s.db + held a tr.connection)
        ≡ places a s + (kept a w.0 + held a w.1.connection))
      × (given a t.db ≡ given a w.0)
unfolding places put
put-places a i s t tr w g e =
    rw e (omega (arith, total-set (held_by a) s.transactions i tr w.1 g), refl)

given-next :
    (a : ℕ) (db db' : Database) → db'.next_address ≡ db.next_address → given a db' ≡ given a db
unfolding given
given-next a db db' e = rw e

put-Keeps :
    (a i : ℕ) (s t : System) (tr : Transaction) (w : World)
    → get_elem? s.transactions i ≡ some tr
    → t ≡ put i s w
    → Keeps a s.db tr w.0 w.1
    → places a t + given a s.db ≡ places a s + given a t.db
put-Keeps a i s t tr w g e h =
    let (p, d) = put-places a i s t tr w g e in ground (arith, p, d, given-next a s.db w.0 h.1, h.0)

connects-exact :
    (a i : ℕ) (s t : System) (tr : Transaction) (status : ℕ → Status) (succeeds : Bool)
    (begun : Outcome)
    → get_elem? s.transactions i ≡ some tr
    → t ≡ put i s (ensure_connection status succeeds begun s.db tr)
    → ((x : ℕ) → status x ≢ in_progress)
    → succeeds ≡ true
    → places a t + given a s.db ≡ places a s + given a t.db
connects-exact a i s t tr status succeeds begun g e calm success =
    let (p, d) = put-places a i s t tr _ g e in
    omega (arith, p, d, ensure_connection-exact a status succeeds begun s.db tr calm success)

-- A step in which every attempt to connect succeeds and no connection is left half-way.
abbrev pub Calm : {s t : System} → Step s t → Type 0
Calm (connects i tr status succeeds begun t g e) =
    ((x : ℕ) → status x ≢ in_progress) × (succeeds ≡ true)
Calm (creates mode t e) = Unit
Calm (queries i tr text query rolled t g e) = Unit
Calm (ends i tr outcome t g e) = Unit
Calm (finishes i tr t g e) = Unit
Calm (moves i tr t g e) = Unit
Calm (shrinks aborted db t h e) = Unit

-- Such a step keeps every address in as many places as before, but for a new one.
Step-exact :
    (a : ℕ) {s t : System} (st : Step s t)
    → Calm st
    → places a t + given a s.db ≡ places a s + given a t.db
unfolding places new_transaction move_transaction given kept
Step-exact a {s} (creates mode t e) c =
    rw e (omega (arith, total-append (held_by a) s.transactions (new_transaction mode ∷ [])))
Step-exact a {s} (connects i tr status succeeds begun t g e) c =
    connects-exact a i s t tr status succeeds begun g e c.0 c.1
Step-exact a {s} (queries i tr text query rolled t g e) c =
    put-Keeps a i s t tr _ g e (run_query-kept a text query rolled s.db tr)
Step-exact a {s} (ends i tr outcome t g e) c =
    put-Keeps a i s t tr _ g e (async_end-kept a outcome s.db tr)
Step-exact a {s} (finishes i tr t g e) c =
    put-Keeps a i s t tr ((finish s.db tr).0, (finish s.db tr).1, returned) g e
      (finish-kept a s.db tr)
Step-exact a {s} (moves i tr t g e) c = rw e (
    omega (
      arith,
      total-append (held_by a) (set s.transactions i (move_transaction tr).1) (tr ∷ []),
      total-set (held_by a) s.transactions i tr (move_transaction tr).1 g,
    ))
Step-exact a {s} (shrinks aborted db t h e) c =
    let both = pool_shrink_timer_handler-kept a aborted s.db db h in
    rw e (rw both.1 (omega (arith, both.0)))

-- Any step may lose some besides.
Step-places :
    (a : ℕ) {s t : System} → Step s t → places a t + given a s.db ≤ places a s + given a t.db
Step-places a {s} (connects i tr status succeeds begun t g e) =
    let (p, d) = put-places a i s t tr _ g e in
    (omega (arith, p, d, ensure_connection-kept a status succeeds begun s.db tr))
Step-places a (creates mode t e) = omega (arith, Step-exact a (creates mode t e) tt)
Step-places a (queries i tr text query rolled t g e) =
    omega (arith, Step-exact a (queries i tr text query rolled t g e) tt)
Step-places a (ends i tr outcome t g e) = omega (arith, Step-exact a (ends i tr outcome t g e) tt)
Step-places a (finishes i tr t g e) = omega (arith, Step-exact a (finishes i tr t g e) tt)
Step-places a (moves i tr t g e) = omega (arith, Step-exact a (moves i tr t g e) tt)
Step-places a (shrinks aborted db t h e) = omega (arith, Step-exact a (shrinks aborted db t h e) tt)

start-places : (a : ℕ) → places a (record { db = new_database; transactions = [] }) ≡ 0
unfolding places kept new_database
start-places a = omega arith

-- However the transactions' operations interleave, a connection stands in one place at most: in the
-- pool once, or with one transaction, or it was deleted, once. So none is shared by two
-- transactions, none is used after it is deleted, and none is deleted twice. An address that was not
-- given out stands nowhere.
pub Reach-places : (a : ℕ) {s : System} → Reach s → places a s ≤ given a s.db
Reach-places a start = omega (arith, start-places a)
Reach-places a (next r st) = omega (arith, Reach-places a r, Step-places a st)

pub data CalmReach : System → Type 0 where
  calm_start : CalmReach (record { db = new_database; transactions = [] })
  calm_next : {s t : System} → CalmReach s → (st : Step s t) → Calm st → CalmReach t

-- Where every attempt to connect succeeds and no connection is ever left half-way, no connection
-- leaks: each that was made is in the pool, with a transaction, or deleted, and in one place only.
pub CalmReach-places : (a : ℕ) {s : System} → CalmReach s → places a s ≡ given a s.db
unfolding given new_database
CalmReach-places a calm_start = ground (arith, start-places a)
CalmReach-places a (calm_next r st c) = omega (arith, CalmReach-places a r, Step-exact a st c)
