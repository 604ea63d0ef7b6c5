-- ===== src/Sqldb/Transaction.antt =====
-- platform/sqldb/src/transaction.cpp: a transaction borrows a connection from the pool with its
-- first statement. What the server answers to a statement is an argument of the operations, and for
-- the text of a client also what it makes of the session, which it may open or close itself; the
-- texts and their results are left out.
pub mod Conserve
pub mod Ownership
pub mod Sessions
pub mod Server
mod Tests
use itex_demo.Base.{ℕ, Bool, Option, none, some, List, [], ◌∷◌}
use itex_demo.Sqldb.Database.{
  Session, Status, bad, connected, in_progress, outside, inside, unclear, Connection, Database,
  async_get_connection, return_connection, delete_connection,
}

-- `Mode::ImplicitAutocommit`
pub data Autocommit : Type 0 where
  autocommit_on autocommit_off : Autocommit

-- `class Transaction`, with its pointer to a connection.
pub record Transaction : Type 0 where
  pub implicit_autocommit : Autocommit
  pub connection : Option Connection

-- What came of a statement: results, or an exception, with the connection's status after it.
pub data Outcome : Type 0 where
  done : Outcome
  failed : Status → Outcome

-- How a call of the transaction ended.
pub data Ending : Type 0 where
  returned threw : Ending

abbrev pub World : Type 0
World = Database × Transaction × Ending

-- `Transaction::Transaction`
unfoldable pub new_transaction : Autocommit → Transaction
new_transaction mode = record { implicit_autocommit = mode; connection = none }

-- `Transaction(Transaction&&)`: the new transaction, and what is left of the old one.
unfoldable pub move_transaction : Transaction → Transaction × Transaction
move_transaction tr = (tr, record tr { connection = none })

-- The switch of `~Transaction`.
unfoldable pub give_up : Autocommit → Connection → Database → Database
unfolding delete_connection
give_up autocommit_on c db = return_connection c db
give_up autocommit_off c db = delete_connection (some c) db

-- `~Transaction`
unfoldable pub finish : Database → Transaction → Database × Transaction
unfolding give_up
finish db tr = elim tr.connection [
  | none ↦ (db, tr)
  | some c ↦ (give_up tr.implicit_autocommit c db, record tr { connection = none })
]

-- The end of `async_commit` and `async_rollback`, after their statement.
unfoldable pub end_with : Outcome → Connection → Database → Transaction → World
end_with done c db tr = (
  return_connection (record c { session = outside }) db,
  record tr { connection = none },
  returned,
)
end_with (failed status) c db tr =
    (db, record tr { connection = some (record c { session = unclear }) }, threw)

-- `async_commit` and `async_rollback`, which differ in the statement alone.
unfoldable pub async_end : Outcome → Database → Transaction → World
unfolding end_with
async_end outcome db tr = elim tr.connection [
  | none ↦ (db, tr, returned)
  | some c ↦ elim tr.implicit_autocommit [
    | autocommit_on ↦ (db, tr, returned)
    | autocommit_off ↦ end_with outcome c db tr
  ]
]

-- `async_begin` on a new connection, in the explicit mode.
unfoldable pub async_begin : Outcome → Connection → Database → Transaction → World
async_begin done c db tr =
    (db, record tr { connection = some (record c { session = inside }) }, returned)
async_begin (failed status) c db tr =
    (db, record tr { connection = some (record c { session = unclear }) }, threw)

unfoldable pub begin_if_explicit :
    Autocommit → Outcome → Connection → Database → Transaction → World
unfolding async_begin
begin_if_explicit autocommit_on outcome c db tr = (db, record tr { connection = some c }, returned)
begin_if_explicit autocommit_off outcome c db tr = async_begin outcome c db tr

unfoldable pub with_found : Option Connection → Outcome → Database → Transaction → World
unfolding begin_if_explicit
with_found none begun db tr = (db, tr, threw)
with_found (some c) begun db tr = begin_if_explicit tr.implicit_autocommit begun c db tr

-- The first part of `async_exec`: a connection, if there is none yet, and its begin.
unfoldable pub ensure_connection : (ℕ → Status) → Bool → Outcome → Database → Transaction → World
unfolding with_found
ensure_connection status connects begun db tr = elim tr.connection [
  | some c ↦ (db, tr, returned)
  | none ↦
      let (db', found) = async_get_connection status connects db in with_found found begun db' tr
]

-- The handler of an exception from the statement; whatever the rollback does, the call throws.
unfoldable pub handle_failure : Status → Outcome → Database → Transaction → World
unfolding async_end delete_connection
handle_failure bad rolled db tr =
    (delete_connection tr.connection db, record tr { connection = none }, threw)
handle_failure connected rolled db tr =
    let (db', tr', ending) = async_end rolled db tr in (db', tr', threw)
handle_failure in_progress rolled db tr =
    let (db', tr', ending) = async_end rolled db tr in (db', tr', threw)

-- The session behind the client's text, whatever came of it: a part of the text may have run.
unfoldable pub after_text : (Session → Session) → Transaction → Transaction
after_text text tr = elim tr.connection [
  | none ↦ tr
  | some c ↦ record tr { connection = some (record c { session = text c.session }) }
]

-- The statement itself.
unfoldable pub run_query : (Session → Session) → Outcome → Outcome → Database → Transaction → World
unfolding handle_failure after_text
run_query text done rolled db tr = (db, after_text text tr, returned)
run_query text (failed status) rolled db tr = handle_failure status rolled db (after_text text tr)

unfoldable pub after_connection :
    Ending → (Session → Session) → Outcome → Outcome → Database → Transaction → World
unfolding run_query
after_connection threw text query rolled db tr = (db, tr, threw)
after_connection returned text query rolled db tr = run_query text query rolled db tr

-- `async_exec`: the begin, the statement and the rollback come out as `begun`, `query`, `rolled`, and
-- `text` is what the statement makes of the session.
unfoldable pub async_exec :
    (ℕ → Status)
    → Bool
    → Outcome
    → (Session → Session)
    → Outcome
    → Outcome
    → Database
    → Transaction
    → World
unfolding ensure_connection after_connection
async_exec status connects begun text query rolled db tr =
    let (db', tr', ending) = ensure_connection status connects begun db tr in
    after_connection ending text query rolled db' tr'
