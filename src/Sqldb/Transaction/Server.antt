-- ===== src/Sqldb/Transaction/Server.antt =====
-- The server's view of the interleaved transactions: which connections are inside a transaction.
use itex_demo.Sqldb.Transaction.Ownership.{
  shrinks, moves, finishes, ends, queries, connects, creates, System, put, Step,
}
use itex_demo.Sqldb.Transaction.Sessions.{
  Plain, WorldFits, pool_shrink_timer_handler-outside, finish-Fits, async_end-Fits, run_query-Fits,
  ensure_connection-Fits, AllOutside, Fits, AllFit,
}
use itex_demo.Sqldb.Transaction.{
  World, returned, done, threw, failed, autocommit_off, Outcome, Transaction, move_transaction,
  async_exec, new_transaction,
}
use itex_demo.Sqldb.Database.{
  Session, unclear, async_get_connection, Database, Connection, Status, new_database,
}
use itex_demo.Base.{
  refl, arith, sym, none, zero, some-injective, subst, suc, [], some, ◌∷◌, set, ◌++◌, ◌≡◌,
  get_elem?, Bool, ℕ, List,
}

AllFit-append :
    (trs : List Transaction) (tr : Transaction)
    → AllFit trs
    → Fits tr.implicit_autocommit tr.connection
    → AllFit (trs ++ (tr ∷ []))
AllFit-append [] tr h f = (f, tt)
AllFit-append (t ∷ trs) tr h f = (h.0, AllFit-append trs tr h.1 f)

AllFit-set :
    (trs : List Transaction) (i : ℕ) (tr : Transaction)
    → AllFit trs
    → Fits tr.implicit_autocommit tr.connection
    → AllFit (set trs i tr)
AllFit-set [] i tr h f = tt
AllFit-set (t ∷ trs) zero tr h f = (f, h.1)
AllFit-set (t ∷ trs) (suc i) tr h f = (h.0, AllFit-set trs i tr h.1 f)

AllFit-get :
    (trs : List Transaction) (i : ℕ) (tr : Transaction)
    → AllFit trs
    → get_elem? trs i ≡ some tr
    → Fits tr.implicit_autocommit tr.connection
AllFit-get [] i tr h e = cc
AllFit-get (t ∷ trs) zero tr h e =
    subst (λ x. Fits x.implicit_autocommit x.connection) (some-injective _ _ e) h.0
AllFit-get (t ∷ trs) (suc i) tr h e = AllFit-get trs i tr h.1 e

abbrev pub SystemFits : System → Type 0
SystemFits s = AllOutside s.db.pool_queue × AllFit s.transactions

put-Fits :
    (i : ℕ) (s t : System) (w : World)
    → SystemFits s
    → t ≡ put i s w
    → WorldFits w.0 w.1
    → SystemFits t
unfolding put
put-Fits i s t w h e f = subst SystemFits (sym e) (f.0, AllFit-set s.transactions i w.1 h.1 f.1)

-- A step in which the text of the client opens no transaction of the server and closes none.
abbrev pub IsPlain : {s t : System} → Step s t → Type 0
IsPlain (queries i tr text query rolled t g e) = Plain text
IsPlain (creates mode t e) = Unit
IsPlain (connects i tr status succeeds begun t g e) = Unit
IsPlain (ends i tr outcome t g e) = Unit
IsPlain (finishes i tr t g e) = Unit
IsPlain (moves i tr t g e) = Unit
IsPlain (shrinks aborted db t p e) = Unit

pub data PlainReach : System → Type 0 where
  plain_start : PlainReach (record { db = new_database; transactions = [] })
  plain_next : {s t : System} → PlainReach s → (st : Step s t) → IsPlain st → PlainReach t

Step-Fits : {s t : System} → SystemFits s → (st : Step s t) → IsPlain st → SystemFits t
unfolding new_transaction move_transaction
Step-Fits {s} h (creates mode t e) plain =
    subst SystemFits (sym e) (h.0, AllFit-append s.transactions (new_transaction mode) h.1 tt)
Step-Fits {s} h (connects i tr status succeeds begun t g e) plain = put-Fits i s t _ h e (
    ensure_connection-Fits status succeeds begun s.db tr.implicit_autocommit tr.connection h.0
      (AllFit-get s.transactions i tr h.1 g))
Step-Fits {s} h (queries i tr text query rolled t g e) plain = put-Fits i s t _ h e (
    run_query-Fits text query rolled s.db tr.implicit_autocommit tr.connection plain h.0
      (AllFit-get s.transactions i tr h.1 g))
Step-Fits {s} h (ends i tr outcome t g e) plain = put-Fits i s t _ h e (
    async_end-Fits outcome s.db tr.implicit_autocommit tr.connection h.0
      (AllFit-get s.transactions i tr h.1 g))
Step-Fits {s} h (finishes i tr t g e) plain = put-Fits i s t _ h e (
    finish-Fits s.db tr.implicit_autocommit tr.connection h.0
      (AllFit-get s.transactions i tr h.1 g))
Step-Fits {s} h (moves i tr t g e) plain = subst SystemFits (sym e) (
  h.0,
  AllFit-append _ tr (AllFit-set s.transactions i (record tr { connection = none }) h.1 tt)
      (AllFit-get s.transactions i tr h.1 g),
)
Step-Fits {s} h (shrinks aborted db t p e) plain =
    subst SystemFits (sym e) (pool_shrink_timer_handler-outside aborted s.db db h.0 p, h.1)

-- Where the texts that clients pass open no transaction of the server and close none (a `BEGIN` of a
-- client would stay open on a connection that is returned to the pool), then however the
-- transactions' operations interleave, every connection in the pool is outside any transaction of
-- the server, so nothing of a finished or abandoned transaction leaks into the next one; a
-- transaction object with automatic commits runs outside a transaction, and one without runs inside
-- one, or with one whose opening or closing statement failed.
pub PlainReach-Fits : {s : System} → PlainReach s → SystemFits s
unfolding new_database
PlainReach-Fits plain_start = (tt, tt)
PlainReach-Fits (plain_next r st p) = Step-Fits (PlainReach-Fits r) st p

-- The defect of `async_exec`: where the begin of an explicit transaction fails, the transaction
-- keeps the connection, and so the next `async_exec` runs its statement without another begin. It
-- returns as if all were well, and the server may have committed the statement at once. This is so
-- for any text, whatever it makes of the session.
pub async_exec-failed_begin :
    (status : ℕ → Status) (succeeds again : Bool) (after : Status) (text : Session → Session)
    (query rolled begun : Outcome) (c : Connection) (db db' : Database) (tr : Transaction)
    → tr.connection ≡ none
    → tr.implicit_autocommit ≡ autocommit_off
    → async_get_connection status succeeds db ≡ (db', some c)
    → (tr' : Transaction) × (async_exec status succeeds (failed after) text query rolled db tr
        ≡ (db', tr', threw))
      × (tr'.connection ≡ some (record c { session = unclear }))
      × (async_exec status again begun text done rolled db' tr'
          ≡ (db', record tr' { connection = some (record c { session = text unclear }) }, returned))
unfolding async_exec
async_exec-failed_begin status succeeds again after text query rolled begun c db db' tr e m g = (
  record tr { connection = some (record c { session = unclear }) },
  ground (arith, e, m, g),
  refl,
  refl,
)
