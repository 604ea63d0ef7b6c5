-- ===== src/Sqldb/Transaction/Tests.antt =====
-- Witnesses and tests of the transactions.
use itex_demo.Sqldb.Transaction.Conserve.{given}
use itex_demo.Sqldb.Transaction.Server.{
  async_exec-failed_begin, PlainReach, plain_start, plain_next, PlainReach-Fits, SystemFits,
}
use itex_demo.Sqldb.Transaction.Ownership.{
  queries, creates, Reach-places, start, put, calm_start, connects, next, Reach, System, calm_next,
  CalmReach, places,
}
use itex_demo.Sqldb.Transaction.{
  run_query, returned, threw, failed, done, async_exec, ensure_connection, Transaction,
  autocommit_off, new_transaction,
}
use itex_demo.Sqldb.Database.{
  unclear, async_get_connection, connected, new_database, Status, outside, Connection, Database,
}
use itex_demo.Base.{[], ◌∷◌, some, refl, true, ◌≡◌, ◌≤◌, ℕ}

abbrev all_connected : ℕ → Status
all_connected _ = connected

-- A transaction is made, and gets a connection and a begin.
abbrev made : System
made = record { db = new_database; transactions = new_transaction autocommit_off ∷ [] }

abbrev begun_once : System
begun_once =
    put 0 made (ensure_connection all_connected true done made.db (new_transaction autocommit_off))

made-CalmReach : CalmReach made
made-CalmReach = calm_next calm_start (creates autocommit_off made refl) tt

begun_once-CalmReach : CalmReach begun_once
begun_once-CalmReach =
    calm_next made-CalmReach
      (connects 0 (new_transaction autocommit_off) all_connected true done begun_once refl refl)
      (λ x e. cc, refl)

begun_once-Reach : Reach begun_once
begun_once-Reach =
    next (next start (creates autocommit_off made refl))
      (connects 0 (new_transaction autocommit_off) all_connected true done begun_once refl refl)

Reach-places_example : places 0 begun_once ≤ given 0 begun_once.db
Reach-places_example = Reach-places 0 begun_once-Reach

-- It then runs a text that keeps the session as it is.
abbrev run_once : System
run_once = put 0 begun_once (
    run_query (λ x. x) done done begun_once.db
      (ensure_connection all_connected true done made.db (new_transaction autocommit_off)).1)

run_once-PlainReach : PlainReach run_once
unfolding put
run_once-PlainReach =
    plain_next
      (plain_next (plain_next plain_start (creates autocommit_off made refl) tt)
        (connects 0 (new_transaction autocommit_off) all_connected true done begun_once refl refl)
        tt)
      (queries 0
        (ensure_connection all_connected true done made.db (new_transaction autocommit_off)).1
        (λ x. x) done done run_once refl refl)
      (refl, λ x n. n)

PlainReach-Fits_example : SystemFits run_once
PlainReach-Fits_example = PlainReach-Fits run_once-PlainReach

abbrev fresh : Connection
fresh = record { address = 0; session = outside }

abbrev after_first : Database
after_first = record new_database { next_address = 1 }

async_exec-failed_begin_example :
    (tr : Transaction) × (async_exec all_connected true
        (failed connected)
        (λ x. x)
        done
        done
        new_database
        (new_transaction autocommit_off)
      ≡ (after_first, tr, threw))
    × (tr.connection ≡ some (record fresh { session = unclear }))
    × (async_exec all_connected true done (λ x. x) done done after_first tr ≡ (
      after_first,
      record tr { connection = some (record fresh { session = unclear }) },
      returned,
    ))
unfolding new_transaction new_database async_get_connection
async_exec-failed_begin_example =
    async_exec-failed_begin all_connected true true connected (λ x. x) done done done fresh
      new_database after_first (new_transaction autocommit_off) refl refl refl
