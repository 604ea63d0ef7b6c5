-- ===== src/Sqldb/Transaction/Conserve.antt =====
-- How often an address stands in the pool, with a transaction or among the deleted ones, and what
-- each operation makes of that number.
use itex_demo.Sqldb.Transaction.{
  after_text, ensure_connection, async_begin, run_query, handle_failure, async_end, with_found,
  begin_if_explicit, done, autocommit_off, failed, autocommit_on, Outcome, Autocommit, end_with,
  give_up, finish, Transaction,
}
use itex_demo.Base.{
  length, zero, suc, false, ap, ◌⊎◌, inr, inl, Option-cases, Bool, true, ℕ, ◌+◌, ◌≤◌, ◌≡◌, ◌≢◌,
  refl, Option, none, some, List, [], ◌∷◌, arith, ltb, ◌==◌, if◌then◌else◌,
}
use itex_demo.Base.Family.{total-append, total}
use itex_demo.Sqldb.Database.{
  Session, average_size, num_to_shrink, shrink, pool_shrink_timer_handler, async_get_connection,
  connected, bad, outside, or_new, return_connection, Status, in_progress, Connection, Database,
  take_connected, delete_connection, pop_front,
}

abbrev pub same : ℕ → ℕ → ℕ
same a b = if a == b then 1 else 0

abbrev pub held : ℕ → Option Connection → ℕ
held a none = 0
held a (some c) = same a c.address

-- The pool and the deleted connections.
unfoldable pub kept : ℕ → Database → ℕ
kept a db = total (held a) db.pool_queue + total (same a) db.freed

-- An address that `new` has given out stands for one object.
unfoldable pub given : ℕ → Database → ℕ
given a db = if ltb a db.next_address then 1 else 0

module _ (a : ℕ) (status : ℕ → Status) where
  take_connected-kept :
      (last : Option Connection) (queue : List (Option Connection)) (db : Database)
      → db.pool_queue ≡ queue
      → kept a (take_connected status last queue db).0
          + held a (take_connected status last queue db).1
        ≤ kept a db + held a last
  unfolding take_connected kept pop_front delete_connection
  take_connected-kept last [] db e = omega arith
  take_connected-kept last (none ∷ queue) db e =
      rw e (omega (arith, take_connected-kept none queue (pop_front queue db) refl))
  take_connected-kept last (some c ∷ queue) db e = rw e (
      ground (
        arith,
        take_connected-kept none queue (delete_connection (some c) (pop_front queue db)) refl,
        take_connected-kept (some c) queue (pop_front queue db) refl,
      ))

  take_connected-exact :
      (queue : List (Option Connection)) (db : Database)
      → ((x : ℕ) → status x ≢ in_progress)
      → db.pool_queue ≡ queue
      → kept a (take_connected status none queue db).0
          + held a (take_connected status none queue db).1
        ≡ kept a db
  unfolding take_connected kept pop_front delete_connection
  take_connected-exact [] db s e = omega arith
  take_connected-exact (none ∷ queue) db s e =
      rw e (omega (arith, take_connected-exact queue (pop_front queue db) s refl))
  take_connected-exact (some c ∷ queue) db s e = rw e (
      ground (
        arith,
        s c.address,
        take_connected-exact queue (delete_connection (some c) (pop_front queue db)) s refl,
      ))

  take_connected-next :
      (last : Option Connection) (queue : List (Option Connection)) (db : Database)
      → (take_connected status last queue db).0.next_address ≡ db.next_address
  unfolding take_connected pop_front delete_connection
  take_connected-next last [] db = refl
  take_connected-next last (none ∷ queue) db = take_connected-next none queue (pop_front queue db)
  take_connected-next last (some c ∷ queue) db = ground (
    arith,
    take_connected-next none queue (delete_connection (some c) (pop_front queue db)),
    take_connected-next (some c) queue (pop_front queue db),
  )

pub Autocommit-cases : (m : Autocommit) → (m ≡ autocommit_on) ⊎ (m ≡ autocommit_off)
Autocommit-cases autocommit_on = inl refl
Autocommit-cases autocommit_off = inr refl

module _ (a : ℕ) where
  return_connection-kept :
      (c : Connection) (db : Database)
      → kept a (return_connection c db) ≡ kept a db + same a c.address
  unfolding kept return_connection
  return_connection-kept c db = omega (arith, total-append (held a) db.pool_queue (some c ∷ []))

  or_new-kept :
      (connects : Bool) (found : Option Connection) (db : Database)
      → kept a (or_new connects found db).0 + held a (or_new connects found db).1 + given a db
        ≤ kept a db + held a found + given a (or_new connects found db).0
  unfolding or_new kept given
  or_new-kept connects none db = ground arith
  or_new-kept connects (some c) db = omega arith

  or_new-exact :
      (connects : Bool) (found : Option Connection) (db : Database)
      → connects ≡ true
      → kept a (or_new connects found db).0 + held a (or_new connects found db).1 + given a db
        ≡ kept a db + held a found + given a (or_new connects found db).0
  unfolding or_new kept given
  or_new-exact connects none db h = ground arith
  or_new-exact connects (some c) db h = omega arith

  delete_connection-kept :
      (c : Option Connection) (db : Database)
      → kept a (delete_connection c db) ≡ kept a db + held a c
  unfolding kept delete_connection
  delete_connection-kept none db = omega arith
  delete_connection-kept (some c) db = omega arith

  give_up-kept :
      (mode : Autocommit) (c : Connection) (db : Database)
      → (kept a (give_up mode c db) ≡ kept a db + same a c.address)
        × ((give_up mode c db).next_address ≡ db.next_address)
  unfolding give_up delete_connection return_connection
  give_up-kept autocommit_on c db = (return_connection-kept c db, refl)
  give_up-kept autocommit_off c db = (delete_connection-kept (some c) db, refl)

  delete_connection-next :
      (c : Option Connection) (db : Database)
      → (delete_connection c db).next_address ≡ db.next_address
  unfolding delete_connection
  delete_connection-next none db = refl
  delete_connection-next (some c) db = refl

  -- An operation that leaves what the address weighs, and gives out none.
  abbrev pub Keeps : Database → Transaction → Database → Transaction → Type 0
  Keeps db tr db' tr' =
      (kept a db' + held a tr'.connection ≡ kept a db + held a tr.connection)
      × (db'.next_address ≡ db.next_address)

  pub finish-kept :
      (db : Database) (tr : Transaction) → Keeps db tr (finish db tr).0 (finish db tr).1
  unfolding finish
  finish-kept db tr = elim (Option-cases tr.connection) [
    | inl e ↦ rw (e, finish) (rw e (refl, refl))
    | inr (c, e) ↦
        let (k, n) = give_up-kept tr.implicit_autocommit c db in rw (e, finish) (omega arith, n)
  ]

  end_with-kept :
      (outcome : Outcome) (c : Connection) (db : Database) (tr : Transaction)
      → tr.connection ≡ some c
      → Keeps db tr (end_with outcome c db tr).0 (end_with outcome c db tr).1
  unfolding end_with return_connection
  end_with-kept done c db tr e =
      rw e (omega (arith, return_connection-kept (record c { session = outside }) db), refl)
  end_with-kept (failed status) c db tr e = rw e (refl, refl)

  pub async_end-kept :
      (outcome : Outcome) (db : Database) (tr : Transaction)
      → Keeps db tr (async_end outcome db tr).0 (async_end outcome db tr).1
  unfolding async_end
  async_end-kept outcome db tr = elim (Option-cases tr.connection) [
    | inl e ↦ rw (e, async_end) (rw e (refl, refl))
    | inr (c, e) ↦ elim (Autocommit-cases tr.implicit_autocommit) [
      | inl on ↦ rw (e, on, async_end) (rw e (refl, refl))
      | inr off ↦
          let (k, n) = end_with-kept outcome c db tr e in
          rw (e, off, async_end) (omega (arith, ap (held a) e), n)
    ]
  ]

  handle_failure-kept :
      (status : Status) (rolled : Outcome) (db : Database) (tr : Transaction)
      → Keeps db tr (handle_failure status rolled db tr).0 (handle_failure status rolled db tr).1
  unfolding handle_failure
  handle_failure-kept bad rolled db tr = (
    omega (arith, delete_connection-kept tr.connection db),
    delete_connection-next tr.connection db,
  )
  handle_failure-kept connected rolled db tr = async_end-kept rolled db tr
  handle_failure-kept in_progress rolled db tr = async_end-kept rolled db tr

  after_text-held :
      (text : Session → Session) (tr : Transaction)
      → held a (after_text text tr).connection ≡ held a tr.connection
  unfolding after_text
  after_text-held text tr = elim (Option-cases tr.connection) [
    | inl nothing ↦ rw (nothing, after_text) (ap (held a) nothing)
    | inr (c, here) ↦ rw (here, after_text) refl
  ]

  pub run_query-kept :
      (text : Session → Session) (query rolled : Outcome) (db : Database) (tr : Transaction)
      → Keeps db tr (run_query text query rolled db tr).0 (run_query text query rolled db tr).1
  unfolding run_query
  run_query-kept text done rolled db tr = (omega (arith, after_text-held text tr), refl)
  run_query-kept text (failed status) rolled db tr =
      let (sum, next) = handle_failure-kept status rolled db (after_text text tr) in
      (omega (arith, sum, after_text-held text tr), next)

  begin_if_explicit-kept :
      (mode : Autocommit) (outcome : Outcome) (c : Connection) (db : Database) (tr : Transaction)
      → ((begin_if_explicit mode outcome c db tr).0 ≡ db)
        × (held a (begin_if_explicit mode outcome c db tr).1.connection ≡ same a c.address)
  unfolding begin_if_explicit async_begin
  begin_if_explicit-kept autocommit_on outcome c db tr = (refl, refl)
  begin_if_explicit-kept autocommit_off done c db tr = (refl, refl)
  begin_if_explicit-kept autocommit_off (failed status) c db tr = (refl, refl)

  with_found-kept :
      (found : Option Connection) (outcome : Outcome) (db : Database) (tr : Transaction)
      → tr.connection ≡ none
      → ((with_found found outcome db tr).0 ≡ db)
        × (held a (with_found found outcome db tr).1.connection ≡ held a found)
  unfolding with_found
  with_found-kept none outcome db tr e = rw e (refl, refl)
  with_found-kept (some c) outcome db tr e =
      begin_if_explicit-kept tr.implicit_autocommit outcome c db tr

  -- Connections may be lost on the way to a new one, and none is made up.
  pub ensure_connection-kept :
      (status : ℕ → Status) (connects : Bool) (begun : Outcome) (db : Database) (tr : Transaction)
      → kept a (ensure_connection status connects begun db tr).0
          + held a (ensure_connection status connects begun db tr).1.connection
          + given a db
        ≤ kept a db
          + held a tr.connection
          + given a (ensure_connection status connects begun db tr).0
  unfolding ensure_connection async_get_connection given
  ensure_connection-kept status connects begun db tr = elim (Option-cases tr.connection) [
    | inr (c, e) ↦ rw (e, ensure_connection) (rw e (omega arith))
    | inl e ↦
        let (got, last) = take_connected status none db.pool_queue db in
        let (db', found) = or_new connects last got in
        rw (e, ensure_connection)
          (ground (
            arith,
            with_found-kept found begun db' tr e,
            or_new-kept connects last got,
            take_connected-kept a status none db.pool_queue db refl,
            take_connected-next a status none db.pool_queue db,
            e,
          ))
  ]

  -- Where no connection is left half-way and every attempt to connect succeeds, none is lost.
  pub ensure_connection-exact :
      (status : ℕ → Status) (connects : Bool) (begun : Outcome) (db : Database) (tr : Transaction)
      → ((x : ℕ) → status x ≢ in_progress)
      → connects ≡ true
      → kept a (ensure_connection status connects begun db tr).0
          + held a (ensure_connection status connects begun db tr).1.connection
          + given a db
        ≡ kept a db
          + held a tr.connection
          + given a (ensure_connection status connects begun db tr).0
  unfolding ensure_connection async_get_connection given
  ensure_connection-exact status connects begun db tr s h = elim (Option-cases tr.connection) [
    | inr (c, e) ↦ rw (e, ensure_connection) (rw e (omega arith))
    | inl e ↦
        let (got, last) = take_connected status none db.pool_queue db in
        let (db', found) = or_new connects last got in
        rw (e, ensure_connection)
          (ground (
            arith,
            with_found-kept found begun db' tr e,
            or_new-exact connects last got h,
            take_connected-exact a status db.pool_queue db s refl,
            take_connected-next a status none db.pool_queue db,
            e,
          ))
  ]

  shrink-kept :
      (n : ℕ) (queue : List (Option Connection)) (db db' : Database)
      → shrink n queue db ≡ some db'
      → (kept a db' ≡ total (held a) queue + total (same a) db.freed)
        × (db'.next_address ≡ db.next_address)
  unfolding shrink kept delete_connection
  shrink-kept zero queue db db' h = ground arith
  shrink-kept (suc n) [] db db' h = ground arith
  shrink-kept (suc n) (none ∷ queue) db db' h =
      let both = shrink-kept n queue db db' h in (omega (arith, both.0), both.1)
  shrink-kept (suc n) (some c ∷ queue) db db' h =
      let both = shrink-kept n queue (delete_connection (some c) db) db' h in
      (omega (arith, both.0), both.1)

  pub pool_shrink_timer_handler-kept :
      (aborted : Bool) (db db' : Database)
      → pool_shrink_timer_handler aborted db ≡ some db'
      → (kept a db' ≡ kept a db) × (db'.next_address ≡ db.next_address)
  unfolding pool_shrink_timer_handler kept
  pool_shrink_timer_handler-kept true db db' h = ground arith
  pool_shrink_timer_handler-kept false db db' h =
      let n = num_to_shrink (length db.pool_queue) (average_size db.pool_stats_per_period) in
      elim (Option-cases (shrink n db.pool_queue db)) [
        | inl e ↦ ground arith
        | inr (mid, e) ↦ let (k, l) = shrink-kept n db.pool_queue db mid e in ground (arith, k, l)
      ]
