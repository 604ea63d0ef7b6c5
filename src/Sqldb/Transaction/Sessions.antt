-- ===== src/Sqldb/Transaction/Sessions.antt =====
-- What the server holds for each connection, and what becomes of a transaction whose begin failed.
use itex_demo.Sqldb.Transaction.{
  after_text, done, failed, async_begin, Outcome, begin_if_explicit, handle_failure, give_up,
  end_with, ensure_connection, finish, run_query, with_found, async_end, autocommit_off,
  autocommit_on, Transaction, Autocommit,
}
use itex_demo.Sqldb.Database.{
  Session, average_size, num_to_shrink, shrink, pool_shrink_timer_handler, in_progress, connected,
  async_get_connection, return_connection, bad, or_new, Status, outside, delete_connection,
  pop_front, Connection, take_connected, Database,
}
use itex_demo.Base.{
  ◌∙◌, ap, arith, Option-cases, length, some-injective, subst, refl, false, true, Bool, inr, ◌⊎◌,
  inl, ◌≢◌, zero, ◌++◌, none, suc, [], some, ◌≡◌, ◌∷◌, drop, List, ℕ, Option,
}

-- Only connections with no transaction at the server wait in the pool.
abbrev pub AllOutside : List (Option Connection) → Type 0
AllOutside [] = Unit
AllOutside (none ∷ queue) = AllOutside queue
AllOutside (some c ∷ queue) = (c.session ≡ outside) × AllOutside queue

-- With automatic commits a transaction's statements run outside a transaction of the server, and
-- without, in one, unless a statement that opens or closes it failed.
abbrev pub Fits : Autocommit → Option Connection → Type 0
Fits mode none = Unit
Fits autocommit_on (some c) = c.session ≡ outside
Fits autocommit_off (some c) = c.session ≢ outside

abbrev pub AllFit : List Transaction → Type 0
AllFit [] = Unit
AllFit (tr ∷ trs) = Fits tr.implicit_autocommit tr.connection × AllFit trs

abbrev pub WorldFits : Database → Transaction → Type 0
WorldFits db tr = AllOutside db.pool_queue × Fits tr.implicit_autocommit tr.connection

AllOutside-append :
    (queue : List (Option Connection)) (c : Connection)
    → AllOutside queue
    → c.session ≡ outside
    → AllOutside (queue ++ (some c ∷ []))
AllOutside-append [] c h e = (e, tt)
AllOutside-append (none ∷ queue) c h e = AllOutside-append queue c h e
AllOutside-append (some d ∷ queue) c h e = (h.0, AllOutside-append queue c h.1 e)

AllOutside-drop :
    (n : ℕ) (queue : List (Option Connection)) → AllOutside queue → AllOutside (drop n queue)
AllOutside-drop zero queue h = h
AllOutside-drop (suc n) [] h = h
AllOutside-drop (suc n) (none ∷ queue) h = AllOutside-drop n queue h
AllOutside-drop (suc n) (some c ∷ queue) h = AllOutside-drop n queue h.1

abbrev SessionOutside : Option Connection → Type 0
SessionOutside none = Unit
SessionOutside (some c) = c.session ≡ outside

Status-cases : (s : Status) → (s ≡ bad) ⊎ ((s ≡ connected) ⊎ (s ≡ in_progress))
Status-cases bad = inl refl
Status-cases connected = inr (inl refl)
Status-cases in_progress = inr (inr refl)

or_new-outside :
    (connects : Bool) (found : Option Connection) (db : Database)
    → AllOutside db.pool_queue × SessionOutside found
    → AllOutside (or_new connects found db).0.pool_queue
      × SessionOutside (or_new connects found db).1
unfolding or_new
or_new-outside connects (some c) db h = h
or_new-outside true none db h = (h.0, refl)
or_new-outside false none db h = (h.0, tt)

take_connected-outside :
    (status : ℕ → Status) (last : Option Connection) (queue : List (Option Connection))
    (db : Database)
    → AllOutside queue
    → db.pool_queue ≡ queue
    → SessionOutside last
    → AllOutside (take_connected status last queue db).0.pool_queue
      × SessionOutside (take_connected status last queue db).1
unfolding take_connected pop_front delete_connection
take_connected-outside status last [] db h e l = rw e (tt, l)
take_connected-outside status last (none ∷ queue) db h e l =
    take_connected-outside status none queue (pop_front queue db) h refl tt
take_connected-outside status last (some c ∷ queue) db h e l =
    elim (Status-cases (status c.address)) [
      | inl dead ↦
          rw (dead, take_connected)
            (take_connected-outside status none queue
              (delete_connection (some c) (pop_front queue db)) h.1 refl tt)
      | inr (inl good) ↦ rw (good, take_connected) (h.1, h.0)
      | inr (inr half) ↦
          rw (half, take_connected)
            (take_connected-outside status (some c) queue (pop_front queue db) h.1 refl h.0)
    ]

async_get_connection-outside :
    (status : ℕ → Status) (connects : Bool) (db : Database)
    → AllOutside db.pool_queue
    → AllOutside (async_get_connection status connects db).0.pool_queue
      × SessionOutside (async_get_connection status connects db).1
unfolding async_get_connection
async_get_connection-outside status connects db h =
    or_new-outside connects (take_connected status none db.pool_queue db).1
      (take_connected status none db.pool_queue db).0
      (take_connected-outside status none db.pool_queue db h refl tt)

return_connection-outside :
    (c : Connection) (db : Database)
    → AllOutside db.pool_queue
    → c.session ≡ outside
    → AllOutside (return_connection c db).pool_queue
unfolding return_connection
return_connection-outside c db h e = AllOutside-append db.pool_queue c h e

delete_connection-outside :
    (c : Option Connection) (db : Database)
    → AllOutside db.pool_queue
    → AllOutside (delete_connection c db).pool_queue
unfolding delete_connection
delete_connection-outside none db h = h
delete_connection-outside (some c) db h = h

pub finish-Fits :
    (db : Database) (mode : Autocommit) (found : Option Connection)
    → AllOutside db.pool_queue
    → Fits mode found
    → WorldFits
        (finish db (record { implicit_autocommit = mode; connection = found })).0
        (finish db (record { implicit_autocommit = mode; connection = found })).1
unfolding finish give_up
finish-Fits db mode none h f = (h, tt)
finish-Fits db autocommit_on (some c) h f = (return_connection-outside c db h f, tt)
finish-Fits db autocommit_off (some c) h f = (delete_connection-outside (some c) db h, tt)

pub async_end-Fits :
    (outcome : Outcome) (db : Database) (mode : Autocommit) (found : Option Connection)
    → AllOutside db.pool_queue
    → Fits mode found
    → WorldFits
        (async_end outcome db (record { implicit_autocommit = mode; connection = found })).0
        (async_end outcome db (record { implicit_autocommit = mode; connection = found })).1
unfolding async_end end_with
async_end-Fits outcome db mode none h f = (h, tt)
async_end-Fits outcome db autocommit_on (some c) h f = (h, f)
async_end-Fits done db autocommit_off (some c) h f =
    (return_connection-outside (record c { session = outside }) db h refl, tt)
async_end-Fits (failed status) db autocommit_off (some c) h f = (h, λ e. cc)

-- A text that opens no transaction of the server and closes none.
abbrev pub Plain : (Session → Session) → Type 0
Plain text = (text outside ≡ outside) × ((x : Session) → x ≢ outside → text x ≢ outside)

after_text-Fits :
    (text : Session → Session) (mode : Autocommit) (c : Connection)
    → Plain text
    → Fits mode (some c)
    → Fits mode (some (record c { session = text c.session }))
after_text-Fits text autocommit_on c p f = ap text f ∙ p.0
after_text-Fits text autocommit_off c p f = p.1 c.session f

pub run_query-Fits :
    (text : Session → Session) (query rolled : Outcome) (db : Database) (mode : Autocommit)
    (found : Option Connection)
    → Plain text
    → AllOutside db.pool_queue
    → Fits mode found
    → WorldFits
        (run_query text query rolled db
          (record { implicit_autocommit = mode; connection = found })).0
        (run_query text query rolled db
          (record { implicit_autocommit = mode; connection = found })).1
unfolding run_query handle_failure after_text
run_query-Fits text done rolled db mode none p h f = (h, tt)
run_query-Fits text done rolled db mode (some c) p h f = (h, after_text-Fits text mode c p f)
run_query-Fits text (failed bad) rolled db mode none p h f =
    (delete_connection-outside none db h, tt)
run_query-Fits text (failed bad) rolled db mode (some c) p h f =
    (delete_connection-outside (some (record c { session = text c.session })) db h, tt)
run_query-Fits text (failed connected) rolled db mode none p h f =
    async_end-Fits rolled db mode none h f
run_query-Fits text (failed connected) rolled db mode (some c) p h f =
    async_end-Fits rolled db mode (some (record c { session = text c.session })) h
      (after_text-Fits text mode c p f)
run_query-Fits text (failed in_progress) rolled db mode none p h f =
    async_end-Fits rolled db mode none h f
run_query-Fits text (failed in_progress) rolled db mode (some c) p h f =
    async_end-Fits rolled db mode (some (record c { session = text c.session })) h
      (after_text-Fits text mode c p f)

with_found-Fits :
    (found : Option Connection) (begun : Outcome) (db : Database) (mode : Autocommit)
    → AllOutside db.pool_queue
    → SessionOutside found
    → WorldFits
        (with_found found begun db (record { implicit_autocommit = mode; connection = none })).0
        (with_found found begun db (record { implicit_autocommit = mode; connection = none })).1
unfolding with_found begin_if_explicit async_begin
with_found-Fits none begun db mode h s = (h, tt)
with_found-Fits (some c) begun db autocommit_on h s = (h, s)
with_found-Fits (some c) done db autocommit_off h s = (h, λ e. cc)
with_found-Fits (some c) (failed status) db autocommit_off h s = (h, λ e. cc)

pub ensure_connection-Fits :
    (status : ℕ → Status) (connects : Bool) (begun : Outcome) (db : Database) (mode : Autocommit)
    (found : Option Connection)
    → AllOutside db.pool_queue
    → Fits mode found
    → WorldFits
        (ensure_connection status connects begun db
          (record { implicit_autocommit = mode; connection = found })).0
        (ensure_connection status connects begun db
          (record { implicit_autocommit = mode; connection = found })).1
unfolding ensure_connection
ensure_connection-Fits status connects begun db mode (some c) h f = (h, f)
ensure_connection-Fits status connects begun db mode none h f =
    let (pool, got) = async_get_connection-outside status connects db h in
    with_found-Fits (async_get_connection status connects db).1 begun
      (async_get_connection status connects db).0 mode pool got

shrink-outside :
    (n : ℕ) (queue : List (Option Connection)) (db db' : Database)
    → AllOutside queue
    → shrink n queue db ≡ some db'
    → AllOutside db'.pool_queue
unfolding shrink
shrink-outside zero queue db db' h e = subst (λ d. AllOutside d.pool_queue) (some-injective _ _ e) h
shrink-outside (suc n) [] db db' h e = cc
shrink-outside (suc n) (none ∷ queue) db db' h e = shrink-outside n queue _ db' h e
shrink-outside (suc n) (some c ∷ queue) db db' h e = shrink-outside n queue _ db' h.1 e

pub pool_shrink_timer_handler-outside :
    (aborted : Bool) (db db' : Database)
    → AllOutside db.pool_queue
    → pool_shrink_timer_handler aborted db ≡ some db'
    → AllOutside db'.pool_queue
unfolding pool_shrink_timer_handler
pool_shrink_timer_handler-outside true db db' h e =
    subst (λ d. AllOutside d.pool_queue) (some-injective _ _ e) h
pool_shrink_timer_handler-outside false db db' h e =
    let n = num_to_shrink (length db.pool_queue) (average_size db.pool_stats_per_period) in
    elim (Option-cases (shrink n db.pool_queue db)) [
      | inl f ↦ absurd (ground arith)
      | inr (mid, f) ↦
          let same_pool : mid.pool_queue ≡ db'.pool_queue = ground arith in
          subst AllOutside same_pool (shrink-outside n db.pool_queue db mid h f)
    ]
