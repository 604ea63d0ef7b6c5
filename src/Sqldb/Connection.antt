-- ===== src/Sqldb/Connection.antt =====
-- platform/sqldb/src/connection.cpp: a connection to the server. libpq and the server are a
-- parameter: the state of a `PGconn` of any type, and what comes back for a request. What
-- `async_read_some` and libpq report while a coroutine waits is a list of arrivals, and what
-- `PQconnectPoll` reports a list of polls; a list that ends is a wait that has not ended. The timer
-- fires within an arrival or a poll, before the coroutine goes on.
pub mod Exchange
pub mod Prepared
pub mod Reference
pub mod Once
pub mod Waiting
pub mod Timeout
mod Tests
use itex_demo.Sqldb.Database.{in_progress, connected, bad, Status}
use itex_demo.Base.Decimal.{to_string}
use itex_demo.Base.{
  ◌&&◌, ◌++◌, if◌then◌else◌, ◌==◌, some, ◌||◌, false, [], length, not, true, none, List, Option,
  Bool, ◌∷◌, ℕ,
}

-- `QueryResult` and `ExecStatusType`, as far as an exchange depends on them.
pub data ExecStatus : Type 0 where
  pgres_empty_query pgres_command_ok pgres_tuples_ok pgres_bad_response : ExecStatus
  pgres_fatal_error pgres_single_tuple pgres_other : ExecStatus

pub record QueryResult : Type 0 where
  pub exec_status : ExecStatus
  pub rows : List (List (Option (List ℕ)))

-- Whether `QueryResult::status` is `BAD`.
unfoldable pub is_bad : ExecStatus → Bool
is_bad pgres_empty_query = true
is_bad pgres_bad_response = true
is_bad pgres_fatal_error = true
is_bad _ = false

-- Each class of the library's exceptions is one of the class before it; the last is boost's.
pub data Exception : Type 0 where
  connection_exception query_exception result_exception system_error : Exception

-- How an operation ends: `faults` is undefined behaviour, `waits` a wait that has not ended.
pub data Completion (A : Type 0) : Type 0 where
  completes : A → Completion A
  throws : Exception → Completion A
  faults waits : Completion A

-- What a wait for results wakes up to: whether the timer fired, an error of the socket, what
-- `PQconsumeInput` and `PQisBusy` say, the results that `PQgetResult` then gives, and whether it
-- gave a null behind them.
pub record Arrival : Type 0 where
  pub fires : Bool
  pub read_error : Bool
  pub consumed : Bool
  pub busy : Bool
  pub received : List QueryResult
  pub is_last : Bool

-- The requests that `PQsend...` sends; a text is the list of its bytes.
pub data Request : Type 0 where
  send_query : List ℕ → Request
  send_query_params : List ℕ → List (Option (List ℕ)) → Request
  send_prepare : List ℕ → List ℕ → ℕ → Request
  send_query_prepared : List ℕ → List (Option (List ℕ)) → Request

pub data PqStatus : Type 0 where
  connection_ok connection_bad connection_other : PqStatus

-- libpq over a server: whether a request is sent, what arrives for it, the handle behind it;
-- `PQstatus`.
pub record Libpq (H : Type 0) : Type 0 where
  pub exchange : H → Request → (Bool × List Arrival) × H
  pub pq_status : H → PqStatus

-- `class Connection`. Its timer and socket are in the arrivals.
pub record Connection (H : Type 0) : Type 0 where
  pub pg_handle : Option H
  pub prepared_statements : List (ℕ × ℕ)
  pub timeout_occurred : Bool

unfoldable pub new_connection : {H : Type 0} → Connection H
new_connection = record { pg_handle = none; prepared_statements = []; timeout_occurred = false }

abbrev pub M : Type 0 → Type 0 → Type 0
M H A = Connection H → Completion A × Connection H

-- What follows an operation that completes; any other end is the end.
abbrev pub go_on :
    {H A B : Type 0} → Completion A × Connection H → (A → M H B) → Completion B × Connection H
go_on (completes a, c) f = f a c
go_on (throws e, c) f = (throws e, c)
go_on (faults, c) f = (faults, c)
go_on (waits, c) f = (waits, c)

infixl 5 ◌>>=◌
abbrev pub ◌>>=◌ : {H A B : Type 0} → M H A → (A → M H B) → M H B
◌>>=◌ m f c = go_on (m c) f

-- The exception of `check_timeout_occurred`, if the flag is set.
unfoldable pub check_timeout : {A : Type 0} → Exception → Bool → Completion A → Completion A
check_timeout e true k = throws e
check_timeout e false k = k

-- `async_wait_pg_results`, from a flag and the results so far to the results and the flag.
unfoldable pub wait_pg_results :
    Bool → List QueryResult → List Arrival → Completion (List QueryResult) × Bool
wait_pg_results timed_out results [] = (waits, timed_out)
wait_pg_results timed_out results (a ∷ arrivals) =
    let flag = a.fires || timed_out in
    elim flag [
      | true ↦ (throws query_exception, true)
      | false ↦ elim (a.read_error || not a.consumed) [
        | true ↦ (throws query_exception, false)
        | false ↦ elim a.busy [
          | true ↦ wait_pg_results false results arrivals
          | false ↦ elim a.is_last [
            | true ↦ (completes (results ++ a.received), false)
            | false ↦ wait_pg_results false (results ++ a.received) arrivals
          ]
        ]
      ]
    ]

-- `check_results_errors`
unfoldable pub check_results : List QueryResult → Completion (List QueryResult)
check_results [] = completes []
check_results (r ∷ rs) = elim (is_bad r.exec_status) [
  | true ↦ throws result_exception
  | false ↦ elim (check_results rs) [
    | completes checked ↦ completes (r ∷ checked)
    | throws e ↦ throws e
    | faults ↦ faults
    | waits ↦ waits
  ]
]

-- `res[0].status()` of what came back for a `PREPARE`.
unfoldable pub first_result : List QueryResult → Completion (Unit {0})
first_result [] = faults
first_result (r ∷ rs) = elim (is_bad r.exec_status) [
  | true ↦ throws query_exception
  | false ↦ completes tt
]

module _ {H : Type 0} (pq : Libpq H) where
  open pq use {exchange, pq_status}

  -- Every `async_pg_...`: send, and wait. libpq refuses a null handle.
  unfoldable pub send_and_wait : (Bool × List Arrival) × H → M H (List QueryResult)
  send_and_wait ((sent, arrivals), h) c = elim sent [
    | false ↦ (throws query_exception, record c { pg_handle = some h })
    | true ↦
        let (results, flag) = wait_pg_results c.timeout_occurred [] arrivals in
        (results, record c { pg_handle = some h; timeout_occurred = flag })
  ]

  unfoldable pub async_pg_query : Request → M H (List QueryResult)
  async_pg_query request c = elim c.pg_handle [
    | none ↦ (throws query_exception, c)
    | some h ↦ send_and_wait (exchange h request) c
  ]

  unfoldable pub check_errors : List QueryResult → M H (List QueryResult)
  check_errors results c = (check_results results, c)

  -- `status`
  unfoldable pub status_of : PqStatus → Status
  status_of connection_ok = connected
  status_of connection_bad = bad
  status_of connection_other = in_progress

  unfoldable pub status : Connection H → Status
  status c = elim c.pg_handle [
    | none ↦ bad
    | some h ↦ if c.timeout_occurred then bad else status_of (pq_status h)
  ]

-- What `async_exec` asks of a query: the regular expressions, and the hash, in two halves.
pub record Statements : Type 0 where
  pub is_preparable : List ℕ → Bool
  pub is_multiple_statements : List ℕ → Bool
  pub hash : List ℕ → ℕ × ℕ

-- `aux::to_string` of a hash
unfoldable pub statement_name : ℕ × ℕ → List ℕ
statement_name (first, second) = to_string first ++ to_string second

unfoldable pub contains : ℕ × ℕ → List (ℕ × ℕ) → Bool
contains x [] = false
contains x (y ∷ ys) = (y.0 == x.0 && y.1 == x.1) || contains x ys

module _ {H : Type 0} (pq : Libpq H) (sql : Statements) where
  open sql use {is_preparable, is_multiple_statements, hash}

  unfoldable pub remember : ℕ × ℕ → M H (Unit {0})
  remember key c = (completes tt, record c { prepared_statements = key ∷ c.prepared_statements })

  unfoldable pub prepare : List ℕ → List (Option (List ℕ)) → M H (Unit {0})
  prepare query params = do
    res ← async_pg_query pq (send_prepare (statement_name (hash query)) query (length params))
    ok ← (λ c. (first_result res, c))
    remember (hash query)

  unfoldable pub ensure_prepared : List ℕ → List (Option (List ℕ)) → M H (Unit {0})
  ensure_prepared query params c = elim (contains (hash query) c.prepared_statements) [
    | true ↦ (completes tt, c)
    | false ↦ prepare query params c
  ]

  -- `async_exec` with parameters.
  unfoldable pub async_exec_params : List ℕ → List (Option (List ℕ)) → M H (List QueryResult)
  async_exec_params query params =
      elim (not (is_preparable query) || is_multiple_statements query) [
        | true ↦ do res ← async_pg_query pq (send_query_params query params); check_errors pq res
        | false ↦ do
          ready ← ensure_prepared query params
          res ← async_pg_query pq (send_query_prepared (statement_name (hash query)) params)
          check_errors pq res
      ]

  -- `async_exec` without.
  unfoldable pub async_exec : List ℕ → M H (List QueryResult)
  async_exec query = elim (is_multiple_statements query) [
    | true ↦ do res ← async_pg_query pq (send_query query); check_errors pq res
    | false ↦ async_exec_params query []
  ]

-- What `PQconnectPoll` says, and for a wait whether the timer fired and an error of the socket.
pub data Poll : Type 0 where
  polling_reading polling_writing : Bool → Bool → Poll
  polling_failed polling_ok polling_active : Poll

-- What a poll that waits ends in: an exception, or the next poll.
unfoldable pub after_poll :
    {A : Type 0} → Bool → Bool → Bool → Completion A × Bool → Completion A × Bool
after_poll timed_out fires read_error next = elim (fires || timed_out) [
  | true ↦ (throws connection_exception, true)
  | false ↦ elim read_error [ true ↦ (throws connection_exception, false) | false ↦ next ]
]

-- The loop of `async_connect` on the flag of the timeout, and the check behind it.
unfoldable pub poll_loop : Bool → List Poll → Completion (Unit {0}) × Bool
poll_loop timed_out [] = (waits, timed_out)
poll_loop timed_out (polling_reading fires read_error ∷ polls) =
    after_poll timed_out fires read_error (poll_loop false polls)
poll_loop timed_out (polling_writing fires read_error ∷ polls) =
    after_poll timed_out fires read_error (poll_loop false polls)
poll_loop timed_out (polling_failed ∷ polls) = (throws connection_exception, timed_out)
poll_loop timed_out (polling_ok ∷ polls) =
    (check_timeout connection_exception timed_out (completes tt), timed_out)
poll_loop timed_out (polling_active ∷ polls) = poll_loop timed_out polls

-- What libpq makes of one call of `async_connect`: the handle of `PQconnectStart`, whether
-- `PQsetnonblocking` fails, whether the socket cannot be assigned, and the polls.
pub record Attempt (H : Type 0) : Type 0 where
  pub started : Option H
  pub nonblocking_fails : Bool
  pub assign_fails : Bool
  pub polls : List Poll

-- What the loop of `Database::async_get_connection` over a new connection does with the attempts it
-- is given: it ends with the connection, it goes on and tries again, an exception leaves it, it
-- faults, or it waits within an attempt.
pub data Looping (H : Type 0) : Type 0 where
  ends_connected tries_again : Connection H → Looping H
  left_by : Exception → Looping H
  loop_faults loop_waits : Looping H

module _ {H : Type 0} (pq : Libpq H) (bytea_output_hex : List ℕ) where
  -- The loop, run on a connection.
  unfoldable pub poll_connection : List Poll → M H (Unit {0})
  poll_connection polls c =
      let (done, flag) = poll_loop c.timeout_occurred polls in
      (done, record c { timeout_occurred = flag })

  -- `async_connect`; `bytea_output_hex` is the statement at its end.
  unfoldable pub async_connect : Attempt H → M H (List QueryResult)
  async_connect attempt c =
      let begun = record c { pg_handle = attempt.started } in
      elim (status pq begun) [
        | bad ↦ (throws connection_exception, begun)
        | _ ↦ elim attempt.nonblocking_fails [
          | true ↦ (throws connection_exception, begun)
          | false ↦ elim attempt.assign_fails [
            | true ↦ (throws system_error, begun)
            | false ↦
                (do
                  done ← poll_connection attempt.polls
                  res ← async_pg_query pq (send_query bytea_output_hex)
                  check_errors pq res)
                  begun
          ]
        ]
      ]

  -- The `catch` of the loop below: all exceptions of the library are `ConnectionException`s.
  unfoldable pub connect_again :
      Completion (List QueryResult) × Connection H → (Connection H → Looping H) → Looping H
  connect_again (completes res, c) rest = rest c
  connect_again (throws system_error, c) rest = left_by system_error
  connect_again (throws _, c) rest = rest c
  connect_again (faults, c) rest = loop_faults
  connect_again (waits, c) rest = loop_waits

  -- That loop, with what libpq makes of each attempt.
  unfoldable pub connect_loop : List (Attempt H) → Connection H → Looping H
  connect_loop [] c = elim (status pq c) [ connected ↦ ends_connected c | _ ↦ tries_again c ]
  connect_loop (attempt ∷ attempts) c = elim (status pq c) [
    | connected ↦ ends_connected c
    | _ ↦ connect_again (async_connect attempt c) (connect_loop attempts)
  ]
