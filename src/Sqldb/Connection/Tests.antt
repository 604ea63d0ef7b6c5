-- ===== src/Sqldb/Connection/Tests.antt =====
-- A small server, and runs of platform/sqldb/src/connection.cpp over it.
use itex_demo.Base.Decimal.{to_string, digits_before}
use itex_demo.Sqldb.Connection.Waiting.{wait_pg_results_complete}
use itex_demo.Sqldb.Connection.Timeout.{connect_loop-first_timeout, slow}
use itex_demo.Sqldb.Connection.Exchange.{Server}
use itex_demo.Sqldb.Connection.Reference.{run, run_once, hashes}
use itex_demo.Sqldb.Connection.Once.{run-once}
use itex_demo.Base.Text.{text_eq, text_eq_iff}
use itex_demo.Sqldb.Connection.{
  bad, status, tries_again, statement_name, is_bad, first_result, remember, contains, check_results,
  new_connection, check_errors, send_and_wait, polling_ok, prepare, polling_writing,
  ensure_prepared, completes, connection_other, async_pg_query, connect_loop, wait_pg_results,
  pgres_single_tuple, async_exec_params, send_query_prepared, send_prepare, pgres_tuples_ok,
  send_query_params, send_query, pgres_fatal_error, Request, connection_ok, Arrival, Libpq,
  ExecStatus, QueryResult, Connection, Statements,
}
use itex_demo.Base.{
  arith, ◌⊎◌, ◌∙◌, ap, suc, inr, sym, inl, refl, if◌then◌else◌, [], Bool-cases, some, ◌≢◌, false,
  ◌∷◌, Bool, none, ◌≡◌, ℕ, true, Option, List,
}

-- A session: the statements by name. It answers a text by itself, at once.
abbrev lookup : List (List ℕ × List ℕ) → List ℕ → Option (List ℕ)
lookup [] name = none
lookup ((n, text) ∷ h) name = if text_eq n name then some text else lookup h name

abbrev row : ExecStatus → List ℕ → QueryResult
row s text = record { exec_status = s; rows = (some text ∷ []) ∷ [] }

abbrev at_once : QueryResult → Arrival
at_once r = record {
  fires = false;
  read_error = false;
  consumed = true;
  busy = false;
  received = r ∷ [];
  is_last = true;
}

abbrev answer : Option (List ℕ) → Bool × List Arrival
answer none = (true, at_once (row pgres_fatal_error []) ∷ [])
answer (some text) = (true, at_once (row pgres_tuples_ok text) ∷ [])

abbrev session_exchange :
    List (List ℕ × List ℕ) → Request → (Bool × List Arrival) × List (List ℕ × List ℕ)
session_exchange h (send_query text) = (answer (some text), h)
session_exchange h (send_query_params text params) = (answer (some text), h)
session_exchange h (send_prepare name text n) = (answer (some text), (name, text) ∷ h)
session_exchange h (send_query_prepared name params) = (answer (lookup h name), h)

abbrev session : Libpq (List (List ℕ × List ℕ))
session = record { exchange = session_exchange; pq_status = λ h. connection_ok }

abbrev first_byte : List ℕ → ℕ
first_byte [] = 0
first_byte (x ∷ xs) = x

abbrev statements : Statements
statements = record {
  is_preparable = λ q. true;
  is_multiple_statements = λ q. false;
  hash = λ q. (first_byte q, 0);
}

lookup-other :
    (h : List (List ℕ × List ℕ)) (name other text : List ℕ)
    → other ≢ name
    → lookup ((name, text) ∷ h) other ≡ lookup h other
lookup-other h name other text ne = elim (Bool-cases (text_eq name other)) [
  | inl e ↦ absurd (ne (sym ((text_eq_iff name other).0 e)))
  | inr e ↦ rw e refl
]

lookup-same :
    (h : List (List ℕ × List ℕ)) (name text : List ℕ) → lookup ((name, text) ∷ h) name ≡ some text
lookup-same h name text = rw ((text_eq_iff name name).1 refl) refl

abbrev session_server : Server session
session_server = record {
  prepared = lookup;
  Plain = λ q. Unit {0};
  execute-text = λ h name text params e. ap (λ x. (answer x, h)) e;
  after_prepare = λ h name text n arrivals res sent brought fine. lookup-same h name text;
  after_prepare_other = λ h name other text n ne. lookup-other h name other text ne;
  after_text = λ h other text params p. refl;
}

abbrev calls : List (List ℕ × List (Option (List ℕ)))
calls = (7 ∷ [], none ∷ []) ∷ (8 ∷ [], []) ∷ (7 ∷ [], some (1 ∷ []) ∷ []) ∷ []

abbrev fresh : Connection (List (List ℕ × List ℕ))
fresh = record { pg_handle = some []; prepared_statements = []; timeout_occurred = false }

abbrev IsCall : List ℕ → Type 0
IsCall q = (q ≡ 7 ∷ []) ⊎ (q ≡ 8 ∷ [])

names_differ :
    (q r : List ℕ)
    → IsCall q
    → IsCall r
    → statement_name (first_byte q, 0) ≡ statement_name (first_byte r, 0)
    → q ≡ r
unfolding statement_name to_string digits_before
names_differ q r (inl a) (inl b) e = a ∙ sym b
names_differ q r (inr a) (inr b) e = a ∙ sym b
names_differ q r (inl a) (inr b) e =
    let digit : ◌≡◌ {A = ℕ} 55 56 =
      ap (λ x. first_byte (statement_name (first_byte x, 0))) (sym a)
      ∙ ap first_byte e
      ∙ ap (λ x. first_byte (statement_name (first_byte x, 0))) b in
    absurd (omega arith)
names_differ q r (inr a) (inl b) e =
    let digit : ◌≡◌ {A = ℕ} 56 55 =
      ap (λ x. first_byte (statement_name (first_byte x, 0))) (sym a)
      ∙ ap first_byte e
      ∙ ap (λ x. first_byte (statement_name (first_byte x, 0))) b in
    absurd (omega arith)

-- Two hashes with one name.
same_name : statement_name (1, 23) ≡ statement_name (12, 3)
unfolding statement_name to_string digits_before
same_name = refl

run-once_example :
    run (async_exec_params session statements) calls fresh
    ≡ let (results, last, prepared) = run_once session statements calls [] fresh in
      (results, record last { prepared_statements = hashes (λ q. (first_byte q, 0)) prepared })
run-once_example =
    run-once session statements session_server IsCall names_differ (λ q u. tt) calls fresh
      (inl refl, (inr refl, (inl refl, tt))) refl

-- The second call of a text prepares nothing.
two_prepared :
    (run (async_exec_params session statements) calls fresh).1.prepared_statements
    ≡ (8, 0) ∷ (7, 0) ∷ []
unfolding run statement_name to_string digits_before async_exec_params ensure_prepared prepare
    async_pg_query send_and_wait check_errors check_results wait_pg_results contains remember
    first_result is_bad text_eq
two_prepared = refl

abbrev piece : Bool → Arrival
piece last = record {
  fires = false;
  read_error = false;
  consumed = true;
  busy = false;
  received = row pgres_single_tuple (5 ∷ []) ∷ [];
  is_last = last;
}

wait_pg_results_complete_example :
    wait_pg_results false [] (piece false ∷ piece true ∷ piece false ∷ [])
    ≡ (completes (row pgres_single_tuple (5 ∷ []) ∷ row pgres_single_tuple (5 ∷ []) ∷ []), false)
wait_pg_results_complete_example =
    wait_pg_results_complete (piece false ∷ []) (piece false ∷ []) (piece true)
      ((record { in_time = refl; readable = refl; well_read = refl }, refl), tt)
      (record { in_time = refl; readable = refl; well_read = refl }) refl refl

abbrev late : Arrival
late = record {
  fires = true;
  read_error = true;
  consumed = false;
  busy = false;
  received = [];
  is_last = false;
}

-- A server that gives a piece of an answer and no more, for connections that are being made.
abbrev silent : Libpq ℕ
silent = record {
  exchange = λ h request. ((true, piece false ∷ late ∷ []), suc h);
  pq_status = λ h. connection_other;
}

connect_loop-first_timeout_example :
    (c : Connection ℕ) × (connect_loop silent
        (9 ∷ [])
        (slow silent 0 (polling_writing false false ∷ []) true []
          ∷ record {
            started = some 1;
            nonblocking_fails = false;
            assign_fails = false;
            polls = polling_ok ∷ [];
          }
          ∷ [])
        new_connection
      ≡ tries_again c)
    × (c.timeout_occurred ≡ true)
    × (status silent c ≡ bad)
connect_loop-first_timeout_example =
    connect_loop-first_timeout silent (9 ∷ []) 0 (polling_writing false false ∷ []) [] true
      (record {
        started = some 1;
        nonblocking_fails = false;
        assign_fails = false;
        polls = polling_ok ∷ [];
      }
        ∷ [])
      refl (refl, refl, tt)
