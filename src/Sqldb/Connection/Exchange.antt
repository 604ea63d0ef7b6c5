-- ===== src/Sqldb/Connection/Exchange.antt =====
-- One request of platform/sqldb/src/connection.cpp and its wait, and what its server documents.
use itex_demo.Base.{arith, none, ap, refl, ◌∷◌, Bool, ◌≢◌, [], false, true, some, ◌≡◌}
use itex_demo.Sqldb.Connection.{
  query_exception, throws, async_pg_query, send_and_wait, first_result, completes, wait_pg_results,
  send_prepare, send_query_params, send_query_prepared, QueryResult, Option, ℕ, List, Connection,
  Libpq, Request, Arrival,
}

-- What the server documents of prepared statements: its session has them by name, executing one is
-- executing its text, and only a `PREPARE` adds one, under its own name. A text is `plain` if it
-- takes none away (`DEALLOCATE` does).
pub record Server {H : Type 0} (pq : Libpq H) : Type 1 where
  pub prepared : H → List ℕ → Option (List ℕ)
  pub Plain : List ℕ → Type 0
  pub execute-text :
      (h : H) (name text : List ℕ) (params : List (Option (List ℕ)))
      → prepared h name ≡ some text
      → pq.exchange h (send_query_prepared name params)
        ≡ pq.exchange h (send_query_params text params)
  pub after_prepare :
      (h : H) (name text : List ℕ) (n : ℕ) (arrivals : List Arrival) (res : List QueryResult)
      → (pq.exchange h (send_prepare name text n)).0 ≡ (true, arrivals)
      → (wait_pg_results false [] arrivals).0 ≡ completes res
      → first_result res ≡ completes tt
      → prepared (pq.exchange h (send_prepare name text n)).1 name ≡ some text
  pub after_prepare_other :
      (h : H) (name other text : List ℕ) (n : ℕ)
      → other ≢ name
      → prepared (pq.exchange h (send_prepare name text n)).1 other ≡ prepared h other
  pub after_text :
      (h : H) (other text : List ℕ) (params : List (Option (List ℕ)))
      → Plain text
      → prepared (pq.exchange h (send_query_params text params)).1 other ≡ prepared h other

pub wait-completes :
    (flag : Bool) (arrivals : List Arrival) (res : List QueryResult)
    → (wait_pg_results flag [] arrivals).0 ≡ completes res
    → (wait_pg_results false [] arrivals).0 ≡ completes res
unfolding wait_pg_results
wait-completes false arrivals res e = e
wait-completes true [] res e = cc
wait-completes true (a ∷ arrivals) res e = ground arith

module _ {H : Type 0} (pq : Libpq H) where
  -- A request keeps the list, and its handle is the one behind the exchange.
  pub send_and_wait-handle :
      (x : (Bool × List Arrival) × H) (c : Connection H)
      → ((send_and_wait pq x c).1.pg_handle ≡ some x.1)
        × ((send_and_wait pq x c).1.prepared_statements ≡ c.prepared_statements)
  unfolding send_and_wait
  send_and_wait-handle ((true, arrivals), h) c = (refl, refl)
  send_and_wait-handle ((false, arrivals), h) c = (refl, refl)

  pub send_and_wait-completes :
      (x : (Bool × List Arrival) × H) (c : Connection H) (res : List QueryResult)
      → (send_and_wait pq x c).0 ≡ completes res
      → (arrivals : List Arrival) × (x.0 ≡ (true, arrivals))
        × ((wait_pg_results false [] arrivals).0 ≡ completes res)
  unfolding send_and_wait
  send_and_wait-completes ((true, arrivals), h) c res e =
      (arrivals, refl, wait-completes c.timeout_occurred arrivals res e)
  send_and_wait-completes ((false, arrivals), h) c res e = cc

  pub async_pg_query-some :
      (request : Request) (c : Connection H) (h : H)
      → c.pg_handle ≡ some h
      → async_pg_query pq request c ≡ send_and_wait pq (pq.exchange h request) c
  unfolding async_pg_query
  async_pg_query-some request c h e =
      ap
        (λ (o : Option H). elim o [
          | none ↦ (throws query_exception, c)
          | some g ↦ send_and_wait pq (pq.exchange g request) c
        ])
        e

  pub async_pg_query-none :
      (request : Request) (c : Connection H)
      → c.pg_handle ≡ none
      → async_pg_query pq request c ≡ (throws query_exception, c)
  unfolding async_pg_query
  async_pg_query-none request c e =
      ap
        (λ (o : Option H). elim o [
          | none ↦ (throws query_exception, c)
          | some g ↦ send_and_wait pq (pq.exchange g request) c
        ])
        e
