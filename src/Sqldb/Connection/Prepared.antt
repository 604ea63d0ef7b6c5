-- ===== src/Sqldb/Connection/Prepared.antt =====
-- A prepared statement answers as its text.
use itex_demo.Sqldb.Connection.Exchange.{
  send_and_wait-completes, send_and_wait-handle, async_pg_query-some, async_pg_query-none, Server,
}
use itex_demo.Base.{
  arith, ◌&&◌, ◌==◌, length, Bool-cases, subst, some-injective, inr, ◌∙◌, sym, inl, ap,
  Option-cases, refl, false, ◌||◌, true, not, some, ◌≡◌,
}
use itex_demo.Sqldb.Connection.{
  statement_name, async_exec_params, waits, faults, go_on, remember, prepare, ensure_prepared,
  throws, check_errors, async_pg_query, send_and_wait, ◌>>=◌, first_result, completes, send_prepare,
  send_query_params, send_query_prepared, contains, QueryResult, Option, ℕ, List, Connection, Libpq,
  Statements, Request, M, Completion,
}

pub same_hash : {x y : ℕ × ℕ} → (x.0 == y.0 && x.1 == y.1) ≡ true → x ≡ y
same_hash {x} {y} h =
    let first : x.0 ≡ y.0 = ground arith in
    let second : x.1 ≡ y.1 = ground arith in λ i. (first i, second i)

module _ {H : Type 0} (pq : Libpq H) (sql : Statements) where
  open sql use {is_preparable, is_multiple_statements, hash}

  -- `async_exec` by the text of the query, after the same preparations.
  unfoldable pub by_text : List ℕ → List (Option (List ℕ)) → M H (List QueryResult)
  by_text query params = elim (not (is_preparable query) || is_multiple_statements query) [
    | true ↦ do res ← async_pg_query pq (send_query_params query params); check_errors pq res
    | false ↦ do
      ready ← ensure_prepared pq sql query params
      res ← async_pg_query pq (send_query_params query params)
      check_errors pq res
  ]

  abbrev pub name_of : List ℕ → List ℕ
  name_of query = statement_name (hash query)

  module _ (server : Server pq) (Used : List ℕ → Type 0) where
    open server use {prepared, Plain}

    -- What the connection takes for prepared, its session at the server has.
    abbrev pub Knows : Connection H → Type 0
    Knows c =
        (h : H) (query : List ℕ)
        → Used query
        → c.pg_handle ≡ some h
        → contains (hash query) c.prepared_statements ≡ true
        → prepared h (name_of query) ≡ some query

    -- A request that keeps the names of known statements.
    request-Knows :
        (request : Request) (c : Connection H)
        → ((h : H) (query : List ℕ)
            → Used query
            → contains (hash query) c.prepared_statements ≡ true
            → prepared (pq.exchange h request).1 (name_of query) ≡ prepared h (name_of query))
        → Knows c
        → Knows (async_pg_query pq request c).1
    request-Knows request c keeps k h query u e f = elim (Option-cases c.pg_handle) [
      | inl nothing ↦
          let same = async_pg_query-none pq request c nothing in
          k h query u
            (ap (λ (x : Completion (List QueryResult) × Connection H). x.1.pg_handle) (sym same)
              ∙ e)
            (ap
                (λ (x : Completion (List QueryResult) × Connection H).
                  contains (hash query) x.1.prepared_statements)
                (sym same)
              ∙ f)
      | inr (g, here) ↦
          let same = async_pg_query-some pq request c g here in
          let (handle, list) = send_and_wait-handle pq (pq.exchange g request) c in
          let known : contains (hash query) c.prepared_statements ≡ true =
            ap (contains (hash query)) (sym list)
            ∙ ap
                (λ (x : Completion (List QueryResult) × Connection H).
                  contains (hash query) x.1.prepared_statements)
                (sym same)
            ∙ f in
          let reached : (pq.exchange g request).1 ≡ h = some-injective _ _ (
            sym handle
            ∙ ap (λ (x : Completion (List QueryResult) × Connection H). x.1.pg_handle) (sym same)
            ∙ e) in
          subst (λ x. prepared x (name_of query) ≡ some query) reached
            (keeps g query u known ∙ k g query u here known)
    ]

    -- The statement of a query stands in the session.
    abbrev pub Stands : List ℕ → Connection H → Type 0
    Stands query c = (h : H) → c.pg_handle ≡ some h → prepared h (name_of query) ≡ some query

    -- What a `PREPARE` that completes without a bad result leaves.
    prepare-Stands :
        (query : List ℕ) (n : ℕ) (c : Connection H) (res : List QueryResult)
        → (async_pg_query pq (send_prepare (name_of query) query n) c).0 ≡ completes res
        → first_result res ≡ completes tt
        → Stands query (async_pg_query pq (send_prepare (name_of query) query n) c).1
    prepare-Stands query n c res done fine h e = elim (Option-cases c.pg_handle) [
      | inl nothing ↦
          let same = async_pg_query-none pq (send_prepare (name_of query) query n) c nothing in
          let thrown = ap (λ (x : Completion (List QueryResult) × Connection H). x.0) same in cc
      | inr (g, here) ↦
          let request = send_prepare (name_of query) query n in
          let same = async_pg_query-some pq request c g here in
          let (handle, list) = send_and_wait-handle pq (pq.exchange g request) c in
          let (arrivals, sent, brought) =
            send_and_wait-completes pq (pq.exchange g request) c res
              (ap (λ (x : Completion (List QueryResult) × Connection H). x.0) (sym same) ∙ done) in
          let reached : (pq.exchange g request).1 ≡ h = some-injective _ _ (
            sym handle
            ∙ ap (λ (x : Completion (List QueryResult) × Connection H). x.1.pg_handle) (sym same)
            ∙ e) in
          subst (λ x. prepared x (name_of query) ≡ some query) reached
            (server.after_prepare g (name_of query) query n arrivals res sent brought fine)
    ]

    -- What may be asked of the texts in use: names tell them apart, and none takes a statement away.
    module _ (distinct : (q r : List ℕ) → Used q → Used r → name_of q ≡ name_of r → q ≡ r)
        (plain : (q : List ℕ) → Used q → Plain q) where
      -- What holds behind `ensure_prepared`.
      abbrev pub Ready : List ℕ → Completion (Unit {0}) × Connection H → Type 0
      Ready query (done, c) = Knows c × (done ≡ completes tt → Stands query c)

      remember-Ready :
          (query : List ℕ) (c : Connection H)
          → Used query
          → Knows c
          → Stands query c
          → Ready query (remember pq sql (hash query) c)
      unfolding remember contains
      remember-Ready query c used k s = (
        λ h other u e f.
            elim (Bool-cases
              ((hash query).0 == (hash other).0 && (hash query).1 == (hash other).1)) [
                | inl same ↦
                    let one = distinct query other used u (ap statement_name (same_hash same)) in
                    subst (λ q. prepared h (name_of q) ≡ some q) one (s h e)
                | inr different ↦
                    k h other u e (
                      ap (λ b. b || contains (hash other) c.prepared_statements) (sym different)
                      ∙ f)
              ],
        λ t h e. s h e,
      )

      prepare-Ready :
          (query : List ℕ) (params : List (Option (List ℕ))) (c : Connection H)
          → Used query
          → contains (hash query) c.prepared_statements ≡ false
          → Knows c
          → Ready query (prepare pq sql query params c)
      unfolding prepare
      prepare-Ready query params c used unknown k =
          let request = send_prepare (name_of query) query (length params) in
          let keeps : Knows (async_pg_query pq request c).1 =
            request-Knows request c
              (λ h other u e.
                server.after_prepare_other h (name_of query) (name_of other) query (length params)
                  (λ same.
                    let one = ap hash (distinct other query u used same) in
                    let f = ap (λ x. contains x c.prepared_statements) one in cc))
              k in
          prepared_by (async_pg_query pq request c) keeps
            (λ res done fine. prepare-Stands query (length params) c res done fine)
        where
          prepared_by :
              (x : Completion (List QueryResult) × Connection H)
              → Knows x.1
              → ((res : List QueryResult)
                  → x.0 ≡ completes res
                  → first_result res ≡ completes tt
                  → Stands query x.1)
              → Ready query (
                  go_on x
                    (λ res. (λ c'. (first_result res, c')) >>= λ ok. remember pq sql (hash query)))
          prepared_by (throws e, c') k' s = (k', λ x. cc)
          prepared_by (faults, c') k' s = (k', λ x. cc)
          prepared_by (waits, c') k' s = (k', λ x. cc)
          prepared_by (completes res, c') k' s = checked (first_result res) (s res refl)
            where
              checked :
                  (x : Completion (Unit {0}))
                  → (x ≡ completes tt → Stands query c')
                  → Ready query (go_on (x, c') (λ ok. remember pq sql (hash query)))
              checked (completes t) s' = remember-Ready query c' used k' (s' refl)
              checked (throws e) s' = (k', λ x. cc)
              checked faults s' = (k', λ x. cc)
              checked waits s' = (k', λ x. cc)

      ensure_prepared-Ready :
          (query : List ℕ) (params : List (Option (List ℕ))) (c : Connection H)
          → Used query
          → Knows c
          → Ready query (ensure_prepared pq sql query params c)
      unfolding ensure_prepared
      ensure_prepared-Ready query params c used k =
          elim (Bool-cases (contains (hash query) c.prepared_statements)) [
            | inl known ↦ rw (known, ensure_prepared) (k, λ t h e. k h query used e known)
            | inr unknown ↦
                rw (unknown, ensure_prepared) (prepare-Ready query params c used unknown k)
          ]

      -- A prepared statement answers as its text, and leaves the same connection.
      execute-text :
          (query : List ℕ) (params : List (Option (List ℕ))) (c : Connection H)
          → Stands query c
          → async_pg_query pq (send_query_prepared (name_of query) params) c
            ≡ async_pg_query pq (send_query_params query params) c
      execute-text query params c s = elim (Option-cases c.pg_handle) [
        | inl nothing ↦
            async_pg_query-none pq (send_query_prepared (name_of query) params) c nothing
            ∙ sym (async_pg_query-none pq (send_query_params query params) c nothing)
        | inr (h, here) ↦
            async_pg_query-some pq (send_query_prepared (name_of query) params) c h here
            ∙ ap (λ x. send_and_wait pq x c)
                (server.execute-text h (name_of query) query params (s h here))
            ∙ sym (async_pg_query-some pq (send_query_params query params) c h here)
      ]

      text-Knows :
          (query : List ℕ) (params : List (Option (List ℕ))) (c : Connection H)
          → Used query
          → Knows c
          → Knows (async_pg_query pq (send_query_params query params) c).1
      text-Knows query params c used k =
          request-Knows (send_query_params query params) c
            (λ h other u f. server.after_text h (name_of other) query params (plain query used)) k

      checked-Knows :
          (x : Completion (List QueryResult) × Connection H)
          → Knows x.1
          → Knows (go_on x (check_errors pq)).1
      unfolding check_errors
      checked-Knows (completes res, c) k = k
      checked-Knows (throws e, c) k = k
      checked-Knows (faults, c) k = k
      checked-Knows (waits, c) k = k

      -- `async_exec` with parameters does what sending the text each time does, and what the
      -- connection takes for prepared stays true of the server.
      pub exec-by_text :
          (query : List ℕ) (params : List (Option (List ℕ))) (c : Connection H)
          → Used query
          → Knows c
          → (async_exec_params pq sql query params c ≡ by_text query params c)
            × Knows (by_text query params c).1
      unfolding async_exec_params by_text
      exec-by_text query params c used k =
          elim (Bool-cases (not (is_preparable query) || is_multiple_statements query)) [
            | inl direct ↦
                rw (direct, async_exec_params, by_text)
                  (refl, checked-Knows _ (text-Knows query params c used k))
            | inr other ↦
                rw (other, async_exec_params, by_text)
                  (behind (ensure_prepared pq sql query params c)
                    (ensure_prepared-Ready query params c used k))
          ]
        where
          behind :
              (x : Completion (Unit {0}) × Connection H)
              → Ready query x
              → (go_on x (λ ready.
                    async_pg_query pq (send_query_prepared (name_of query) params) >>= λ res.
                    check_errors pq res)
                  ≡ go_on x (λ ready. async_pg_query pq (send_query_params query params) >>= λ res.
                      check_errors pq res))
                × Knows
                    (go_on x (λ ready. async_pg_query pq (send_query_params query params) >>= λ res.
                      check_errors pq res)).1
          behind (completes t, c') (k', s) = (
            ap (λ y. go_on y (check_errors pq)) (execute-text query params c' (s refl)),
            checked-Knows _ (text-Knows query params c' used k'),
          )
          behind (throws e, c') (k', s) = (refl, k')
          behind (faults, c') (k', s) = (refl, k')
          behind (waits, c') (k', s) = (refl, k')
