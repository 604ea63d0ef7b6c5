-- ===== src/Sqldb/Connection/Once.antt =====
-- What calls of `async_exec` with parameters answer and prepare, against a reference that keeps the
-- texts it has prepared.
use itex_demo.Base.Text.{text_eq, text_eq_iff}
use itex_demo.Base.{
  subst, sym, inr, inl, length, Bool-cases, arith, ◌∙◌, ap₂, ◌&&◌, true, not, ◌==◌, ◌||◌, ap,
  Option, List, ℕ, [], ◌∷◌, ◌≡◌, refl,
}
use itex_demo.Sqldb.Connection.Prepared.{Knows, exec-by_text, by_text, same_hash}
use itex_demo.Sqldb.Connection.Exchange.{Server}
use itex_demo.Sqldb.Connection.{
  remember, prepare, ensure_prepared, async_exec_params, first_result, ◌>>=◌, is_bad, send_prepare,
  waits, throws, faults, send_query_params, Request, completes, contains, send_and_wait, go_on,
  statement_name, check_errors, async_pg_query, QueryResult, Statements, Libpq, Completion,
  Connection,
}
use itex_demo.Sqldb.Connection.Reference.{
  run, AllUsed, listed, hashes, with_list, send_text, once_prepared, once, run_once,
}

-- The same behind an operation.
abbrev put :
    {H A : Type 0} → List (ℕ × ℕ) → Completion A × Connection H → Completion A × Connection H
put list (done, c) = (done, with_list list c)

module _ {H : Type 0} (pq : Libpq H) (sql : Statements) where
  open sql use {is_preparable, is_multiple_statements, hash}

  -- Nothing that is sent depends on the list or changes it.
  async_pg_query-with_list :
      (request : Request) (list : List (ℕ × ℕ)) (c : Connection H)
      → async_pg_query pq request (with_list list c) ≡ put list (async_pg_query pq request c)
  unfolding async_pg_query send_and_wait
  async_pg_query-with_list request list c = ground arith

  checked-put :
      (list : List (ℕ × ℕ)) (x : Completion (List QueryResult) × Connection H)
      → go_on (put list x) (check_errors pq) ≡ put list (go_on x (check_errors pq))
  unfolding check_errors
  checked-put list (completes res, c) = refl
  checked-put list (throws e, c) = refl
  checked-put list (faults, c) = refl
  checked-put list (waits, c) = refl

  send_text-with_list :
      (query : List ℕ) (params : List (Option (List ℕ))) (list : List (ℕ × ℕ)) (c : Connection H)
      → send_text pq sql query params (with_list list c)
        ≡ put list (send_text pq sql query params c)
  send_text-with_list query params list c =
      ap (λ x. go_on x (check_errors pq))
        (async_pg_query-with_list (send_query_params query params) list c)
      ∙ checked-put list (async_pg_query pq (send_query_params query params) c)

  module _ (server : Server pq) (Used : List ℕ → Type 0)
      (distinct : (q r : List ℕ)
        → Used q
        → Used r
        → statement_name (hash q) ≡ statement_name (hash r)
        → q ≡ r)
      (plain : (q : List ℕ) → Used q → server.Plain q) where
    abbrev AllKnown : List (List ℕ) → Type 0
    AllKnown [] = Unit
    AllKnown (text ∷ texts) = Used text × AllKnown texts

    same-text_eq :
        (q r : List ℕ)
        → Used q
        → Used r
        → ((hash r).0 == (hash q).0 && (hash r).1 == (hash q).1) ≡ text_eq q r
    same-text_eq q r u v = elim (Bool-cases (text_eq q r)) [
      | inl e ↦ let one = ap hash ((text_eq_iff q r).0 e) in ground (arith, one)
      | inr e ↦ elim (Bool-cases ((hash r).0 == (hash q).0 && (hash r).1 == (hash q).1)) [
        | inl same ↦
            let one = distinct r q v u (ap statement_name (same_hash same)) in
            let equal = (text_eq_iff q r).1 (sym one) in cc
        | inr different ↦ different ∙ sym e
      ]
    ]

    contains-listed :
        (q : List ℕ) (texts : List (List ℕ))
        → Used q
        → AllKnown texts
        → contains (hash q) (hashes hash texts) ≡ listed q texts
    unfolding contains listed
    contains-listed q [] u k = refl
    contains-listed q (text ∷ texts) u (v, k) =
        ap₂ (λ a b. a || b) (same-text_eq q text u v) (contains-listed q texts u k)

    -- `ensure_prepared` and the text behind it, where the server was asked.
    prepared-once :
        (query : List ℕ) (params : List (Option (List ℕ))) (texts : List (List ℕ))
        (x : Completion (List QueryResult) × Connection H)
        → go_on
            (go_on
              (put (hashes hash texts) x)
              (λ res. (λ c. (first_result res, c)) >>= λ ok. remember pq sql (hash query)))
            (λ ready. send_text pq sql query params)
          ≡ let (y, texts') = once_prepared pq sql query params texts x in
            put (hashes hash texts') y
    unfolding once_prepared first_result remember
    prepared-once query params texts (completes [], c) = refl
    prepared-once query params texts (completes (r ∷ rs), c) =
        elim (Bool-cases (is_bad r.exec_status)) [
          | inl bad ↦ rw (bad, first_result, once_prepared) refl
          | inr good ↦
              rw (good, first_result, once_prepared)
                (send_text-with_list query params (hash query ∷ hashes hash texts) c)
        ]
    prepared-once query params texts (throws e, c) = refl
    prepared-once query params texts (faults, c) = refl
    prepared-once query params texts (waits, c) = refl

    by_text-once :
        (query : List ℕ) (params : List (Option (List ℕ))) (texts : List (List ℕ))
        (c : Connection H)
        → Used query
        → AllKnown texts
        → by_text pq sql query params (with_list (hashes hash texts) c)
          ≡ let (y, texts') = once pq sql query params texts c in put (hashes hash texts') y
    unfolding by_text once ensure_prepared prepare
    by_text-once query params texts c u k =
        elim (Bool-cases (not (is_preparable query) || is_multiple_statements query)) [
          | inl direct ↦
              rw (direct, by_text, once) (send_text-with_list query params (hashes hash texts) c)
          | inr other ↦ elim (Bool-cases (listed query texts)) [
            | inl known ↦
                rw (other, by_text, once, ensure_prepared, contains-listed query texts u k, known)
                  (send_text-with_list query params (hashes hash texts) c)
            | inr unknown ↦
                let request = send_prepare (statement_name (hash query)) query (length params) in
                rw
                  (
                    other,
                    by_text,
                    once,
                    ensure_prepared,
                    prepare,
                    contains-listed query texts u k,
                    unknown,
                    async_pg_query-with_list request (hashes hash texts) c,
                  )
                  (prepared-once query params texts (async_pg_query pq request c))
          ]
        ]

    once-AllKnown :
        (query : List ℕ) (params : List (Option (List ℕ))) (texts : List (List ℕ))
        (c : Connection H)
        → Used query
        → AllKnown texts
        → AllKnown (once pq sql query params texts c).1
    unfolding once once_prepared
    once-AllKnown query params texts c u k =
        elim (Bool-cases (not (is_preparable query) || is_multiple_statements query)) [
          | inl direct ↦ rw (direct, once) k
          | inr other ↦ elim (Bool-cases (listed query texts)) [
            | inl known ↦ rw (other, once, known) k
            | inr unknown ↦
                let request = send_prepare (statement_name (hash query)) query (length params) in
                rw (other, once, unknown) (prepared-AllKnown (async_pg_query pq request c))
          ]
        ]
      where
        prepared-AllKnown :
            (x : Completion (List QueryResult) × Connection H)
            → AllKnown (once_prepared pq sql query params texts x).1
        prepared-AllKnown (completes [], c) = k
        prepared-AllKnown (completes (r ∷ rs), c) = elim (Bool-cases (is_bad r.exec_status)) [
          | inl bad ↦ rw (bad, once_prepared) k
          | inr good ↦ rw (good, once_prepared) (u, k)
        ]
        prepared-AllKnown (throws e, c) = k
        prepared-AllKnown (faults, c) = k
        prepared-AllKnown (waits, c) = k

    run-from :
        (calls : List (List ℕ × List (Option (List ℕ)))) (texts : List (List ℕ)) (c : Connection H)
        → AllUsed Used calls
        → AllKnown texts
        → Knows pq sql server Used (with_list (hashes hash texts) c)
        → run (async_exec_params pq sql) calls (with_list (hashes hash texts) c)
          ≡ let (results, last, prepared) = run_once pq sql calls texts c in
            (results, with_list (hashes hash prepared) last)
    unfolding run run_once
    run-from [] texts c u k known = refl
    run-from ((query, params) ∷ calls) texts c (u, us) k known =
        let (same, known') =
          exec-by_text pq sql server Used distinct plain query params
            (with_list (hashes hash texts) c) u known in
        let step = by_text-once query params texts c u k in
        let ((done, c'), texts') = once pq sql query params texts c in
        rw (same, step)
          (ap (λ (x : List (Completion (List QueryResult)) × Connection H). (done ∷ x.0, x.1))
            (run-from calls texts' c' us (once-AllKnown query params texts c u k)
              (subst (λ x. Knows pq sql server Used x.1) step known')))

    -- Calls of `async_exec` with parameters, over a server that executes a prepared statement as its
    -- text, on a connection that lists no statement yet, where the texts have names of their own and
    -- take no statement away, whatever fails in between: they answer as if every query were sent as
    -- its text. A preparable single statement is prepared before it is executed unless an earlier call
    -- prepared the same text, one that the server refuses is neither executed nor taken for prepared,
    -- and nothing else is prepared. The list at the end holds the hashes of the texts prepared, the
    -- last first.
    pub run-once :
        (calls : List (List ℕ × List (Option (List ℕ)))) (c : Connection H)
        → AllUsed Used calls
        → c.prepared_statements ≡ []
        → run (async_exec_params pq sql) calls c
          ≡ let (results, last, prepared) = run_once pq sql calls [] c in
            (results, record last { prepared_statements = hashes hash prepared })
    run-once calls c u e =
        let empty : with_list [] c ≡ c = ap (λ l. with_list l c) (sym e) in
        ap (run (async_exec_params pq sql) calls) (sym empty)
        ∙ run-from calls [] c u tt (λ h query used here f.
          let g : contains (hash query) [] ≡ true = f in unfold contains in cc)
