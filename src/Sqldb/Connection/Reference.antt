-- ===== src/Sqldb/Connection/Reference.antt =====
-- A reference for platform/sqldb/src/connection.cpp: calls of `async_exec` with parameters that keep the
-- texts they have prepared.
use itex_demo.Base.Text.{text_eq}
use itex_demo.Base.{length, true, not, ◌||◌, false, Bool, Option, List, ℕ, [], ◌∷◌}
use itex_demo.Sqldb.Connection.{
  ◌>>=◌, M, query_exception, is_bad, send_prepare, waits, throws, faults, send_query_params,
  completes, statement_name, check_errors, async_pg_query, QueryResult, M, Statements, Libpq,
  Completion, Connection,
}

-- Calls of `async_exec`, each with what came of it.
unfoldable pub run :
    {H : Type 0}
    → (List ℕ → List (Option (List ℕ)) → M H (List QueryResult))
    → List (List ℕ × List (Option (List ℕ)))
    → Connection H
    → List (Completion (List QueryResult)) × Connection H
run exec [] c = ([], c)
run exec ((query, params) ∷ calls) c =
    let (done, c') = exec query params c in
    let (rest, last) = run exec calls c' in (done ∷ rest, last)

abbrev pub AllUsed : (List ℕ → Type 0) → List (List ℕ × List (Option (List ℕ))) → Type 0
AllUsed Used [] = Unit
AllUsed Used ((query, params) ∷ calls) = Used query × AllUsed Used calls

-- Whether a text is in a list of texts.
unfoldable pub listed : List ℕ → List (List ℕ) → Bool
listed query [] = false
listed query (text ∷ texts) = text_eq query text || listed query texts

abbrev pub hashes : (List ℕ → ℕ × ℕ) → List (List ℕ) → List (ℕ × ℕ)
hashes hash [] = []
hashes hash (text ∷ texts) = hash text ∷ hashes hash texts

-- A connection with another list.
abbrev pub with_list : {H : Type 0} → List (ℕ × ℕ) → Connection H → Connection H
with_list list c = record c { prepared_statements = list }

module _ {H : Type 0} (pq : Libpq H) (sql : Statements) where
  open sql use {is_preparable, is_multiple_statements, hash}

  -- The text, sent as it is.
  abbrev pub send_text : List ℕ → List (Option (List ℕ)) → M H (List QueryResult)
  send_text query params = do
    res ← async_pg_query pq (send_query_params query params)
    check_errors pq res

  -- What follows a `PREPARE`: the text joins the list if the server took it, and is then sent.
  unfoldable pub once_prepared :
      List ℕ
      → List (Option (List ℕ))
      → List (List ℕ)
      → Completion (List QueryResult) × Connection H
      → (Completion (List QueryResult) × Connection H) × List (List ℕ)
  once_prepared query params texts (completes [], c) = ((faults, c), texts)
  once_prepared query params texts (completes (r ∷ rs), c) = elim (is_bad r.exec_status) [
    | true ↦ ((throws query_exception, c), texts)
    | false ↦ (send_text query params c, query ∷ texts)
  ]
  once_prepared query params texts (throws e, c) = ((throws e, c), texts)
  once_prepared query params texts (faults, c) = ((faults, c), texts)
  once_prepared query params texts (waits, c) = ((waits, c), texts)

  -- The reference, on the texts prepared so far: only a preparable single statement that is none of
  -- them is prepared, and every query is sent as its text.
  unfoldable pub once :
      List ℕ
      → List (Option (List ℕ))
      → List (List ℕ)
      → Connection H
      → (Completion (List QueryResult) × Connection H) × List (List ℕ)
  once query params texts c = elim (not (is_preparable query) || is_multiple_statements query) [
    | true ↦ (send_text query params c, texts)
    | false ↦ elim (listed query texts) [
      | true ↦ (send_text query params c, texts)
      | false ↦
          once_prepared query params texts
            (async_pg_query pq (send_prepare (statement_name (hash query)) query (length params)) c)
    ]
  ]

  unfoldable pub run_once :
      List (List ℕ × List (Option (List ℕ)))
      → List (List ℕ)
      → Connection H
      → List (Completion (List QueryResult)) × Connection H × List (List ℕ)
  run_once [] texts c = ([], c, texts)
  run_once ((query, params) ∷ calls) texts c =
      let ((done, c'), texts') = once query params texts c in
      let (rest, last, all) = run_once calls texts' c' in (done ∷ rest, last, all)
